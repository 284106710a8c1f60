-- ===== src/Reader/Body.antt =====
-- The body loop against the monitor.
use rabbitmq_work.Base.{
  ℕ, zero, suc, ◌+◌, ◌%◌, ◌^◌, ◌≤◌, ◌<◌, ◌∙◌, ℤ, pos, negsuc, ◌≡◌, refl, ◌≢◌, ◌⊎◌, inl, inr, length,
  ltb, ◌==◌, if◌then◌else◌, is_negative, arith, Bool-cases,
}
use rabbitmq_work.Amqp.{Bytes, Frame, method, header, body, other_frame, simple_wait_frame}
use rabbitmq_work.Session.{Log, Oracle, Outcome, M, ok, exited, aborted, running, pure, ◌>>◌}
use rabbitmq_work.Reader.{Consumer, Ending, leave, crash, conclude, take_fragment, read_body}
use rabbitmq_work.Reader.Monitor.{
  Phase, receiving, complete, stopped, violated, weigh, weigh_over, weigh_under, after_frame,
  phase_of, waits,
}

-- What is done with a fragment neither reads frames nor sends acks, and comes to an end.
pub record IsQuiet (c : Consumer) : Type 0 where
  pub returns : (b : Bytes) (o : Oracle) (l : Log) → (c.consume b o l).0 ≡ ok tt
  pub silent :
      (b : Bytes) (o : Oracle) (l : Log) (conn ch : ℕ)
      → phase_of conn ch (c.consume b o l).1 ≡ phase_of conn ch l
  pub steady : (b : Bytes) (o : Oracle) (l : Log) → waits (c.consume b o l).1 ≡ waits l

-- The only ways for it to abort.
abbrev pub MayCrash : Consumer → Type 0
MayCrash c = (c.unexpected ≡ crash) ⊎ (c.overlong ≡ crash)

-- Where the monitor stands when the body loop of `tag` has ended so.
abbrev pub BodyEnd : Consumer → ℕ → ℕ → Outcome ℕ → Phase → Type 0
BodyEnd c tag size (ok n) p = p ≡ (if n == size then complete tag else stopped)
BodyEnd c tag size (exited n) p = ⊥
BodyEnd c tag size aborted p = (p ≡ stopped) × MayCrash c
BodyEnd c tag size running p = p ≢ violated

module _ (c : Consumer) (quiet : IsQuiet c) (conn ch tag : ℕ) (o : Oracle) where
  abbrev Kept : ℕ → Outcome ℕ × Log → Type 0
  Kept size r = BodyEnd c tag size r.0 (phase_of conn ch r.1)

  conclude-Kept :
      (e : Ending) (size n : ℕ) (l : Log)
      → phase_of conn ch l ≡ stopped
      → n ≢ size
      → (e ≡ crash → MayCrash c)
      → Kept size (conclude e (pure n) o l)
  conclude-Kept leave size n l p ne may = ground arith
  conclude-Kept crash size n l p ne may = (p, may refl)

  consume-Kept :
      (again : ℕ → M ℕ) (size n : ℕ) (fragment : Bytes) (l : Log)
      → ((l' : Log) → phase_of conn ch l' ≡ weigh tag size n → Kept size (again n o l'))
      → phase_of conn ch l ≡ weigh tag size n
      → Kept size ((c.consume fragment >> again n) o l)
  consume-Kept again size n fragment l rec p =
      rw (quiet.returns fragment o l)
        (rec (c.consume fragment o l).1 (quiet.silent fragment o l conn ch ∙ p))

  take_fragment-Kept :
      (again : ℕ → M ℕ) (size n : ℕ) (answer : ℤ × Frame) (l : Log)
      → ((n' : ℕ) (l' : Log)
          → n' ≤ size
          → phase_of conn ch l' ≡ weigh tag size n'
          → Kept size (again n' o l'))
      → n < size
      → phase_of conn ch l
        ≡ (if is_negative answer.0 then stopped else after_frame (receiving tag size n) answer.1)
      → Kept size
          ((if is_negative answer.0 then pure n else take_fragment c again size n answer.1) o l)
  unfolding take_fragment
  take_fragment-Kept again size n (negsuc k, f) l rec lt p = ground arith
  take_fragment-Kept again size n (pos k, method _ m) l rec lt p =
      conclude-Kept c.unexpected size n _ p (omega arith) inl
  take_fragment-Kept again size n (pos k, header _ t s) l rec lt p =
      conclude-Kept c.unexpected size n _ p (omega arith) inl
  take_fragment-Kept again size n (pos k, other_frame t _) l rec lt p =
      conclude-Kept c.unexpected size n _ p (omega arith) inl
  take_fragment-Kept again size n (pos k, body _ fragment) l rec lt p =
      let n' = (n + length fragment) % 2 ^ 64 in
      elim (Bool-cases (ltb size n')) [
        | inl over ↦ rw over (
            conclude-Kept c.overlong size n' _ (p ∙ weigh_over tag size n' (ground arith))
              (ground arith) inr)
        | inr fits ↦
            rw fits (consume-Kept again size n' fragment _ (λ l'. rec n' l' (ground arith)) p)
      ]

  pub read_body-BodyEnd :
      (rounds size n : ℕ) (l : Log)
      → n ≤ size
      → phase_of conn ch l ≡ weigh tag size n
      → let r = read_body c conn rounds size n o l in BodyEnd c tag size r.0 (phase_of conn ch r.1)
  unfolding read_body
  read_body-BodyEnd zero size n l le p = ground arith
  read_body-BodyEnd (suc rounds) size n l le p = elim (Bool-cases (ltb n size)) [
    | inl more ↦ rw more (
        take_fragment-Kept (read_body c conn rounds size) size n (o l (simple_wait_frame conn)) _
          (read_body-BodyEnd rounds size) (ground arith)
          (rw (p ∙ weigh_under tag size n (ground arith))))
    | inr done ↦ rw done (ground arith)
  ]
