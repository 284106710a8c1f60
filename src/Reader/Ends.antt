-- ===== src/Reader/Ends.antt =====
-- The read loop ReandMqMessage where the library runs out of frames.
use rabbitmq_work.Base.{
  ℕ, zero, suc, ◌+◌, ◌-◌, ◌%◌, ◌^◌, ◌≤◌, ◌<◌, ◌≡◌, ◌∙◌, refl, ap, ℤ, pos, negsuc, true, ◌==◌,
  if◌then◌else◌, is_negative, arith, [], ◌∷◌, none, some, inl, inr, Bool-cases, length, ltb,
}
use rabbitmq_work.Amqp.{
  Frame, method, header, body, other_frame, basic_deliver, other_method, simple_wait_frame,
  basic_ack,
}
use rabbitmq_work.Session.{
  Log, Oracle, Outcome, M, ok, exited, aborted, running, pure, ◌>>◌, call, resume, printf, printed,
  num, bytes,
}
use rabbitmq_work.Reader.{
  Consumer, Ending, leave, crash, conclude, take_fragment, take_header, take_first, read_body,
  read_loop, frame_type, frame_channel,
}
use rabbitmq_work.Reader.Monitor.{waits}
use rabbitmq_work.Reader.Body.{IsQuiet}

-- From the `n`th on, every read on the connection fails.
abbrev pub RunsDry : Oracle → ℕ → ℕ → Type 0
RunsDry o conn n = (l : Log) → n ≤ waits l → is_negative (o l (simple_wait_frame conn)).0 ≡ true

-- A run that did not use up its rounds, and has asked for no fewer than `w` frames.
abbrev pub Ended : {A : Type 0} → ℕ → Outcome A × Log → Type 0
Ended w (ok _, l) = w ≤ waits l
Ended w (exited _, l) = w ≤ waits l
Ended w (aborted, l) = w ≤ waits l
Ended w (running, l) = ⊥

module _ (c : Consumer) (quiet : IsQuiet c) (conn n : ℕ) (o : Oracle) (dry : RunsDry o conn n) where
  conclude-Ended :
      {A : Type 0} (e : Ending) (a : A) (w : ℕ) (l : Log)
      → w ≤ waits l
      → Ended w (conclude e (pure a) o l)
  conclude-Ended leave a w l h = h
  conclude-Ended crash a w l h = h

  Ended-mono : {A : Type 0} (v w : ℕ) (r : Outcome A × Log) → v ≤ w → Ended w r → Ended v r
  Ended-mono v w (ok a, l) h e = omega arith
  Ended-mono v w (exited a, l) h e = omega arith
  Ended-mono v w (aborted, l) h e = omega arith
  Ended-mono v w (running, l) h e = e

  -- A read that gave a frame was not yet the `n`th.
  lt_of_frame : (w i : ℕ) → (n ≤ w → is_negative (pos i) ≡ true) → w < n
  lt_of_frame w i h = elim (Bool-cases (ltb w n)) [
    | inl lt ↦ ground arith
    | inr ge ↦ cc (h (ground arith))
  ]

  -- Before the read, `w` frames were asked for; it fails if `n` of them were.
  take_fragment-Ended :
      (again : ℕ → M ℕ) (size k w : ℕ) (answer : ℤ × Frame) (l : Log)
      → (w < n → (k' : ℕ) (l' : Log) → waits l' ≡ suc w → Ended (suc w) (again k' o l'))
      → (n ≤ w → is_negative answer.0 ≡ true)
      → waits l ≡ suc w
      → Ended w
          ((if is_negative answer.0 then pure k else take_fragment c again size k answer.1) o l)
  unfolding take_fragment
  take_fragment-Ended again size k w (negsuc i, f) l rec fails h = omega arith
  take_fragment-Ended again size k w (pos i, method _ m) l rec fails h =
      conclude-Ended c.unexpected k w _ (omega arith)
  take_fragment-Ended again size k w (pos i, header _ t s) l rec fails h =
      conclude-Ended c.unexpected k w _ (omega arith)
  take_fragment-Ended again size k w (pos i, other_frame t _) l rec fails h =
      conclude-Ended c.unexpected k w _ (omega arith)
  take_fragment-Ended again size k w (pos i, body _ fragment) l rec fails h =
      let k' = (k + length fragment) % 2 ^ 64 in
      elim (Bool-cases (ltb size k')) [
        | inl over ↦ rw over (conclude-Ended c.overlong k' w _ (omega arith))
        | inr fits ↦
            rw (fits, quiet.returns fragment o)
              (Ended-mono w (suc w) _ (omega arith)
                (rec (lt_of_frame w i fails) k' _ (quiet.steady fragment o _ ∙ h)))
      ]

  read_body-Ended :
      (rounds size k : ℕ) (l : Log)
      → n - waits l < rounds
      → Ended (waits l) (read_body c conn rounds size k o l)
  unfolding read_body
  read_body-Ended zero size k l h = absurd (omega arith)
  read_body-Ended (suc rounds) size k l h = elim (Bool-cases (ltb k size)) [
    | inl more ↦ rw more (
        take_fragment-Ended (read_body c conn rounds size) size k (waits l)
          (o l (simple_wait_frame conn)) _
          (λ lt k' l' e. rw (← e) (read_body-Ended rounds size k' l' (omega arith))) (dry l) refl)
    | inr done ↦ rw done (omega arith)
  ]

  -- What a next round has to keep, after `w` frames.
  abbrev Again : ℕ → M (Unit {0}) → Type 0
  Again w again = w < n → (l : Log) → suc w ≤ waits l → Ended (suc w) (again o l)

  after_body-Ended :
      (ch : ℕ) (again : M (Unit {0})) (tag size w : ℕ) (r : Outcome ℕ × Log)
      → w < n
      → Again w again
      → Ended (suc w) r
      → Ended (suc w) (
          resume
            (λ k. if k == size then (call (basic_ack conn ch tag 0) >> again) else pure tt)
            o
            r.0
            r.1)
  after_body-Ended ch again tag size w (ok k, l) lt rec h = elim (Bool-cases (k == size)) [
    | inl all ↦ rw all (rec lt _ h)
    | inr short ↦ rw short h
  ]
  after_body-Ended ch again tag size w (exited k, l) lt rec h = h
  after_body-Ended ch again tag size w (aborted, l) lt rec h = h
  after_body-Ended ch again tag size w (running, l) lt rec h = h

  take_header-Ended :
      (ch rounds : ℕ) (again : M (Unit {0})) (tag w : ℕ) (answer : ℤ × Frame) (l : Log)
      → w < n
      → n - suc w < rounds
      → Again w again
      → waits l ≡ suc (suc w)
      → Ended (suc w) (
          (if is_negative answer.0
              then pure tt
              else take_header c conn ch rounds again tag answer.1)
            o l)
  unfolding take_header
  take_header-Ended ch rounds again tag w (negsuc i, f) l lt enough rec h = omega arith
  take_header-Ended ch rounds again tag w (pos i, method _ _) l lt enough rec h =
      conclude-Ended c.unexpected tt (suc w) _ (omega arith)
  take_header-Ended ch rounds again tag w (pos i, body _ _) l lt enough rec h =
      conclude-Ended c.unexpected tt (suc w) _ (omega arith)
  take_header-Ended ch rounds again tag w (pos i, other_frame _ _) l lt enough rec h =
      conclude-Ended c.unexpected tt (suc w) _ (omega arith)
  take_header-Ended ch rounds again tag w (pos i, header _ none size) l lt enough rec h =
      after_body-Ended ch again tag size w (read_body c conn rounds size 0 o l) lt rec (
        Ended-mono (suc w) (waits l) _ (omega arith)
          (read_body-Ended rounds size 0 l (omega arith)))
  take_header-Ended ch rounds again tag w (pos i, header _ (some t) size) l lt enough rec h =
      let l' = printed "Content-type: %.*s\n" (bytes t ∷ []) ∷ l in
      after_body-Ended ch again tag size w (read_body c conn rounds size 0 o l') lt rec (
        Ended-mono (suc w) (waits l) _ (omega arith)
          (read_body-Ended rounds size 0 l' (omega arith)))

  take_first-Ended :
      (ch rounds : ℕ) (again : M (Unit {0})) (w : ℕ) (f : Frame) (l : Log)
      → w < n
      → n - suc w < rounds
      → Again w again
      → waits l ≡ suc w
      → Ended (suc w) (take_first c conn ch rounds again f o l)
  unfolding take_first
  take_first-Ended ch rounds again w (method _ (basic_deliver d)) l lt enough rec h =
      take_header-Ended ch rounds again d.delivery_tag w _ _ lt enough rec (ap suc h)
  take_first-Ended ch rounds again w (method _ (other_method id)) l lt enough rec h =
      rec lt _ (omega arith)
  take_first-Ended ch rounds again w (header _ _ _) l lt enough rec h = rec lt _ (omega arith)
  take_first-Ended ch rounds again w (body _ _) l lt enough rec h = rec lt _ (omega arith)
  take_first-Ended ch rounds again w (other_frame _ _) l lt enough rec h = rec lt _ (omega arith)

  read_frame-Ended :
      (ch rounds : ℕ) (again : M (Unit {0})) (w : ℕ) (answer : ℤ × Frame) (l : Log)
      → (n ≤ w → is_negative answer.0 ≡ true)
      → n - w < suc rounds
      → Again w again
      → waits l ≡ suc w
      → Ended w (
          (if is_negative answer.0
              then pure tt
              else (printf "Frame type %d, channel %d\n"
                    (num (frame_type answer.1) ∷ num (frame_channel answer.1) ∷ [])
                  >> take_first c conn ch rounds again answer.1))
            o l)
  read_frame-Ended ch rounds again w (negsuc i, f) l fails enough rec h = omega arith
  read_frame-Ended ch rounds again w (pos i, f) l fails enough rec h =
      let lt = lt_of_frame w i fails in
      Ended-mono w (suc w) _ (omega arith)
        (take_first-Ended ch rounds again w f _ lt (omega arith) rec h)

  pub read_loop-Ended :
      (ch rounds : ℕ) (l : Log)
      → n - waits l < rounds
      → Ended (waits l) (read_loop c conn ch rounds o l)
  unfolding read_loop
  read_loop-Ended ch zero l h = absurd (omega arith)
  read_loop-Ended ch (suc rounds) l h =
      read_frame-Ended ch rounds (read_loop c conn ch rounds) (waits l)
        (o _ (simple_wait_frame conn)) _ (dry _) h
        (λ lt l' e.
          Ended-mono (suc (waits l)) (waits l') _ e (read_loop-Ended ch rounds l' (omega arith)))
        refl
