-- ===== src/Reader/Kept.antt =====
-- Predicates on transcripts along the read loop and a client around it.
use rabbitmq_work.Base.{
  List, ℕ, zero, suc, ◌+◌, ◌%◌, ◌^◌, ◌≡◌, ◌==◌, ltb, length, is_negative, if◌then◌else◌, ℤ, pos,
  negsuc, [], ◌∷◌, none, some, inl, inr, Bool-cases,
}
use rabbitmq_work.Amqp.{
  Bytes, Frame, method, header, body, other_frame, basic_deliver, other_method, simple_wait_frame,
  basic_ack,
}
use rabbitmq_work.Session.{
  M, Log, Oracle, Outcome, ok, exited, aborted, running, called, printed, num, pure, printf, call,
  resume, ◌>>◌,
}
use rabbitmq_work.Script.{Item, perform}
use rabbitmq_work.Script.Kept.{AnyCall, Each-any, IsKept, perform-IsKept}
use rabbitmq_work.Closing.{shut_down, closing_script, shut_down-perform}
use rabbitmq_work.Reader.{
  Consumer, Ending, leave, crash, conclude, take_fragment, read_body, take_header, take_first,
  read_loop, frame_type, frame_channel,
}
use rabbitmq_work.Reader.Closed.{read_and_close}

-- The consumer returns, and keeps the predicate right after the frame of its fragment.
pub record Consumes (c : Consumer) (conn : ℕ) (P : Log → Type 0) : Type 0 where
  pub returns : (b : Bytes) (o : Oracle) (l : Log) → (c.consume b o l).0 ≡ ok tt
  pub keeps :
      (b : Bytes) (o : Oracle) (k ch : ℕ) (l : Log)
      → P l
      → P
          (c.consume b o
            (printed "ok!\n" [] ∷ called (simple_wait_frame conn) (pos k, body ch b) ∷ l)).1

module _ (c : Consumer) (conn ch : ℕ) (P : Log → Type 0) (kept : IsKept AnyCall P)
    (consumes : Consumes c conn P) (o : Oracle) where
  conclude-IsKept :
      {A : Type 0} (e : Ending) (a : A) (l : Log) → P l → P (conclude e (pure a) o l).1
  conclude-IsKept leave a l p = p
  conclude-IsKept crash a l p = p

  -- The transcript after a frame has been read.
  abbrev after_frame : ℤ × Frame → Log → Log
  after_frame answer l = called (simple_wait_frame conn) answer ∷ l

  take_fragment-IsKept :
      (again : ℕ → M ℕ) (size n : ℕ) (answer : ℤ × Frame) (l : Log)
      → ((n' : ℕ) (l' : Log) → P l' → P (again n' o l').1)
      → P l
      → P
          ((if is_negative answer.0 then pure n else take_fragment c again size n answer.1) o
            (after_frame answer l)).1
  unfolding take_fragment
  take_fragment-IsKept again size n (negsuc k, f) l rec p = kept.by_call _ _ l tt p
  take_fragment-IsKept again size n (pos k, method _ m) l rec p =
      conclude-IsKept c.unexpected n _ (kept.by_complaint _ _ _ (kept.by_call _ _ l tt p))
  take_fragment-IsKept again size n (pos k, header _ t s) l rec p =
      conclude-IsKept c.unexpected n _ (kept.by_complaint _ _ _ (kept.by_call _ _ l tt p))
  take_fragment-IsKept again size n (pos k, other_frame t _) l rec p =
      conclude-IsKept c.unexpected n _ (kept.by_complaint _ _ _ (kept.by_call _ _ l tt p))
  take_fragment-IsKept again size n (pos k, body ch' fragment) l rec p =
      let n' = (n + length fragment) % 2 ^ 64 in
      elim (Bool-cases (ltb size n')) [
        | inl over ↦
            rw over
              (conclude-IsKept c.overlong n' _ (kept.by_print _ _ _ (kept.by_call _ _ l tt p)))
        | inr fits ↦
            rw (fits, consumes.returns fragment o _)
              (rec n' _ (consumes.keeps fragment o k ch' l p))
      ]

  read_body-IsKept : (rounds size n : ℕ) (l : Log) → P l → P (read_body c conn rounds size n o l).1
  unfolding read_body
  read_body-IsKept zero size n l p = p
  read_body-IsKept (suc rounds) size n l p = elim (Bool-cases (ltb n size)) [
    | inl more ↦ rw more (
        take_fragment-IsKept (read_body c conn rounds size) size n (o l (simple_wait_frame conn)) l
          (read_body-IsKept rounds size) p)
    | inr done ↦ rw done p
  ]

  after_body-IsKept :
      (again : M (Unit {0})) (tag size : ℕ) (r : Outcome ℕ) (l : Log)
      → ((l' : Log) → P l' → P (again o l').1)
      → P l
      → P
          (resume
            (λ n. if n == size then (call (basic_ack conn ch tag 0) >> again) else pure tt)
            o
            r
            l).1
  after_body-IsKept again tag size (ok n) l rec p = elim (Bool-cases (n == size)) [
    | inl all ↦ rw all (rec _ (kept.by_call _ _ l tt p))
    | inr short ↦ rw short p
  ]
  after_body-IsKept again tag size (exited n) l rec p = p
  after_body-IsKept again tag size aborted l rec p = p
  after_body-IsKept again tag size running l rec p = p

  take_header-IsKept :
      (rounds : ℕ) (again : M (Unit {0})) (tag : ℕ) (answer : ℤ × Frame) (l : Log)
      → ((l' : Log) → P l' → P (again o l').1)
      → P l
      → P
          ((if is_negative answer.0
              then pure tt
              else take_header c conn ch rounds again tag answer.1)
            o l).1
  unfolding take_header
  take_header-IsKept rounds again tag (negsuc k, f) l rec p = p
  take_header-IsKept rounds again tag (pos k, method _ _) l rec p =
      conclude-IsKept c.unexpected tt _ (kept.by_complaint _ _ l p)
  take_header-IsKept rounds again tag (pos k, body _ _) l rec p =
      conclude-IsKept c.unexpected tt _ (kept.by_complaint _ _ l p)
  take_header-IsKept rounds again tag (pos k, other_frame _ _) l rec p =
      conclude-IsKept c.unexpected tt _ (kept.by_complaint _ _ l p)
  take_header-IsKept rounds again tag (pos k, header _ none size) l rec p =
      after_body-IsKept again tag size _ _ rec (read_body-IsKept rounds size 0 l p)
  take_header-IsKept rounds again tag (pos k, header _ (some t) size) l rec p =
      after_body-IsKept again tag size _ _ rec
        (read_body-IsKept rounds size 0 _ (kept.by_print _ _ l p))

  take_first-IsKept :
      (rounds : ℕ) (again : M (Unit {0})) (f : Frame) (l : Log)
      → ((l' : Log) → P l' → P (again o l').1)
      → P l
      → P (take_first c conn ch rounds again f o l).1
  unfolding take_first
  take_first-IsKept rounds again (method _ (basic_deliver d)) l rec p =
      take_header-IsKept rounds again d.delivery_tag _ _ rec
        (kept.by_call _ _ _ tt (kept.by_print _ _ _ (kept.by_print _ _ l p)))
  take_first-IsKept rounds again (method _ (other_method id)) l rec p =
      rec _ (kept.by_print _ _ l p)
  take_first-IsKept rounds again (header _ _ _) l rec p = rec l p
  take_first-IsKept rounds again (body _ _) l rec p = rec l p
  take_first-IsKept rounds again (other_frame _ _) l rec p = rec l p

  read_frame-IsKept :
      (rounds : ℕ) (again : M (Unit {0})) (answer : ℤ × Frame) (l : Log)
      → ((l' : Log) → P l' → P (again o l').1)
      → P l
      → P
          ((if is_negative answer.0
              then pure tt
              else (printf "Frame type %d, channel %d\n"
                    (num (frame_type answer.1) ∷ num (frame_channel answer.1) ∷ [])
                  >> take_first c conn ch rounds again answer.1))
            o l).1
  read_frame-IsKept rounds again (negsuc k, f) l rec p = p
  read_frame-IsKept rounds again (pos k, f) l rec p =
      take_first-IsKept rounds again f _ rec (kept.by_print _ _ l p)

  pub read_loop-IsKept : (rounds : ℕ) (l : Log) → P l → P (read_loop c conn ch rounds o l).1
  unfolding read_loop
  read_loop-IsKept zero l p = p
  read_loop-IsKept (suc rounds) l p =
      read_frame-IsKept rounds (read_loop c conn ch rounds) (o _ (simple_wait_frame conn)) _
        (read_loop-IsKept rounds)
        (kept.by_print _ _ _ (kept.by_call _ _ _ tt (kept.by_call _ _ l tt p)))

  close-IsKept : (r : Outcome (Unit {0})) (l : Log) → P l → P (resume (λ _. shut_down conn) o r l).1
  close-IsKept (ok _) l p = rw (shut_down-perform conn) (
      perform-IsKept AnyCall P kept (λ r. P r.1) o (closing_script conn) (pure tt) l
        (Each-any (closing_script conn)) (λ l' q. q) (λ l' q. q) p)
  close-IsKept (exited n) l p = p
  close-IsKept aborted l p = p
  close-IsKept running l p = p

  -- A setup, the read loop and the closing.
  pub whole-IsKept :
      (rounds : ℕ) (s : List Item) (l : Log)
      → P l
      → P (perform s (read_and_close c conn ch rounds) o l).1
  whole-IsKept rounds s l p =
      perform-IsKept AnyCall P kept (λ r. P r.1) o s (read_and_close c conn ch rounds) l
        (Each-any s) (λ l' q. q)
        (λ l' q.
          close-IsKept (read_loop c conn ch rounds o l').0 (read_loop c conn ch rounds o l').1
            (read_loop-IsKept rounds l' q))
        p
