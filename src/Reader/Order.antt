-- ===== src/Reader/Order.antt =====
-- The read loop ReandMqMessage against the monitor.
use rabbitmq_work.Base.{
  ℕ, zero, suc, ◌≡◌, ◌≢◌, refl, ℤ, pos, negsuc, ◌==◌, if◌then◌else◌, is_negative, arith, [], ◌∷◌,
  none, some, inl, inr, Bool-cases,
}
use rabbitmq_work.Amqp.{
  Frame, method, header, body, other_frame, basic_deliver, other_method, simple_wait_frame,
  basic_ack,
}
use rabbitmq_work.Session.{
  Log, Oracle, Outcome, M, ok, exited, aborted, running, pure, ◌>>◌, call, resume, printf, num,
}
use rabbitmq_work.Reader.{
  Consumer, Ending, leave, crash, conclude, take_header, take_first, read_loop, frame_type,
  frame_channel,
}
use rabbitmq_work.Reader.Monitor.{Phase, idle, delivered, stopped, violated, after_frame, phase_of}
use rabbitmq_work.Reader.Body.{IsQuiet, MayCrash, BodyEnd, read_body-BodyEnd}

-- Where the monitor stands when the read loop has ended so.
abbrev pub LoopEnd : Consumer → Outcome (Unit {0}) → Phase → Type 0
LoopEnd c (ok _) p = p ≡ stopped
LoopEnd c (exited n) p = ⊥
LoopEnd c aborted p = (p ≡ stopped) × MayCrash c
LoopEnd c running p = p ≢ violated

module _ (c : Consumer) (quiet : IsQuiet c) (conn ch : ℕ) (o : Oracle) where
  abbrev Kept : Outcome (Unit {0}) × Log → Type 0
  Kept r = LoopEnd c r.0 (phase_of conn ch r.1)

  -- What a next round has to keep.
  abbrev Again : M (Unit {0}) → Type 0
  Again again = (l : Log) → phase_of conn ch l ≡ idle → Kept (again o l)

  conclude-Kept :
      (e : Ending) (l : Log)
      → phase_of conn ch l ≡ stopped
      → (e ≡ crash → MayCrash c)
      → Kept (conclude e (pure tt) o l)
  conclude-Kept leave l p may = p
  conclude-Kept crash l p may = (p, may refl)

  after_body-Kept :
      (again : M (Unit {0})) (tag size : ℕ) (r : Outcome ℕ) (l : Log)
      → Again again
      → BodyEnd c tag size r (phase_of conn ch l)
      → Kept (
          resume
            (λ n. if n == size then (call (basic_ack conn ch tag 0) >> again) else pure tt)
            o
            r
            l)
  after_body-Kept again tag size (ok n) l rec p = elim (Bool-cases (n == size)) [
    | inl all ↦ rw all (rec _ (rw (rw all at p) (ground arith)))
    | inr short ↦ rw short (ground arith)
  ]
  after_body-Kept again tag size (exited n) l rec p = p
  after_body-Kept again tag size aborted l rec p = p
  after_body-Kept again tag size running l rec p = p

  take_header-Kept :
      (rounds : ℕ) (again : M (Unit {0})) (tag : ℕ) (answer : ℤ × Frame) (l : Log)
      → Again again
      → phase_of conn ch l
        ≡ (if is_negative answer.0 then stopped else after_frame (delivered tag) answer.1)
      → Kept (
          (if is_negative answer.0
              then pure tt
              else take_header c conn ch rounds again tag answer.1)
            o l)
  unfolding take_header
  take_header-Kept rounds again tag (negsuc k, f) l rec p = p
  take_header-Kept rounds again tag (pos k, method _ _) l rec p = conclude-Kept c.unexpected _ p inl
  take_header-Kept rounds again tag (pos k, body _ _) l rec p = conclude-Kept c.unexpected _ p inl
  take_header-Kept rounds again tag (pos k, other_frame _ _) l rec p =
      conclude-Kept c.unexpected _ p inl
  take_header-Kept rounds again tag (pos k, header _ none size) l rec p =
      after_body-Kept again tag size _ _ rec
        (read_body-BodyEnd c quiet conn ch tag o rounds size 0 l (omega arith) p)
  take_header-Kept rounds again tag (pos k, header _ (some t) size) l rec p =
      after_body-Kept again tag size _ _ rec
        (read_body-BodyEnd c quiet conn ch tag o rounds size 0 _ (omega arith) p)

  take_first-Kept :
      (rounds : ℕ) (again : M (Unit {0})) (f : Frame) (l : Log)
      → Again again
      → phase_of conn ch l ≡ after_frame idle f
      → Kept (take_first c conn ch rounds again f o l)
  unfolding take_first
  take_first-Kept rounds again (method _ (basic_deliver d)) l rec p =
      take_header-Kept rounds again d.delivery_tag _ _ rec (rw p)
  take_first-Kept rounds again (method _ (other_method id)) l rec p = rec _ p
  take_first-Kept rounds again (header _ _ _) l rec p = rec _ p
  take_first-Kept rounds again (body _ _) l rec p = rec _ p
  take_first-Kept rounds again (other_frame _ _) l rec p = rec _ p

  read_frame-Kept :
      (rounds : ℕ) (again : M (Unit {0})) (answer : ℤ × Frame) (l : Log)
      → Again again
      → phase_of conn ch l ≡ (if is_negative answer.0 then stopped else after_frame idle answer.1)
      → Kept (
          (if is_negative answer.0
              then pure tt
              else (printf "Frame type %d, channel %d\n"
                    (num (frame_type answer.1) ∷ num (frame_channel answer.1) ∷ [])
                  >> take_first c conn ch rounds again answer.1))
            o l)
  read_frame-Kept rounds again (negsuc k, f) l rec p = p
  read_frame-Kept rounds again (pos k, f) l rec p = take_first-Kept rounds again f _ rec p

  pub read_loop-LoopEnd :
      (rounds : ℕ) (l : Log)
      → phase_of conn ch l ≡ idle
      → let r = read_loop c conn ch rounds o l in LoopEnd c r.0 (phase_of conn ch r.1)
  unfolding read_loop
  read_loop-LoopEnd zero l p = rw p (λ e. cc)
  read_loop-LoopEnd (suc rounds) l p =
      read_frame-Kept rounds (read_loop c conn ch rounds) (o _ (simple_wait_frame conn)) _
        (read_loop-LoopEnd rounds) (rw p)
