-- ===== src/Clients/Listenq/Acks.antt =====
-- The loop of receive/src/amqp_listenq.cpp: what it takes, acknowledges and releases.
use rabbitmq_work.Base.{
  ℕ, zero, suc, ◌-◌, ◌<◌, List, [], ◌∷◌, length, ◌≡◌, refl, ap, ◌∙◌, sym, arith, is_negative, true,
  Option-cases, Bool-cases, inl, inr, if◌then◌else◌, ℤ, pos, negsuc, ltb,
}
use rabbitmq_work.Amqp.{Frame, Envelope, maybe_release_buffers, consume_message, simple_wait_frame}
use rabbitmq_work.Session.{
  Log, Oracle, Outcome, ok, exited, aborted, running, called, printed, int, M, pure, printf, ◌>>◌,
}
use rabbitmq_work.Clients.Listenq.{listen_loop, finish_message, is_normal}
use rabbitmq_work.Clients.Listenq.Counts.{
  Ack, ack_for, acks, heard, asked, taken, released, Tally, Settled, RunsOut,
}

-- How the loop may stand: it has ended, or has used up its rounds between two of them.
abbrev pub LoopEnd : (Frame → ℕ) → Outcome (Unit {0}) × Log → Type 0
LoopEnd garbage (ok _, l) = Settled garbage l
LoopEnd garbage (running, l) = Tally garbage 0 l
LoopEnd garbage (exited _, l) = ⊥
LoopEnd garbage (aborted, l) = ⊥

module _ (garbage : Frame → ℕ) (conn : ℕ) (o : Oracle) where
  -- What the end of a round does: one ack and one envelope destroyed.
  record Closed (f : Frame) (l l' : Log) : Type 0 where
    acked : acks l' ≡ ack_for garbage conn f ∷ acks l
    same_heard : heard garbage l' ≡ heard garbage l
    same_asked : asked l' ≡ asked l
    same_taken : taken l' ≡ taken l
    freed : released l' ≡ suc (released l)

  finish_lem :
      (e : Envelope) (f : Frame) (again : M (Unit {0})) (l : Log)
      → (l' : Log) × ((finish_message garbage conn e f >> again) o l ≡ again o l') × Closed f l l'
  unfolding finish_message
  finish_lem e f again l = elim (Option-cases e.content_type) [
    | inl no_type ↦ rw no_type (
      _,
      refl,
      record {
        acked = refl;
        same_heard = refl;
        same_asked = refl;
        same_taken = refl;
        freed = refl;
      },
    )
    | inr (t, typed) ↦ rw typed (
      _,
      refl,
      record {
        acked = refl;
        same_heard = refl;
        same_asked = refl;
        same_taken = refl;
        freed = refl;
      },
    )
  ]

  -- The transcript after the second read.
  abbrev answered : ℕ → Frame → Log → Log
  answered k f l =
      printed "Result %d\n" (int (pos k) ∷ []) ∷ called (simple_wait_frame conn) (pos k, f) ∷ l

  -- The next round begins even.
  Closed-Tally :
      (k : ℕ) (f : Frame) (l l' : Log)
      → Tally garbage 1 l
      → Closed f (answered k f l) l'
      → Tally garbage 0 l'
  Closed-Tally k f l l' t c = record {
    acked = c.acked ∙ ap (λ (x : List Ack). ack_for garbage conn f ∷ x) t.acked ∙ sym c.same_heard;
    freed = c.freed ∙ ap suc t.freed ∙ ap (λ (x : List Ack). length x) (sym c.acked);
    balanced = omega (arith, c.same_taken, t.balanced, c.freed);
  }

  -- The second read of a round, by its answer.
  second_read-LoopEnd :
      (e : Envelope) (again : M (Unit {0})) (answer : ℤ × Frame) (l : Log)
      → Tally garbage 1 l
      → ((l' : Log) → Tally garbage 0 l' → LoopEnd garbage (again o l'))
      → LoopEnd garbage (
          (printf "Result %d\n" (int answer.0 ∷ [])
              >> (if is_negative answer.0
                  then pure tt
                  else (finish_message garbage conn e answer.1 >> again)))
            o
            (called (simple_wait_frame conn) answer ∷ l))
  second_read-LoopEnd e again (negsuc k, f) l t rec =
      inr (record { acked = t.acked; freed = t.freed; balanced = t.balanced })
  second_read-LoopEnd e again (pos k, f) l t rec =
      let (l', same, closed) = finish_lem e f again (answered k f l) in
      rw same (rec l' (Closed-Tally k f l l' t closed))

  pub listen_loop-LoopEnd :
      (rounds : ℕ) (l : Log)
      → Tally garbage 0 l
      → LoopEnd garbage (listen_loop garbage conn rounds o l)
  unfolding listen_loop
  listen_loop-LoopEnd zero l t = t
  listen_loop-LoopEnd (suc rounds) l t =
      let asking =
        printed "it's ok!\n" []
        ∷ called (maybe_release_buffers conn) (o l (maybe_release_buffers conn))
        ∷ l in
      let message = o asking (consume_message conn) in
      let l' = called (consume_message conn) message ∷ asking in
      elim (Bool-cases (is_normal message.0)) [
        | inl normal ↦ rw normal (
            second_read-LoopEnd message.1 (listen_loop garbage conn rounds)
              (o l' (simple_wait_frame conn)) l'
              (record {
                acked = t.acked;
                freed = t.freed;
                balanced = rw normal (omega (arith, t.balanced));
              })
              (listen_loop-LoopEnd rounds))
        | inr refused ↦
            rw refused
              (inl (record { acked = t.acked; freed = t.freed; balanced = rw refused t.balanced }))
      ]

  not_dry :
      (n : ℕ)
      → RunsOut o conn n
      → (l : Log) → is_normal (o l (consume_message conn)).0 ≡ true
      → asked l < n
  not_dry n dry l normal = elim (Bool-cases (ltb (asked l) n)) [
    | inl lt ↦ ground arith
    | inr ge ↦ cc (dry l (ground arith))
  ]

  second_read-ok :
      (e : Envelope) (again : M (Unit {0})) (answer : ℤ × Frame) (l : Log)
      → ((l' : Log) → asked l' ≡ asked l → (again o l').0 ≡ ok tt)
      → ((printf "Result %d\n" (int answer.0 ∷ [])
            >> (if is_negative answer.0
                then pure tt
                else (finish_message garbage conn e answer.1 >> again)))
          o
          (called (simple_wait_frame conn) answer ∷ l)).0
        ≡ ok tt
  second_read-ok e again (negsuc k, f) l rec = refl
  second_read-ok e again (pos k, f) l rec =
      let (l', same, closed) = finish_lem e f again (answered k f l) in
      rw same (rec l' closed.same_asked)

  pub listen_loop-ok :
      (n : ℕ) (dry : RunsOut o conn n) (rounds : ℕ) (l : Log)
      → n - asked l < rounds
      → (listen_loop garbage conn rounds o l).0 ≡ ok tt
  unfolding listen_loop
  listen_loop-ok n dry zero l enough = absurd (omega (arith, enough))
  listen_loop-ok n dry (suc rounds) l enough =
      let asking =
        printed "it's ok!\n" []
        ∷ called (maybe_release_buffers conn) (o l (maybe_release_buffers conn))
        ∷ l in
      let message = o asking (consume_message conn) in
      let l' = called (consume_message conn) message ∷ asking in
      elim (Bool-cases (is_normal message.0)) [
        | inl normal ↦ rw normal (
            second_read-ok message.1 (listen_loop garbage conn rounds)
              (o l' (simple_wait_frame conn)) l'
              (λ l'' same.
                listen_loop-ok n dry rounds l''
                  (omega (arith, same, enough, not_dry n dry asking normal))))
        | inr refused ↦ rw refused refl
      ]
