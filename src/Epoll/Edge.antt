-- ===== src/Epoll/Edge.antt =====
-- Predicates on transcripts along `et` of c/recveive/src/epoll.cpp.
use rabbitmq_work.Base.{
  ℕ, zero, suc, ◌==◌, inl, inr, ℤ, pos, negsuc, List, [], ◌∷◌, true, Bool-cases,
}
use rabbitmq_work.Amqp.{Bytes, recv}
use rabbitmq_work.Session.{Log, Oracle, M}
use rabbitmq_work.Epoll.{Ready, same_fd, accept_user, drop_user, et_received, et_read, et_event, et}
use rabbitmq_work.Epoll.Kept.{
  Keeps, Ongoing, Finished-Ongoing, resume-Ongoing, accept_user-Finished, drop_user-Finished,
}

module _ (ep : ℤ) (P : Log → Type 0) (kept : Keeps ep P) (o : Oracle) where
  et_received-Ongoing :
      (fd : ℤ) (again : M (Unit {0})) (n : ℤ) (buff : Bytes) (errno : ℕ) (l : Log)
      → ((l' : Log) → P l' → Ongoing P (again o l'))
      → P l
      → Ongoing P (et_received ep fd again n buff errno o l)
  unfolding et_received
  et_received-Ongoing fd again (pos n) buff errno l rec h = rec _ (kept.by_print _ _ l h)
  et_received-Ongoing fd again (negsuc n) buff errno l rec h = elim (Bool-cases (errno == 11)) [
    | inl later ↦ rw later (rec l h)
    | inr broken ↦ rw broken (kept.by_drop fd l h)
  ]

  et_read-Ongoing : (fd : ℤ) (rounds : ℕ) (l : Log) → P l → Ongoing P (et_read ep fd rounds o l)
  unfolding et_read
  et_read-Ongoing fd zero l h = h
  et_read-Ongoing fd (suc rounds) l h =
      let got = o l (recv fd 1023) in
      et_received-Ongoing fd (et_read ep fd rounds) got.0 got.1 got.2 _ (et_read-Ongoing fd rounds)
        (kept.by_recv _ _ got l h)

  pub et_event-Ongoing :
      (rounds : ℕ) (listen_fd : ℤ) (ev : Ready) (l : Log)
      → P l
      → Ongoing P (et_event rounds ep listen_fd ev o l)
  unfolding et_event
  et_event-Ongoing rounds listen_fd ev l h = elim (Bool-cases (same_fd listen_fd ev.fd)) [
    | inl new ↦ rw new (
        Finished-Ongoing P (accept_user ep listen_fd true "comes a new user\n\n" o l)
          (accept_user-Finished ep P kept o listen_fd true "comes a new user\n\n" l h))
    | inr old ↦ rw old (elim (Bool-cases ev.hung_up) [
      | inl gone ↦
          rw gone
            (Finished-Ongoing P (drop_user ep ev.fd o l) (drop_user-Finished ep P kept o ev.fd l h))
      | inr there ↦ rw there (elim (Bool-cases ev.readable) [
        | inl sent ↦ rw sent (et_read-Ongoing ev.fd rounds l h)
        | inr silent ↦ rw silent h
      ])
    ])
  ]

  pub et-Kept :
      (rounds : ℕ) (listen_fd : ℤ) (evs : List Ready) (l : Log)
      → P l
      → Ongoing P (et rounds ep listen_fd evs o l)
  unfolding et
  et-Kept rounds listen_fd [] l h = h
  et-Kept rounds listen_fd (ev ∷ evs) l h =
      resume-Ongoing P o (λ _. et rounds ep listen_fd evs) (et_event rounds ep listen_fd ev o l)
        (λ _. et-Kept rounds listen_fd evs) (et_event-Ongoing rounds listen_fd ev l h)
