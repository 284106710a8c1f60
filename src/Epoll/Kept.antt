-- ===== src/Epoll/Kept.antt =====
-- Predicates on transcripts along `lt` of c/recveive/src/epoll.cpp, and along the parts that `lt` and
-- `et` share.
use rabbitmq_work.Base.{
  ℕ, zero, suc, ◌==◌, inl, inr, ℤ, pos, negsuc, is_negative, List, [], ◌∷◌, ◌++◌, Bool, false, ◌&&◌,
  Bool-cases, String,
}
use rabbitmq_work.Amqp.{Bytes, accept, close, recv, epoll_add, epoll_del, get_flags, set_flags}
use rabbitmq_work.Session.{
  Log, Oracle, Outcome, M, called, printed, Arg, ok, exited, aborted, running, resume, pure, printf,
}
use rabbitmq_work.Ipv4socket.{set_nonblocking, or_nonblock}
use rabbitmq_work.Signals.{main_process_signal_processing}
use rabbitmq_work.Signals.Pipe.{
  announcement, announced, Processed, main_process_signal_processing_lem,
}
use rabbitmq_work.Epoll.{
  Ready, same_fd, add_fd_to_epoll, accept_user, drop_user, lt_received, lt_event, lt,
}

-- A predicate on transcripts that the loops' calls keep, on the epoll descriptor `ep`.
pub record Keeps (ep : ℤ) (P : Log → Type 0) : Type 0 where
  pub by_accept : (fd x : ℤ) (l : Log) → P l → P (called (accept fd) x ∷ l)
  pub by_get_flags : (fd x : ℤ) (l : Log) → P l → P (called (get_flags fd) x ∷ l)
  pub by_set_flags :
      (fd flags : ℤ) (x : ℤ × ℕ) (l : Log) → P l → P (called (set_flags fd flags) x ∷ l)
  pub by_add :
      (fd : ℤ) (enable : Bool) (x : Unit {0}) (l : Log)
      → P l
      → P (called (epoll_add ep fd enable) x ∷ l)
  pub by_recv : (fd : ℤ) (n : ℕ) (x : ℤ × Bytes × ℕ) (l : Log) → P l → P (called (recv fd n) x ∷ l)
  pub by_print : (f : String) (args : List Arg) (l : Log) → P l → P (printed f args ∷ l)
  pub by_drop :
      (fd : ℤ) (l : Log) → P l → P (called (close fd) tt ∷ called (epoll_del ep fd) tt ∷ l)
  pub by_drop_saying :
      (fd : ℤ) (f : String) (l : Log)
      → P l
      → P (called (close fd) tt ∷ printed f [] ∷ called (epoll_del ep fd) tt ∷ l)

-- A run that came to its end, and one that may go on for ever.
abbrev pub Finished : {A : Type 0} → (Log → Type 0) → Outcome A × Log → Type 0
Finished P (ok _, l) = P l
Finished P (exited _, l) = ⊥
Finished P (aborted, l) = ⊥
Finished P (running, l) = ⊥

abbrev pub Ongoing : {A : Type 0} → (Log → Type 0) → Outcome A × Log → Type 0
Ongoing P (ok _, l) = P l
Ongoing P (exited _, l) = ⊥
Ongoing P (aborted, l) = ⊥
Ongoing P (running, l) = P l

module _ (P : Log → Type 0) where
  resume-Finished :
      {A B : Type 0} (o : Oracle) (f : A → M B) (r : Outcome A × Log)
      → ((a : A) (l : Log) → P l → Finished P (f a o l))
      → Finished P r
      → Finished P (resume f o r.0 r.1)
  resume-Finished o f (ok a, l) g h = g a l h
  resume-Finished o f (exited n, l) g h = h
  resume-Finished o f (aborted, l) g h = h
  resume-Finished o f (running, l) g h = h

  pub Finished-Ongoing : {A : Type 0} (r : Outcome A × Log) → Finished P r → Ongoing P r
  Finished-Ongoing (ok a, l) h = h
  Finished-Ongoing (exited n, l) h = h
  Finished-Ongoing (aborted, l) h = h
  Finished-Ongoing (running, l) h = absurd h

  pub resume-Ongoing :
      {A B : Type 0} (o : Oracle) (f : A → M B) (r : Outcome A × Log)
      → ((a : A) (l : Log) → P l → Ongoing P (f a o l))
      → Ongoing P r
      → Ongoing P (resume f o r.0 r.1)
  resume-Ongoing o f (ok a, l) g h = g a l h
  resume-Ongoing o f (exited n, l) g h = h
  resume-Ongoing o f (aborted, l) g h = h
  resume-Ongoing o f (running, l) g h = h

module _ (ep : ℤ) (P : Log → Type 0) (kept : Keeps ep P) where
  announcement-Kept : (s : ℕ) (l : Log) → P l → P (announcement s ++ l)
  announcement-Kept s l h = elim (Bool-cases (s == 10)) [
    | inl usr ↦ rw usr (kept.by_print _ _ l h)
    | inr not_usr ↦ rw not_usr (elim (Bool-cases (s == 1)) [
      | inl hup ↦ rw hup (kept.by_print _ _ l h)
      | inr not_hup ↦ rw not_hup (elim (Bool-cases (s == 13)) [
        | inl pipe ↦ rw pipe (kept.by_print _ _ l h)
        | inr other ↦ rw other h
      ])
    ])
  ]

  announced-Kept : (signals : Bytes) (l : Log) → P l → P (announced signals l)
  announced-Kept [] l h = h
  announced-Kept (s ∷ rest) l h =
      announced-Kept rest (announcement s ++ l) (announcement-Kept s l h)

  Processed-Finished :
      (n : ℤ) (signals : Bytes) (l : Log) → P l → Finished P (Processed n signals l)
  Processed-Finished (pos zero) signals l h = h
  Processed-Finished (pos (suc n)) signals l h = announced-Kept signals l h
  Processed-Finished (negsuc n) signals l h = h

  module _ (o : Oracle) where
    set_nonblocking-Finished : (fd : ℤ) (l : Log) → P l → Finished P (set_nonblocking fd o l)
    unfolding set_nonblocking
    set_nonblocking-Finished fd l h =
        let read = called (get_flags fd) (o l (get_flags fd)) ∷ l in
        let wanted = or_nonblock (o l (get_flags fd)) in
        let k =
          kept.by_set_flags fd wanted (o read (set_flags fd wanted)) read
            (kept.by_get_flags fd _ l h) in
        elim (Bool-cases (is_negative (o read (set_flags fd wanted)).0)) [
          | inl failed ↦ rw failed (kept.by_print _ _ _ (kept.by_print _ _ _ k))
          | inr set ↦ rw set k
        ]

    add_fd_to_epoll-Finished :
        (fd : ℤ) (enable : Bool) (l : Log) → P l → Finished P (add_fd_to_epoll ep fd enable o l)
    unfolding add_fd_to_epoll
    add_fd_to_epoll-Finished fd enable l h =
        let added = called (epoll_add ep fd enable) (o l (epoll_add ep fd enable)) ∷ l in
        resume-Finished P o (λ _. pure tt) (set_nonblocking fd o added) (λ _ l' k. k)
          (set_nonblocking-Finished fd added (kept.by_add fd enable _ l h))

    pub accept_user-Finished :
        (listen_fd : ℤ) (enable : Bool) (greeting : String) (l : Log)
        → P l
        → Finished P (accept_user ep listen_fd enable greeting o l)
    unfolding accept_user
    accept_user-Finished listen_fd enable greeting l h =
        let fd = o l (accept listen_fd) in
        let k = kept.by_accept listen_fd fd l h in
        elim (Bool-cases (is_negative fd)) [
          | inl failed ↦ rw failed (kept.by_print _ _ _ k)
          | inr user ↦ rw user (
              resume-Finished P o (λ _. printf greeting [])
                (add_fd_to_epoll ep fd enable o (called (accept listen_fd) fd ∷ l))
                (λ _ l' k'. kept.by_print _ _ l' k') (add_fd_to_epoll-Finished fd enable _ k))
        ]

    pub drop_user-Finished : (fd : ℤ) (l : Log) → P l → Finished P (drop_user ep fd o l)
    unfolding drop_user
    drop_user-Finished fd l h = kept.by_drop fd _ (kept.by_print _ _ l h)

    lt_received-Finished :
        (fd n : ℤ) (buff : Bytes) (errno : ℕ) (l : Log)
        → P l
        → Finished P (lt_received ep fd n buff errno o l)
    unfolding lt_received
    lt_received-Finished fd (pos (suc n)) buff errno l h = kept.by_print _ _ l h
    lt_received-Finished fd n buff errno l h = elim (Bool-cases (errno == 11)) [
      | inl again ↦ rw again (kept.by_print _ _ l h)
      | inr broken ↦ rw broken (kept.by_drop_saying fd _ l h)
    ]

    lt_event-Finished :
        (signal_fd listen_fd : ℤ) (ev : Ready) (l : Log)
        → P l
        → Finished P (lt_event signal_fd ep listen_fd ev o l)
    unfolding lt_event
    lt_event-Finished signal_fd listen_fd ev l h =
        elim (Bool-cases (same_fd ev.fd signal_fd && ev.readable)) [
          | inl signal ↦ rw signal (
              resume-Finished P o (λ _. pure tt) (main_process_signal_processing ev.fd o l)
                (λ _ l' k. k)
                (rw (main_process_signal_processing_lem ev.fd o l) (
                  Processed-Finished (o l (recv ev.fd 1024)).0 (o l (recv ev.fd 1024)).1 _
                    (kept.by_recv _ _ _ l h))))
          | inr no_signal ↦ rw no_signal (elim (Bool-cases (same_fd listen_fd ev.fd)) [
            | inl new ↦ rw new (accept_user-Finished listen_fd false "comes a new user\n" l h)
            | inr old ↦ rw old (elim (Bool-cases ev.hung_up) [
              | inl gone ↦ rw gone (drop_user-Finished ev.fd l h)
              | inr there ↦ rw there (elim (Bool-cases ev.readable) [
                | inl sent ↦ rw sent (
                    lt_received-Finished ev.fd (o l (recv ev.fd 1023)).0 (o l (recv ev.fd 1023)).1
                      (o l (recv ev.fd 1023)).2 _ (kept.by_recv _ _ _ l h))
                | inr silent ↦ rw silent h
              ])
            ])
          ])
        ]

    pub lt-Kept :
        (signal_fd listen_fd : ℤ) (evs : List Ready) (l : Log)
        → P l
        → Finished P (lt signal_fd ep listen_fd evs o l)
    unfolding lt
    lt-Kept signal_fd listen_fd [] l h = h
    lt-Kept signal_fd listen_fd (ev ∷ evs) l h =
        resume-Finished P o (λ _. lt signal_fd ep listen_fd evs)
          (lt_event signal_fd ep listen_fd ev o l) (λ _. lt-Kept signal_fd listen_fd evs)
          (lt_event-Finished signal_fd listen_fd ev l h)
