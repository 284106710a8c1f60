-- ===== src/Epoll/Draining.antt =====
-- The `while (1)` of `et` in c/recveive/src/epoll.cpp, on one descriptor.
use rabbitmq_work.Base.{ℕ, zero, suc, ◌==◌, ◌≡◌, inl, inr, refl, ℤ, pos, negsuc, ◌∷◌, Bool-cases}
use rabbitmq_work.Amqp.{Bytes, close, recv, epoll_del}
use rabbitmq_work.Session.{Log, Oracle, Outcome, M, called, ok, exited, aborted, running}
use rabbitmq_work.Epoll.{delete_fd_from_epoll, et_received, et_read}

-- The newest events are the removal of `fd` from the set and its `close`.
abbrev pub Dropped : ℤ → ℤ → Log → Type 0
Dropped ep fd l = (l' : Log) × (l ≡ called (close fd) tt ∷ called (epoll_del ep fd) tt ∷ l')

abbrev pub Drained : ℤ → ℤ → Outcome (Unit {0}) × Log → Type 0
Drained ep fd (ok _, l) = Dropped ep fd l
Drained ep fd (exited _, l) = ⊥
Drained ep fd (aborted, l) = ⊥
Drained ep fd (running, l) = Unit

module _ (ep fd : ℤ) (o : Oracle) where
  et_received-Drained :
      (again : M (Unit {0})) (n : ℤ) (buff : Bytes) (errno : ℕ) (l : Log)
      → ((l' : Log) → Drained ep fd (again o l'))
      → Drained ep fd (et_received ep fd again n buff errno o l)
  unfolding et_received delete_fd_from_epoll
  et_received-Drained again (pos n) buff errno l rec = rec _
  et_received-Drained again (negsuc n) buff errno l rec = elim (Bool-cases (errno == 11)) [
    | inl later ↦ rw later (rec l)
    | inr broken ↦ rw broken (l, refl)
  ]

  -- The loop is left only by way of the hard error, with the descriptor taken out of the set and
  -- closed: in particular not while the connection is open and has no more data.
  pub et_read-Drained : (rounds : ℕ) (l : Log) → Drained ep fd (et_read ep fd rounds o l)
  unfolding et_read
  et_read-Drained zero l = tt
  et_read-Drained (suc rounds) l =
      let got = o l (recv fd 1023) in
      et_received-Drained (et_read ep fd rounds) got.0 got.1 got.2 _ (et_read-Drained rounds)

  -- No hard error: `recv` gives data, the end of the stream (0), or EAGAIN.
  abbrev pub Alive : ℤ × Bytes × ℕ → Type 0
  Alive (pos n, _, _) = Unit
  Alive (negsuc n, _, errno) = errno ≡ 11

  et_received-running :
      (again : M (Unit {0})) (got : ℤ × Bytes × ℕ) (l : Log)
      → Alive got
      → ((l' : Log) → (again o l').0 ≡ running)
      → (et_received ep fd again got.0 got.1 got.2 o l).0 ≡ running
  unfolding et_received
  et_received-running again (pos n, buff, errno) l alive rec = rec _
  et_received-running again (negsuc n, buff, errno) l alive rec = rw alive (rec l)

  -- Against a descriptor that never fails for good, a peer that has closed its side included, no
  -- number of rounds brings the loop to an end.
  pub et_read_spins :
      ((l : Log) → Alive (o l (recv fd 1023)))
      → (rounds : ℕ) (l : Log) → (et_read ep fd rounds o l).0 ≡ running
  unfolding et_read
  et_read_spins alive zero l = refl
  et_read_spins alive (suc rounds) l =
      et_received-running (et_read ep fd rounds) (o l (recv fd 1023)) _ (alive l)
        (et_read_spins alive rounds)
