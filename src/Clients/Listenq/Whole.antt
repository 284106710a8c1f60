-- ===== src/Clients/Listenq/Whole.antt =====
-- `main` of receive/src/amqp_listenq.cpp as a whole.
use rabbitmq_work.Base.{
  ℕ, ◌-◌, ◌<◌, List, [], ◌∷◌, ◌≡◌, ◌⊎◌, refl, sym, ap, subst, arith, inl, inr, Option, none, some,
  Option-cases,
}
use rabbitmq_work.Amqp.{
  Frame, new_connection, tcp_socket_new, socket_open, login, channel_open, get_rpc_reply,
  basic_consume,
}
use rabbitmq_work.Session.{
  M, Log, Oracle, Outcome, ok, exited, aborted, running, called, pure, resume, ◌>>◌,
}
use rabbitmq_work.Script.{Item, plain, checked, perform}
use rabbitmq_work.Script.Laws.{perform->>=}
use rabbitmq_work.Script.Kept.{perform-IsKept}
use rabbitmq_work.Rabbitmq.Setup.{connection_of}
use rabbitmq_work.Closing.{shut_down, closing_script, shut_down-perform}
use rabbitmq_work.Clients.Listenq.{listenq_setup, listen_loop, listenq_main}
use rabbitmq_work.Clients.Listenq.Counts.{
  asked, Tally, Settled, IsUncounted, SameCounts, SameCounts-Tally, SameCounts-IsKept, same_counts,
  RunsOut,
}
use rabbitmq_work.Clients.Listenq.Acks.{LoopEnd, listen_loop-LoopEnd, listen_loop-ok}

module _ (o : Oracle) (l : Log) where
  -- The socket that the library hands out, if it does.
  abbrev given : Option ℕ
  given = o (called new_connection (connection_of o l) ∷ l) (tcp_socket_new (connection_of o l))

  abbrev listenq_script : ℕ → List Item
  listenq_script sock =
      let conn = connection_of o l in
      plain new_connection
      ∷ checked (tcp_socket_new conn) "creating TCP socket"
      ∷ checked (socket_open sock "10.105.92.103" 5672) "opening TCP socket"
      ∷ checked (login conn "/" 0 131072 0 "guest" "guest") "Logging in"
      ∷ plain (channel_open conn 1)
      ∷ checked (get_rpc_reply conn) "Opening channel"
      ∷ plain (basic_consume conn 1 "hello" 0 0 0)
      ∷ checked (get_rpc_reply conn) "Consuming"
      ∷ []

  abbrev given_or_zero : Option ℕ → ℕ
  given_or_zero none = 0
  given_or_zero (some s) = s

  listenq_setup-perform :
      listenq_setup o l
      ≡ perform (listenq_script (given_or_zero given)) (pure (connection_of o l)) o l
  unfolding listenq_setup
  listenq_setup-perform = elim (Option-cases given) [
    | inl null ↦ rw null refl
    | inr (s, found) ↦ rw found refl
  ]

-- A run that returned or exited with status 1.
abbrev Over : Outcome (Unit {0}) × Log → Type 0
Over r = (r.0 ≡ ok tt) ⊎ (r.0 ≡ exited 1)

module _ (garbage : Frame → ℕ) (o : Oracle) where
  same-Settled : (l l' : Log) → SameCounts garbage l l' → Settled garbage l → Settled garbage l'
  same-Settled l l' s (inl t) = inl (SameCounts-Tally garbage 0 l l' s t)
  same-Settled l l' s (inr t) = inr (SameCounts-Tally garbage 1 l l' s t)

  close-Settled :
      (conn : ℕ) (r : Outcome (Unit {0}) × Log)
      → LoopEnd garbage r
      → Settled garbage (resume (λ _. shut_down conn) o r.0 r.1).1
  close-Settled conn (ok _, l) h = rw (shut_down-perform conn) (
      perform-IsKept IsUncounted (SameCounts garbage l) (SameCounts-IsKept garbage l)
        (λ r. Settled garbage r.1) o (closing_script conn) (pure tt) l (tt, (tt, (tt, tt)))
        (λ l' s. same-Settled l l' s h) (λ l' s. same-Settled l l' s h) (same_counts garbage l))
  close-Settled conn (exited n, l) h = absurd h
  close-Settled conn (aborted, l) h = absurd h
  close-Settled conn (running, l) h = inl h

  close-Over :
      (conn : ℕ) (r : Outcome (Unit {0}) × Log)
      → r.0 ≡ ok tt
      → Over (resume (λ _. shut_down conn) o r.0 r.1)
  close-Over conn r e =
      rw (e, shut_down-perform conn)
        (perform-IsKept IsUncounted (SameCounts garbage r.1) (SameCounts-IsKept garbage r.1) Over o
          (closing_script conn) (pure tt) r.1 (tt, (tt, (tt, tt))) (λ l' s. inr refl)
          (λ l' s. inl refl) (same_counts garbage r.1))

  module _ (rounds : ℕ) (l : Log) where
    abbrev setup : List Item
    setup = listenq_script o l (given_or_zero o l (given o l))

    abbrev reading : ℕ → M (Unit {0})
    reading conn = listen_loop garbage conn rounds >> shut_down conn

    listenq_main-perform :
        listenq_main garbage rounds o l ≡ perform setup (reading (connection_of o l)) o l
    unfolding listenq_main
    listenq_main-perform =
        rw (listenq_setup-perform o l)
          (ap (λ (m : M (Unit {0})). m o l) (perform->>= setup (pure (connection_of o l)) reading))

    setup_kept :
        (R : Outcome (Unit {0}) × Log → Type 0)
        → ((l' : Log) → SameCounts garbage l l' → R (exited 1, l'))
        → ((l' : Log) → SameCounts garbage l l' → R (reading (connection_of o l) o l'))
        → R (listenq_main garbage rounds o l)
    setup_kept R stop go = subst R (sym listenq_main-perform) (
        perform-IsKept IsUncounted (SameCounts garbage l) (SameCounts-IsKept garbage l) R o setup
          (reading (connection_of o l)) l (omega arith) stop go (same_counts garbage l))

    -- However `main` of amqp_listenq ends, and however long it runs, its acks are those for the
    -- frames read after the messages, one for each and in their order: on the connection that the
    -- frame came from, on channel 1, of the tag that the frame decodes to, and of no other tag with
    -- it. It has destroyed an envelope for each ack; and it has taken as many messages, or one more,
    -- whose envelope is left over. This holds if it did of the transcript before.
    pub listenq_main-Settled :
        Tally garbage 0 l → Settled garbage (listenq_main garbage rounds o l).1
    listenq_main-Settled t =
        setup_kept (λ r. Settled garbage r.1) (λ l' s. inl (SameCounts-Tally garbage 0 l l' s t))
          (λ l' s.
            close-Settled (connection_of o l) (listen_loop garbage (connection_of o l) rounds o l')
              (listen_loop-LoopEnd garbage (connection_of o l) o rounds l'
                (SameCounts-Tally garbage 0 l l' s t)))

    -- Once no message comes from the `n`th on, `n + 1` rounds are enough for `main` of amqp_listenq
    -- to return, or to exit with status 1.
    pub listenq_main_ends :
        (n : ℕ)
        → RunsOut o (connection_of o l) n
        → n - asked l < rounds
        → let r = (listenq_main garbage rounds o l).0 in (r ≡ ok tt) ⊎ (r ≡ exited 1)
    listenq_main_ends n dry enough =
        setup_kept Over (λ l' s. inr refl)
          (λ l' s.
            close-Over (connection_of o l) (listen_loop garbage (connection_of o l) rounds o l') (
              listen_loop-ok garbage (connection_of o l) o n dry rounds l'
                (omega (arith, s.same_asked, enough))))
