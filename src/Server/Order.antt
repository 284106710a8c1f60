-- ===== src/Server/Order.antt =====
-- `thread_B` of c/recveive/src/server.cpp as a whole.
use rabbitmq_work.Base.{
  ℕ, ◌-◌, ◌<◌, List, [], ◌∷◌, ◌++◌, ◌≡◌, ◌≢◌, ◌⊎◌, ◌∙◌, refl, sym, ap, arith, inl, inr,
}
use rabbitmq_work.Session.{M, Log, Oracle, Outcome, ok, exited, printed, text, pure, ◌>>◌}
use rabbitmq_work.Script.{Item, perform}
use rabbitmq_work.Script.Laws.{perform-append, perform->>=, perform_then}
use rabbitmq_work.Script.Silent.{AllSilent}
use rabbitmq_work.Rabbitmq.{declare_exchange, declare_queue, blind_exchange_queue, rabbitmq_consume}
use rabbitmq_work.Rabbitmq.Setup.{
  connection_of, socket_of, login_script, exchange_script, queue_script, bind_script,
  consume_script, log_to_rabbitmq-perform, declare_exchange-perform, declare_queue-perform,
  blind_exchange_queue-perform, rabbitmq_consume-perform,
}
use rabbitmq_work.Reader.Monitor.{idle, violated, phase_of, waits}
use rabbitmq_work.Reader.Ends.{RunsDry}
use rabbitmq_work.Reader.Closed.{read_and_close, perform-Keeps, perform-Finished, Finished, Ways}
use rabbitmq_work.Mq.{receiver, reand_mq_message}
use rabbitmq_work.Mq.Commands.{receiver-IsQuiet}
use rabbitmq_work.Closing.{shut_down}
use rabbitmq_work.Server.{thread_b}

abbrev pub after_greeting : Log → Log
after_greeting l = printed "%s\n" (text "thread_B" ∷ []) ∷ l

-- The connection that `thread_B` gets.
abbrev pub connection_b : Oracle → Log → ℕ
connection_b o l = connection_of o (after_greeting l)

pub subscribe_script : ℕ → List Item
subscribe_script conn =
    exchange_script conn 1 "demo" "direct" 0 0 0 0
    ++ (queue_script conn 1 "B" 0 0 0 1
        ++ (bind_script conn 1 "B" "demo" "B" ++ consume_script conn 1 "B"))

abbrev subscribe_and_read : ℕ → ℕ → M (Unit {0})
subscribe_and_read rounds conn = do
  declare_exchange conn 1 "demo" "direct" 0 0 0 0
  declare_queue conn 1 "B" 0 0 0 1
  blind_exchange_queue conn 1 "B" "demo" "B"
  rabbitmq_consume conn 1 "B"
  reand_mq_message conn 1 rounds
  shut_down conn

subscribe-perform :
    (rounds conn : ℕ)
    → subscribe_and_read rounds conn
      ≡ perform (subscribe_script conn) (read_and_close receiver conn 1 rounds)
unfolding subscribe_script reand_mq_message
subscribe-perform rounds conn =
    perform_then (exchange_script conn 1 "demo" "direct" 0 0 0 0)
      (declare_exchange-perform conn 1 "demo" "direct" 0 0 0 0)
      (perform_then (queue_script conn 1 "B" 0 0 0 1) (declare_queue-perform conn 1 "B" 0 0 0 1) (
        perform_then (bind_script conn 1 "B" "demo" "B")
          (blind_exchange_queue-perform conn 1 "B" "demo" "B")
          (perform_then (consume_script conn 1 "B") (rabbitmq_consume-perform conn 1 "B") refl)))

never_aborted : (r : Outcome (Unit {0})) → Ways receiver r → (r ≡ ok tt) ⊎ (r ≡ exited 1)
never_aborted r (inl e) = inl e
never_aborted r (inr (inl e)) = inr e
never_aborted r (inr (inr (e, inl h))) = cc
never_aborted r (inr (inr (e, inr h))) = cc

module _ (rounds : ℕ) (o : Oracle) (l : Log) where
  abbrev pub script : List Item
  script =
      let conn = connection_b o l in
      let l' = after_greeting l in
      login_script conn (socket_of o l' "localhost" 5672) 1 1 "localhost" 5672 "guest" "guest"
      ++ subscribe_script conn

  pub thread_b-perform :
      thread_b rounds o l
      ≡ perform script (read_and_close receiver (connection_b o l) 1 rounds) o (after_greeting l)
  unfolding thread_b
  thread_b-perform =
      let conn = connection_b o l in
      let l' = after_greeting l in
      let login =
        login_script conn (socket_of o l' "localhost" 5672) 1 1 "localhost" 5672 "guest" "guest" in
      rw (log_to_rabbitmq-perform 1 "localhost" 5672 "guest" "guest" o l') (
        ap (λ (m : M (Unit {0})). m o l')
          (perform->>= login (pure conn) (subscribe_and_read rounds)
            ∙ ap (perform login) (subscribe-perform rounds conn)
            ∙ sym (
                perform-append login (subscribe_script conn)
                  (read_and_close receiver conn 1 rounds))))

  script-AllSilent : AllSilent script
  unfolding subscribe_script
  script-AllSilent = omega arith

  -- Whatever the library answers and however long `thread_B` runs, on the connection that it opens
  -- it reads and acknowledges in the order that the monitor allows, from its login to the end of
  -- the connection, a stop in the setup or in the closing included.
  pub thread_b_order :
      phase_of (connection_b o l) 1 l ≡ idle
      → phase_of (connection_b o l) 1 (thread_b rounds o l).1 ≢ violated
  thread_b_order p = rw thread_b-perform (
      perform-Keeps receiver receiver-IsQuiet (connection_b o l) 1 rounds o script
        (after_greeting l) script-AllSilent p)

  thread_b-Finished :
      (n : ℕ)
      → RunsDry o (connection_b o l) n
      → n - waits l < rounds
      → phase_of (connection_b o l) 1 l ≡ idle
      → Finished receiver (connection_b o l) 1 (thread_b rounds o l)
  thread_b-Finished n dry enough p = rw thread_b-perform (
      perform-Finished receiver receiver-IsQuiet (connection_b o l) 1 rounds o n script
        (after_greeting l) dry enough script-AllSilent p)

  -- Once the reads on its connection fail from the `n`th on, `n + 1` rounds are enough for
  -- `thread_B` to return, or to exit with status 1 where a result is refused.
  pub thread_b_ends :
      (n : ℕ)
      → RunsDry o (connection_b o l) n
      → n - waits l < rounds
      → phase_of (connection_b o l) 1 l ≡ idle
      → ((thread_b rounds o l).0 ≡ ok tt) ⊎ ((thread_b rounds o l).0 ≡ exited 1)
  thread_b_ends n dry enough p =
      never_aborted (thread_b rounds o l).0 (thread_b-Finished n dry enough p).0
