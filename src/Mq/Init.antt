-- ===== src/Mq/Init.antt =====
-- `Mqinit` of c/recveive/src/mq.cpp against the AMQP setup sequence.
use rabbitmq_work.Base.{ℕ, ℤ, String, List, ◌++◌, ◌≡◌, ◌⊎◌, refl, ap, ◌∙◌}
use rabbitmq_work.Session.{Log, Oracle, M, ok, pure, ◌>>◌}
use rabbitmq_work.Script.{Item, perform, transcript, AllAccepted}
use rabbitmq_work.Script.Laws.{perform->>=, perform_then, Stops, perform_lem}
use rabbitmq_work.Rabbitmq.{declare_exchange, declare_queue, blind_exchange_queue, rabbitmq_consume}
use rabbitmq_work.Rabbitmq.Setup.{
  connection_of, socket_of, login_script, exchange_script, queue_script, bind_script,
  consume_script, log_to_rabbitmq-perform, declare_exchange-perform, declare_queue-perform,
  blind_exchange_queue-perform, rabbitmq_consume-perform,
}
use rabbitmq_work.Mq.{mqinit}

-- Log in, declare the exchange and a durable queue, bind them, and subscribe.
unfoldable pub mqinit_script :
    ℕ → ℤ → ℕ → String → ℕ → String → String → String → String → String → String → List Item
mqinit_script conn sock_fd ch host port exchange queue key exchange_type user word =
    login_script conn sock_fd ch ch host port user word
    ++ (exchange_script conn ch exchange exchange_type 0 0 0 0
        ++ (queue_script conn ch queue 0 1 0 0
            ++ (bind_script conn ch queue exchange key ++ consume_script conn ch queue)))

module _ (ch : ℕ) (host : String) (port : ℕ) (exchange queue key exchange_type user word : String)
    (o : Oracle) (l : Log) where
  abbrev pub script : List Item
  script =
      mqinit_script (connection_of o l) (socket_of o l host port) ch host port exchange queue key
        exchange_type user word

  abbrev setup : ℕ → M ℕ
  setup conn = do
    declare_exchange conn ch exchange exchange_type 0 0 0 0
    declare_queue conn ch queue 0 1 0 0
    blind_exchange_queue conn ch queue exchange key
    rabbitmq_consume conn ch queue
    pure conn

  abbrev setup_script : ℕ → List Item
  setup_script conn =
      exchange_script conn ch exchange exchange_type 0 0 0 0
      ++ (queue_script conn ch queue 0 1 0 0
          ++ (bind_script conn ch queue exchange key ++ consume_script conn ch queue))

  setup-perform : (conn : ℕ) → setup conn ≡ perform (setup_script conn) (pure conn)
  setup-perform conn =
      perform_then (exchange_script conn ch exchange exchange_type 0 0 0 0)
        (declare_exchange-perform conn ch exchange exchange_type 0 0 0 0)
        (perform_then (queue_script conn ch queue 0 1 0 0)
          (declare_queue-perform conn ch queue 0 1 0 0)
          (perform_then (bind_script conn ch queue exchange key)
            (blind_exchange_queue-perform conn ch queue exchange key)
            (perform_then (consume_script conn ch queue) (rabbitmq_consume-perform conn ch queue)
              refl)))

  pub mqinit-perform :
      mqinit ch host port exchange queue key exchange_type user word o l
      ≡ perform script (pure (connection_of o l)) o l
  unfolding mqinit mqinit_script
  mqinit-perform = rw (log_to_rabbitmq-perform ch host port user word o l) (
      ap (λ (m : M ℕ). m o l)
        (perform->>=
            (login_script (connection_of o l) (socket_of o l host port) ch ch host port user word)
            (pure (connection_of o l)) setup
          ∙ ap
              (perform (
                login_script (connection_of o l) (socket_of o l host port) ch ch host port user
                  word))
              (setup-perform (connection_of o l))))

  -- `Mqinit` makes the calls of the setup sequence in order and returns the connection, if every
  -- checked result is accepted; or it exits with status 1 right after the first one that is not,
  -- with the complaint about it printed and none of the later calls made.
  pub mqinit_lem :
      let r = mqinit ch host port exchange queue key exchange_type user word o l in
      (AllAccepted o script l × (r ≡ (ok (connection_of o l), transcript o script l)))
      ⊎ Stops o script l r
  mqinit_lem = rw mqinit-perform (perform_lem o script l (pure (connection_of o l)))
