-- ===== src/Sender/Same.antt =====
-- The setup and the `main` of c/send/src.
use rabbitmq_work.Base.{ℕ, String, List, ◌++◌, ◌≡◌, ◌≢◌, ◌⊎◌, ◌∙◌, refl, sym, ap}
use rabbitmq_work.Session.{M, Log, Oracle, ok, pure, ◌>>◌}
use rabbitmq_work.Script.{Item, perform, transcript, AllAccepted}
use rabbitmq_work.Script.Laws.{perform-append, perform->>=, perform_then, Stops, perform_lem}
use rabbitmq_work.Rabbitmq.{declare_exchange, declare_queue, mq_message_publish}
use rabbitmq_work.Rabbitmq.Setup.{
  connection_of, socket_of, publish_script, mq_message_publish-perform,
}
use rabbitmq_work.Reader.{leave}
use rabbitmq_work.Reader.Monitor.{idle, violated, phase_of}
use rabbitmq_work.Reader.Results.{read_loop-ne-violated}
use rabbitmq_work.Reader.Printing.{print_fragment-IsQuiet}
use rabbitmq_work.Closing.{shut_down, closing_script, shut_down-perform}
use rabbitmq_work.Mq
use rabbitmq_work.Mq.Init.{mqinit_script, mqinit-perform}
use rabbitmq_work.Sender.{mqinit, printer, reand_mq_message, server_main}

-- The sender's `Mqinit`, whose declarations have their flags fixed, makes the same run as the
-- receiver's, which passes them, at all arguments.
pub mqinit-mqinit :
    (ch : ℕ) (host : String) (port : ℕ) (exchange queue key exchange_type user word : String)
    → mqinit ch host port exchange queue key exchange_type user word
      ≡ Mq.mqinit ch host port exchange queue key exchange_type user word
unfolding mqinit Mq.mqinit declare_exchange declare_queue
mqinit-mqinit ch host port exchange queue key exchange_type user word = refl

-- The read loop that prints fragments never violates the monitor either.
pub reand_mq_message-order :
    (conn ch rounds : ℕ) (o : Oracle) (l : Log)
    → phase_of conn ch l ≡ idle
    → phase_of conn ch (reand_mq_message conn ch rounds o l).1 ≢ violated
unfolding reand_mq_message
reand_mq_message-order conn ch rounds o l p =
    read_loop-ne-violated printer (print_fragment-IsQuiet leave leave) conn ch rounds o l p

-- Set up, publish once, and close.
pub server_script : Oracle → Log → List Item
server_script o l =
    let conn = connection_of o l in
    mqinit_script conn (socket_of o l "localhost" 5672) 1 "localhost" 5672 "test1" "test1" "test1"
      "direct" "guest" "guest"
    ++ (publish_script conn 1 "test1" "test1" "asdfas" ++ closing_script conn)

abbrev publish_and_close : ℕ → M (Unit {0})
publish_and_close conn = do mq_message_publish conn 1 "test1" "test1" "asdfas"; shut_down conn

publish_and_close-perform :
    (conn : ℕ)
    → publish_and_close conn
      ≡ perform (publish_script conn 1 "test1" "test1" "asdfas" ++ closing_script conn) (pure tt)
publish_and_close-perform conn =
    perform_then (publish_script conn 1 "test1" "test1" "asdfas")
      (mq_message_publish-perform conn 1 "test1" "test1" "asdfas") (shut_down-perform conn)

server_main-perform :
    (o : Oracle) (l : Log) → server_main o l ≡ perform (server_script o l) (pure tt) o l
unfolding server_main server_script
server_main-perform o l =
    let conn = connection_of o l in
    let setup =
      mqinit_script conn (socket_of o l "localhost" 5672) 1 "localhost" 5672 "test1" "test1" "test1"
        "direct" "guest" "guest" in
    let rest = publish_script conn 1 "test1" "test1" "asdfas" ++ closing_script conn in
    rw
      (
        mqinit-mqinit,
        mqinit-perform 1 "localhost" 5672 "test1" "test1" "test1" "direct" "guest" "guest" o l,
      )
      (ap (λ (m : M (Unit {0})). m o l)
        (perform->>= setup (pure conn) publish_and_close
          ∙ ap (perform setup) (publish_and_close-perform conn)
          ∙ sym (perform-append setup rest (pure tt))))

-- `main` of the sender's server.cpp makes the whole sequence of calls, from the login to the end of
-- the connection, with one publish, if every checked result is accepted; or it exits with status 1
-- right after the first one that is not, with none of the later calls made.
pub server_main_lem :
    (o : Oracle) (l : Log)
    → let r = server_main o l in
      (AllAccepted o (server_script o l) l × (r ≡ (ok tt, transcript o (server_script o l) l)))
      ⊎ Stops o (server_script o l) l r
server_main_lem o l = rw server_main-perform (perform_lem o (server_script o l) l (pure tt))
