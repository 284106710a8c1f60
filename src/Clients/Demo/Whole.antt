-- ===== src/Clients/Demo/Whole.antt =====
-- `main` of receive_demo/src/receive_demo.cpp as a whole.
use rabbitmq_work.Base.{ℕ, ◌-◌, ◌<◌, List, [], ◌∷◌, ◌≡◌, ◌≢◌, ◌⊎◌, refl, ap, arith}
use rabbitmq_work.Amqp.{
  new_connection, open_socket, set_sockfd, login, channel_open, get_rpc_reply, queue_declare,
  basic_qos, basic_consume,
}
use rabbitmq_work.Session.{M, Log, Oracle, ok, exited, aborted, pure}
use rabbitmq_work.Script.{Item, plain, checked, perform}
use rabbitmq_work.Script.Laws.{perform->>=}
use rabbitmq_work.Rabbitmq.Setup.{connection_of, socket_of}
use rabbitmq_work.Reader.{crash}
use rabbitmq_work.Reader.Monitor.{idle, violated, phase_of, waits}
use rabbitmq_work.Reader.Ends.{RunsDry}
use rabbitmq_work.Reader.Closed.{read_and_close, perform-Keeps, perform-Finished, Finished, any_way}
use rabbitmq_work.Reader.Printing.{print_fragment-IsQuiet}
use rabbitmq_work.Clients.Demo.{demo_consumer, demo_setup, demo_main}

module _ (rounds : ℕ) (o : Oracle) (l : Log) where
  -- The declaration of the queue goes unchecked.
  abbrev demo_script : List Item
  demo_script =
      let conn = connection_of o l in
      plain new_connection
      ∷ checked (open_socket "localhost" 5672) "Opening socket"
      ∷ plain (set_sockfd conn (socket_of o l "localhost" 5672))
      ∷ checked (login conn "/" 0 131072 0 "guest" "guest") "Logging in"
      ∷ plain (channel_open conn 1)
      ∷ checked (get_rpc_reply conn) "Opening channel"
      ∷ plain (queue_declare conn 1 "hello" 0 1 0 0)
      ∷ plain (basic_qos conn 1 0 1 0)
      ∷ plain (basic_consume conn 1 "hello" 0 0 0)
      ∷ checked (get_rpc_reply conn) "Consuming"
      ∷ []

  demo_setup-perform : demo_setup o l ≡ perform demo_script (pure (connection_of o l)) o l
  unfolding demo_setup
  demo_setup-perform = refl

  abbrev reading : ℕ → M (Unit {0})
  reading conn = read_and_close demo_consumer conn 1 rounds

  demo_main-perform : demo_main rounds o l ≡ perform demo_script (reading (connection_of o l)) o l
  unfolding demo_main
  demo_main-perform = rw demo_setup-perform (
      ap (λ (m : M (Unit {0})). m o l) (perform->>= demo_script (pure (connection_of o l)) reading))

  demo_main-Finished :
      (n : ℕ)
      → RunsDry o (connection_of o l) n
      → n - waits l < rounds
      → phase_of (connection_of o l) 1 l ≡ idle
      → Finished demo_consumer (connection_of o l) 1 (demo_main rounds o l)
  demo_main-Finished n dry enough p = rw demo_main-perform (
      perform-Finished demo_consumer (print_fragment-IsQuiet crash crash) (connection_of o l) 1
        rounds o n demo_script l dry enough (omega arith) p)

  -- Whatever the library answers and however long `main` of the demo runs, on the connection that it
  -- opens it reads and acknowledges in the order that the monitor allows.
  pub demo_main_order :
      phase_of (connection_of o l) 1 l ≡ idle
      → phase_of (connection_of o l) 1 (demo_main rounds o l).1 ≢ violated
  demo_main_order p = rw demo_main-perform (
      perform-Keeps demo_consumer (print_fragment-IsQuiet crash crash) (connection_of o l) 1 rounds
        o demo_script l (omega arith) p)

  -- Once the reads on its connection fail from the `n`th on, `n + 1` rounds are enough for `main` of
  -- the demo to return, to exit with status 1, or to abort.
  pub demo_main_ends :
      (n : ℕ)
      → RunsDry o (connection_of o l) n
      → n - waits l < rounds
      → phase_of (connection_of o l) 1 l ≡ idle
      → let r = (demo_main rounds o l).0 in (r ≡ ok tt) ⊎ (r ≡ exited 1) ⊎ (r ≡ aborted)
  demo_main_ends n dry enough p =
      any_way demo_consumer (demo_main rounds o l).0 (demo_main-Finished n dry enough p).0
