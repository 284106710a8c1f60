-- ===== src/Clients/Exchange/Whole.antt =====
-- `main` of exchange/src/amqp_exchange_declare.cpp as a whole.
use rabbitmq_work.Base.{ℕ, ◌-◌, ◌<◌, List, ◌≡◌, ◌≢◌, ◌⊎◌, ap, arith}
use rabbitmq_work.Session.{M, Log, Oracle, ok, exited, aborted, pure}
use rabbitmq_work.Script.{Item, perform}
use rabbitmq_work.Script.Laws.{perform->>=}
use rabbitmq_work.Script.Silent.{AllSilent}
use rabbitmq_work.Rabbitmq.Setup.{connection_of}
use rabbitmq_work.Mq.Init.{mqinit_script, script, mqinit-perform}
use rabbitmq_work.Reader.{leave, crash}
use rabbitmq_work.Reader.Monitor.{idle, violated, phase_of, waits}
use rabbitmq_work.Reader.Ends.{RunsDry}
use rabbitmq_work.Reader.Closed.{read_and_close, perform-Keeps, perform-Finished, Finished, any_way}
use rabbitmq_work.Reader.Printing.{print_fragment-IsQuiet}
use rabbitmq_work.Clients.Exchange.{exchange_consumer, exchange_main}
use rabbitmq_work.Clients.Exchange.Setup.{exchange_setup-mqinit}

module _ (rounds : ℕ) (o : Oracle) (l : Log) where
  abbrev setup : List Item
  setup = script 1 "localhost" 5672 "test1" "test1" "test1" "direct" "guest" "guest" o l

  abbrev reading : ℕ → M (Unit {0})
  reading conn = read_and_close exchange_consumer conn 1 rounds

  exchange_main-perform : exchange_main rounds o l ≡ perform setup (reading (connection_of o l)) o l
  unfolding exchange_main
  exchange_main-perform =
      rw
        (
          exchange_setup-mqinit,
          mqinit-perform 1 "localhost" 5672 "test1" "test1" "test1" "direct" "guest" "guest" o l,
        )
        (ap (λ (m : M (Unit {0})). m o l) (perform->>= setup (pure (connection_of o l)) reading))

  setup-AllSilent : AllSilent setup
  unfolding mqinit_script
  setup-AllSilent = omega arith

  -- Whatever the library answers and however long `main` of the exchange client runs, on the
  -- connection that it opens it reads and acknowledges in the order that the monitor allows, from
  -- its login to the end of the connection.
  pub exchange_main_order :
      phase_of (connection_of o l) 1 l ≡ idle
      → phase_of (connection_of o l) 1 (exchange_main rounds o l).1 ≢ violated
  exchange_main_order p = rw exchange_main-perform (
      perform-Keeps exchange_consumer (print_fragment-IsQuiet leave crash) (connection_of o l) 1
        rounds o setup l setup-AllSilent p)

  exchange_main-Finished :
      (n : ℕ)
      → RunsDry o (connection_of o l) n
      → n - waits l < rounds
      → phase_of (connection_of o l) 1 l ≡ idle
      → Finished exchange_consumer (connection_of o l) 1 (exchange_main rounds o l)
  exchange_main-Finished n dry enough p = rw exchange_main-perform (
      perform-Finished exchange_consumer (print_fragment-IsQuiet leave crash) (connection_of o l) 1
        rounds o n setup l dry enough setup-AllSilent p)

  -- Once the reads on its connection fail from the `n`th on, `n + 1` rounds are enough for `main` of
  -- the exchange client to return, to exit with status 1, or to abort.
  pub exchange_main_ends :
      (n : ℕ)
      → RunsDry o (connection_of o l) n
      → n - waits l < rounds
      → phase_of (connection_of o l) 1 l ≡ idle
      → let r = (exchange_main rounds o l).0 in (r ≡ ok tt) ⊎ (r ≡ exited 1) ⊎ (r ≡ aborted)
  exchange_main_ends n dry enough p =
      any_way exchange_consumer (exchange_main rounds o l).0
        (exchange_main-Finished n dry enough p).0
