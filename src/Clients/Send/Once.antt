-- ===== src/Clients/Send/Once.antt =====
-- send/src/send.cpp, send_demo/src/send_demo.cpp and send_demo/send_demo.cpp as scripts.
use rabbitmq_work.Base.{ℕ, ℤ, String, List, ◌∷◌, ◌++◌, ◌≡◌, ◌⊎◌}
use rabbitmq_work.Session.{M, Log, Oracle, ok, pure}
use rabbitmq_work.Script.{Item, say, perform, transcript, AllAccepted}
use rabbitmq_work.Script.Laws.{Stops, perform_lem}
use rabbitmq_work.Rabbitmq.Setup.{connection_of, socket_of, login_script, publish_script}
use rabbitmq_work.Closing.{closing_script, shut_down-perform}
use rabbitmq_work.Clients.Send.{send_main, send_demo_main, send_draft_main}

-- Log in, publish once, and close. The message goes out with no properties.
pub publish_once : ℕ → ℤ → ℕ → String → String → String → List Item
publish_once conn sock channel_max host exchange queue =
    login_script conn sock channel_max 1 host 5672 "guest" "guest"
    ++ (publish_script conn 1 exchange queue "hello world" ++ say "end!\n" ∷ closing_script conn)

-- The three programs.
pub data Client : Type 0 where
  send send_demo send_draft : Client

abbrev pub main_of : Client → M (Unit {0})
main_of send = send_main
main_of send_demo = send_demo_main
main_of send_draft = send_draft_main

module _ (o : Oracle) (l : Log) where
  -- Where each connects, the limit for channels it asks for, and the exchange and the key.
  abbrev pub client_script : Client → List Item
  client_script send =
      publish_once (connection_of o l) (socket_of o l "10.105.92.103" 5672) 0 "10.105.92.103" "" ""
  client_script send_demo =
      publish_once (connection_of o l) (socket_of o l "localhost" 5672) 1 "localhost" "test1"
        "test1"
  client_script send_draft =
      publish_once (connection_of o l) (socket_of o l "10.105.92.103" 5672) 0 "10.105.92.103" ""
        "hello"

  main_of-perform : (c : Client) → main_of c o l ≡ perform (client_script c) (pure tt) o l
  unfolding send_main send_demo_main send_draft_main publish_once
  main_of-perform send = simp shut_down-perform
  main_of-perform send_demo = simp shut_down-perform
  main_of-perform send_draft = simp shut_down-perform

  -- `main` of each publishing client logs in, publishes once and with no properties, says so and
  -- closes, if every checked result is accepted; or it exits with status 1 right after the first
  -- one that is not, with none of the later calls made. send.cpp publishes to the default exchange
  -- under an empty key, its draft there under "hello", and send_demo.cpp to "test1" under "test1".
  pub main_of_lem :
      (c : Client)
      → let r = main_of c o l in
        (AllAccepted o (client_script c) l × (r ≡ (ok tt, transcript o (client_script c) l)))
        ⊎ Stops o (client_script c) l r
  main_of_lem c = rw (main_of-perform c) (perform_lem o (client_script c) l (pure tt))
