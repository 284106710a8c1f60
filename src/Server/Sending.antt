-- ===== src/Server/Sending.antt =====
-- `thread_A` of c/recveive/src/server.cpp as a script.
use rabbitmq_work.Base.{
  ℕ, zero, suc, ◌==◌, if◌then◌else◌, List, [], ◌∷◌, ◌++◌, ◌≡◌, ◌⊎◌, refl, sym, ap, ◌∙◌, inl, inr,
  Bool-cases,
}
use rabbitmq_work.Session.{
  M, Log, Oracle, running, printed, text, slept, printf, emit, still_running, pure, ◌>>◌,
}
use rabbitmq_work.Script.{Item, say, nap, perform, transcript, AllAccepted}
use rabbitmq_work.Script.Laws.{perform-append, perform->>=, perform_then, Stops, perform_lem}
use rabbitmq_work.Rabbitmq.Setup.{
  connection_of, socket_of, login_script, publish_script, log_to_rabbitmq-perform,
  mq_message_publish-perform,
}
use rabbitmq_work.Closing.{shut_down}
use rabbitmq_work.Server.{send_loop, thread_a}

-- A round in which the flag is up: one message, and two seconds of sleep after it.
abbrev pub round_script : ℕ → List Item
round_script conn =
    publish_script conn 1 "demo" "A" "hello world!" ++ (say "[As]:send ok!\n" ∷ nap 2 ∷ [])

-- The rounds from the `i`th on.
abbrev pub rounds_script : (ℕ → ℕ) → ℕ → ℕ → ℕ → List Item
rounds_script flags conn i zero = []
rounds_script flags conn i (suc rounds) =
    (if flags i == 0 then [] else round_script conn) ++ rounds_script flags conn (suc i) rounds

send_loop-perform :
    (flags : ℕ → ℕ) (conn i rounds : ℕ)
    → send_loop flags conn i rounds ≡ perform (rounds_script flags conn i rounds) still_running
unfolding send_loop
send_loop-perform flags conn i zero = refl
send_loop-perform flags conn i (suc rounds) =
    let ih = send_loop-perform flags conn (suc i) rounds in
    elim (Bool-cases (flags i == 0)) [
      | inl down ↦ rw down ih
      | inr up ↦ rw up (
          perform_then (publish_script conn 1 "demo" "A" "hello world!")
            (mq_message_publish-perform conn 1 "demo" "A" "hello world!")
            (ap (λ (m : M (Unit {0})). printf "[As]:send ok!\n" [] >> (emit (slept 2) >> m)) ih))
    ]

module _ (flags : ℕ → ℕ) (rounds : ℕ) (o : Oracle) (l : Log) where
  abbrev pub after_greeting : Log
  after_greeting = printed "%s\n" (text "thread_A" ∷ []) ∷ l

  -- The connection that `thread_A` gets.
  abbrev pub connection_a : ℕ
  connection_a = connection_of o after_greeting

  abbrev pub sender_script : List Item
  sender_script =
      login_script connection_a (socket_of o after_greeting "localhost" 5672) 1 1 "localhost" 5672
        "guest" "guest"
      ++ rounds_script flags connection_a 0 rounds

  pub thread_a-perform :
      thread_a flags rounds o l ≡ perform sender_script still_running o after_greeting
  unfolding thread_a
  thread_a-perform =
      let login =
        login_script connection_a (socket_of o after_greeting "localhost" 5672) 1 1 "localhost" 5672
          "guest" "guest" in
      let sends = rounds_script flags connection_a 0 rounds in
      let body = λ (conn : ℕ). send_loop flags conn 0 rounds >> shut_down conn in
      rw (log_to_rabbitmq-perform 1 "localhost" 5672 "guest" "guest" o after_greeting) (
        ap (λ (m : M (Unit {0})). m o after_greeting)
          (perform->>= login (pure connection_a) body
            ∙ ap (perform login) (
                ap (λ (m : M (Unit {0})). m >> shut_down connection_a)
                  (send_loop-perform flags connection_a 0 rounds)
                ∙ perform->>= sends still_running (λ _. shut_down connection_a))
            ∙ sym (perform-append login sends still_running)))

  -- `thread_A` never returns. It logs in, and then publishes one message in each round in which it
  -- reads a flag that is not 0, with two seconds of sleep right after each, and is still running
  -- after any number of rounds, if every checked result is accepted; or it exits with status 1 right
  -- after the first one that is not, with none of the later calls made.
  pub thread_a_lem :
      let r = thread_a flags rounds o l in
      (AllAccepted o sender_script after_greeting
        × (r ≡ (running, transcript o sender_script after_greeting)))
      ⊎ Stops o sender_script after_greeting r
  thread_a_lem = rw thread_a-perform (perform_lem o sender_script after_greeting still_running)
