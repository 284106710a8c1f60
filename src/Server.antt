-- ===== src/Server.antt =====
-- The two threads of c/recveive/src/server.cpp as programs on their own. How they share the flag
-- with the alarm's handler is in `Threads`.
pub mod Order
pub mod Sending
pub mod Posts
pub mod Asking
pub mod Process
use rabbitmq_work.Base.{ℕ, zero, suc, [], ◌∷◌, ◌==◌, if◌then◌else◌}
use rabbitmq_work.Amqp.{on_alarm, create_thread}
use rabbitmq_work.Session.{
  M, text, slept, flagged, alarmed, printf, call, emit, still_running, ◌>>=◌, ◌>>◌,
}
use rabbitmq_work.Signals.{sig_set}
use rabbitmq_work.Rabbitmq.{
  log_to_rabbitmq, declare_exchange, declare_queue, blind_exchange_queue, rabbitmq_consume,
  mq_message_publish,
}
use rabbitmq_work.Mq.{reand_mq_message}
use rabbitmq_work.Closing.{shut_down}

-- The loop of `thread_A`; `flags i` is the value of `gg_nFlags` that its round `i` reads, which the
-- other thread and the handler write.
unfoldable pub send_loop : (ℕ → ℕ) → ℕ → ℕ → ℕ → M (Unit {0})
send_loop flags conn i zero = still_running
send_loop flags conn i (suc rounds) =
    let again = send_loop flags conn (suc i) rounds in
    if flags i == 0 then again else do
      mq_message_publish conn 1 "demo" "A" "hello world!"
      printf "[As]:send ok!\n" []
      emit (slept 2)
      again

-- `thread_A`
unfoldable pub thread_a : (ℕ → ℕ) → ℕ → M (Unit {0})
thread_a flags rounds = do
  printf "%s\n" (text "thread_A" ∷ [])
  conn ← log_to_rabbitmq 1 "localhost" 5672 "guest" "guest"
  send_loop flags conn 0 rounds
  shut_down conn

-- `thread_B`
unfoldable pub thread_b : ℕ → M (Unit {0})
thread_b rounds = do
  printf "%s\n" (text "thread_B" ∷ [])
  conn ← log_to_rabbitmq 1 "localhost" 5672 "guest" "guest"
  declare_exchange conn 1 "demo" "direct" 0 0 0 0
  declare_queue conn 1 "B" 0 0 0 1
  blind_exchange_queue conn 1 "B" "demo" "B"
  rabbitmq_consume conn 1 "B"
  reand_mq_message conn 1 rounds
  shut_down conn

-- `OnSIGALRMHandler`
unfoldable pub on_sigalrm_handler : M (Unit {0})
on_sigalrm_handler = do printf "time up!\n" []; emit (flagged 0)

abbrev pub sigalrm : ℕ
sigalrm = 14

-- `main`; its `while(1)` never ends.
unfoldable pub main : M (Unit {0})
main = do
  sig_set sigalrm on_alarm
  emit (alarmed 2)
  call (create_thread "thread_A")
  call (create_thread "thread_B")
  still_running
