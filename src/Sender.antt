-- ===== src/Sender.antt =====
-- c/send/src (c/back/src is a copy): the earlier rabbitmq.cpp, with the declarations' flags fixed,
-- its mq.cpp, and the `main` of its server.cpp, which sets up and publishes one message.
pub mod Same
use rabbitmq_work.Base.{ℕ, String}
use rabbitmq_work.Amqp.{get_rpc_reply, exchange_declare, queue_declare}
use rabbitmq_work.Session.{M, pure, call, ◌>>=◌, ◌>>◌}
use rabbitmq_work.Utils.{die_on_amqp_error}
use rabbitmq_work.Closing.{shut_down}
use rabbitmq_work.Reader.{Consumer, leave, print_fragment, read_loop}
use rabbitmq_work.Rabbitmq.{
  log_to_rabbitmq, blind_exchange_queue, rabbitmq_consume, mq_message_publish,
}

-- `DeclareExchange`
unfoldable pub declare_exchange : ℕ → ℕ → String → String → M (Unit {0})
declare_exchange conn channel_id exchange exchange_type = do
  call (exchange_declare conn channel_id exchange exchange_type 0 0 0 0)
  die_on_amqp_error (← call (get_rpc_reply conn)) "Declaring exchange"

-- `DeclareQueue`
unfoldable pub declare_queue : ℕ → ℕ → String → M (Unit {0})
declare_queue conn channel_id queue_name = do
  call (queue_declare conn channel_id queue_name 0 1 0 0)
  die_on_amqp_error (← call (get_rpc_reply conn)) "Declaring queue"

-- `Mqinit`
unfoldable pub mqinit : ℕ → String → ℕ → String → String → String → String → String → String → M ℕ
unfolding declare_exchange declare_queue
mqinit channel_id host port exchange queue key exchange_type log_name log_pass_word = do
  conn ← log_to_rabbitmq channel_id host port log_name log_pass_word
  declare_exchange conn channel_id exchange exchange_type
  declare_queue conn channel_id queue
  blind_exchange_queue conn channel_id queue exchange key
  rabbitmq_consume conn channel_id queue
  pure conn

-- `ReandMqMessage`, which prints each fragment.
abbrev pub printer : Consumer
printer = record { unexpected = leave; overlong = leave; consume = print_fragment }

unfoldable pub reand_mq_message : ℕ → ℕ → ℕ → M (Unit {0})
reand_mq_message conn channel_id rounds = read_loop printer conn channel_id rounds

-- `main`
unfoldable pub server_main : M (Unit {0})
server_main = do
  conn ← mqinit 1 "localhost" 5672 "test1" "test1" "test1" "direct" "guest" "guest"
  mq_message_publish conn 1 "test1" "test1" "asdfas"
  shut_down conn
