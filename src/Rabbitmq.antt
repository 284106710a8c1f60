-- ===== src/Rabbitmq.antt =====
-- c/recveive/src/rabbitmq.cpp: the operations on a connection, each a library call and its check.
-- `flags` of 0 and 1 are the C integers that the callers pass. The read loop is in Reader.antt.
pub mod Setup
use rabbitmq_work.Base.{ℕ, String, none}
use rabbitmq_work.Amqp.{
  Properties, new_connection, open_socket, set_sockfd, login, channel_open, get_rpc_reply,
  exchange_declare, queue_declare, queue_bind, basic_qos, basic_consume, basic_publish,
}
use rabbitmq_work.Session.{M, pure, call, ◌>>=◌, ◌>>◌}
use rabbitmq_work.Utils.{die_on_error, die_on_amqp_error}

-- `LogToRabbitmq`
unfoldable pub log_to_rabbitmq : ℕ → String → ℕ → String → String → M ℕ
log_to_rabbitmq channel_id host_name port log_name log_pass_word = do
  conn ← call new_connection
  sock_fd ← call (open_socket host_name port)
  die_on_error sock_fd "Opening socket"
  call (set_sockfd conn sock_fd)
  die_on_amqp_error (← call (login conn "/" channel_id 131072 0 log_name log_pass_word))
      "Logging in"
  call (channel_open conn channel_id)
  die_on_amqp_error (← call (get_rpc_reply conn)) "Opening channel"
  pure conn

-- `DeclareExchange`
unfoldable pub declare_exchange : ℕ → ℕ → String → String → ℕ → ℕ → ℕ → ℕ → M (Unit {0})
declare_exchange conn channel_id exchange exchange_type passive durable auto_delete internal = do
  call
      (exchange_declare conn channel_id exchange exchange_type passive durable auto_delete internal)
  die_on_amqp_error (← call (get_rpc_reply conn)) "Declaring exchange"

-- `DeclareQueue`
unfoldable pub declare_queue : ℕ → ℕ → String → ℕ → ℕ → ℕ → ℕ → M (Unit {0})
declare_queue conn channel_id queue_name passive durable exclusive auto_delete = do
  call (queue_declare conn channel_id queue_name passive durable exclusive auto_delete)
  die_on_amqp_error (← call (get_rpc_reply conn)) "Declaring queue"

-- `BlindExchangeQueue`, its context as the source has it.
unfoldable pub blind_exchange_queue : ℕ → ℕ → String → String → String → M (Unit {0})
blind_exchange_queue conn channel_id queue_name exchange binding_key = do
  call (queue_bind conn channel_id queue_name exchange binding_key)
  die_on_amqp_error (← call (get_rpc_reply conn)) "Unbinding"

-- `RabbitmqConsume`
unfoldable pub rabbitmq_consume : ℕ → ℕ → String → M (Unit {0})
rabbitmq_consume conn channel_id queue_name = do
  call (basic_qos conn channel_id 0 1 0)
  call (basic_consume conn channel_id queue_name 0 0 0)
  die_on_amqp_error (← call (get_rpc_reply conn)) "Consuming"

-- `MqMessagePublish`: the properties that it fills in are not handed over.
unfoldable pub mq_message_publish : ℕ → ℕ → String → String → String → M (Unit {0})
mq_message_publish conn channel_id exchange queue_name message_body = do
  let props : Properties = record { delivery_mode = 2 }
  status ← call (basic_publish conn channel_id exchange queue_name 0 0 none message_body)
  die_on_error status "Publishing"
