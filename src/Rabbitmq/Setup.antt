-- ===== src/Rabbitmq/Setup.antt =====
-- The operations of rabbitmq.cpp as scripts.
use rabbitmq_work.Base.{ℕ, ℤ, String, List, [], ◌∷◌, none, ◌≡◌, refl}
use rabbitmq_work.Amqp.{
  new_connection, open_socket, set_sockfd, login, channel_open, get_rpc_reply, exchange_declare,
  queue_declare, queue_bind, basic_qos, basic_consume, basic_publish,
}
use rabbitmq_work.Session.{Log, Oracle, called, pure}
use rabbitmq_work.Session.Laws.{>>=_pure}
use rabbitmq_work.Script.{Item, plain, checked, perform}
use rabbitmq_work.Rabbitmq.{
  log_to_rabbitmq, declare_exchange, declare_queue, blind_exchange_queue, rabbitmq_consume,
  mq_message_publish,
}

-- The connection and the socket that a run from here gets.
abbrev pub connection_of : Oracle → Log → ℕ
connection_of o l = o l new_connection

abbrev pub socket_of : Oracle → Log → String → ℕ → ℤ
socket_of o l host_name port =
    o (called new_connection (o l new_connection) ∷ l) (open_socket host_name port)

abbrev pub login_script : ℕ → ℤ → ℕ → ℕ → String → ℕ → String → String → List Item
login_script conn sock_fd channel_max channel_id host_name port log_name log_pass_word =
    plain new_connection
    ∷ checked (open_socket host_name port) "Opening socket"
    ∷ plain (set_sockfd conn sock_fd)
    ∷ checked (login conn "/" channel_max 131072 0 log_name log_pass_word) "Logging in"
    ∷ plain (channel_open conn channel_id)
    ∷ checked (get_rpc_reply conn) "Opening channel"
    ∷ []

abbrev pub exchange_script : ℕ → ℕ → String → String → ℕ → ℕ → ℕ → ℕ → List Item
exchange_script conn ch exchange type p d a i =
    plain (exchange_declare conn ch exchange type p d a i)
    ∷ checked (get_rpc_reply conn) "Declaring exchange"
    ∷ []

abbrev pub queue_script : ℕ → ℕ → String → ℕ → ℕ → ℕ → ℕ → List Item
queue_script conn ch queue p d e a =
    plain (queue_declare conn ch queue p d e a)
    ∷ checked (get_rpc_reply conn) "Declaring queue"
    ∷ []

abbrev pub bind_script : ℕ → ℕ → String → String → String → List Item
bind_script conn ch queue exchange key =
    plain (queue_bind conn ch queue exchange key) ∷ checked (get_rpc_reply conn) "Unbinding" ∷ []

abbrev pub consume_script : ℕ → ℕ → String → List Item
consume_script conn ch queue =
    plain (basic_qos conn ch 0 1 0)
    ∷ plain (basic_consume conn ch queue 0 0 0)
    ∷ checked (get_rpc_reply conn) "Consuming"
    ∷ []

abbrev pub publish_script : ℕ → ℕ → String → String → String → List Item
publish_script conn ch exchange queue message =
    checked (basic_publish conn ch exchange queue 0 0 none message) "Publishing" ∷ []

pub log_to_rabbitmq-perform :
    (ch : ℕ) (host : String) (port : ℕ) (user word : String) (o : Oracle) (l : Log)
    → log_to_rabbitmq ch host port user word o l
      ≡ perform
          (login_script (connection_of o l) (socket_of o l host port) ch ch host port user word)
          (pure (connection_of o l))
          o
          l
unfolding log_to_rabbitmq
log_to_rabbitmq-perform ch host port user word o l = refl

pub declare_exchange-perform :
    (conn ch : ℕ) (exchange type : String) (p d a i : ℕ)
    → declare_exchange conn ch exchange type p d a i
      ≡ perform (exchange_script conn ch exchange type p d a i) (pure tt)
unfolding declare_exchange
declare_exchange-perform conn ch exchange type p d a i = simp >>=_pure

pub declare_queue-perform :
    (conn ch : ℕ) (queue : String) (p d e a : ℕ)
    → declare_queue conn ch queue p d e a ≡ perform (queue_script conn ch queue p d e a) (pure tt)
unfolding declare_queue
declare_queue-perform conn ch queue p d e a = simp >>=_pure

pub blind_exchange_queue-perform :
    (conn ch : ℕ) (queue exchange key : String)
    → blind_exchange_queue conn ch queue exchange key
      ≡ perform (bind_script conn ch queue exchange key) (pure tt)
unfolding blind_exchange_queue
blind_exchange_queue-perform conn ch queue exchange key = simp >>=_pure

pub rabbitmq_consume-perform :
    (conn ch : ℕ) (queue : String)
    → rabbitmq_consume conn ch queue ≡ perform (consume_script conn ch queue) (pure tt)
unfolding rabbitmq_consume
rabbitmq_consume-perform conn ch queue = simp >>=_pure

pub mq_message_publish-perform :
    (conn ch : ℕ) (exchange queue message : String)
    → mq_message_publish conn ch exchange queue message
      ≡ perform (publish_script conn ch exchange queue message) (pure tt)
unfolding mq_message_publish
mq_message_publish-perform conn ch exchange queue message = simp >>=_pure
