-- ===== src/Clients/Exchange.antt =====
-- exchange/src/amqp_exchange_declare.cpp: declares, binds, subscribes and reads, all in `main`.
pub mod Setup
pub mod Whole
use rabbitmq_work.Base.{ℕ, String, none}
use rabbitmq_work.Amqp.{
  new_connection, open_socket, set_sockfd, login, channel_open, get_rpc_reply, exchange_declare,
  queue_declare, queue_bind, basic_qos, basic_consume,
}
use rabbitmq_work.Session.{M, pure, call, ◌>>=◌, ◌>>◌}
use rabbitmq_work.Utils.{die_on_error, die_on_amqp_error}
use rabbitmq_work.Closing.{shut_down}
use rabbitmq_work.Reader.{Consumer, leave, crash, print_fragment, read_loop}

-- From the start of `main` to the subscription.
unfoldable pub exchange_setup : M ℕ
exchange_setup = do
  conn ← call new_connection
  sockfd ← call (open_socket "localhost" 5672)
  die_on_error sockfd "Opening socket"
  call (set_sockfd conn sockfd)
  die_on_amqp_error (← call (login conn "/" 1 131072 0 "guest" "guest")) "Logging in"
  call (channel_open conn 1)
  die_on_amqp_error (← call (get_rpc_reply conn)) "Opening channel"
  call (exchange_declare conn 1 "test1" "direct" 0 0 0 0)
  die_on_amqp_error (← call (get_rpc_reply conn)) "Declaring exchange"
  call (queue_declare conn 1 "test1" 0 1 0 0)
  die_on_amqp_error (← call (get_rpc_reply conn)) "Declaring queue"
  call (queue_bind conn 1 "test1" "test1" "test1")
  die_on_amqp_error (← call (get_rpc_reply conn)) "Unbinding"
  call (basic_qos conn 1 0 1 0)
  call (basic_consume conn 1 "test1" 0 0 0)
  die_on_amqp_error (← call (get_rpc_reply conn)) "Consuming"
  pure conn

-- It leaves its loop on a misplaced frame, and asserts that the body is not too long.
abbrev pub exchange_consumer : Consumer
exchange_consumer = record { unexpected = leave; overlong = crash; consume = print_fragment }

unfoldable pub exchange_main : ℕ → M (Unit {0})
exchange_main rounds = do
  conn ← exchange_setup
  read_loop exchange_consumer conn 1 rounds
  shut_down conn
