-- ===== src/Clients/Demo.antt =====
-- receive_demo/src/receive_demo.cpp: reads the queue "hello" through the default exchange.
pub mod Whole
use rabbitmq_work.Base.{ℕ}
use rabbitmq_work.Amqp.{
  new_connection, open_socket, set_sockfd, login, channel_open, get_rpc_reply, queue_declare,
  basic_qos, basic_consume,
}
use rabbitmq_work.Session.{M, pure, call, ◌>>=◌, ◌>>◌}
use rabbitmq_work.Utils.{die_on_error, die_on_amqp_error}
use rabbitmq_work.Closing.{shut_down}
use rabbitmq_work.Reader.{Consumer, crash, print_fragment, read_loop}

-- From the start of `main` to the subscription; the queue's declaration is not checked.
unfoldable pub demo_setup : M ℕ
demo_setup = do
  conn ← call new_connection
  sockfd ← call (open_socket "localhost" 5672)
  die_on_error sockfd "Opening socket"
  call (set_sockfd conn sockfd)
  die_on_amqp_error (← call (login conn "/" 0 131072 0 "guest" "guest")) "Logging in"
  call (channel_open conn 1)
  die_on_amqp_error (← call (get_rpc_reply conn)) "Opening channel"
  call (queue_declare conn 1 "hello" 0 1 0 0)
  call (basic_qos conn 1 0 1 0)
  call (basic_consume conn 1 "hello" 0 0 0)
  die_on_amqp_error (← call (get_rpc_reply conn)) "Consuming"
  pure conn

-- It aborts on a misplaced frame, and asserts that the body is not too long.
abbrev pub demo_consumer : Consumer
demo_consumer = record { unexpected = crash; overlong = crash; consume = print_fragment }

unfoldable pub demo_main : ℕ → M (Unit {0})
demo_main rounds = do conn ← demo_setup; read_loop demo_consumer conn 1 rounds; shut_down conn
