-- ===== src/Clients/Send.antt =====
-- The clients that publish one message: send/src/send.cpp, send_demo/src/send_demo.cpp and the draft
-- of the latter, send_demo/send_demo.cpp. The properties that all fill in are not handed to the
-- library.
pub mod Once
use rabbitmq_work.Base.{ℕ, [], none}
use rabbitmq_work.Amqp.{
  Properties, new_connection, open_socket, set_sockfd, login, channel_open, get_rpc_reply,
  basic_publish,
}
use rabbitmq_work.Session.{M, pure, call, printf, ◌>>=◌, ◌>>◌}
use rabbitmq_work.Utils.{die_on_error, die_on_amqp_error}
use rabbitmq_work.Closing.{shut_down}

-- `main` of send/src/send.cpp
unfoldable pub send_main : M (Unit {0})
send_main = do
  conn ← call new_connection
  sockfd ← call (open_socket "10.105.92.103" 5672)
  die_on_error sockfd "Opening socket"
  call (set_sockfd conn sockfd)
  die_on_amqp_error (← call (login conn "/" 0 131072 0 "guest" "guest")) "Logging in"
  call (channel_open conn 1)
  die_on_amqp_error (← call (get_rpc_reply conn)) "Opening channel"
  let props : Properties = record { delivery_mode = 2 }
  status ← call (basic_publish conn 1 "" "" 0 0 none "hello world")
  die_on_error status "Publishing"
  printf "end!\n" []
  shut_down conn

-- `main` of send_demo/src/send_demo.cpp
unfoldable pub send_demo_main : M (Unit {0})
send_demo_main = do
  conn ← call new_connection
  sockfd ← call (open_socket "localhost" 5672)
  die_on_error sockfd "Opening socket"
  call (set_sockfd conn sockfd)
  die_on_amqp_error (← call (login conn "/" 1 131072 0 "guest" "guest")) "Logging in"
  call (channel_open conn 1)
  die_on_amqp_error (← call (get_rpc_reply conn)) "Opening channel"
  let props : Properties = record { delivery_mode = 2 }
  status ← call (basic_publish conn 1 "test1" "test1" 0 0 none "hello world")
  die_on_error status "Publishing"
  printf "end!\n" []
  shut_down conn

-- `main` of send_demo/send_demo.cpp
unfoldable pub send_draft_main : M (Unit {0})
send_draft_main = do
  conn ← call new_connection
  sockfd ← call (open_socket "10.105.92.103" 5672)
  die_on_error sockfd "Opening socket"
  call (set_sockfd conn sockfd)
  die_on_amqp_error (← call (login conn "/" 0 131072 0 "guest" "guest")) "Logging in"
  call (channel_open conn 1)
  die_on_amqp_error (← call (get_rpc_reply conn)) "Opening channel"
  let props : Properties = record { delivery_mode = 2 }
  status ← call (basic_publish conn 1 "" "hello" 0 0 none "hello world")
  die_on_error status "Publishing"
  printf "end!\n" []
  shut_down conn
