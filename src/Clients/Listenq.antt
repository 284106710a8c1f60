-- ===== src/Clients/Listenq.antt =====
-- receive/src/amqp_listenq.cpp: reads whole messages by `amqp_consume_message`, and then waits for
-- one more frame.
pub mod Counts
pub mod Acks
pub mod Whole
use rabbitmq_work.Base.{
  ℕ, zero, suc, Bool, true, false, ◌%◌, ◌^◌, List, [], ◌∷◌, Option, none, some, ℤ, pos, negsuc,
  is_negative, if◌then◌else◌,
}
use rabbitmq_work.Amqp.{
  Bytes, Frame, method, header, body, other_frame, basic_deliver, other_method, Envelope, RpcReply,
  normal, new_connection, tcp_socket_new, socket_open, login, channel_open, get_rpc_reply,
  basic_consume, maybe_release_buffers, consume_message, simple_wait_frame, basic_ack,
  destroy_envelope,
}
use rabbitmq_work.Session.{
  M, int, num, bytes, pure, call, printf, abort, still_running, ◌>>=◌, ◌>>◌,
}
use rabbitmq_work.Utils.{die, die_on_amqp_error, die_unless_zero}
use rabbitmq_work.Closing.{shut_down}

abbrev or_die : Option ℕ → M ℕ
or_die none = die "creating TCP socket" []
or_die (some s) = pure s

unfoldable pub listenq_setup : M ℕ
unfolding die
listenq_setup = do
  conn ← call new_connection
  socket ← or_die (← call (tcp_socket_new conn))
  die_unless_zero (← call (socket_open socket "10.105.92.103" 5672)) "opening TCP socket"
  die_on_amqp_error (← call (login conn "/" 0 131072 0 "guest" "guest")) "Logging in"
  call (channel_open conn 1)
  die_on_amqp_error (← call (get_rpc_reply conn)) "Opening channel"
  call (basic_consume conn 1 "hello" 0 0 0)
  die_on_amqp_error (← call (get_rpc_reply conn)) "Consuming"
  pure conn

-- `((amqp_basic_deliver_t *) frame.payload.method.decoded)->delivery_tag`, read without a look at
-- the frame's type: what `garbage` gives where it is no delivery.
abbrev pub decoded_tag : (Frame → ℕ) → Frame → ℕ
decoded_tag garbage (method _ (basic_deliver d)) = d.delivery_tag
decoded_tag garbage f = garbage f

abbrev pub is_normal : RpcReply → Bool
is_normal normal = true
is_normal _ = false

abbrev print_type : Option Bytes → M (Unit {0})
print_type none = pure tt
print_type (some t) = printf "it's ok1!\n" [] >> printf "Content-type: %.*s\n" (bytes t ∷ [])

-- The part of a round after the second read.
finish_message : (Frame → ℕ) → ℕ → Envelope → Frame → M (Unit {0})
finish_message garbage conn envelope frame = do
  let d = envelope.delivery
  printf "Delivery %u, exchange %.*s routingkey %.*s\n"
      (num (d.delivery_tag % 2 ^ 32) ∷ bytes d.exchange ∷ bytes d.routing_key ∷ [])
  print_type envelope.content_type
  printf "----\n" []
  printf "%s" (bytes envelope.message ∷ [])
  printf "\n" []
  printf "it's ok1!\n" []
  call (basic_ack conn 1 (decoded_tag garbage frame) 0)
  call (destroy_envelope envelope)

unfoldable pub listen_loop : (Frame → ℕ) → ℕ → ℕ → M (Unit {0})
unfolding finish_message
listen_loop garbage conn zero = still_running
listen_loop garbage conn (suc rounds) = do
  call (maybe_release_buffers conn)
  printf "it's ok!\n" []
  message ← call (consume_message conn)
  if is_normal message.0
      then (call (simple_wait_frame conn) >>= λ answer.
          printf "Result %d\n" (int answer.0 ∷ [])
          >> (if is_negative answer.0
              then pure tt
              else (finish_message garbage conn message.1 answer.1
                  >> listen_loop garbage conn rounds)))
      else pure tt

unfoldable pub listenq_main : (Frame → ℕ) → ℕ → M (Unit {0})
listenq_main garbage rounds = do
  conn ← listenq_setup
  listen_loop garbage conn rounds
  shut_down conn
