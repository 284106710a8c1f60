-- ===== src/Tests.antt =====
-- Runs of the clients against a library that has one message, and the theorems at that library.
mod Process
mod Memory
mod Programs
mod Helpers
mod Queues
use rabbitmq_work.Base.{
  ℕ, zero, suc, ◌≤◌, ◌≡◌, ◌≢◌, ◌⊎◌, refl, arith, ℤ, pos, negsuc, List, [], ◌∷◌, none, some, true,
  false, ◌==◌, if◌then◌else◌, is_negative,
}
use rabbitmq_work.Amqp.{
  Frame, method, header, body, other_frame, basic_deliver, Deliver, Envelope, normal, none_given,
  Call, Response, new_connection, tcp_socket_new, open_socket, socket_open, login, get_rpc_reply,
  simple_wait_frame, consume_message, basic_publish, channel_shut, connection_shut,
  destroy_connection, socket, connect, bind, listen, accept, recv, get_flags, set_flags, socketpair,
  sigaction, mqtt_create, mqtt_connect, log_configure, log_category,
}
use rabbitmq_work.Session.{Log, Oracle, ok, exited, aborted, printed, bytes, alarmed, flagged}
use rabbitmq_work.Script.{transcript, AllAccepted}
use rabbitmq_work.Script.Laws.{Stops}
use rabbitmq_work.Reader.Monitor.{idle, stopped, violated, phase_of, waits}
use rabbitmq_work.Reader.Ends.{RunsDry}
use rabbitmq_work.Mq
use rabbitmq_work.Mq.Reading.{reand_mq_message_order, reand_mq_message_returns}
use rabbitmq_work.Mq.Init.{mqinit_lem, script}
use rabbitmq_work.Rabbitmq.Setup.{connection_of}
use rabbitmq_work.Reader.{read_loop}
use rabbitmq_work.Clients.Exchange.{exchange_consumer}
use rabbitmq_work.Clients.Send.Once.{send_demo, main_of, client_script, main_of_lem}
use rabbitmq_work.Clients.Listenq.{listenq_main, is_normal}
use rabbitmq_work.Clients.Listenq.Counts.{asked, Settled}
use rabbitmq_work.Clients.Listenq.Whole.{listenq_main-Settled, listenq_main_ends}
use rabbitmq_work.Sender
use rabbitmq_work.Sender.Same.{reand_mq_message-order, server_script, server_main_lem}
use rabbitmq_work.Mq.Commands.{IsCommand, handler_mq_message_lem}

abbrev delivery : Deliver
delivery = record { delivery_tag = 5; exchange = []; routing_key = b'B' ∷ [] }

-- A message "m" in one body frame, and then the connection is closed.
abbrev frame_at : ℕ → ℤ × Frame
frame_at zero = (pos 0, method 1 (basic_deliver delivery))
frame_at (suc zero) = (pos 0, header 1 none 1)
frame_at (suc (suc zero)) = (pos 0, body 1 (b'm' ∷ []))
frame_at _ = (negsuc 6, other_frame 8 0)

abbrev envelope : Envelope
envelope = record { delivery = delivery; content_type = none; message = b'm' ∷ [] }

abbrev pub library : Oracle
library l new_connection = 7
library l (tcp_socket_new _) = some 1
library l (open_socket _ _) = pos 3
library l (socket_open _ _ _) = pos 0
library l (login _ _ _ _ _ _ _) = normal
library l (get_rpc_reply _) = normal
library l (simple_wait_frame _) = frame_at (waits l)
library l (consume_message _) = (normal, envelope)
library l (basic_publish _ _ _ _ _ _ _ _) = pos 0
library l (channel_shut _ _) = normal
library l (connection_shut _) = normal
library l (destroy_connection _) = pos 0
library l (socket _) = (pos 4, 0)
library l (connect _ _ _) = (negsuc 0, 111)
library l (bind _ _ _) = (negsuc 0, 98)
library l (listen _ _) = (pos 0, 0)
library l (accept _) = pos 5
library l (recv _ _) = (negsuc 0, [], 104)
library l (get_flags _) = pos 2
library l (set_flags _ _) = (pos 0, 0)
library l socketpair = (pos 0, pos 8, pos 9)
library l (sigaction _ _ _) = pos 0
library l (mqtt_create _ _) = 3
library l (mqtt_connect _) = pos 0
library l (log_configure _) = true
library l (log_category _) = 6
library l _ = tt

frame_at-dry : (n : ℕ) → 3 ≤ n → is_negative (frame_at n).0 ≡ true
frame_at-dry zero h = absurd (omega arith)
frame_at-dry (suc zero) h = absurd (omega arith)
frame_at-dry (suc (suc zero)) h = absurd (omega arith)
frame_at-dry (suc (suc (suc n))) h = refl

pub library-dry : RunsDry library 7 3
library-dry l h = frame_at-dry (waits l) h

reand_mq_message_order_example : phase_of 7 1 (Mq.reand_mq_message 7 1 2 library []).1 ≢ violated
reand_mq_message_order_example = reand_mq_message_order 7 1 2 library [] refl

reand_mq_message_returns_example :
    let r = Mq.reand_mq_message 7 1 4 library [] in (r.0 ≡ ok tt) × (phase_of 7 1 r.1 ≡ stopped)
reand_mq_message_returns_example =
    reand_mq_message_returns 7 1 4 3 library [] library-dry (omega arith) refl

mqinit_lem_example :
    let s = script 1 "localhost" 5672 "test1" "test1" "test1" "direct" "guest" "guest" library [] in
    let r =
      Mq.mqinit 1 "localhost" 5672 "test1" "test1" "test1" "direct" "guest" "guest" library [] in
    (AllAccepted library s [] × (r ≡ (ok (connection_of library []), transcript library s [])))
    ⊎ Stops library s [] r
mqinit_lem_example =
    mqinit_lem 1 "localhost" 5672 "test1" "test1" "test1" "direct" "guest" "guest" library []

handler_mq_message_example :
    let received = printed "receive:%s\n" (bytes (b'm' ∷ []) ∷ []) ∷ [] in
    (IsCommand (b'm' ∷ [])
      × (Mq.handler_mq_message (b'm' ∷ []) library []
          ≡ (ok tt, alarmed 2 ∷ flagged 1 ∷ printed "message count\n" [] ∷ received)))
    ⊎ ((¬ IsCommand (b'm' ∷ []))
        × (Mq.handler_mq_message (b'm' ∷ []) library [] ≡ (ok tt, received)))
handler_mq_message_example = handler_mq_message_lem (b'm' ∷ []) library []

main_of_example :
    let s = client_script library [] send_demo in
    let r = main_of send_demo library [] in
    (AllAccepted library s [] × (r ≡ (ok tt, transcript library s []))) ⊎ Stops library s [] r
main_of_example = main_of_lem library [] send_demo

abbrev no_garbage : Frame → ℕ
no_garbage f = 0

-- The message came by delivery 5, the frame after it brings delivery 5 again; and then no more.
abbrev one_message : Oracle
one_message l (consume_message conn) = (if asked l == 0 then normal else none_given, envelope)
one_message l c = library l c

one_message_dry : (n : ℕ) → 1 ≤ n → is_normal (if n == 0 then normal else none_given) ≡ false
one_message_dry n h = ground arith

listenq_main-Settled_example : Settled no_garbage (listenq_main no_garbage 2 one_message []).1
listenq_main-Settled_example =
    listenq_main-Settled no_garbage one_message 2 []
      (record { acked = refl; freed = refl; balanced = refl })

listenq_main_ends_example :
    let r = (listenq_main no_garbage 2 one_message []).0 in (r ≡ ok tt) ⊎ (r ≡ exited 1)
listenq_main_ends_example =
    listenq_main_ends no_garbage one_message 2 [] 1 (λ l h. one_message_dry (asked l) h)
      (omega arith)

server_main_example :
    let s = server_script library [] in
    let r = Sender.server_main library [] in
    (AllAccepted library s [] × (r ≡ (ok tt, transcript library s []))) ⊎ Stops library s [] r
server_main_example = server_main_lem library []
