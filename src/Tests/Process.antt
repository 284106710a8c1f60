-- ===== src/Tests/Process.antt =====
-- The theorems about the threads, the sockets, the signals and the event loops at concrete runs.
use rabbitmq_work.Base.{
  List, ℕ, ◌⊎◌, ◌*◌, ◌≤◌, ◌≡◌, ◌≢◌, refl, arith, pos, negsuc, [], ◌∷◌, ◌++◌, none, some, true,
  false,
}
use rabbitmq_work.Amqp.{
  other_frame, normal, recv, new_connection, tcp_socket_new, open_socket, socket_open, login,
  get_rpc_reply, simple_wait_frame, consume_message, basic_publish, channel_shut, connection_shut,
  destroy_connection, socket, connect, bind, listen, accept, get_flags, set_flags, socketpair,
  sigaction, mqtt_create, mqtt_connect, log_configure, log_category,
}
use rabbitmq_work.Session.{Oracle, ok, running, called}
use rabbitmq_work.Tests.{library}
use rabbitmq_work.Threads.{
  System, init, Reach, start, later, see_on, publish, wake, raise, arm, fire, tick, tick_unarmed,
  sleeping, listening,
}
use rabbitmq_work.Script.{transcript, AllAccepted}
use rabbitmq_work.Script.Laws.{Stops}
use rabbitmq_work.Server.{thread_a, thread_b}
use rabbitmq_work.Rabbitmq.{
  log_to_rabbitmq, declare_exchange, declare_queue, blind_exchange_queue, rabbitmq_consume,
}
use rabbitmq_work.Reader.{read_loop, read_body, take_fragment, take_header, take_first}
use rabbitmq_work.Mq.{reand_mq_message, handler_mq_message}
use rabbitmq_work.Closing.{shut_down}
use rabbitmq_work.Utils.{die_on_error, die_on_amqp_error, die}
use rabbitmq_work.Server.Sending.{after_greeting, sender_script, thread_a_lem}
use rabbitmq_work.Server.Posts.{publishes}
use rabbitmq_work.Server.Asking.{commands, raises}
use rabbitmq_work.Threads.Programs.{publishes_le}
use rabbitmq_work.Threads.Invariant.{published_le, flag_down}
use rabbitmq_work.Ipv4socket.{
  minus_one, creat_ipv4_tcp_cleint_socket, creat_ipv4_tcp_server_socket, creat_ipv4_udp_socket,
}
use rabbitmq_work.Ipv4socket.Descriptors.{
  Balanced, cleint_socket-Balanced, Holds, server_sockets_keep,
}
use rabbitmq_work.Signals.{main_process_signal_processing, main_process_sig_handler}
use rabbitmq_work.Signals.Pipe.{announcement, last_sent, signal_round_trip}
use rabbitmq_work.Epoll.{Ready, lt, et, et_read}
use rabbitmq_work.Epoll.Registered.{IsClean, lt-Finished}
use rabbitmq_work.Epoll.Kept.{Finished}
use rabbitmq_work.Epoll.Draining.{et_read_spins}
use rabbitmq_work.Epoll.Leaving.{Left, et-Left}

-- A command, two messages while the flag is up, and the alarm.
abbrev after_two : System
after_two = record {
  flag = 1;
  alarm = some 0;
  sender = sleeping 2;
  handler = listening;
  commands = 1;
  published = 2;
  elapsed = 2;
  overdue = false;
}

flag_up : ◌≢◌ {A = ℕ} 1 0
flag_up = λ e. cc

abbrev after_two-reached : Reach after_two
after_two-reached =
    later
      (later
        (later
          (later
            (later
              (later (later (later (later start (raise refl)) (arm refl)) (see_on refl flag_up))
                (publish refl))
              (tick refl refl))
            (tick refl refl))
          (wake refl))
        (see_on refl flag_up))
      (publish refl)

published_le_example : 2 ≤ 2 * 1
published_le_example = published_le after_two after_two-reached

-- The one command that the library has.
library-raises : 1 ≡ raises (thread_b 2 library []).1
unfolding thread_b log_to_rabbitmq declare_exchange declare_queue blind_exchange_queue
    rabbitmq_consume reand_mq_message read_loop read_body take_fragment take_header take_first
    handler_mq_message shut_down die_on_error die_on_amqp_error die
library-raises = refl

publishes_le_example :
    publishes (thread_a (λ i. 1) 2 library []).1 ≤ 2 * commands (thread_b 2 library []).1
publishes_le_example =
    publishes_le (λ i. 1) library library 2 after_two after_two-reached (refl, (refl, tt))
      library-raises

thread_a_example :
    let flags = λ (i : ℕ). i in
    let s = sender_script flags 3 library [] in
    let l = after_greeting flags 3 library [] in
    let r = thread_a flags 3 library [] in
    (AllAccepted library s l × (r ≡ (running, transcript library s l))) ⊎ Stops library s l r
thread_a_example = thread_a_lem (λ i. i) 3 library []

-- Two seconds and the alarm, with no command.
abbrev after_alarm : System
after_alarm = record init { alarm = none; elapsed = 3 }

after_alarm-reached : Reach after_alarm
after_alarm-reached =
    later (later (later (later start (tick refl refl)) (tick refl refl)) (fire refl))
      (tick_unarmed refl refl)

flag_down_example : after_alarm.flag ≡ 0
flag_down_example = flag_down after_alarm after_alarm-reached refl (omega arith)

cleint_socket-Balanced_example :
    Balanced [] (creat_ipv4_tcp_cleint_socket "127.0.0.1" 5672 library [])
cleint_socket-Balanced_example = cleint_socket-Balanced "127.0.0.1" 5672 library []

-- Its sockets are descriptor 4, and it refuses to bind them: both stay open behind a -1.
server_sockets_keep_example :
    Holds (pos 4) minus_one [] (creat_ipv4_tcp_server_socket none 5672 5 library [])
    × Holds (pos 4) minus_one [] (creat_ipv4_udp_socket none 5672 library [])
server_sockets_keep_example = server_sockets_keep none 5672 library [] 5

-- A kernel that hands over the byte that was written last, and then nothing.
abbrev echo : Oracle
echo l (recv _ _) = (pos 1, last_sent l, 0)
echo l new_connection = 7
echo l (tcp_socket_new _) = some 1
echo l (open_socket _ _) = pos 3
echo l (socket_open _ _ _) = pos 0
echo l (login _ _ _ _ _ _ _) = normal
echo l (get_rpc_reply _) = normal
echo l (simple_wait_frame _) = (negsuc 0, other_frame 8 0)
echo l (consume_message _) = library l (consume_message 7)
echo l (basic_publish _ _ _ _ _ _ _ _) = pos 0
echo l (channel_shut _ _) = normal
echo l (connection_shut _) = normal
echo l (destroy_connection _) = pos 0
echo l (socket _) = (pos 4, 0)
echo l (connect _ _ _) = (pos 0, 0)
echo l (bind _ _ _) = (pos 0, 0)
echo l (listen _ _) = (pos 0, 0)
echo l (accept _) = pos 5
echo l (get_flags _) = pos 2
echo l (set_flags _ _) = (pos 0, 0)
echo l socketpair = (pos 0, pos 8, pos 9)
echo l (sigaction _ _ _) = pos 0
echo l (mqtt_create _ _) = 3
echo l (mqtt_connect _) = pos 0
echo l (log_configure _) = true
echo l (log_category _) = 6
echo l _ = tt

signal_round_trip_example :
    let sent = (main_process_sig_handler (pos 5) 10 echo []).1 in
    main_process_signal_processing (pos 4) echo sent ≡ (
      ok none,
      announcement 10 ++ called (recv (pos 4) 1024) (echo sent (recv (pos 4) 1024)) ∷ sent,
    )
signal_round_trip_example = signal_round_trip (pos 5) (pos 4) 10 echo [] (omega arith) refl

lt-Finished_example : Finished (IsClean (pos 9)) (
    lt
      (pos 4)
      (pos 9)
      (pos 3)
      (record { fd = pos 3; readable = true; hung_up = false }
        ∷ record { fd = pos 5; readable = true; hung_up = true }
        ∷ [])
      library
      [])
lt-Finished_example =
    lt-Finished (pos 9) library (pos 4) (pos 3)
      (record { fd = pos 3; readable = true; hung_up = false }
        ∷ record { fd = pos 5; readable = true; hung_up = true }
        ∷ [])
      [] tt

-- The connection 5 has failed, which its data say; 6 is hung up.
abbrev stirring : List Ready
stirring =
    record { fd = pos 5; readable = true; hung_up = false }
    ∷ record { fd = pos 6; readable = true; hung_up = true }
    ∷ []

et-Left_example : Left (pos 9) (pos 3) stirring (et 3 (pos 9) (pos 3) stirring library [])
et-Left_example = et-Left (pos 9) (pos 3) library 3 stirring [] tt

-- The echoing kernel never fails; nor would one whose peer has closed.
et_read_spins_example : (et_read (pos 9) (pos 5) 100 echo []).0 ≡ running
et_read_spins_example = et_read_spins (pos 9) (pos 5) echo (λ l. tt) 100 []
