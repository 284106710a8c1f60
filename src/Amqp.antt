-- ===== src/Amqp.antt =====
-- The interface of the AMQP client library (rabbitmq-c) as the programs use it: the calls that they
-- make, with every argument that they pass, and the type of each call's result. The library itself
-- is a parameter of the model, an oracle that answers each call (`Session.Oracle`). So is the kernel,
-- for the system calls of the socket and epoll helpers, the MQTT client library and the logging
-- library.
use rabbitmq_work.Base.{ℕ, ℤ, String, List, Option, Bool}

abbrev pub Bytes : Type 0
Bytes = List ℕ

-- `amqp_rpc_reply_t.reply`, by its method id: the two that carry a code and a text, and any other id.
pub data ServerReply : Type 0 where
  connection_close : ℕ → Bytes → ServerReply
  channel_close : ℕ → Bytes → ServerReply
  other_reply : ℕ → ServerReply

-- `amqp_rpc_reply_t`, by its `reply_type`; `unlisted` is a value outside the enumeration.
pub data RpcReply : Type 0 where
  normal none_given : RpcReply
  library_exception : ℤ → RpcReply
  server_exception : ServerReply → RpcReply
  unlisted : ℕ → RpcReply

-- `amqp_basic_deliver_t`, the fields that are read.
pub record Deliver : Type 0 where
  pub delivery_tag : ℕ
  pub exchange : Bytes
  pub routing_key : Bytes

-- `amqp_method_t`: a basic.deliver with its decoded fields, or a method of another id.
pub data Method : Type 0 where
  basic_deliver : Deliver → Method
  other_method : ℕ → Method

-- `amqp_frame_t`: the channel and the payload that goes with the frame type. A header carries the
-- content type, if its flag is set, and the size of the body.
pub data Frame : Type 0 where
  method : ℕ → Method → Frame
  header : ℕ → Option Bytes → ℕ → Frame
  body : ℕ → Bytes → Frame
  other_frame : ℕ → ℕ → Frame

-- `amqp_envelope_t`, as `amqp_consume_message` fills it.
pub record Envelope : Type 0 where
  pub delivery : Deliver
  pub content_type : Option Bytes
  pub message : Bytes

-- `amqp_basic_properties_t`, the fields that are set.
pub record Properties : Type 0 where
  pub delivery_mode : ℕ

-- The handlers that the programs install: `MainProcessSigHandler` and `OnSIGALRMHandler`.
pub data Handler : Type 0 where
  to_pipe on_alarm : Handler

-- A connection, a socket or a socket object is the number that the library hands out.
pub data Call : Type 0 where
  new_connection : Call
  tcp_socket_new : ℕ → Call
  -- host and port
  open_socket : String → ℕ → Call
  socket_open : ℕ → String → ℕ → Call
  set_sockfd : ℕ → ℤ → Call
  -- connection, vhost, channel_max, frame_max, heartbeat, user and password (SASL PLAIN)
  login : ℕ → String → ℕ → ℕ → ℕ → String → String → Call
  channel_open : ℕ → ℕ → Call
  get_rpc_reply : ℕ → Call
  -- connection, channel, exchange, type, passive, durable, auto_delete, internal
  exchange_declare : ℕ → ℕ → String → String → ℕ → ℕ → ℕ → ℕ → Call
  -- connection, channel, queue, passive, durable, exclusive, auto_delete
  queue_declare : ℕ → ℕ → String → ℕ → ℕ → ℕ → ℕ → Call
  -- connection, channel, queue, exchange, routing key
  queue_bind : ℕ → ℕ → String → String → String → Call
  -- connection, channel, prefetch_size, prefetch_count, global
  basic_qos : ℕ → ℕ → ℕ → ℕ → ℕ → Call
  -- connection, channel, queue, no_local, no_ack, exclusive (the consumer tag is empty)
  basic_consume : ℕ → ℕ → String → ℕ → ℕ → ℕ → Call
  maybe_release_buffers : ℕ → Call
  simple_wait_frame : ℕ → Call
  consume_message : ℕ → Call
  destroy_envelope : Envelope → Call
  -- connection, channel, delivery tag, multiple
  basic_ack : ℕ → ℕ → ℕ → ℕ → Call
  -- connection, channel, exchange, routing key, mandatory, immediate, properties, body
  basic_publish : ℕ → ℕ → String → String → ℕ → ℕ → Option Properties → String → Call
  -- with the code AMQP_REPLY_SUCCESS
  channel_shut : ℕ → ℕ → Call
  connection_shut : ℕ → Call
  destroy_connection : ℕ → Call
  -- System calls, on file descriptors. `socket` has the type, SOCK_STREAM or SOCK_DGRAM; an address
  -- is the IP text, if there is one, and the port.
  socket : ℕ → Call
  connect : ℤ → String → ℕ → Call
  bind : ℤ → Option String → ℕ → Call
  listen : ℤ → ℕ → Call
  accept : ℤ → Call
  close : ℤ → Call
  -- descriptor and size of the buffer
  recv : ℤ → ℕ → Call
  send : ℤ → Bytes → Call
  get_flags : ℤ → Call
  set_flags : ℤ → ℤ → Call
  -- epoll descriptor, descriptor, and whether EPOLLET is set beside EPOLLIN
  epoll_add : ℤ → ℤ → Bool → Call
  epoll_del : ℤ → ℤ → Call
  -- of PF_UNIX and SOCK_STREAM
  socketpair : Call
  -- signal, handler and whether SA_RESTART is set; the mask is full
  sigaction : ℕ → Handler → Bool → Call
  -- The MQTT client library (Paho), on the client that it hands out. `mqtt_create` has the server's
  -- URI and the client id, and no persistence; the callbacks are those of mqttpublic.cpp; the
  -- connect options are the library's initial ones. A disconnect has a timeout.
  mqtt_create : String → String → Call
  mqtt_set_callbacks : ℕ → Call
  mqtt_connect : ℕ → Call
  mqtt_subscribe : ℕ → String → ℤ → Call
  mqtt_disconnect : ℕ → ℕ → Call
  mqtt_destroy : ℕ → Call
  mqtt_free_message : Bytes → Call
  mqtt_free_topic : Bytes → Call
  -- The logging library (log4cpp): `PropertyConfigurator::configure` of a file, `Category::getRoot`
  -- and `Category::getInstance` of a name, which gives a category.
  log_configure : String → Call
  log_root : Call
  log_category : String → Call
  -- `pthread_create`, by the name of the function, which is its argument too
  create_thread : String → Call

-- What a call returns, results that the programs ignore left out. With a system call's result comes
-- the value of `errno` after it, where it is read; `recv` also gives the bytes. `log_configure`
-- returns or throws (false).
abbrev pub Response : Call → Type 0
Response new_connection = ℕ
Response (tcp_socket_new _) = Option ℕ
Response (open_socket _ _) = ℤ
Response (socket_open _ _ _) = ℤ
Response (login _ _ _ _ _ _ _) = RpcReply
Response (get_rpc_reply _) = RpcReply
Response (simple_wait_frame _) = ℤ × Frame
Response (consume_message _) = RpcReply × Envelope
Response (basic_publish _ _ _ _ _ _ _ _) = ℤ
Response (channel_shut _ _) = RpcReply
Response (connection_shut _) = RpcReply
Response (destroy_connection _) = ℤ
Response (socket _) = ℤ × ℕ
Response (connect _ _ _) = ℤ × ℕ
Response (bind _ _ _) = ℤ × ℕ
Response (listen _ _) = ℤ × ℕ
Response (accept _) = ℤ
Response (recv _ _) = ℤ × Bytes × ℕ
Response (get_flags _) = ℤ
Response (set_flags _ _) = ℤ × ℕ
Response socketpair = ℤ × ℤ × ℤ
Response (sigaction _ _ _) = ℤ
Response (mqtt_create _ _) = ℕ
Response (mqtt_connect _) = ℤ
Response (log_configure _) = Bool
Response (log_category _) = ℕ
Response _ = Unit
