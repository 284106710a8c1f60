-- ===== src/Lib.antt =====
-- The AMQP clients of this repository: small programs on the library rabbitmq-c that declare,
-- bind, subscribe, read, acknowledge and publish, and the socket, signal and epoll helpers that
-- lie beside them.
--
-- The parts and their files:
--   Session.antt      how a program runs: a monad over the transcript of everything it did.
--                     The library's and the kernel's answers are an oracle, a function of the
--                     transcript and the call, and every theorem holds for each such oracle.
--   Amqp.antt         the calls and the types of their results.
--   Utils.antt        die, die_on_error, die_on_amqp_error of c/recveive/src/utils.cpp;
--                     Utils/Dump.antt has its amqp_dump, Utils/Dump/Reading.antt a reader of what
--                     that prints.
--   Script.antt       a protocol sequence as data: calls, some of them checked; Script/Laws.antt
--                     is about how a script runs and where it stops, Script/Silent.antt about
--                     scripts and the protocol monitor, Script/Kept.antt about what holds all through.
--   Rabbitmq.antt     c/recveive/src/rabbitmq.cpp: LogToRabbitmq, DeclareExchange, DeclareQueue,
--                     BlindExchangeQueue, RabbitmqConsume, MqMessagePublish; as scripts in
--                     Rabbitmq/Setup.antt.
--   Reader.antt       the read loop ReandMqMessage, whose five copies differ in how they leave it
--                     and in what they do with a fragment (a Consumer). Reader/Monitor.antt is
--                     the protocol monitor that the loop is held against; Reader/Body.antt and
--                     Reader/Order.antt are about the order, Reader/Ends.antt about the end of the loop,
--                     Reader/Closed.antt both for a program that sets up, reads and closes;
--                     Reader/Kept.antt is about what holds all through such a program.
--   Mq.antt           c/recveive/src/mq.cpp: Mqinit and HandlerMqMessage.
--   Sender.antt       c/send/src (c/back/src is a copy): its rabbitmq.cpp, mq.cpp, server.cpp.
--   Server.antt       main and the two threads of c/recveive/src/server.cpp as programs;
--                     Server/Process.antt is about main, Server/Order.antt about thread_B from its
--                     login to its end and Server/Asking.antt about the commands it reads,
--                     Server/Sending.antt and Server/Posts.antt about thread_A and what it publishes.
--   Threads.antt      the process of c/recveive/src/server.cpp: the threads, the flag and the
--                     alarm as a step relation. Threads/Programs.antt relates the two programs to it.
--   Clients.antt      the stand-alone mains: exchange/src/amqp_exchange_declare.cpp,
--                     receive_demo/src/receive_demo.cpp, send/src/send.cpp,
--                     send_demo/src/send_demo.cpp, its draft send_demo/send_demo.cpp, and
--                     receive/src/amqp_listenq.cpp; Closing.antt is how they all end.
--                     Clients/Exchange/Whole.antt, Clients/Demo/Whole.antt and
--                     Clients/Listenq/Whole.antt are about those mains from login to end,
--                     Clients/Send/Once.antt about the ones that publish.
--   Ipv4socket.antt   c/recveive/src/IPv4socket.cpp.
--   Signals.antt      c/recveive/src/signal.cpp, the signal pipe and, in Signals/Install.antt, its
--                     set-up.
--   Epoll.antt        c/recveive/src/epoll.cpp, the loops lt and et. Epoll/Kept.antt and
--                     Epoll/Edge.antt are about what the loops keep, Epoll/Registered.antt about the
--                     end of lt, Epoll/Draining.antt and Epoll/Leaving.antt about that of et.
--   Mqtt.antt         work/src/mqtt and work/src/core/main.cpp, on an MQTT client library.
--   Logging.antt      log4cpp/src (and work/src/log, work/src/log4cpp): LogUtil, the macros of log.h
--                     and the main that logs, on the calls of the library log4cpp;
--                     Logging/Current.antt is about where a message goes.
--   Queue.antt        nginx/src/ngx_queue.h and ngx_queue.c: circular linked lists on a store of
--                     links. Queue/Chain.antt says what list of nodes a store holds, and
--                     Queue/Writes.antt that each macro makes links one after the other;
--                     Insertion, Removal, Joining, Middle and Sorting are about the operations,
--                     with Order, Placing and Rounds as the steps of the sort and Reference as
--                     the sort on lists; Uses is about any sequence of them, with Search for where
--                     a node stands. It stands by itself, as the pools do.
--   Pool.antt         nginx/src/ngx_palloc.c and ngx_alloc.c: memory pools. Pool/Alloc.antt has the
--                     operations, Pool/Grants.antt, Moves.antt and Apart.antt the lemmas on a
--                     chain of blocks, Pool/Sound.antt the invariant, Pool/Runs.antt a new block,
--                     Pool/Small.antt one allocation, Pool/Current.antt where the search begins,
--                     Pool/Reset.antt ngx_reset_pool, and Pool/Ledger.antt, Cells.antt, Balance.antt
--                     and Life.antt the memory that a pool owes. Pool/Tidy.antt is about what the
--                     C library has allocated, and Pool/Live.antt, with a module for each kind of
--                     operation, about the regions in the caller's hands through any sequence of
--                     calls, with Pool/Live/Destroy.antt on ngx_destroy_pool at the end of them.
--                     Pool/Cyclic.antt is about the list of cleanups, which ngx_reset_pool keeps
--                     while it gives the memory of its cells back, Pool/Endless.antt
--                     about a pool too small for a list cell, and Pool/Content.antt is ngx_pcalloc
--                     and ngx_calloc on the bytes of the memory.
--                     It stands by itself: no client allocates from a pool.
--   Base.antt         the shared names; Tests.antt runs at a concrete library and kernel.
--
-- Functions keep their names in lower case (ReandMqMessage is reand_mq_message). A C int is an
-- integer ℤ, a size or a count a natural number; body_received wraps at 2 ^ 64. printf and stderr
-- are events with the format and its arguments. The loops of the sources have no bound of their
-- own: each takes a number of rounds, and a run that uses them up is `running`. For the read loops
-- n + 1 rounds are enough where the reads fail from the n-th on (for amqp_listenq: where no
-- message comes from the n-th on); for the loops of a queue, as many as it has nodes; for the walk of
-- ngx_destroy_pool over the cleanups, as many as there were calls, when no ngx_reset_pool came after
-- a cleanup. ngx_palloc and ngx_palloc_large call each other to a depth that is passed: depth 1
-- is enough for sizes up to max, and depth 2 for all sizes in a pool whose max is 16 or more.
--
-- Not modelled: rabbitmq-c-master, a copy of the library, whose calls are answered by the oracle;
-- the Python and shell scripts; of nginx/src, the headers that configure the compiler or stand for
-- the platform, with the atomic operations, which no source of the repository calls.
-- What a caller writes over a list cell that
-- ngx_reset_pool gave back is not modelled: the cell keeps its contents until a new one is at its
-- address. The length of a fragment is not narrowed to int in HandlerMqMessage: frame_max bounds it.
-- In the clients malloc is taken to succeed, and a text printed by %s to be what the program put
-- into the buffer.
pub mod Base
pub mod Amqp
pub mod Session
pub mod Utils
pub mod Script
pub mod Rabbitmq
pub mod Mq
pub mod Closing
pub mod Clients
pub mod Sender
pub mod Server
pub mod Threads
pub mod Ipv4socket
pub mod Signals
pub mod Epoll
pub mod Tests
pub mod Reader
pub mod Pool
pub mod Mqtt
pub mod Logging
pub mod Queue
