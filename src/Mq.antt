-- ===== src/Mq.antt =====
-- c/recveive/src/mq.cpp, and `ReandMqMessage` of c/recveive/src/rabbitmq.cpp with its handler.
pub mod Commands
pub mod Reading
pub mod Init
use rabbitmq_work.Base.{
  ℕ, zero, String, List, [], ◌∷◌, ◌++◌, Bool, true, false, ◌&&◌, ◌==◌, if◌then◌else◌,
}
use rabbitmq_work.Amqp.{Bytes}
use rabbitmq_work.Session.{M, bytes, flagged, alarmed, pure, ◌>>=◌, ◌>>◌, emit, printf}
use rabbitmq_work.Reader.{Consumer, leave, read_loop}
use rabbitmq_work.Rabbitmq.{
  log_to_rabbitmq, declare_exchange, declare_queue, blind_exchange_queue, rabbitmq_consume,
}

-- `Mqinit`
unfoldable pub mqinit : ℕ → String → ℕ → String → String → String → String → String → String → M ℕ
mqinit channel_id host port exchange queue key exchange_type log_name log_pass_word = do
  conn ← log_to_rabbitmq channel_id host port log_name log_pass_word
  declare_exchange conn channel_id exchange exchange_type 0 0 0 0
  declare_queue conn channel_id queue 0 1 0 0
  blind_exchange_queue conn channel_id queue exchange key
  rabbitmq_consume conn channel_id queue
  pure conn

-- A buffer read as a C string: what stands before its first zero.
abbrev pub c_string : Bytes → Bytes
c_string [] = []
c_string (zero ∷ bs) = []
c_string (b ∷ bs) = b ∷ c_string bs

-- `0 == strcmp(s, "m")`, on a C string.
abbrev pub is_m : Bytes → Bool
is_m (b ∷ []) = b == b'm'
is_m _ = false

-- `HandlerMqMessage`: the buffer is the fragment and a zero. The source narrows the length to int;
-- a fragment is no longer than the frame_max of 131072 that the login asks for.
unfoldable pub handler_mq_message : Bytes → M (Unit {0})
handler_mq_message fragment = do
  let buffer : Bytes = fragment ++ 0 ∷ []
  printf "receive:%s\n" (bytes (c_string buffer) ∷ [])
  if is_m (c_string buffer)
      then (printf "message count\n" [] >> emit (flagged 1) >> emit (alarmed 2))
      else pure tt

abbrev pub receiver : Consumer
receiver = record { unexpected = leave; overlong = leave; consume = handler_mq_message }

-- `ReandMqMessage`
unfoldable pub reand_mq_message : ℕ → ℕ → ℕ → M (Unit {0})
reand_mq_message conn channel_id rounds = read_loop receiver conn channel_id rounds
