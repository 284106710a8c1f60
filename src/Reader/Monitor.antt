-- ===== src/Reader/Monitor.antt =====
-- What a consumer owes the broker, as a monitor over the transcript: it follows the frames that were
-- read and the acks that were sent on one channel, with no reference to the read loop's code.
use rabbitmq_work.Base.{
  ℕ, suc, ◌+◌, ◌%◌, ◌^◌, ◌<◌, ◌≡◌, arith, [], ◌∷◌, Bool, length, ltb, ◌==◌, ◌&&◌, if◌then◌else◌,
  is_negative,
}
use rabbitmq_work.Amqp.{Frame, method, header, body, basic_deliver, simple_wait_frame, basic_ack}
use rabbitmq_work.Session.{Event, Log, called}

-- `complete tag`: all of the message came in, and its ack is due. `stopped`: a read failed, or a
-- frame came that has no place there; nothing may be read or acknowledged any more. `violated`: a
-- frame was read while an ack was due or after a stop, or an ack was sent that was not due.
pub data Phase : Type 0 where
  idle : Phase
  delivered : ℕ → Phase
  receiving : ℕ → ℕ → ℕ → Phase
  complete : ℕ → Phase
  stopped violated : Phase

-- Of a body of `size` bytes, `n` came in.
abbrev pub weigh : ℕ → ℕ → ℕ → Phase
weigh tag size n =
    if n == size then complete tag else if ltb size n then stopped else receiving tag size n

abbrev pub after_frame : Phase → Frame → Phase
after_frame idle (method _ (basic_deliver d)) = delivered d.delivery_tag
after_frame idle _ = idle
after_frame (delivered tag) (header _ _ size) = weigh tag size 0
after_frame (delivered tag) _ = stopped
after_frame (receiving tag size n) (body _ fragment) =
    weigh tag size ((n + length fragment) % 2 ^ 64)
after_frame (receiving tag size n) _ = stopped
after_frame (complete tag) _ = violated
after_frame stopped _ = violated
after_frame violated _ = violated

abbrev pub after_failure : Phase → Phase
after_failure (complete tag) = violated
after_failure stopped = violated
after_failure violated = violated
after_failure _ = stopped

-- Only the delivery that is complete is acknowledged, alone, on its channel.
abbrev pub after_ack : Phase → Bool → ℕ → Phase
after_ack (complete tag) single tag' = if single && (tag == tag') then idle else violated
after_ack _ single tag' = violated

abbrev pub advance : ℕ → ℕ → Phase → Event → Phase
advance conn ch p (called (simple_wait_frame _) answer) =
    if is_negative answer.0 then after_failure p else after_frame p answer.1
advance conn ch p (called (basic_ack conn' ch' tag multiple) _) =
    after_ack p ((conn == conn') && (ch == ch') && (multiple == 0)) tag
advance conn ch p _ = p

abbrev pub phase_of : ℕ → ℕ → Log → Phase
phase_of conn ch [] = idle
phase_of conn ch (e ∷ l) = advance conn ch (phase_of conn ch l) e

pub weigh_over : (tag size n : ℕ) → size < n → weigh tag size n ≡ stopped
weigh_over tag size n h = ground arith

pub weigh_under : (tag size n : ℕ) → n < size → weigh tag size n ≡ receiving tag size n
weigh_under tag size n h = ground arith

-- How many frames were asked for.
abbrev pub waits : Log → ℕ
waits [] = 0
waits (called (simple_wait_frame _) _ ∷ l) = suc (waits l)
waits (_ ∷ l) = waits l
