-- ===== src/Threads/Budget.antt =====
-- How many messages the sender can still publish if no further command comes in.
use rabbitmq_work.Base.{ℕ, ◌+◌, ◌-◌, ◌/◌, leb, ◌==◌, Option, none, some, if◌then◌else◌}
use rabbitmq_work.Threads.{
  System, SenderPc, checking, sending, sleeping, HandlerPc, listening, raised,
}

-- The seconds for which a raised flag may stay: the alarm's, or two if it is about to be armed.
abbrev pub left_of : HandlerPc → Option ℕ → ℕ
left_of raised _ = 2
left_of listening (some a) = a
left_of listening none = 0

-- With the flag raised for another `a` seconds, and with the flag down.
abbrev pub budget_on : SenderPc → ℕ → ℕ
budget_on checking a = 1 + a / 2
budget_on sending a = 1 + a / 2
budget_on (sleeping n) a = if leb n a then 1 + (a - n) / 2 else 0

abbrev pub budget_off : SenderPc → ℕ
budget_off sending = 1
budget_off _ = 0

abbrev pub budget : System → ℕ
budget s =
    if s.flag == 0 then budget_off s.sender else budget_on s.sender (left_of s.handler s.alarm)
