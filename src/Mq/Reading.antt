-- ===== src/Mq/Reading.antt =====
-- `ReandMqMessage` of c/recveive/src/rabbitmq.cpp against the monitor of `Reader.Monitor`.
use rabbitmq_work.Base.{ℕ, ◌-◌, ◌<◌, ◌≡◌, ◌≢◌, inl, inr}
use rabbitmq_work.Session.{Log, Oracle, Outcome, ok}
use rabbitmq_work.Reader.Monitor.{Phase, idle, stopped, violated, phase_of, waits}
use rabbitmq_work.Reader.Ends.{RunsDry}
use rabbitmq_work.Reader.Results.{Over, read_loop-ne-violated, read_loop-Over}
use rabbitmq_work.Mq.{receiver, reand_mq_message}
use rabbitmq_work.Mq.Commands.{receiver-IsQuiet}

-- However long the loop runs and whatever the library answers, a frame is read only when no ack is
-- due, an ack is sent only for the delivery whose whole body has just been read, once and on its
-- channel, and nothing is read or acknowledged after a failed read, a misplaced frame or too long a
-- body.
pub reand_mq_message_order :
    (conn ch rounds : ℕ) (o : Oracle) (l : Log)
    → phase_of conn ch l ≡ idle
    → phase_of conn ch (reand_mq_message conn ch rounds o l).1 ≢ violated
unfolding reand_mq_message
reand_mq_message_order conn ch rounds o l p =
    read_loop-ne-violated receiver receiver-IsQuiet conn ch rounds o l p

returned : (r : Outcome (Unit {0})) (p : Phase) → Over receiver r p → (r ≡ ok tt) × (p ≡ stopped)
returned r p (inl e, s) = (e, s)
returned r p (inr (e, inl h), s) = cc
returned r p (inr (e, inr h), s) = cc

-- Once the library's reads fail from the `n`th on, `n + 1` rounds are enough: the loop returns, and
-- what it leaves behind is a stopped channel with no ack due.
pub reand_mq_message_returns :
    (conn ch rounds n : ℕ) (o : Oracle) (l : Log)
    → RunsDry o conn n
    → n - waits l < rounds
    → phase_of conn ch l ≡ idle
    → let r = reand_mq_message conn ch rounds o l in
      (r.0 ≡ ok tt) × (phase_of conn ch r.1 ≡ stopped)
unfolding reand_mq_message
reand_mq_message_returns conn ch rounds n o l dry enough p =
    returned (reand_mq_message conn ch rounds o l).0 _
      (read_loop-Over receiver receiver-IsQuiet conn ch rounds o l dry enough p)
