-- ===== src/Reader/Results.antt =====
-- The two views of the read loop together, for a client that is a `Consumer`.
use rabbitmq_work.Base.{ℕ, ◌-◌, ◌<◌, ◌≡◌, ◌≢◌, ◌⊎◌, inl, inr, refl}
use rabbitmq_work.Session.{Log, Oracle, Outcome, ok, exited, aborted, running}
use rabbitmq_work.Reader.{Consumer, read_loop}
use rabbitmq_work.Reader.Monitor.{Phase, idle, stopped, violated, phase_of, waits}
use rabbitmq_work.Reader.Body.{IsQuiet, MayCrash}
use rabbitmq_work.Reader.Order.{LoopEnd, read_loop-LoopEnd}
use rabbitmq_work.Reader.Ends.{RunsDry, Ended, read_loop-Ended}

-- The loop is over, and nothing may follow on the channel.
abbrev pub Over : Consumer → Outcome (Unit {0}) → Phase → Type 0
Over c r p = ((r ≡ ok tt) ⊎ ((r ≡ aborted) × MayCrash c)) × (p ≡ stopped)

LoopEnd-ne-violated :
    (c : Consumer) (r : Outcome (Unit {0})) (p : Phase) → LoopEnd c r p → p ≢ violated
LoopEnd-ne-violated c (ok _) p h = λ e. cc
LoopEnd-ne-violated c (exited n) p h = absurd h
LoopEnd-ne-violated c aborted p h = λ e. cc (h.0)
LoopEnd-ne-violated c running p h = h

Over-of_Ended :
    (c : Consumer) (w : ℕ) (r : Outcome (Unit {0})) (l : Log) (p : Phase)
    → LoopEnd c r p
    → Ended w (r, l)
    → Over c r p
Over-of_Ended c w (ok _) l p h e = (inl refl, h)
Over-of_Ended c w (exited n) l p h e = absurd h
Over-of_Ended c w aborted l p h e = (inr (refl, h.1), h.0)
Over-of_Ended c w running l p h e = absurd e

module _ (c : Consumer) (quiet : IsQuiet c) (conn ch rounds : ℕ) (o : Oracle) (l : Log) where
  pub read_loop-ne-violated :
      phase_of conn ch l ≡ idle → phase_of conn ch (read_loop c conn ch rounds o l).1 ≢ violated
  read_loop-ne-violated p =
      LoopEnd-ne-violated c (read_loop c conn ch rounds o l).0 _
        (read_loop-LoopEnd c quiet conn ch o rounds l p)

  pub read_loop-Over :
      {n : ℕ}
      → RunsDry o conn n
      → n - waits l < rounds
      → phase_of conn ch l ≡ idle
      → let r = read_loop c conn ch rounds o l in Over c r.0 (phase_of conn ch r.1)
  read_loop-Over {n} dry enough p =
      Over-of_Ended c (waits l) (read_loop c conn ch rounds o l).0
        (read_loop c conn ch rounds o l).1 _ (read_loop-LoopEnd c quiet conn ch o rounds l p)
        (read_loop-Ended c quiet conn n o dry ch rounds l enough)
