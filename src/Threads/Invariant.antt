-- ===== src/Threads/Invariant.antt =====
-- What holds in every reachable state of the process.
use rabbitmq_work.Base.{
  ℕ, suc, ◌+◌, ◌*◌, ◌≤◌, ◌<◌, ◌≡◌, ◌≢◌, inl, inr, refl, none, some, Option-cases, arith,
}
use rabbitmq_work.Threads.{
  System, listening, init, Step, see_off, see_on, publish, wake, raise, arm, fire, fire_awake,
  fire_late, fire_late_awake, tick, tick_unarmed, Reach, start, later,
}
use rabbitmq_work.Threads.Budget.{budget}

abbrev AlarmOf : System → Type 0
AlarmOf s = (a : ℕ) → s.alarm ≡ some a → a + s.elapsed ≡ 2

pub record Inv (s : System) : Type 0 where
  pub armed : s.handler ≡ listening → s.flag ≢ 0 → s.alarm ≢ none
  pub timed : (a : ℕ) → s.alarm ≡ some a → a + s.elapsed ≡ 2
  pub asked : s.flag ≢ 0 → 0 < s.commands
  pub bounded : s.published + budget s ≤ 2 * s.commands

init-Inv : Inv init
init-Inv = record {
  armed = λ _ h. absurd (h refl);
  timed = λ a e. ground arith;
  asked = λ h. absurd (h refl);
  bounded = omega arith;
}

Step-Inv : {s t : System} → Step s t → Inv s → Inv t
Step-Inv (see_off p f) v = v
Step-Inv {s} (see_on p f) v = record {
  armed = v.armed;
  timed = v.timed;
  asked = v.asked;
  bounded = ground (arith, v.bounded);
}
Step-Inv {s} (publish p) v = record {
  armed = v.armed;
  timed = v.timed;
  asked = v.asked;
  bounded = ground (arith, v.bounded);
}
Step-Inv {s} (wake p) v = record {
  armed = v.armed;
  timed = v.timed;
  asked = v.asked;
  bounded = ground (arith, v.bounded);
}
Step-Inv {s} (raise p) v = record {
  armed = λ e. cc;
  timed = v.timed;
  asked = λ _. omega arith;
  bounded = ground (arith, v.bounded);
}
Step-Inv {s} (arm p) v = record {
  armed = λ _ _. λ e. cc;
  timed = λ a e. ground arith;
  asked = v.asked;
  bounded = ground (arith, v.bounded);
}
Step-Inv {s} (fire p) v = record {
  armed = λ _ h. absurd (h refl);
  timed = λ a e. cc;
  asked = λ h. absurd (h refl);
  bounded = ground (arith, v.bounded);
}
Step-Inv {s} (fire_awake p q) v = record {
  armed = λ _ h. absurd (h refl);
  timed = λ a e. cc;
  asked = λ h. absurd (h refl);
  bounded = ground (arith, v.bounded);
}
Step-Inv {s} (fire_late p) v = record {
  armed = λ _ h. absurd (h refl);
  timed = v.timed;
  asked = λ h. absurd (h refl);
  bounded = ground (arith, v.bounded);
}
Step-Inv {s} (fire_late_awake p q) v = record {
  armed = λ _ h. absurd (h refl);
  timed = v.timed;
  asked = λ h. absurd (h refl);
  bounded = ground (arith, v.bounded);
}
Step-Inv {s} (tick {n} p q) v = record {
  armed = λ _ _. λ e. cc;
  timed = λ a e. ground (arith, v.timed (suc n) p);
  asked = v.asked;
  bounded = ground (arith, v.bounded);
}
Step-Inv {s} (tick_unarmed p q) v = record {
  armed = v.armed;
  timed = λ a e. cc;
  asked = v.asked;
  bounded = ground (arith, v.bounded);
}

pub Reach-Inv : {s : System} → Reach s → Inv s
Reach-Inv start = init-Inv
Reach-Inv (later r st) = Step-Inv st (Reach-Inv r)

-- In every reachable state at most two messages have been published for each command received.
pub published_le : (s : System) → Reach s → s.published ≤ 2 * s.commands
published_le s r = omega (arith, (Reach-Inv r).bounded)

-- In every reachable state in which the message handler is not in between its two statements and
-- more than two seconds have passed since the alarm was last set, the flag is down.
pub flag_down : (s : System) → Reach s → s.handler ≡ listening → 2 < s.elapsed → s.flag ≡ 0
flag_down s r e late = elim (Option-cases s.alarm) [
  | inl unarmed ↦ grind (arith, (Reach-Inv r).armed e)
  | inr (a, armed) ↦ absurd (omega (arith, (Reach-Inv r).timed a armed))
]
