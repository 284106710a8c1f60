-- ===== src/Threads.antt =====
-- The process of c/recveive/src/server.cpp: `thread_A`, which publishes while `gg_nFlags` is set, the
-- message handler of `thread_B`, which sets it and arms the alarm, and the alarm's handler
-- `OnSIGALRMHandler`, which clears it; interleaved in any order, with time in whole seconds.
-- Assumed of the system: a signal that is due is handled, and a handler of a message that has set
-- the flag reaches its `alarm(2)`, before the next second is over; a signal that was due when the
-- alarm was set anew is handled at any time after that; `sleep(2)` ends early only by the signal. The threads' library calls are taken to succeed: a refused one ends the process.
pub mod Budget
pub mod Invariant
pub mod Programs
use rabbitmq_work.Base.{ℕ, zero, suc, ◌+◌, ◌≡◌, ◌≢◌, Option, none, some, Bool, true, false, ◌||◌}

-- Where `thread_A` is: at the test of the flag, at the publish, or in `sleep` with so many seconds
-- to go.
pub data SenderPc : Type 0 where
  checking sending : SenderPc
  sleeping : ℕ → SenderPc

-- Where `thread_B` is: outside of the handler's branch, or between its assignment and its `alarm`.
pub data HandlerPc : Type 0 where
  listening raised : HandlerPc

pub record System : Type 0 where
  -- `gg_nFlags`
  pub flag : ℕ
  -- the seconds that are left to the alarm
  pub alarm : Option ℕ
  pub sender : SenderPc
  pub handler : HandlerPc
  -- how many commands came in and how many messages went out
  pub commands : ℕ
  pub published : ℕ
  -- the seconds since the last `alarm(2)`
  pub elapsed : ℕ
  -- whether a signal was still to be handled when the alarm was set anew
  pub overdue : Bool

-- A second of `sleep`.
abbrev pub doze : SenderPc → SenderPc
doze (sleeping (suc n)) = sleeping n
doze p = p

abbrev pub is_due : Option ℕ → Bool
is_due (some zero) = true
is_due _ = false

-- `main` has installed the handler and set the alarm.
abbrev pub init : System
init = record {
  flag = 0;
  alarm = some 2;
  sender = checking;
  handler = listening;
  commands = 0;
  published = 0;
  elapsed = 0;
  overdue = false;
}

pub data Step (s : System) : System → Type 0 where
  -- `if(gg_nFlags)` in `thread_A`, both ways
  see_off : s.sender ≡ checking → s.flag ≡ 0 → Step s s
  see_on : s.sender ≡ checking → s.flag ≢ 0 → Step s (record s { sender = sending })
  publish :
      s.sender ≡ sending → Step s (record s { sender = sleeping 2; published = s.published + 1 })
  wake : s.sender ≡ sleeping 0 → Step s (record s { sender = checking })
  -- a message "m" in `thread_B`
  raise :
      s.handler ≡ listening
      → Step s (record s { flag = 1; handler = raised; commands = s.commands + 1 })
  arm :
      s.handler ≡ raised
      → Step s (record s {
        alarm = some 2;
        handler = listening;
        elapsed = 0;
        overdue = s.overdue || is_due s.alarm;
      })
  -- `OnSIGALRMHandler`, on another thread or on the sleeping one
  fire : s.alarm ≡ some 0 → Step s (record s { alarm = none; flag = 0 })
  fire_awake :
      {n : ℕ}
      → s.alarm ≡ some 0
      → s.sender ≡ sleeping n
      → Step s (record s { alarm = none; flag = 0; sender = checking })
  -- the same for the signal of an earlier alarm, which leaves the new one as it is
  fire_late : s.overdue ≡ true → Step s (record s { overdue = false; flag = 0 })
  fire_late_awake :
      {n : ℕ}
      → s.overdue ≡ true
      → s.sender ≡ sleeping n
      → Step s (record s { overdue = false; flag = 0; sender = checking })
  -- a second goes by
  tick :
      {n : ℕ}
      → s.alarm ≡ some (suc n)
      → s.handler ≡ listening
      → Step s (record s { alarm = some n; sender = doze s.sender; elapsed = s.elapsed + 1 })
  tick_unarmed :
      s.alarm ≡ none
      → s.handler ≡ listening
      → Step s (record s { sender = doze s.sender; elapsed = s.elapsed + 1 })

pub data Reach : System → Type 0 where
  start : Reach init
  later : {s t : System} → Reach s → Step s t → Reach t
