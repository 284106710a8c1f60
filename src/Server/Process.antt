-- ===== src/Server/Process.antt =====
-- `main` of c/recveive/src/server.cpp, and the state of the process that `Threads` starts from.
use Prim.Native.String.{String}
use rabbitmq_work.Base.{ℕ, ◌≡◌, List, [], ◌∷◌, Option, none, some}
use rabbitmq_work.Amqp.{on_alarm, create_thread}
use rabbitmq_work.Session.{Log, Oracle, called, flagged, alarmed}
use rabbitmq_work.Signals.Install.{handler_of}
use rabbitmq_work.Threads.{init}
use rabbitmq_work.Server.{sigalrm, on_sigalrm_handler}

-- What the events leave behind: `gg_nFlags`, which is 0 at first, the seconds of the last alarm, and
-- the threads, the newest first.
abbrev pub flag_of : Log → ℕ
flag_of [] = 0
flag_of (flagged n ∷ l) = n
flag_of (_ ∷ l) = flag_of l

abbrev pub alarm_of : Log → Option ℕ
alarm_of [] = none
alarm_of (alarmed n ∷ l) = some n
alarm_of (_ ∷ l) = alarm_of l

abbrev pub threads_of : Log → List String
threads_of [] = []
threads_of (called (create_thread name) _ ∷ l) = name ∷ threads_of l
threads_of (_ ∷ l) = threads_of l

pub record Launched (o : Oracle) (l : Log) : Type 0 where
  pub handler : handler_of sigalrm l ≡ some on_alarm
  pub flag : flag_of l ≡ init.flag
  pub alarm : alarm_of l ≡ init.alarm
  pub threads : threads_of l ≡ "thread_B" ∷ "thread_A" ∷ []
  pub clears : (later : Log) → flag_of (on_sigalrm_handler o later).1 ≡ 0
