-- ===== src/Server/Asking.antt =====
-- What makes `thread_B` of c/recveive/src/server.cpp raise the flag.
use rabbitmq_work.Base.{
  ℕ, zero, suc, ◌+◌, ◌≤◌, ◌≡◌, ◌==◌, Bool, true, false, if◌then◌else◌, pos, [], ◌∷◌, ◌++◌, arith,
  refl, inl, inr, Bool-cases,
}
use rabbitmq_work.Amqp.{Bytes, Call, Response, body, simple_wait_frame}
use rabbitmq_work.Session.{Log, Oracle, called, printed, flagged}
use rabbitmq_work.Script.Kept.{AnyCall, IsKept}
use rabbitmq_work.Reader.Kept.{Consumes, whole-IsKept}
use rabbitmq_work.Mq.{c_string, is_m, handler_mq_message, receiver}
use rabbitmq_work.Mq.Commands.{receiver-IsQuiet}
use rabbitmq_work.Server.{thread_b}
use rabbitmq_work.Server.Order.{connection_b, script, after_greeting, thread_b-perform}

-- A fragment that is "m", alone or before a zero.
abbrev pub is_command : Bytes → Bool
is_command (b ∷ []) = b == b'm'
is_command (b ∷ zero ∷ _) = b == b'm'
is_command _ = false

abbrev pub one : Bool → ℕ
one true = 1
one false = 0

-- The commands that came in, one for each body frame of that content.
abbrev pub brings : (c : Call) → Response c → ℕ
brings (simple_wait_frame _) (pos _, body _ fragment) = one (is_command fragment)
brings _ _ = 0

abbrev pub commands : Log → ℕ
commands [] = 0
commands (called c x ∷ l) = brings c x + commands l
commands (_ ∷ l) = commands l

-- How often the flag was raised.
abbrev pub raises : Log → ℕ
raises [] = 0
raises (flagged n ∷ l) = (if n == 0 then 0 else 1) + raises l
raises (_ ∷ l) = raises l

abbrev Within : Log → Type 0
Within l = raises l ≤ commands l

Within-IsKept : IsKept AnyCall Within
Within-IsKept = record {
  by_call = λ c x l q p. omega arith;
  by_print = λ f args l p. p;
  by_complaint = λ f args l p. p;
  by_sleep = λ n l p. p;
}

is_m-is_command : (f : Bytes) → is_m (c_string (f ++ 0 ∷ [])) ≡ is_command f
is_m-is_command [] = refl
is_m-is_command (zero ∷ []) = refl
is_m-is_command (zero ∷ zero ∷ f) = refl
is_m-is_command (zero ∷ suc c ∷ f) = refl
is_m-is_command (suc b ∷ []) = refl
is_m-is_command (suc b ∷ zero ∷ f) = refl
is_m-is_command (suc b ∷ suc c ∷ f) = refl

-- The handler raises the flag once for a command, and never else.
handler-raises :
    (f : Bytes) (o : Oracle) (l : Log)
    → raises (handler_mq_message f o l).1 ≡ one (is_command f) + raises l
unfolding handler_mq_message
handler-raises f o l = elim (Bool-cases (is_m (c_string (f ++ 0 ∷ [])))) [
  | inl m ↦ rw (m, ← is_m-is_command f, m) refl
  | inr other ↦ rw (other, ← is_m-is_command f, other) (omega arith)
]

handler-commands :
    (f : Bytes) (o : Oracle) (l : Log) → commands (handler_mq_message f o l).1 ≡ commands l
unfolding handler_mq_message
handler-commands f o l = elim (Bool-cases (is_m (c_string (f ++ 0 ∷ [])))) [
  | inl m ↦ rw m refl
  | inr other ↦ rw other refl
]

receiver-Consumes : (conn : ℕ) → Consumes receiver conn Within
receiver-Consumes conn = record {
  returns = receiver-IsQuiet.returns;
  keeps = λ b o k ch l p.
      let l' = printed "ok!\n" [] ∷ called (simple_wait_frame conn) (pos k, body ch b) ∷ l in
      omega (arith, handler-raises b o l', handler-commands b o l');
}

-- However long `thread_B` runs, it raises the flag at most once for each command it reads.
pub thread_b-raises :
    (rounds : ℕ) (o : Oracle) (l : Log)
    → raises l ≤ commands l
    → raises (thread_b rounds o l).1 ≤ commands (thread_b rounds o l).1
thread_b-raises rounds o l p =
    let conn = connection_b o l in
    rw (thread_b-perform rounds o l) (
      whole-IsKept receiver conn 1 Within Within-IsKept (receiver-Consumes conn) o rounds
        (script rounds o l) (after_greeting l) p)
