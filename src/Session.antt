-- ===== src/Session.antt =====
-- How a program runs against the library and the process around it: a monad that carries the
-- transcript of everything done so far. The library's answers are a function of that transcript and
-- of the call, which leaves them free to depend on all that went before.
pub mod Laws
use rabbitmq_work.Base.{ℕ, ℤ, String, List, ◌∷◌}
use rabbitmq_work.Amqp.{Bytes, Call, Response}

-- What a format's conversions print; `error_text x` stands for `amqp_error_string2(x)` and
-- `method_name` for `amqp_method_name`.
pub data Arg : Type 0 where
  int : ℤ → Arg
  num : ℕ → Arg
  text : String → Arg
  bytes : Bytes → Arg
  error_text : ℤ → Arg
  method_text : ℕ → Arg

-- The priorities at which the programs log.
pub data Priority : Type 0 where
  debug info warn error fatal : Priority

pub data Event : Type 0 where
  called : (c : Call) → Response c → Event
  -- `printf`, `fprintf(stderr, …)`
  printed : String → List Arg → Event
  complained : String → List Arg → Event
  -- the assignment of `gg_nFlags`, `alarm` and `sleep`
  flagged : ℕ → Event
  alarmed : ℕ → Event
  slept : ℕ → Event
  -- a message given to a category of the logging library
  logged : ℕ → Priority → String → List Arg → Event

-- The newest event first.
abbrev pub Log : Type 0
Log = List Event

abbrev pub Oracle : Type 0
Oracle = Log → (c : Call) → Response c

-- `running`: a loop is still going when the rounds that the model was given are used up.
pub data Outcome (A : Type 0) : Type 0 where
  ok : A → Outcome A
  exited : ℕ → Outcome A
  aborted running : Outcome A

abbrev pub M : Type 0 → Type 0
M A = Oracle → Log → Outcome A × Log

abbrev pub pure : {A : Type 0} → A → M A
pure a o l = (ok a, l)

-- What follows a first part that has ended so.
abbrev pub resume : {A B : Type 0} → (A → M B) → Oracle → Outcome A → Log → Outcome B × Log
resume f o (ok a) l = f a o l
resume f o (exited n) l = (exited n, l)
resume f o aborted l = (aborted, l)
resume f o running l = (running, l)

infixl 5 ◌>>=◌ ◌>>◌
abbrev pub ◌>>=◌ : {A B : Type 0} → M A → (A → M B) → M B
◌>>=◌ m f o l = resume f o (m o l).0 (m o l).1

abbrev pub ◌>>◌ : {A B : Type 0} → M A → M B → M B
m >> k = m >>= λ _. k

abbrev pub call : (c : Call) → M (Response c)
call c o l = (ok (o l c), called c (o l c) ∷ l)

abbrev pub emit : Event → M (Unit {0})
emit e o l = (ok tt, e ∷ l)

abbrev pub printf : String → List Arg → M (Unit {0})
printf format args = emit (printed format args)

abbrev pub eprintf : String → List Arg → M (Unit {0})
eprintf format args = emit (complained format args)

abbrev pub exit : {A : Type 0} → ℕ → M A
exit n o l = (exited n, l)

abbrev pub abort : {A : Type 0} → M A
abort o l = (aborted, l)

-- No rounds are left.
abbrev pub still_running : {A : Type 0} → M A
still_running o l = (running, l)
