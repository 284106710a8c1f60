-- ===== src/Signals/Install.antt =====
-- `ProcessSigInit` of signal.cpp: the pair of sockets and the handlers.
use rabbitmq_work.Base.{
  ℕ, ◌≡◌, ◌⊎◌, ◌==◌, ◌&&◌, true, not, if◌then◌else◌, ℤ, [], ◌∷◌, Option, none, some,
}
use rabbitmq_work.Amqp.{Handler, to_pipe, socketpair, sigaction}
use rabbitmq_work.Session.{Log, Outcome, M, called, ok, aborted, pure, ◌>>◌}
use rabbitmq_work.Signals.{sighup, sigusr1, sigpipe, is_minus_one, sig_set, SignalData}

-- The handler of a signal: what the last accepted `sigaction` for it says.
abbrev pub handler_of : ℕ → Log → Option Handler
handler_of s [] = none
handler_of s (called (sigaction s' h _) r ∷ l) =
    if (s == s') && not (is_minus_one r) then some h else handler_of s l
handler_of s (_ ∷ l) = handler_of s l

-- The newest event is a call that was refused.
abbrev pub JustRefused : Log → Type 0
JustRefused [] = ⊥
JustRefused (called socketpair r ∷ l) = is_minus_one r.0 ≡ true
JustRefused (called (sigaction _ _ _) r ∷ l) = is_minus_one r ≡ true
JustRefused (_ ∷ l) = ⊥

-- The process can take its signals from `rd_fd`.
pub record Listens (pair : ℤ × ℤ × ℤ) (d : SignalData) (l : Log) : Type 0 where
  pub reads : d.rd_fd ≡ pair.1
  pub writes : d.wr_fd ≡ pair.2
  pub usr1 : handler_of 10 l ≡ some to_pipe
  pub hup : handler_of 1 l ≡ some to_pipe
  pub pipe : handler_of 13 l ≡ some to_pipe

abbrev pub Initialised : ℤ × ℤ × ℤ → Outcome SignalData × Log → Type 0
Initialised pair r =
    ((d : SignalData) × (r.0 ≡ ok d) × Listens pair d r.1) ⊎ ((r.0 ≡ aborted) × JustRefused r.1)

abbrev set_handlers : ℤ × ℤ × ℤ → M SignalData
set_handlers pair = do
  sig_set sigusr1 to_pipe
  sig_set sighup to_pipe
  sig_set sigpipe to_pipe
  pure (record { rd_fd = pair.1; wr_fd = pair.2 })
