-- ===== src/Signals.antt =====
-- c/recveive/src/signal.cpp (copied to c/send and c/back): signals are written to a socket pair by
-- the handler, and read back in the event loop.
pub mod Pipe
pub mod Install
use rabbitmq_work.Base.{
  ℕ, zero, suc, ◌%◌, ℤ, pos, negsuc, String, List, [], ◌∷◌, Option, none, some, Bool, true, false,
  ◌==◌, if◌then◌else◌,
}
use rabbitmq_work.Amqp.{Bytes, Handler, to_pipe, recv, send, socketpair, sigaction}
use rabbitmq_work.Ipv4socket.{set_nonblocking}
use rabbitmq_work.Session.{M, pure, call, printf, abort, ◌>>=◌, ◌>>◌}

-- SIGHUP, SIGUSR1 and SIGPIPE
abbrev pub sighup : ℕ
sighup = 1

abbrev pub sigusr1 : ℕ
sigusr1 = 10

abbrev pub sigpipe : ℕ
sigpipe = 13

-- The `switch`, and `SIGUSR1Handler`, `SIGHUPHandler` and `SIGPIPEHandler`.
unfoldable pub on_signal : ℕ → M (Unit {0})
on_signal s =
    if s == sigusr1
    then printf "get signals SIGUSRl\n" []
    else if s == sighup
    then printf "get signals SIGHUP\n" []
    else if s == sigpipe
    then printf "get signals SIGPIPE\n" []
    else pure tt

-- The `for` loop over the bytes read.
unfoldable pub on_signals : Bytes → M (Unit {0})
on_signals [] = pure tt
on_signals (s ∷ rest) = on_signal s >> on_signals rest

-- `MainProcessSignalProcessing`: `none` where the function ends with no `return`, which C++ leaves
-- undefined; its caller does not look at the result. The bytes read are as many as the result of
-- `recv` says.
after_recv : ℤ → Bytes → M (Option ℕ)
after_recv (negsuc _) signals = pure (some 0)
after_recv (pos zero) signals = pure (some 0)
after_recv (pos (suc n)) signals = on_signals signals >> pure none

unfoldable pub main_process_signal_processing : ℤ → M (Option ℕ)
unfolding after_recv
main_process_signal_processing sock_fd = do got ← call (recv sock_fd 1024); after_recv got.0 got.1

-- `MainProcessSigHandler`: one byte of the signal's number; `errno` is saved and restored.
unfoldable pub main_process_sig_handler : ℤ → ℕ → M (Unit {0})
main_process_sig_handler wr_fd sig_num = do
  call (send wr_fd ((sig_num % 256) ∷ []))
  printf "receive signals\n" []

-- `x == -1`
abbrev pub is_minus_one : ℤ → Bool
is_minus_one (negsuc zero) = true
is_minus_one _ = false

-- `SigSet`; its `assert` aborts.
unfoldable pub sig_set : ℕ → Handler → M (Unit {0})
sig_set sig_num handler = do
  r ← call (sigaction sig_num handler true)
  if is_minus_one r then abort else pure tt

-- What `ProcessSigInit` fills in, of `PROCESS_SIGNAL_DATE`.
pub record SignalData : Type 0 where
  pub rd_fd : ℤ
  pub wr_fd : ℤ

-- `ProcessSigInit`
unfoldable pub process_sig_init : M SignalData
process_sig_init = do
  pair ← call socketpair
  if is_minus_one pair.0 then abort else do
    set_nonblocking pair.2
    set_nonblocking pair.1
    sig_set sigusr1 to_pipe
    sig_set sighup to_pipe
    sig_set sigpipe to_pipe
    pure (record { rd_fd = pair.1; wr_fd = pair.2 })
