-- ===== src/Signals/Pipe.antt =====
-- The two ends of the signal pipe.
use rabbitmq_work.Base.{
  ℕ, zero, suc, ◌%◌, ◌<◌, ◌≡◌, inl, inr, refl, ap, ◌∙◌, [], ◌∷◌, ◌++◌, ◌==◌, if◌then◌else◌, arith,
  Bool-cases, ℤ, pos, negsuc, Option, none, some,
}
use rabbitmq_work.Amqp.{Bytes, recv, send}
use rabbitmq_work.Session.{Log, Oracle, Outcome, ok, called, printed}
use rabbitmq_work.Signals.{
  on_signal, on_signals, after_recv, main_process_signal_processing, main_process_sig_handler,
}

-- What the process says to a signal that it handles, and nothing to another number.
abbrev pub announcement : ℕ → Log
announcement s =
    if s == 10
    then printed "get signals SIGUSRl\n" [] ∷ []
    else if s == 1
    then printed "get signals SIGHUP\n" [] ∷ []
    else if s == 13
    then printed "get signals SIGPIPE\n" [] ∷ []
    else []

-- In the order of the bytes, the last one newest.
abbrev pub announced : Bytes → Log → Log
announced [] l = l
announced (s ∷ rest) l = announced rest (announcement s ++ l)

pub on_signal_lem : (s : ℕ) (o : Oracle) (l : Log) → on_signal s o l ≡ (ok tt, announcement s ++ l)
unfolding on_signal
on_signal_lem s o l = elim (Bool-cases (s == 10)) [
  | inl usr ↦ rw usr
  | inr not_usr ↦ rw not_usr (elim (Bool-cases (s == 1)) [
    | inl hup ↦ rw hup
    | inr not_hup ↦
        rw not_hup (elim (Bool-cases (s == 13)) [ inl pipe ↦ rw pipe | inr other ↦ rw other ])
  ])
]

pub on_signals_lem :
    (signals : Bytes) (o : Oracle) (l : Log) → on_signals signals o l ≡ (ok tt, announced signals l)
unfolding on_signals
on_signals_lem [] o l = refl
on_signals_lem (s ∷ rest) o l =
    rw (on_signal_lem s o l) (on_signals_lem rest o (announcement s ++ l))

-- The bytes of the newest `send`.
abbrev pub last_sent : Log → Bytes
last_sent [] = []
last_sent (called (send _ signals) _ ∷ l) = signals
last_sent (_ ∷ l) = last_sent l

-- What the signal processing does with a result of `recv`.
abbrev pub Processed : ℤ → Bytes → Log → Outcome (Option ℕ) × Log
Processed (pos (suc n)) signals l = (ok none, announced signals l)
Processed _ signals l = (ok (some 0), l)

after_recv_lem :
    (n : ℤ) (signals : Bytes) (o : Oracle) (l : Log)
    → after_recv n signals o l ≡ Processed n signals l
unfolding after_recv
after_recv_lem (pos zero) signals o l = refl
after_recv_lem (pos (suc n)) signals o l = rw (on_signals_lem signals o l)
after_recv_lem (negsuc n) signals o l = refl

-- Every run of the signal processing returns. If `recv` fails or has nothing, that is 0 and nothing
-- is said; otherwise each byte read that is SIGUSR1, SIGHUP or SIGPIPE is announced, in order, and
-- the function ends without a value.
pub main_process_signal_processing_lem :
    (fd : ℤ) (o : Oracle) (l : Log)
    → let got = o l (recv fd 1024) in
      main_process_signal_processing fd o l ≡ Processed got.0 got.1 (called (recv fd 1024) got ∷ l)
unfolding main_process_signal_processing
main_process_signal_processing_lem fd o l =
    after_recv_lem (o l (recv fd 1024)).0 (o l (recv fd 1024)).1 o _

abbrev announcing : ℕ → Log → Outcome (Option ℕ) × Log
announcing s l = (ok none, announcement s ++ l)

-- What the signal handler writes for a signal is read back as that signal: if `recv` hands over
-- exactly the byte that the handler sent, the processing announces the signal.
pub signal_round_trip :
    (wr rd : ℤ) (s : ℕ) (o : Oracle) (l : Log)
    → s < 256
    → let sent = (main_process_sig_handler wr s o l).1 in
      o sent (recv rd 1024) ≡ (pos 1, last_sent sent, 0)
      → main_process_signal_processing rd o sent
        ≡ (ok none, announcement s ++ called (recv rd 1024) (o sent (recv rd 1024)) ∷ sent)
unfolding main_process_sig_handler
signal_round_trip wr rd s o l small got =
    let sent = (main_process_sig_handler wr s o l).1 in
    let read = called (recv rd 1024) (o sent (recv rd 1024)) ∷ sent in
    let same : s % 256 ≡ s = omega arith in
    main_process_signal_processing_lem rd o sent
    ∙ ap (λ (x : ℤ × Bytes × ℕ). Processed x.0 x.1 read) got
    ∙ ap (λ (t : ℕ). announcing t read) same
