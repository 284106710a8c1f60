-- ===== src/Reader/Closed.antt =====
-- A read loop and the end of the client after it, behind a setup that is a script.
use rabbitmq_work.Base.{ℕ, ◌-◌, ◌<◌, ◌≡◌, ◌≢◌, ◌⊎◌, inl, inr, refl, sym, List, ◌∙◌, arith}
use rabbitmq_work.Session.{
  M, Log, Oracle, Outcome, ok, exited, aborted, running, pure, resume, ◌>>◌,
}
use rabbitmq_work.Script.{Item, perform}
use rabbitmq_work.Script.Silent.{AllSilent, Alike, perform-Alike}
use rabbitmq_work.Closing.{shut_down, closing_script, shut_down-perform}
use rabbitmq_work.Reader.{Consumer, read_loop}
use rabbitmq_work.Reader.Monitor.{idle, violated, phase_of, waits}
use rabbitmq_work.Reader.Body.{IsQuiet, MayCrash}
use rabbitmq_work.Reader.Order.{LoopEnd, read_loop-LoopEnd}
use rabbitmq_work.Reader.Ends.{RunsDry}
use rabbitmq_work.Reader.Results.{Over, read_loop-Over}

abbrev pub Keeps : ℕ → ℕ → Outcome (Unit {0}) × Log → Type 0
Keeps conn ch r = phase_of conn ch r.1 ≢ violated

-- The client returned, or exited with status 1, or aborted at a frame where it may.
abbrev pub Ways : Consumer → Outcome (Unit {0}) → Type 0
Ways c r = (r ≡ ok tt) ⊎ (r ≡ exited 1) ⊎ ((r ≡ aborted) × MayCrash c)

pub any_way :
    (c : Consumer) (r : Outcome (Unit {0}))
    → Ways c r
    → (r ≡ ok tt) ⊎ (r ≡ exited 1) ⊎ (r ≡ aborted)
any_way c r (inl e) = inl e
any_way c r (inr (inl e)) = inr (inl e)
any_way c r (inr (inr (e, _))) = inr (inr e)

abbrev pub Finished : Consumer → ℕ → ℕ → Outcome (Unit {0}) × Log → Type 0
Finished c conn ch r = Ways c r.0 × Keeps conn ch r

abbrev pub read_and_close : Consumer → ℕ → ℕ → ℕ → M (Unit {0})
read_and_close c conn ch rounds = read_loop c conn ch rounds >> shut_down conn

module _ (c : Consumer) (quiet : IsQuiet c) (conn ch rounds : ℕ) (o : Oracle) where
  ne_violated :
      (l l' : Log)
      → phase_of conn ch l ≢ violated
      → Alike conn ch l l'
      → phase_of conn ch l' ≢ violated
  ne_violated l l' h a = λ e. h (sym a.phases ∙ e)

  shut_down-Finished :
      (l : Log) → phase_of conn ch l ≢ violated → Finished c conn ch (shut_down conn o l)
  shut_down-Finished l h = rw (shut_down-perform conn) (
      perform-Alike conn ch (Finished c conn ch) o (closing_script conn) (pure tt) l (omega arith)
        (λ l' a. (inr (inl refl), ne_violated l l' h a)) (λ l' a. (inl refl, ne_violated l l' h a)))

  close-Keeps :
      (r : Outcome (Unit {0})) (l : Log)
      → LoopEnd c r (phase_of conn ch l)
      → Keeps conn ch (resume (λ _. shut_down conn) o r l)
  close-Keeps (ok _) l h = (shut_down-Finished l (λ e. cc)).1
  close-Keeps (exited n) l h = absurd h
  close-Keeps aborted l h = λ e. cc (h.0)
  close-Keeps running l h = h

  pub read_and_close-Keeps :
      (l : Log) → phase_of conn ch l ≡ idle → Keeps conn ch (read_and_close c conn ch rounds o l)
  read_and_close-Keeps l p =
      close-Keeps (read_loop c conn ch rounds o l).0 (read_loop c conn ch rounds o l).1
        (read_loop-LoopEnd c quiet conn ch o rounds l p)

  close-Finished :
      (r : Outcome (Unit {0})) (l : Log)
      → Over c r (phase_of conn ch l)
      → Finished c conn ch (resume (λ _. shut_down conn) o r l)
  close-Finished r l (inl e, s) = rw e (shut_down-Finished l (λ v. cc))
  close-Finished r l (inr (e, may), s) = rw e (inr (inr (refl, may)), λ v. cc)

  pub read_and_close-Finished :
      (n : ℕ) (l : Log)
      → RunsDry o conn n
      → n - waits l < rounds
      → phase_of conn ch l ≡ idle
      → Finished c conn ch (read_and_close c conn ch rounds o l)
  read_and_close-Finished n l dry enough p =
      close-Finished (read_loop c conn ch rounds o l).0 (read_loop c conn ch rounds o l).1
        (read_loop-Over c quiet conn ch rounds o l dry enough p)

  -- The same behind a setup.
  pub perform-Keeps :
      (s : List Item) (l : Log)
      → AllSilent s
      → phase_of conn ch l ≡ idle
      → Keeps conn ch (perform s (read_and_close c conn ch rounds) o l)
  perform-Keeps s l silent p =
      perform-Alike conn ch (Keeps conn ch) o s (read_and_close c conn ch rounds) l silent
        (λ l' a. λ e. cc (a.phases)) (λ l' a. read_and_close-Keeps l' (a.phases ∙ p))

  pub perform-Finished :
      (n : ℕ) (s : List Item) (l : Log)
      → RunsDry o conn n
      → n - waits l < rounds
      → AllSilent s
      → phase_of conn ch l ≡ idle
      → Finished c conn ch (perform s (read_and_close c conn ch rounds) o l)
  perform-Finished n s l dry enough silent p =
      perform-Alike conn ch (Finished c conn ch) o s (read_and_close c conn ch rounds) l silent
        (λ l' a. (inr (inl refl), λ e. cc (a.phases)))
        (λ l' a. read_and_close-Finished n l' dry (omega (arith, enough, a.reads)) (a.phases ∙ p))
