-- ===== src/Epoll/Leaving.antt =====
-- `et` of c/recveive/src/epoll.cpp over all the ready descriptors.
use rabbitmq_work.Base.{
  ℕ, ◌+◌, ◌≤◌, ◌≡◌, inl, inr, refl, ℤ, List, [], ◌∷◌, Bool, true, false, if◌then◌else◌, arith,
  Bool-cases, All, ◌⊎◌,
}
use rabbitmq_work.Amqp.{close}
use rabbitmq_work.Session.{Log, Oracle, Outcome, called, ok, exited, aborted, running, resume}
use rabbitmq_work.Epoll.{Ready, same_fd, drop_user, et_read, et_event, et}
use rabbitmq_work.Epoll.Kept.{Keeps, Ongoing}
use rabbitmq_work.Epoll.Edge.{et_event-Ongoing, et-Kept}
use rabbitmq_work.Epoll.Registered.{IsClean, IsClean-Keeps, same_fd_self}
use rabbitmq_work.Epoll.Draining.{Dropped, Drained, et_read-Drained}

-- How often a descriptor was closed.
abbrev pub closes : ℤ → Log → ℕ
closes fd [] = 0
closes fd (called (close fd') _ ∷ l) = (if same_fd fd fd' then 1 else 0) + closes fd l
closes fd (_ ∷ l) = closes fd l

-- The events that stand for the end of a connection, or for its data.
abbrev pub is_stirring : ℤ → Ready → Bool
is_stirring listen_fd ev =
    if same_fd listen_fd ev.fd then false else if ev.hung_up then true else ev.readable

abbrev pub stirring : ℤ → List Ready → List Ready
stirring listen_fd [] = []
stirring listen_fd (ev ∷ evs) =
    if is_stirring listen_fd ev then ev ∷ stirring listen_fd evs else stirring listen_fd evs

abbrev IsStirring : ℤ → Ready → Type 0
IsStirring listen_fd ev =
    (same_fd listen_fd ev.fd ≡ false) × ((ev.hung_up ≡ true) ⊎ (ev.readable ≡ true))

stirs_by :
    (a b c : Bool)
    → (if a then false else if b then true else c) ≡ true
    → (a ≡ false) × ((b ≡ true) ⊎ (c ≡ true))
stirs_by true b c e = cc
stirs_by false true c e = (refl, inl refl)
stirs_by false false c e = (refl, inr e)

closes-Keeps : (ep fd : ℤ) (m : ℕ) → Keeps ep (λ l. m ≤ closes fd l)
closes-Keeps ep fd m = record {
  by_accept = λ _ x l h. h;
  by_get_flags = λ _ x l h. h;
  by_set_flags = λ _ flags x l h. h;
  by_add = λ _ enable x l h. h;
  by_recv = λ _ n x l h. h;
  by_print = λ f args l h. h;
  by_drop = λ fd' l h. omega (arith, h);
  by_drop_saying = λ fd' f l h. omega (arith, h);
}

closes-Dropped : (ep fd : ℤ) (l : Log) → Dropped ep fd l → 1 ≤ closes fd l
closes-Dropped ep fd l (l', e) = rw (e, same_fd_self fd) (omega arith)

-- Where the loop comes to its end, each event that stirs has led to a `close`.
abbrev pub Left : ℤ → ℤ → List Ready → Outcome (Unit {0}) × Log → Type 0
Left ep listen_fd evs (ok _, l) =
    IsClean ep l × All (λ (ev : Ready). 1 ≤ closes ev.fd l) (stirring listen_fd evs)
Left ep listen_fd evs (exited _, l) = ⊥
Left ep listen_fd evs (aborted, l) = ⊥
Left ep listen_fd evs (running, l) = IsClean ep l

module _ (ep listen_fd : ℤ) (o : Oracle) (rounds : ℕ) where
  -- After an event on `fd` that stirs if `S` holds.
  abbrev Settled : ℤ → Type 0 → Outcome (Unit {0}) × Log → Type 0
  Settled fd S (ok _, l) = S → 1 ≤ closes fd l
  Settled fd S (_, l) = Unit

  Drained-Settled :
      (fd : ℤ) (S : Type 0) (r : Outcome (Unit {0}) × Log) → Drained ep fd r → Settled fd S r
  Drained-Settled fd S (ok _, l) h = λ _. closes-Dropped ep fd l h
  Drained-Settled fd S (exited _, l) h = tt
  Drained-Settled fd S (aborted, l) h = tt
  Drained-Settled fd S (running, l) h = tt

  not_stirring : (fd : ℤ) (S : Type 0) (r : Outcome (Unit {0}) × Log) → (¬ S) → Settled fd S r
  not_stirring fd S (ok _, l) h = λ s. absurd (h s)
  not_stirring fd S (exited _, l) h = tt
  not_stirring fd S (aborted, l) h = tt
  not_stirring fd S (running, l) h = tt

  silent_at : (a b : Bool) → a ≡ false → b ≡ false → ¬ ((a ≡ true) ⊎ (b ≡ true))
  silent_at a b e f (inl g) = cc
  silent_at a b e f (inr g) = cc

  et_event-Settled :
      (S : Type 0) (ev : Ready) (l : Log)
      → (S → IsStirring listen_fd ev)
      → Settled ev.fd S (et_event rounds ep listen_fd ev o l)
  unfolding et_event drop_user
  et_event-Settled S ev l stirs = elim (Bool-cases (same_fd listen_fd ev.fd)) [
    | inl new ↦ not_stirring ev.fd S _ (λ s. cc (new, (stirs s).0))
    | inr old ↦ rw old (elim (Bool-cases ev.hung_up) [
      | inl gone ↦ rw gone (λ _. closes-Dropped ep ev.fd (drop_user ep ev.fd o l).1 (_, refl))
      | inr there ↦ rw there (elim (Bool-cases ev.readable) [
        | inl sent ↦ rw sent (
            Drained-Settled ev.fd S (et_read ep ev.fd rounds o l)
              (et_read-Drained ep ev.fd o rounds l))
        | inr silent ↦
            rw silent (λ s. absurd (silent_at ev.hung_up ev.readable there silent (stirs s).1))
      ])
    ])
  ]

  Left-cons :
      (ev : Ready) (evs : List Ready) (r : Outcome (Unit {0}) × Log)
      → (IsStirring listen_fd ev → Ongoing (λ l. 1 ≤ closes ev.fd l) r)
      → Left ep listen_fd evs r
      → Left ep listen_fd (ev ∷ evs) r
  Left-cons ev evs (ok _, l) this (clean, others) = elim (Bool-cases (is_stirring listen_fd ev)) [
    | inl stirs ↦
        rw stirs
          (clean, (this (stirs_by (same_fd listen_fd ev.fd) ev.hung_up ev.readable stirs), others))
    | inr still ↦ rw still (clean, others)
  ]
  Left-cons ev evs (exited _, l) this h = h
  Left-cons ev evs (aborted, l) this h = h
  Left-cons ev evs (running, l) this h = h

  Left-resume :
      (ev : Ready) (evs : List Ready) (r : Outcome (Unit {0}) × Log)
      → Ongoing (IsClean ep) r
      → Settled ev.fd (IsStirring listen_fd ev) r
      → ((l : Log) → IsClean ep l → Left ep listen_fd evs (et rounds ep listen_fd evs o l))
      → Left ep listen_fd (ev ∷ evs) (resume (λ _. et rounds ep listen_fd evs) o r.0 r.1)
  Left-resume ev evs (ok _, l) clean settled rec =
      Left-cons ev evs (et rounds ep listen_fd evs o l)
        (λ s.
          et-Kept ep (λ l'. 1 ≤ closes ev.fd l') (closes-Keeps ep ev.fd 1) o rounds listen_fd evs l
            (settled s))
        (rec l clean)
  Left-resume ev evs (exited _, l) clean settled rec = clean
  Left-resume ev evs (aborted, l) clean settled rec = clean
  Left-resume ev evs (running, l) clean settled rec = clean

  -- The edge-triggered loop never closes a descriptor that is in the epoll set; and if it comes to
  -- the end of the ready descriptors, it has closed every connection among them that was hung up or
  -- readable, whether that one was still open or not. Otherwise it is still running after any number
  -- of rounds of a connection.
  pub et-Left :
      (evs : List Ready) (l : Log)
      → IsClean ep l
      → Left ep listen_fd evs (et rounds ep listen_fd evs o l)
  unfolding et
  et-Left [] l h = (h, tt)
  et-Left (ev ∷ evs) l h =
      Left-resume ev evs (et_event rounds ep listen_fd ev o l)
        (et_event-Ongoing ep (IsClean ep) (IsClean-Keeps ep) o rounds listen_fd ev l h)
        (et_event-Settled (IsStirring listen_fd ev) ev l (λ s. s)) (et-Left evs)
