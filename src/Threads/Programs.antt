-- ===== src/Threads/Programs.antt =====
-- How the two programs of c/recveive/src/server.cpp are the threads of the step relation.
use rabbitmq_work.Base.{
  ℕ, zero, suc, ◌+◌, ◌*◌, ◌≤◌, ◌≡◌, ◌==◌, if◌then◌else◌, List, [], ◌∷◌, length, refl, sym, ap, ◌∙◌,
  arith,
}
use rabbitmq_work.Session.{Oracle}
use rabbitmq_work.Server.{thread_a, thread_b}
use rabbitmq_work.Server.Posts.{publishes, ups, thread_a-publishes}
use rabbitmq_work.Server.Asking.{commands, raises, thread_b-raises}
use rabbitmq_work.Threads.{
  System, SenderPc, checking, sending, sleeping, Step, see_off, see_on, publish, wake, raise, arm,
  fire, fire_awake, fire_late, fire_late_awake, tick, tick_unarmed, Reach, start, later, doze,
}
use rabbitmq_work.Threads.Budget.{budget}
use rabbitmq_work.Threads.Invariant.{Reach-Inv}

-- The value that a step of `thread_A` reads, put behind the earlier ones.
abbrev read_by : {s t : System} → Step s t → List ℕ → List ℕ
read_by {s} (see_off _ _) xs = s.flag ∷ xs
read_by {s} (see_on _ _) xs = s.flag ∷ xs
read_by (publish _) xs = xs
read_by (wake _) xs = xs
read_by (raise _) xs = xs
read_by (arm _) xs = xs
read_by (fire _) xs = xs
read_by (fire_awake _ _) xs = xs
read_by (fire_late _) xs = xs
read_by (fire_late_awake _ _) xs = xs
read_by (tick _ _) xs = xs
read_by (tick_unarmed _ _) xs = xs

-- The values of the flag that `thread_A` has read, the last one first.
abbrev pub reads : {s : System} → Reach s → List ℕ
reads start = []
reads (later r st) = read_by st (reads r)

abbrev nonzero : List ℕ → ℕ
nonzero [] = 0
nonzero (x ∷ xs) = (if x == 0 then 0 else 1) + nonzero xs

-- The message that is about to go out.
abbrev pending : SenderPc → ℕ
pending sending = 1
pending _ = 0

pending-doze : (p : SenderPc) → pending (doze p) ≡ pending p
pending-doze checking = refl
pending-doze sending = refl
pending-doze (sleeping zero) = refl
pending-doze (sleeping (suc n)) = refl

abbrev Counts : System → List ℕ → Type 0
Counts s xs = nonzero xs ≡ s.published + pending s.sender

Step-Counts : {s t : System} (st : Step s t) (xs : List ℕ) → Counts s xs → Counts t (read_by st xs)
Step-Counts {s} (see_off p f) xs h = ground arith
Step-Counts {s} (see_on p f) xs h = ground arith
Step-Counts {s} (publish p) xs h = ground arith
Step-Counts {s} (wake p) xs h = ground arith
Step-Counts {s} (raise p) xs h = h
Step-Counts {s} (arm p) xs h = h
Step-Counts {s} (fire p) xs h = h
Step-Counts {s} (fire_awake p q) xs h = ground arith
Step-Counts {s} (fire_late p) xs h = h
Step-Counts {s} (fire_late_awake p q) xs h = ground arith
Step-Counts {s} (tick p q) xs h = h ∙ ap (λ (n : ℕ). s.published + n) (sym (pending-doze s.sender))
Step-Counts {s} (tick_unarmed p q) xs h =
    h ∙ ap (λ (n : ℕ). s.published + n) (sym (pending-doze s.sender))

Reach-Counts : {s : System} (r : Reach s) → Counts s (reads r)
Reach-Counts start = refl
Reach-Counts (later r st) = Step-Counts st (reads r) (Reach-Counts r)

pending-budget : (s : System) → pending s.sender ≤ budget s
pending-budget s = ground arith

-- The program's rounds read these values.
abbrev pub Follows : (ℕ → ℕ) → List ℕ → Type 0
Follows flags [] = Unit
Follows flags (x ∷ xs) = (flags (length xs) ≡ x) × Follows flags xs

ups_last :
    (flags : ℕ → ℕ) (i n : ℕ)
    → ups flags i (suc n) ≡ ups flags i n + (if flags (i + n) == 0 then 0 else 1)
ups_last flags i zero = let e : i + 0 ≡ i = omega arith in rw e (omega arith)
ups_last flags i (suc n) =
    let e : i + suc n ≡ suc i + n = omega arith in rw e (omega (arith, ups_last flags (suc i) n))

Follows-ups :
    (flags : ℕ → ℕ) (xs : List ℕ) → Follows flags xs → ups flags 0 (length xs) ≡ nonzero xs
Follows-ups flags [] h = refl
Follows-ups flags (x ∷ xs) (e, h) =
    let z : 0 + length xs ≡ length xs = omega arith in
    ups_last flags 0 (length xs) ∙ rw (z, e, Follows-ups flags xs h) (omega arith)

-- For every interleaving of the two threads, the alarm and the clock, and whatever the library
-- answers to either thread: when the rounds of `thread_A` read what it reads in that interleaving,
-- and its commands are those for which `thread_B` raises the flag, then `thread_A` publishes at most
-- two messages for each command that `thread_B` reads.
pub publishes_le :
    (flags : ℕ → ℕ) (oa ob : Oracle) (rounds : ℕ) (s : System) (r : Reach s)
    → Follows flags (reads r)
    → s.commands ≡ raises (thread_b rounds ob []).1
    → publishes (thread_a flags (length (reads r)) oa []).1 ≤ 2 * commands (thread_b rounds ob []).1
publishes_le flags oa ob rounds s r follows asked = omega (
  arith,
  thread_a-publishes flags (length (reads r)) oa [],
  Follows-ups flags (reads r) follows,
  Reach-Counts r,
  pending-budget s,
  (Reach-Inv r).bounded,
  thread_b-raises rounds ob [] (omega arith),
)
