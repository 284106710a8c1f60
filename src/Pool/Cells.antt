-- ===== src/Pool/Cells.antt =====
-- The list cells of the large allocations in nginx/src/ngx_palloc.c: filled, cleared and added.
use rabbitmq_work.Base.{
  ℕ, ◌+◌, ◌≡◌, ◌==◌, ==_iff, Bool, true, List, [], ◌∷◌, Option, none, some, arith, inl, inr,
  Bool-cases, ltb,
}
use rabbitmq_work.Pool.{Large}
use rabbitmq_work.Pool.Alloc.{reuse_cell, clear_cell}
use rabbitmq_work.Pool.Ledger.{one, larges_at}

abbrev pub Filled : ℕ → List Large → Option (List Large) → Type 0
Filled q ls none = Unit
Filled q ls (some ks) = (p : ℕ) → larges_at p ks ≡ one (q == p) + larges_at p ls

deeper :
    (q : ℕ) (l : Large) (ls : List Large) (r : Option (List Large))
    → Filled q ls r
    → Filled q (l ∷ ls) (elim r [ none ↦ none | some ks ↦ some (l ∷ ks) ])
deeper q l ls none f = tt
deeper q l ls (some ks) f = λ p. omega (arith, f p)

at_cell :
    (n q cell : ℕ) (ls : List Large) (alloc : Option ℕ)
    → Filled q ls (reuse_cell (n + 1) q ls)
    → Filled q
        (record { cell = cell; alloc = alloc } ∷ ls)
        (reuse_cell n q (record { cell = cell; alloc = alloc } ∷ ls))
unfolding reuse_cell
at_cell n q cell ls none f = λ p. omega arith
at_cell n q cell ls (some r) f = elim (Bool-cases (ltb 3 n)) [
  | inl e ↦ rw e tt
  | inr e ↦ rw e (deeper q (record { cell = cell; alloc = some r }) ls (reuse_cell (n + 1) q ls) f)
]

pub reuse_cell-Filled : (n q : ℕ) (ls : List Large) → Filled q ls (reuse_cell n q ls)
unfolding reuse_cell
reuse_cell-Filled n q [] = tt
reuse_cell-Filled n q (l ∷ ls) = at_cell n q l.cell ls l.alloc (reuse_cell-Filled (n + 1) q ls)

abbrev pub Cleared : ℕ → List Large → Bool × List Large → Type 0
Cleared q ls r = r.0 ≡ true → (p : ℕ) → larges_at p ls ≡ one (q == p) + larges_at p r.1

clear_at :
    (q cell : ℕ) (ls : List Large) (alloc : Option ℕ)
    → Cleared q ls (clear_cell q ls)
    → Cleared q
        (record { cell = cell; alloc = alloc } ∷ ls)
        (clear_cell q (record { cell = cell; alloc = alloc } ∷ ls))
unfolding clear_cell
clear_at q cell ls none c = λ e p. omega (arith, c e p)
clear_at q cell ls (some r) c = elim (Bool-cases (q == r)) [
  | inl e ↦ rw (e, (==_iff q r).0 e) (λ _ p. omega arith)
  | inr e ↦ rw e (λ f p. omega (arith, c f p))
]

pub clear_cell-Cleared : (q : ℕ) (ls : List Large) → Cleared q ls (clear_cell q ls)
unfolding clear_cell
clear_cell-Cleared q [] = λ e p. absurd (cc)
clear_cell-Cleared q (l ∷ ls) = clear_at q l.cell ls l.alloc (clear_cell-Cleared q ls)
