-- ===== src/Pool/Endless.antt =====
-- `ngx_palloc_large` of nginx/src/ngx_palloc.c in a pool that is too small for a list cell.
use mathlib.Core.Option
use rabbitmq_work.Base.{
  ℕ, zero, suc, ◌+◌, ◌<◌, ◌≡◌, Bool, true, false, List, [], ◌∷◌, Option, none, some, All, arith,
  refl, ◌∙◌, inl, inr, ap, Bool-cases, leb, leb-le, ltb,
}
use rabbitmq_work.Pool.{Large, Allocator, State}
use rabbitmq_work.Pool.Alloc.{Result, reuse_cell, add_large, palloc}
use rabbitmq_work.Pool.Balance.{palloc_large_full}

-- A `malloc` that gives memory whenever it is asked.
abbrev pub Answers : Allocator → Type 0
Answers a = (heap : List (ℕ × ℕ)) (size : ℕ) → (q : ℕ) × (a.malloc heap size ≡ some q)

-- No list cell is free.
abbrev pub Busy : List Large → Type 0
Busy ls = All (λ (l : Large). (p : ℕ) × (l.alloc ≡ some p)) ls

Busy-reuse_cell : (n q : ℕ) (ls : List Large) → Busy ls → reuse_cell n q ls ≡ none
unfolding reuse_cell
Busy-reuse_cell n q [] b = refl
Busy-reuse_cell n q (l ∷ ls) ((p, e), b) =
    let rest = Busy-reuse_cell (n + 1) q ls b in
    elim (Bool-cases (ltb 3 n)) [ inl c ↦ rw (e, c) refl | inr c ↦ rw (e, c, rest) refl ]

too_large : (size limit : ℕ) → limit < size → leb size limit ≡ false
too_large size limit h = elim (Bool-cases (leb size limit)) [
  | inl e ↦ absurd (omega (arith, leb-le size limit e, h))
  | inr e ↦ e
]

-- In a pool whose `max` is below the 16 bytes of a list cell, and with no cell free, an allocation of
-- more than `max` bytes never returns while `malloc` has memory: the cell is itself allocated as a
-- large allocation, which needs a cell, to any depth of calls.
pub palloc_endless :
    (a : Allocator) (answers : Answers a) (depth : ℕ) (aligned : Bool) (size : ℕ) (s : State)
    → s.pool.max < 16
    → s.pool.max < size
    → Busy s.pool.large
    → palloc depth a aligned size s ≡ none
unfolding palloc
palloc_endless a answers zero aligned size s small over busy = refl
palloc_endless a answers (suc depth) aligned size s small over busy =
    let (q, found) = answers s.heap size in
    let full = Busy-reuse_cell 0 q s.pool.large busy in
    let again =
      palloc_endless a answers depth true 16 (record s { heap = (q, size) ∷ s.heap }) small small
        busy in
    palloc_large_full a 0 depth aligned size q s (too_large size s.pool.max over) found full
    ∙ ap (λ (r : Option Result). Option.map (add_large q) r) again
