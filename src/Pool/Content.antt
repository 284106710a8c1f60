-- ===== src/Pool/Content.antt =====
-- `ngx_pcalloc` of nginx/src/ngx_palloc.c and `ngx_calloc` of ngx_alloc.c, with the bytes that the
-- program keeps in memory. The pool's own headers and list cells are in its `State`, not here.
use rabbitmq_work.Base.{
  ℕ, suc, ◌+◌, ◌≤◌, ◌<◌, ◌≡◌, ltb, true, List, Option, none, some, if◌then◌else◌, arith, refl, inl,
  inr,
}
use rabbitmq_work.Pool.{Region, Allocator, State}
use rabbitmq_work.Pool.Alloc.{Result, ngx_alloc, palloc}
use rabbitmq_work.Pool.Moves.{Any, Within}
use rabbitmq_work.Pool.Apart.{Apart}
use rabbitmq_work.Pool.Sound.{IsFresh, WellFormed, Allocated}
use rabbitmq_work.Pool.Small.{palloc-Allocated}

-- The byte at each address.
abbrev pub Memory : Type 0
Memory = ℕ → ℕ

-- `ngx_memzero`
unfoldable pub memzero : ℕ → ℕ → Memory → Memory
memzero p n mem x = if ltb x p then mem x else (if ltb x (p + n) then 0 else mem x)

-- What is left to do where the allocation may have given NULL.
abbrev pub zeroed : Option ℕ → ℕ → Memory → Memory
zeroed none size mem = mem
zeroed (some p) size mem = memzero p size mem

-- `ngx_pcalloc`
unfoldable pub pcalloc : ℕ → Allocator → ℕ → State → Memory → Option (Result × Memory)
pcalloc depth a size s mem = elim (palloc depth a true size s) [
  | none ↦ none
  | some r ↦ some (r, zeroed r.0 size mem)
]

-- `ngx_calloc`
unfoldable pub ngx_calloc : Allocator → ℕ → List Region → Memory → (Option ℕ × List Region) × Memory
ngx_calloc a size heap mem = let r = ngx_alloc a size heap in (r, zeroed r.0 size mem)

memzero-inside : (p n : ℕ) (mem : Memory) (x : ℕ) → p ≤ x → x < p + n → memzero p n mem x ≡ 0
unfolding memzero
memzero-inside p n mem x h k = ground arith

memzero-outside :
    (p n : ℕ) (mem : Memory) (g : Region) (x : ℕ)
    → Apart g (p, n)
    → g.0 ≤ x
    → x < g.0 + g.1
    → memzero p n mem x ≡ mem x
unfolding memzero
memzero-outside p n mem g x (inl before) h k = ground arith
memzero-outside p n mem g x (inr behind) h k = ground arith

-- The bytes of the result are zero, and those that the pool counted as used before are as they were.
abbrev pub Cleared : ℕ → State → Memory → Option ℕ → Memory → Type 0
Cleared size s mem none mem' = mem' ≡ mem
Cleared size s mem (some p) mem' =
    ((x : ℕ) → p ≤ x → x < p + size → mem' x ≡ 0)
    × ((g : Region) (x : ℕ)
        → Any (Within g) s.pool.blocks
        → g.0 ≤ x
        → x < g.0 + g.1
        → mem' x ≡ mem x)

Allocated-Cleared :
    (size : ℕ) (s : State) (mem : Memory) (r : Result)
    → Allocated true size s r
    → Cleared size s mem r.0 (zeroed r.0 size mem)
Allocated-Cleared size s mem (none, t) same = refl
Allocated-Cleared size s mem (some p, t) (w, e, even, used, kept) =
    (memzero-inside p size mem, λ g x a h k. memzero-outside p size mem g x (kept g a).1 h k)

pcalloc_found :
    (depth : ℕ) (a : Allocator) (size : ℕ) (s : State) (mem : Memory) (r : Result)
    → palloc depth a true size s ≡ some r
    → pcalloc depth a size s mem ≡ some (r, zeroed r.0 size mem)
unfolding pcalloc
pcalloc_found depth a size s mem r e = rw (e, pcalloc) refl

-- An `ngx_pcalloc` of at most `max` bytes from a sound pool returns. It gives NULL and changes
-- nothing; or it gives bytes in a block of the pool, on a multiple of 8, all of them zero, that have
-- no byte in common with what was below an allocation pointer before, and leaves every byte that was
-- there as it was; and the pool is sound again.
pub pcalloc-Cleared :
    (a : Allocator) (fresh : IsFresh a) (depth size : ℕ) (s : State) (mem : Memory)
    → WellFormed s
    → size ≤ s.pool.max
    → (r : Result) × (mem' : Memory) × (pcalloc (suc depth) a size s mem ≡ some (r, mem'))
      × Allocated true size s r
      × Cleared size s mem r.0 mem'
pcalloc-Cleared a fresh depth size s mem w h =
    let (r, e, ok) = palloc-Allocated a fresh depth true size s w h in
    (
      r,
      zeroed r.0 size mem,
      pcalloc_found (suc depth) a size s mem r e,
      ok,
      Allocated-Cleared size s mem r ok,
    )
