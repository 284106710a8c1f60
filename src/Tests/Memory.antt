-- ===== src/Tests/Memory.antt =====
-- Pools of nginx/src/ngx_palloc.c over a C library that allocates upwards.
use rabbitmq_work.Base.{
  ◌==◌, ==_iff, inl, Bool-cases, ltb-true, ℕ, ◌+◌, ◌*◌, ◌/◌, ◌^◌, ◌≤◌, ◌<◌, ◌≡◌, ltb, Bool, true,
  false, List, [], ◌∷◌, Option, none, some, if◌then◌else◌, All, arith, inr, refl,
}
use mathlib.Core.Option.{some-injective, none-ne-some}
use rabbitmq_work.Pool.{
  Block, Region, Allocator, State, new_pool, place, place_from, first_free, align_ptr, size_sub,
  new_block, count_from, count_failures, block_size, free,
}
use rabbitmq_work.Pool.Alloc.{
  pool_main, reset_pool, pmemalign, ngx_alloc, add_large, reuse_cell, pfree, clear_cell, free_large,
  reset_block, cleanup_add, Result, destroy_pool, palloc, create_pool, palloc_small, palloc_block,
  ngx_memalign, append_block,
}
use rabbitmq_work.Pool.Apart.{Apart, Pairwise}
use rabbitmq_work.Pool.Sound.{IsFresh, WellFormed, Allocated}
use rabbitmq_work.Pool.Small.{create_pool-WellFormed}
use rabbitmq_work.Pool.Content.{Memory, Cleared, pcalloc, pcalloc-Cleared}
use rabbitmq_work.Pool.Tidy.{IsTidy, IsFair}
use rabbitmq_work.Pool.Live.{Held}
use rabbitmq_work.Pool.Live.Destroy.{destroy_pool-create_pool}
use rabbitmq_work.Pool.Cyclic.{destroy_pool_spins}
use rabbitmq_work.Pool.Live.Uses.{Ledger, serve_one, serve, serve-Live}
use rabbitmq_work.Pool.Ledger.{at_address}
use rabbitmq_work.Pool.Life.{Op, take, take_aligned, give_back, reset, add_handler}
use rabbitmq_work.Pool.Endless.{Busy, palloc_endless}

-- The end of the highest allocation.
abbrev top : List Region → ℕ
top [] = 4080
top (r ∷ rs) = if ltb (top rs) (r.0 + r.1) then r.0 + r.1 else top rs

abbrev next_free : List Region → ℕ
next_free heap = (top heap + 16) / 16 * 16

unfoldable upwards : List Region → ℕ → Option ℕ
upwards heap size = if ltb (next_free heap + size) (2 ^ 63) then some (next_free heap) else none

abbrev bump : Allocator
bump = record { malloc = upwards; posix_memalign = λ heap n size. upwards heap size }

granted_by : (b : Bool) (x p : ℕ) → (if b then some x else none) ≡ some p → (b ≡ true) × (x ≡ p)
granted_by true x p e = (refl, some-injective x p e)
granted_by false x p e = absurd (none-ne-some p e)

upwards_lem :
    (heap : List Region) (size p : ℕ)
    → upwards heap size ≡ some p
    → (next_free heap ≡ p) × (p + size < 2 ^ 63)
unfolding upwards
upwards_lem heap size p e =
    let (fits, same) = granted_by (ltb (next_free heap + size) (2 ^ 63)) (next_free heap) p e in
    (same, omega (arith, ltb-true (next_free heap + size) (2 ^ 63) fits, same))

top_lem : (r : Region) (rs : List Region) → (r.0 + r.1 ≤ top (r ∷ rs)) × (top rs ≤ top (r ∷ rs))
top_lem r rs = ground arith

All-below : (heap : List Region) (p size : ℕ) → top heap ≤ p → All (Apart (p, size)) heap
All-below [] p size h = tt
All-below (r ∷ rs) p size h =
    let (this, others) = top_lem r rs in
    (inr (omega (arith, this, h)), All-below rs p size (omega (arith, others, h)))

bump-IsFresh : IsFresh bump
bump-IsFresh = record {
  apart = λ heap n size p e. All-below heap p size (omega (arith, (upwards_lem heap size p e).0));
  even = λ heap size p e. omega (arith, (upwards_lem heap size p e).0);
  low = λ heap n size p e. (upwards_lem heap size p e).1;
}

above_all : (heap : List Region) (p : ℕ) → top heap < p → at_address p heap ≡ 0
above_all [] p h = refl
above_all (r ∷ rs) p h =
    let (this, others) = top_lem r rs in
    let rest = above_all rs p (omega (arith, others, h)) in
    elim (Bool-cases (r.0 == p)) [
      | inl e ↦ absurd (omega (arith, this, h, (==_iff r.0 p).0 e))
      | inr e ↦ rw e (omega (arith, rest))
    ]

bump-IsFair : IsFair bump
bump-IsFair = record {
  fresh = bump-IsFresh;
  malloc_apart =
      λ heap size p e. All-below heap p size (omega (arith, (upwards_lem heap size p e).0));
  malloc_new = λ heap size p e. above_all heap p (omega (arith, (upwards_lem heap size p e).0));
  memalign_new = λ heap n size p e. above_all heap p (omega (arith, (upwards_lem heap size p e).0));
}

-- `ngx_pagesize` is 0, as nothing sets it.
abbrev small_pool : State
small_pool = record { heap = (4096, 1024) ∷ []; pool = new_pool 0 4096 1024 }

no_heap-IsTidy : IsTidy []
no_heap-IsTidy = record { apart = tt; once = λ p. omega arith }

small_pool-made : create_pool bump 0 1024 [] ≡ some small_pool
unfolding create_pool upwards
small_pool-made = refl

small_pool-max : small_pool.pool.max ≡ 944
unfolding new_pool size_sub
small_pool-max = refl

small_pool-WellFormed : WellFormed small_pool
small_pool-WellFormed =
    create_pool-WellFormed bump 0 1024 [] small_pool bump-IsFresh (omega arith) refl small_pool-made

-- Small and large allocations, a reset, one allocation given back, and cleanups.
abbrev life : List Op
life =
    take true 100
    ∷ take false 5000
    ∷ take_aligned 2000 64
    ∷ reset
    ∷ take true 3000
    ∷ give_back 5136
    ∷ add_handler 950
    ∷ add_handler 0
    ∷ take true 7000
    ∷ []

destroy_pool-create_pool_example :
    (live : List Region) × (t : State) × (out : List (ℕ × Option ℕ)) × (left : List Region) × (serve
        2 bump life
        ([], small_pool)
      ≡ some (live, t))
    × (destroy_pool 9 t ≡ some (out, left))
    × ((p : ℕ) → at_address p left ≡ at_address p [])
destroy_pool-create_pool_example =
    destroy_pool-create_pool bump bump-IsFair 0 1024 [] life 0 9 small_pool small_pool-made
      (omega arith) refl no_heap-IsTidy (omega (arith, small_pool-max)) tt (omega arith)

destroy_pool_spins_example :
    (live : List Region) × (t : State) × (serve 1 bump
        (add_handler 0 ∷ reset ∷ add_handler 0 ∷ [])
        ([], small_pool)
      ≡ some (live, t))
    × ((rounds : ℕ) → destroy_pool rounds t ≡ none)
destroy_pool_spins_example =
    destroy_pool_spins bump bump-IsFresh 0 1024 [] 0 small_pool small_pool-made (omega arith)
      (omega (arith, small_pool-max))

-- A pool of 88 bytes, whose `max` is 8.
abbrev tiny_pool : State
tiny_pool = record { heap = (4096, 88) ∷ []; pool = new_pool 0 4096 88 }

tiny_pool-max : tiny_pool.pool.max ≡ 8
unfolding new_pool size_sub
tiny_pool-max = refl

abbrev generous : Allocator
generous = record {
  malloc = λ heap size. some (next_free heap);
  posix_memalign = λ heap n size. some (next_free heap);
}

no_cells : Busy tiny_pool.pool.large
unfolding new_pool
no_cells = tt

palloc_endless_example : palloc 1000 generous true 9 tiny_pool ≡ none
palloc_endless_example =
    palloc_endless generous (λ heap size. (next_free heap, refl)) 1000 true 9 tiny_pool
      (omega (arith, tiny_pool-max)) (omega (arith, tiny_pool-max)) no_cells

abbrev dirty : Memory
dirty x = 255

pcalloc-Cleared_example :
    (r : Result) × (mem' : Memory) × (pcalloc 1 bump 100 small_pool dirty ≡ some (r, mem'))
    × Allocated true 100 small_pool r
    × Cleared 100 small_pool dirty r.0 mem'
pcalloc-Cleared_example =
    pcalloc-Cleared bump bump-IsFresh 0 100 small_pool dirty small_pool-WellFormed
      (omega (arith, small_pool-max))

-- Allocations of every kind and a handler, after a reset; the allocation of 5000 is given back.
abbrev in_use : List Op
in_use =
    take true 4000
    ∷ reset
    ∷ take true 101
    ∷ take false 5000
    ∷ take_aligned 2000 64
    ∷ give_back 5136
    ∷ take true 900
    ∷ add_handler 950
    ∷ take false 3
    ∷ []

abbrev live_of : Option Ledger → List Region
live_of none = []
live_of (some r) = r.0

live_regions :
    live_of (serve 2 bump in_use ([], small_pool))
    ≡ (4336, 3) ∷ (13200, 950) ∷ (4312, 24) ∷ (12192, 900) ∷ (10144, 2000) ∷ (4176, 101) ∷ []
unfolding serve serve_one palloc palloc_small palloc_block pmemalign ngx_memalign ngx_alloc
    add_large reuse_cell pfree clear_cell reset_pool free_large reset_block free cleanup_add upwards
    place_from place first_free align_ptr size_sub append_block new_block count_from count_failures
    block_size new_pool
live_regions = refl

serve-Live_example :
    (live : List Region) × (t : State) × (serve 2 bump in_use ([], small_pool) ≡ some (live, t))
    × Pairwise live
    × All (Held t) live
    × WellFormed t
serve-Live_example =
    serve-Live bump bump-IsFair 0 1024 [] in_use 0 small_pool small_pool-made (omega arith) refl
      no_heap-IsTidy (omega (arith, small_pool-max))

-- The pool of 100 bytes has room for 20.
pool_main_run :
    pool_main bump 0 []
    ≡ some (record {
      heap = (4096, 100) ∷ [];
      pool = record {
        blocks = record { start = 4096; last = 4176; end_ = 4196; failed = 0 } ∷ [];
        max = 20;
        current = 0;
        large = [];
        cleanup = none;
        cells = [];
      };
    })
unfolding pool_main create_pool ngx_memalign upwards new_pool size_sub
pool_main_run = refl

-- The pool of 100 bytes, after an allocation of 17.
abbrev odd_block : Block
odd_block = record { start = 4096; last = 4193; end_ = 4196; failed = 0 }

-- A chain of three blocks, of which the first has failed five times.
abbrev worn : State
worn = record {
  heap = (4096, 104) ∷ (4208, 104) ∷ (4320, 104) ∷ [];
  pool = record {
    blocks =
        record { start = 4096; last = 4200; end_ = 4200; failed = 5 }
        ∷ record { start = 4208; last = 4312; end_ = 4312; failed = 2 }
        ∷ record { start = 4320; last = 4424; end_ = 4424; failed = 0 }
        ∷ [];
    max = 24;
    current = 0;
    large = [];
    cleanup = none;
    cells = [];
  };
}

worn-moves_on : (palloc_small bump true 24 worn).1.pool.current ≡ 1
unfolding palloc_small palloc_block ngx_memalign upwards place_from place first_free align_ptr
    size_sub append_block new_block count_from count_failures block_size
worn-moves_on = refl
