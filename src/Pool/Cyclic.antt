-- ===== src/Pool/Cyclic.antt =====
-- The list of cleanups of nginx/src/ngx_palloc.c after `ngx_reset_pool`, which does not clear it.
use mathlib.Core.Option.{some-injective, none-ne-some}
use rabbitmq_work.Base.{
  ℕ, zero, suc, ◌+◌, ◌%◌, ◌^◌, ◌≤◌, ◌<◌, ◌≡◌, leb, true, List, [], ◌∷◌, Option, none, some, arith,
  inl, inr, refl, sym, ap, ◌∙◌, subst, Option-cases, leb-true,
}
use rabbitmq_work.Pool.{
  Block, Allocator, Cleanup, Region, State, new_pool, align_ptr, size_sub, place_from, place,
  first_free,
}
use rabbitmq_work.Pool.Alloc.{
  Result, create_pool, palloc, cleanup_add, add_cleanup, reset_pool, reset_block, free_large,
  run_cleanups, destroy_pool,
}
use rabbitmq_work.Pool.Grants.{size_sub_lem}
use rabbitmq_work.Pool.Sound.{IsFresh}
use rabbitmq_work.Pool.Small.{palloc_small_found, create_pool_null, create_pool_found}
use rabbitmq_work.Pool.Life.{reset, add_handler}
use rabbitmq_work.Pool.Live.Destroy.{one_cleanup, self_cell}
use rabbitmq_work.Pool.Live.Uses.{serve, serve_one}

-- A pool of one block, with nothing large.
abbrev alone : ℕ → ℕ → ℕ → ℕ → Option ℕ → List Cleanup → List Region → State
alone p last size max head cells heap = record {
  heap = heap;
  pool = record {
    blocks = record { start = p; last = last; end_ = p + size; failed = 0 } ∷ [];
    max = max;
    current = 0;
    large = [];
    cleanup = head;
    cells = cells;
  };
}

module _ (a : Allocator) (p size max : ℕ) (heap : List Region) (even : p % 16 ≡ 0)
    (low : p + size < 2 ^ 63) (h : 104 ≤ size) (k : 24 ≤ max) where
  abbrev block : Block
  block = record { start = p; last = p + 80; end_ = p + size; failed = 0 }

  header_end : first_free true block ≡ p + 80
  unfolding first_free align_ptr
  header_end = omega (arith, even, low, h)

  first_place :
      place_from true 24 0 (block ∷ []) ≡ some (p + 80, record block { last = p + 80 + 24 } ∷ [])
  unfolding place_from place
  first_place =
      let room = size_sub_lem (p + size) (p + 80) (omega (arith, h)) low in
      let fits : leb 24 (size_sub (p + size) (first_free true block)) ≡ true =
        rw header_end (leb-true 24 (size_sub (p + size) (p + 80)) (omega (arith, room, h))) in
      rw fits (rw header_end refl)

  first_cell :
      (depth : ℕ) (head : Option ℕ) (cells : List Cleanup)
      → palloc (suc depth) a true 24 (alone p (p + 80) size max head cells heap)
        ≡ some (some (p + 80), alone p (p + 80 + 24) size max head cells heap)
  unfolding palloc
  first_cell depth head cells =
      let s = alone p (p + 80) size max head cells heap in
      rw (leb-true 24 max k)
        (ap (λ (r : Result). some r) (palloc_small_found a true 24 s _ first_place))

  first_cleanup :
      (depth : ℕ) (head : Option ℕ) (cells : List Cleanup)
      → cleanup_add (suc depth) a 0 (alone p (p + 80) size max head cells heap)
        ≡ some (add_cleanup (p + 80) none (alone p (p + 80 + 24) size max head cells heap))
  unfolding cleanup_add
  first_cleanup depth head cells = rw (first_cell depth head cells, cleanup_add) refl

  first_handler :
      (depth : ℕ) (live : List Region) (head : Option ℕ) (cells : List Cleanup)
      → serve_one (suc depth) a (add_handler 0) (live, alone p (p + 80) size max head cells heap)
        ≡ some (
          (p + 80, 24) ∷ live,
          (add_cleanup (p + 80) none (alone p (p + 80 + 24) size max head cells heap)).1,
        )
  unfolding serve_one
  first_handler depth live head cells = rw (first_cleanup depth head cells, serve_one) refl

  -- The two cells are at the same address.
  abbrev stale : Cleanup
  stale = record { cell = p + 80; handler = none; data_ = none; next = none }

  abbrev looping : Cleanup
  looping = record { cell = p + 80; handler = none; data_ = none; next = some (p + 80) }

  abbrev cyclic : State
  cyclic = alone p (p + 80 + 24) size max (some (p + 80)) (looping ∷ stale ∷ []) heap

  walk_spins : (rounds : ℕ) → run_cleanups (some (p + 80)) (looping ∷ stale ∷ []) rounds ≡ none
  unfolding run_cleanups
  walk_spins zero = refl
  walk_spins (suc rounds) =
      let there = self_cell looping (stale ∷ []) in
      rw (one_cleanup (p + 80) looping (looping ∷ stale ∷ []) rounds there, walk_spins rounds) refl

  add_again :
      (depth : ℕ)
      → serve
          (suc depth)
          a
          (add_handler 0 ∷ reset ∷ add_handler 0 ∷ [])
          ([], alone p (p + 80) size max none [] heap)
        ≡ some ((p + 80, 24) ∷ [], cyclic)
  unfolding serve serve_one reset_pool reset_block free_large
  add_again depth =
      rw (first_handler depth [] none [], serve)
        (rw (first_handler depth [] (some (p + 80)) (stale ∷ []), serve) refl)

  cyclic-spins : (rounds : ℕ) → destroy_pool rounds cyclic ≡ none
  unfolding destroy_pool
  cyclic-spins rounds = rw (walk_spins rounds) refl

-- The C library hands out only memory apart from what stands, aligned and in the lower half of the
-- address space. In a pool that was made with a size of 104 or more, and whose `max` is at least 24, a
-- cleanup without data is added, then comes `ngx_reset_pool`, and then a cleanup without data again:
-- the calls return, and `ngx_destroy_pool` never does, however many rounds its walk over the cleanups
-- is given. The second cleanup has the cell of the first one, which the list still begins with, and
-- is its own successor.
pub destroy_pool_spins :
    (a : Allocator) (fresh : IsFresh a) (pagesize size : ℕ) (heap : List Region) (depth : ℕ)
    (s : State)
    → create_pool a pagesize size heap ≡ some s
    → 104 ≤ size
    → 24 ≤ s.pool.max
    → (live : List Region) × (t : State) × (serve
          (suc depth)
          a
          (add_handler 0 ∷ reset ∷ add_handler 0 ∷ [])
          ([], s)
        ≡ some (live, t))
      × ((rounds : ℕ) → destroy_pool rounds t ≡ none)
unfolding new_pool
destroy_pool_spins a fresh pagesize size heap depth s made h =
    elim (Option-cases (a.posix_memalign heap 16 size)) [
      | inl null ↦ absurd (none-ne-some s (sym (create_pool_null a pagesize size heap null) ∙ made))
      | inr (p, found) ↦
          let even = fresh.even heap size p found in
          let low = fresh.low heap 16 size p found in
          let heap' : List Region = (p, size) ∷ heap in
          let max = (new_pool pagesize p size).max in
          subst
            (λ (u : State).
              24 ≤ u.pool.max
              → (live : List Region) × (t : State) × (serve (suc depth) a
                    (add_handler 0 ∷ reset ∷ add_handler 0 ∷ []) ([], u)
                  ≡ some (live, t))
                × ((rounds : ℕ) → destroy_pool rounds t ≡ none))
            (some-injective _ _ (sym (create_pool_found a pagesize size p heap found) ∙ made))
            (λ k. (
              (p + 80, 24) ∷ [],
              cyclic a p size max heap' even low h k,
              add_again a p size max heap' even low h k depth,
              cyclic-spins a p size max heap' even low h k,
            ))
    ]
