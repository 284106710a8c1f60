-- ===== src/Pool/Small.antt =====
-- `ngx_palloc` and `ngx_pnalloc` of nginx/src/ngx_palloc.c at sizes up to `max`, one call and many.
use mathlib.Core.Option.{some-injective, none-ne-some}
use rabbitmq_work.Base.{
  leb-true, ltb-false, ℕ, suc, ◌+◌, ◌%◌, ◌^◌, ◌≤◌, ◌<◌, ◌≡◌, Bool, ◌∙◌, ltb, List, ◌∷◌, none, some,
  arith, inl, inr, refl, ap, sym, subst, Option-cases, Bool-cases,
}
use rabbitmq_work.Pool.{
  Block, Region, Allocator, State, place_from, block_size, align_ptr, size_sub, new_pool,
}
use rabbitmq_work.Pool.Alloc.{
  Result, ngx_memalign, append_block, palloc_block, palloc_small, palloc, create_pool,
}
use rabbitmq_work.Pool.Grants.{size_sub_lem}
use rabbitmq_work.Pool.Moves.{first}
use rabbitmq_work.Pool.Apart.{Granted, place_from-Granted}
use rabbitmq_work.Pool.Sound.{IsFresh, WellFormed, Allocated, Grant-Allocated}
use rabbitmq_work.Pool.Runs.{append_block-Allocated}

pub ngx_memalign_null :
    (a : Allocator) (n size : ℕ) (heap : List Region)
    → a.posix_memalign heap n size ≡ none
    → ngx_memalign a n size heap ≡ (none, heap)
unfolding ngx_memalign
ngx_memalign_null a n size heap e = rw (e, ngx_memalign) refl

pub ngx_memalign_found :
    (a : Allocator) (n size m : ℕ) (heap : List Region)
    → a.posix_memalign heap n size ≡ some m
    → ngx_memalign a n size heap ≡ (some m, (m, size) ∷ heap)
unfolding ngx_memalign
ngx_memalign_found a n size m heap e = rw (e, ngx_memalign) refl

pub palloc_block_null :
    (a : Allocator) (size : ℕ) (s : State)
    → a.posix_memalign s.heap 16 (block_size s.pool.blocks) ≡ none
    → palloc_block a size s ≡ (none, s)
unfolding palloc_block
palloc_block_null a size s e =
    rw (ngx_memalign_null a 16 (block_size s.pool.blocks) s.heap e, palloc_block) refl

pub palloc_block_found :
    (a : Allocator) (size m : ℕ) (s : State)
    → a.posix_memalign s.heap 16 (block_size s.pool.blocks) ≡ some m
    → palloc_block a size s ≡ (
      some (align_ptr (m + 32)),
      record {
        heap = (m, block_size s.pool.blocks) ∷ s.heap;
        pool = append_block m (block_size s.pool.blocks) size s.pool;
      },
    )
unfolding palloc_block
palloc_block_found a size m s e =
    let found = ngx_memalign_found a 16 (block_size s.pool.blocks) m s.heap e in
    rw (found, palloc_block) (rw found refl)

pub palloc_small_full :
    (a : Allocator) (aligned : Bool) (size : ℕ) (s : State)
    → place_from aligned size s.pool.current s.pool.blocks ≡ none
    → palloc_small a aligned size s ≡ palloc_block a size s
unfolding palloc_small
palloc_small_full a aligned size s e = rw (e, palloc_small) refl

pub palloc_small_found :
    (a : Allocator) (aligned : Bool) (size : ℕ) (s : State) (r : ℕ × List Block)
    → place_from aligned size s.pool.current s.pool.blocks ≡ some r
    → palloc_small a aligned size s ≡ (some r.0, record s { pool = record s.pool { blocks = r.1 } })
unfolding palloc_small
palloc_small_found a aligned size s r e = rw (e, palloc_small) refl

module _ (a : Allocator) (fresh : IsFresh a) where
  palloc_block-Allocated :
      (aligned : Bool) (size : ℕ) (s : State)
      → WellFormed s
      → size ≤ s.pool.max
      → Allocated aligned size s (palloc_block a size s)
  palloc_block-Allocated aligned size s w h =
      let psize = block_size s.pool.blocks in
      elim (Option-cases (a.posix_memalign s.heap 16 psize)) [
        | inl null ↦ subst (Allocated aligned size s) (sym (palloc_block_null a size s null)) refl
        | inr (m, found) ↦
            subst (Allocated aligned size s) (sym (palloc_block_found a size m s found)) (
              append_block-Allocated aligned size m psize s w refl h
                (fresh.even s.heap psize m found) (fresh.apart s.heap 16 psize m found)
                (fresh.low s.heap 16 psize m found))
      ]

  pub palloc_small-Allocated :
      (aligned : Bool) (size : ℕ) (s : State)
      → WellFormed s
      → size ≤ s.pool.max
      → Allocated aligned size s (palloc_small a aligned size s)
  palloc_small-Allocated aligned size s w h =
      elim (Option-cases (place_from aligned size s.pool.current s.pool.blocks)) [
        | inl full ↦
            subst (Allocated aligned size s) (sym (palloc_small_full a aligned size s full))
              (palloc_block-Allocated aligned size s w h)
        | inr (r, found) ↦
            subst (Allocated aligned size s) (sym (palloc_small_found a aligned size s r found)) (
              Grant-Allocated aligned size r.0 s r.1 w (
                subst (Granted aligned size s.pool.blocks) found
                  (place_from-Granted aligned size s.pool.current s.pool.blocks w.sound)))
      ]

  -- An allocation of at most `max` bytes from a sound pool never goes to a large allocation. It
  -- gives NULL and changes nothing; or it gives bytes in a block of the pool, below the block's
  -- allocation pointer and, for `ngx_palloc`, on a multiple of 8, that have no byte in common with
  -- what was below an allocation pointer before; and the pool is sound again.
  pub palloc-Allocated :
      (depth : ℕ) (aligned : Bool) (size : ℕ) (s : State)
      → WellFormed s
      → size ≤ s.pool.max
      → (r : Result) × (palloc (suc depth) a aligned size s ≡ some r) × Allocated aligned size s r
  unfolding palloc
  palloc-Allocated depth aligned size s w h = (
    palloc_small a aligned size s,
    rw (leb-true size s.pool.max h) refl,
    palloc_small-Allocated aligned size s w h,
  )

pub create_pool_null :
    (a : Allocator) (pagesize size : ℕ) (heap : List Region)
    → a.posix_memalign heap 16 size ≡ none
    → create_pool a pagesize size heap ≡ none
unfolding create_pool
create_pool_null a pagesize size heap e = rw (ngx_memalign_null a 16 size heap e, create_pool) refl

pub create_pool_found :
    (a : Allocator) (pagesize size p : ℕ) (heap : List Region)
    → a.posix_memalign heap 16 size ≡ some p
    → create_pool a pagesize size heap
      ≡ some (record { heap = (p, size) ∷ heap; pool = new_pool pagesize p size })
unfolding create_pool
create_pool_found a pagesize size p heap e =
    let found = ngx_memalign_found a 16 size p heap e in rw (found, create_pool) (rw found refl)

new_pool-max :
    (pagesize p size : ℕ) → 80 ≤ size → size < 2 ^ 63 → (new_pool pagesize p size).max + 80 ≤ size
unfolding new_pool
new_pool-max pagesize p size h k =
    let e = size_sub_lem size 80 h k in
    elim (Bool-cases (ltb (size_sub size 80) (size_sub pagesize 1))) [
      | inl small ↦ rw small (omega (arith, e, h))
      | inr big ↦ rw big (omega (arith, e, h, ltb-false _ _ big))
    ]

new_pool-WellFormed :
    (pagesize p size : ℕ) (heap : List Region)
    → 80 ≤ size
    → size % 8 ≡ 0
    → p % 16 ≡ 0
    → p + size < 2 ^ 63
    → WellFormed (record { heap = (p, size) ∷ heap; pool = new_pool pagesize p size })
unfolding new_pool block_size
new_pool-WellFormed pagesize p size heap h e f k =
    let same = size_sub_lem (p + size) p (omega arith) k in
    record {
      sound = (
        record {
          above = omega arith;
          below = omega (arith, h);
          even_end = omega (arith, e, f);
          low = k;
        },
        tt,
      );
      separate = (tt, tt);
      owned = (first (ap (λ (n : ℕ). (p, n)) (omega arith)), tt);
      room = omega (arith, same, new_pool-max pagesize p size h (omega (arith, k)));
      even = omega (arith, same, e);
    }

-- If `ngx_create_pool` succeeds at a size that holds the header and is a multiple of 8, the pool is
-- sound, whatever the page size.
pub create_pool-WellFormed :
    (a : Allocator) (pagesize size : ℕ) (heap : List Region) (s : State)
    → IsFresh a
    → 80 ≤ size
    → size % 8 ≡ 0
    → create_pool a pagesize size heap ≡ some s
    → WellFormed s
create_pool-WellFormed a pagesize size heap s fresh h e made =
    elim (Option-cases (a.posix_memalign heap 16 size)) [
      | inl null ↦ absurd (none-ne-some s (sym (create_pool_null a pagesize size heap null) ∙ made))
      | inr (p, found) ↦
          subst WellFormed
            (some-injective _ _ (sym (create_pool_found a pagesize size p heap found) ∙ made))
            (new_pool-WellFormed pagesize p size heap h e (fresh.even heap size p found)
              (fresh.low heap 16 size p found))
    ]
