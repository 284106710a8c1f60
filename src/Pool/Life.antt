-- ===== src/Pool/Life.antt =====
-- The life of a pool of nginx/src/ngx_palloc.c, from `ngx_create_pool` to `ngx_destroy_pool`.
use mathlib.Core.Option.{some-injective, none-ne-some}
use rabbitmq_work.Base.{
  ℕ, ◌+◌, ◌≡◌, Bool, List, some, arith, ◌∙◌, refl, sym, subst, inl, inr, Bool-cases, Option-cases,
}
use rabbitmq_work.Pool.{Allocator, State, Region, new_pool}
use rabbitmq_work.Pool.Alloc.{free_blocks, free_large, create_pool, clear_cell, pfree, reset_pool}
use rabbitmq_work.Pool.Small.{create_pool_null, create_pool_found}
use rabbitmq_work.Pool.Ledger.{
  at_address, starts_at, larges_at, starts_at-reset, free-Covers, free_large-Covers,
  free_blocks-Covers,
}
use rabbitmq_work.Pool.Cells.{clear_cell-Cleared}
use rabbitmq_work.Pool.Balance.{Accounts}

-- A call of an operation on a pool: `ngx_palloc` (true) or `ngx_pnalloc`, `ngx_pmemalign` (size and
-- alignment), `ngx_pfree`, `ngx_reset_pool` and `ngx_pool_cleanup_add`.
pub data Op : Type 0 where
  take : Bool → ℕ → Op
  take_aligned : ℕ → ℕ → Op
  give_back : ℕ → Op
  reset : Op
  add_handler : ℕ → Op

-- `ngx_pfree` and `ngx_reset_pool`
pub pfree-Accounts :
    (base : ℕ → ℕ) (m q : ℕ) (s : State) → Accounts base m s → Accounts base m (pfree q s).1
unfolding pfree
pfree-Accounts base m q s h = elim (Bool-cases (clear_cell q s.pool.large).0) [
  | inr e ↦ rw e h
  | inl e ↦
      let ls = (clear_cell q s.pool.large).1 in
      let cleared = clear_cell-Cleared q s.pool.large e in
      rw e (record {
        balance =
            free-Covers s.heap q (λ p. starts_at p s.pool.blocks + larges_at p ls + base p)
              (λ p. omega (arith, h.balance p, cleared p));
        limit = h.limit;
      })
]

pub reset_pool-Accounts :
    (base : ℕ → ℕ) (m : ℕ) (s : State) → Accounts base m s → Accounts base m (reset_pool s)
unfolding reset_pool
reset_pool-Accounts base m s h = record {
  balance = λ p. omega (
    arith,
    starts_at-reset p s.pool.blocks,
    free_large-Covers s.pool.large s.heap (λ p'. starts_at p' s.pool.blocks + base p')
        (λ p'. omega (arith, h.balance p')) p,
  );
  limit = h.limit;
}

pub all_free-Covers :
    (base : ℕ → ℕ) (m : ℕ) (s : State)
    → Accounts base m s
    → (p : ℕ) → at_address p (free_blocks s.pool.blocks (free_large s.pool.large s.heap)) ≡ base p
all_free-Covers base m s h = free_blocks-Covers s.pool.blocks _ base (
    free_large-Covers s.pool.large s.heap (λ p. starts_at p s.pool.blocks + base p)
      (λ p. omega (arith, h.balance p)))

pub create_pool-Accounts :
    (a : Allocator) (pagesize size : ℕ) (heap : List Region) (s : State)
    → create_pool a pagesize size heap ≡ some s
    → Accounts (λ p. at_address p heap) s.pool.max s
unfolding create_pool new_pool
create_pool-Accounts a pagesize size heap s made =
    let base = λ (p : ℕ). at_address p heap in
    elim (Option-cases (a.posix_memalign heap 16 size)) [
      | inl null ↦ absurd (none-ne-some s (sym (create_pool_null a pagesize size heap null) ∙ made))
      | inr (q, found) ↦
          subst (λ (t : State). Accounts base t.pool.max t)
            (some-injective _ _ (sym (create_pool_found a pagesize size q heap found) ∙ made))
            (record { balance = λ p. omega arith; limit = refl })
    ]
