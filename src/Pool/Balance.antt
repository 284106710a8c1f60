-- ===== src/Pool/Balance.antt =====
-- The memory that a pool of nginx/src/ngx_palloc.c answers for, through each of its operations.
use mathlib.Core.Option
use rabbitmq_work.Base.{
  ℕ, suc, ◌+◌, ◌≤◌, ◌≡◌, ◌==◌, Bool, true, false, List, [], ◌∷◌, Option, none, some, arith, refl,
  subst, inl, inr, Bool-cases, Option-cases, leb, leb-true,
}
use rabbitmq_work.Pool.{
  Allocator, Large, State, Region, sizeof_large, block_size, place_from, new_block, count_from,
}
use rabbitmq_work.Pool.Alloc.{
  Result, ngx_alloc, append_block, palloc_block, palloc_small, reuse_cell, add_large, palloc,
  pmemalign,
}
use rabbitmq_work.Pool.Small.{
  ngx_memalign_null, ngx_memalign_found, palloc_block_null, palloc_block_found, palloc_small_full,
  palloc_small_found,
}
use rabbitmq_work.Pool.Ledger.{
  one, at_address, starts_at, larges_at, SameStarts, place_from-SameStarts, count_from-starts_at,
  starts_at-append, free-Covers,
}
use rabbitmq_work.Pool.Cells.{Filled, reuse_cell-Filled}

-- Every allocation of the C library is a block or a large allocation of the pool, or one of those
-- that `base` counts; none is counted twice. `m` is the pool's `max`.
pub record Accounts (base : ℕ → ℕ) (m : ℕ) (s : State) : Type 0 where
  pub balance :
      (p : ℕ) → at_address p s.heap ≡ starts_at p s.pool.blocks + larges_at p s.pool.large + base p
  pub limit : s.pool.max ≡ m

-- `base` and one more allocation at `q`.
abbrev pub and_at : ℕ → (ℕ → ℕ) → ℕ → ℕ
and_at q base p = one (q == p) + base p

module _ (a : Allocator) (m : ℕ) where
  palloc_block-Accounts :
      (base : ℕ → ℕ) (size : ℕ) (s : State)
      → Accounts base m s
      → Accounts base m (palloc_block a size s).1
  unfolding append_block new_block
  palloc_block-Accounts base size s h =
      elim (Option-cases (a.posix_memalign s.heap 16 (block_size s.pool.blocks))) [
        | inl null ↦ rw (palloc_block_null a size s null) h
        | inr (q, found) ↦ rw (palloc_block_found a size q s found) (record {
          balance = λ p. omega (
            arith,
            h.balance p,
            count_from-starts_at s.pool.current s.pool.current s.pool.blocks p,
            starts_at-append p (count_from s.pool.current s.pool.current s.pool.blocks).0
                (new_block q (block_size s.pool.blocks) size ∷ []),
          );
          limit = h.limit;
        })
      ]

  pub palloc_small-Accounts :
      (base : ℕ → ℕ) (aligned : Bool) (size : ℕ) (s : State)
      → Accounts base m s
      → Accounts base m (palloc_small a aligned size s).1
  palloc_small-Accounts base aligned size s h =
      elim (Option-cases (place_from aligned size s.pool.current s.pool.blocks)) [
        | inl full ↦
            rw (palloc_small_full a aligned size s full) (palloc_block-Accounts base size s h)
        | inr (r, found) ↦
            let same =
              subst (SameStarts s.pool.blocks) found
                (place_from-SameStarts aligned size s.pool.current s.pool.blocks) in
            rw (palloc_small_found a aligned size s r found)
              (record { balance = λ p. omega (arith, h.balance p, same p); limit = h.limit })
      ]

  pub add_large-Accounts :
      (base : ℕ → ℕ) (q : ℕ) (r : Result)
      → Accounts (and_at q base) m r.1
      → Accounts base m (add_large q r).1
  unfolding add_large
  add_large-Accounts base q (none, s) h = record {
    balance =
        free-Covers s.heap q (λ p. starts_at p s.pool.blocks + larges_at p s.pool.large + base p)
          (λ p. omega (arith, h.balance p));
    limit = h.limit;
  }
  add_large-Accounts base q (some cell, s) h = record {
    balance = λ p. omega (arith, h.balance p);
    limit = h.limit;
  }

  -- A call that has a result.
  abbrev pub Settled : (ℕ → ℕ) → Option Result → Type 0
  Settled base r = (x : Result) × (r ≡ some x) × Accounts base m x.1

  pub small-Settled :
      (base : ℕ → ℕ) (depth : ℕ) (aligned : Bool) (size : ℕ) (s : State)
      → size ≤ m
      → Accounts base m s
      → Settled base (palloc (suc depth) a aligned size s)
  unfolding palloc
  small-Settled base depth aligned size s k h =
      let fits = leb-true size s.pool.max (omega (arith, k, h.limit)) in
      (palloc_small a aligned size s, rw fits refl, palloc_small-Accounts base aligned size s h)

  -- A new large allocation, whose list cell is allocated from the pool.
  cell-Settled :
      (base : ℕ → ℕ) (depth q : ℕ) (s : State)
      → 16 ≤ m
      → Accounts (and_at q base) m s
      → Settled base (Option.map (add_large q) (palloc (suc depth) a true sizeof_large s))
  cell-Settled base depth q s k h =
      let (x, e, acc) = small-Settled (and_at q base) depth true 16 s k h in
      (add_large q x, rw e refl, add_large-Accounts base q x acc)

  -- More memory taken from the C library.
  pub taken :
      (base : ℕ → ℕ) (q size : ℕ) (s : State)
      → Accounts base m s
      → Accounts (and_at q base) m (record s { heap = (q, size) ∷ s.heap })
  taken base q size s h = record { balance = λ p. omega (arith, h.balance p); limit = h.limit }

  ngx_alloc_found :
      (size q : ℕ) (heap : List Region)
      → a.malloc heap size ≡ some q
      → ngx_alloc a size heap ≡ (some q, (q, size) ∷ heap)
  unfolding ngx_alloc
  ngx_alloc_found size q heap e = rw (e, ngx_alloc) refl

  -- `ngx_palloc_large` with no free cell.
  pub palloc_large_full :
      (depth : ℕ) (aligned : Bool) (size q : ℕ) (s : State)
      → leb size s.pool.max ≡ false
      → a.malloc s.heap size ≡ some q
      → reuse_cell 0 q s.pool.large ≡ none
      → palloc (suc depth) a aligned size s
        ≡ Option.map
            (add_large q)
            (palloc depth a true sizeof_large (record s { heap = (q, size) ∷ s.heap }))
  unfolding palloc
  palloc_large_full depth aligned size q s large found full =
      let e = ngx_alloc_found size q s.heap found in rw (large, e, palloc) (rw (full, e) refl)

  -- With a free cell.
  pub palloc_large_reused :
      (depth : ℕ) (aligned : Bool) (size q : ℕ) (s : State) (ls : List Large)
      → leb size s.pool.max ≡ false
      → a.malloc s.heap size ≡ some q
      → reuse_cell 0 q s.pool.large ≡ some ls
      → palloc (suc depth) a aligned size s
        ≡ some (some q, record { heap = (q, size) ∷ s.heap; pool = record s.pool { large = ls } })
  unfolding palloc
  palloc_large_reused depth aligned size q s ls large found reused =
      let e = ngx_alloc_found size q s.heap found in rw (large, e, palloc) (rw (reused, e) refl)

  pub pmemalign_found :
      (depth size alignment q : ℕ) (s : State)
      → a.posix_memalign s.heap alignment size ≡ some q
      → pmemalign depth a size alignment s
        ≡ Option.map
            (add_large q)
            (palloc depth a true sizeof_large (record s { heap = (q, size) ∷ s.heap }))
  unfolding pmemalign
  pmemalign_found depth size alignment q s found =
      let e = ngx_memalign_found a alignment size q s.heap found in rw (e, pmemalign) (rw e refl)

  pub palloc-Settled :
      (base : ℕ → ℕ) (depth : ℕ) (aligned : Bool) (size : ℕ) (s : State)
      → 16 ≤ m
      → Accounts base m s
      → Settled base (palloc (suc (suc depth)) a aligned size s)
  unfolding palloc ngx_alloc
  palloc-Settled base depth aligned size s k h = elim (Bool-cases (leb size s.pool.max)) [
    | inl fits ↦
        (palloc_small a aligned size s, rw fits refl, palloc_small-Accounts base aligned size s h)
    | inr large ↦ elim (Option-cases (a.malloc s.heap size)) [
      | inl null ↦ ((none, s), rw (large, null) refl, h)
      | inr (q, found) ↦
          let t = record s { heap = (q, size) ∷ s.heap } in
          elim (Option-cases (reuse_cell 0 q s.pool.large)) [
            | inl full ↦
                let (x, e, acc) = cell-Settled base depth q t k (taken base q size s h) in
                (x, rw (palloc_large_full (suc depth) aligned size q s large found full) e, acc)
            | inr (ls, reused) ↦
                let filled =
                  subst (Filled q s.pool.large) reused (reuse_cell-Filled 0 q s.pool.large) in
                (
                  (
                    some q,
                    record { heap = (q, size) ∷ s.heap; pool = record s.pool { large = ls } },
                  ),
                  palloc_large_reused (suc depth) aligned size q s ls large found reused,
                  record { balance = λ p. omega (arith, h.balance p, filled p); limit = h.limit },
                )
          ]
    ]
  ]

  pub pmemalign-Settled :
      (base : ℕ → ℕ) (depth size alignment : ℕ) (s : State)
      → 16 ≤ m
      → Accounts base m s
      → Settled base (pmemalign (suc depth) a size alignment s)
  unfolding pmemalign
  pmemalign-Settled base depth size alignment s k h =
      elim (Option-cases (a.posix_memalign s.heap alignment size)) [
        | inl null ↦
            ((none, s), rw (pmemalign, ngx_memalign_null a alignment size s.heap null) refl, h)
        | inr (q, found) ↦
            let t = record s { heap = (q, size) ∷ s.heap } in
            let (x, e, acc) = cell-Settled base depth q t k (taken base q size s h) in
            (x, rw (pmemalign_found (suc depth) size alignment q s found) e, acc)
      ]
