-- ===== src/Pool/Live/Outside.antt =====
-- What an allocation of any size, and an aligned one, does to the live regions of a pool of
-- nginx/src/ngx_palloc.c.
use mathlib.Core.Option
use rabbitmq_work.Base.{
  ℕ, suc, ◌≤◌, ◌≡◌, ==_iff, Bool, true, List, [], ◌∷◌, Option, none, some, All, arith, inl, inr,
  refl, sym, subst, ap, ◌∙◌, leb, Option-cases, Bool-cases, leb-le, leb-false, leb-true,
}
use rabbitmq_work.Pool.{Allocator, Region, State, Block, sizeof_large, free}
use rabbitmq_work.Pool.Alloc.{
  Result, palloc, palloc_small, pmemalign, add_large, reuse_cell, ngx_alloc,
}
use rabbitmq_work.Pool.Grants.{IsSound}
use rabbitmq_work.Pool.Moves.{Any, first, after, Within}
use rabbitmq_work.Pool.Apart.{Apart, All-imp}
use rabbitmq_work.Pool.Sound.{WellFormed, Owned, extent, Allocated}
use rabbitmq_work.Pool.Small.{palloc_small-Allocated, ngx_memalign_null}
use rabbitmq_work.Pool.Ledger.{at_address}
use rabbitmq_work.Pool.Cells.{Filled, reuse_cell-Filled}
use rabbitmq_work.Pool.Balance.{
  and_at, taken, add_large-Accounts, palloc_large_full, palloc_large_reused, pmemalign_found,
}
use rabbitmq_work.Pool.Tidy.{IsFair, All-In, taken-IsTidy}
use rabbitmq_work.Pool.Live.{
  Quiet, Quiet-refl, Held, used, outside, Live, Live-tail, with_grant, relisted-Live,
}
use rabbitmq_work.Pool.Live.Small.{inner_region, small-Live, small-Quiet}

module _ (a : Allocator) (fair : IsFair a) (m : ℕ) where
  -- A new allocation of the C library, at an address and of a size that nothing has.
  module _ (q size : ℕ) (s : State) (fresh : All (Apart (q, size)) s.heap)
      (new : at_address q s.heap ≡ 0) where
    abbrev grown : State
    grown = record s { heap = (q, size) ∷ s.heap }

    from_blocks :
        (g : Region) (bs : List Block)
        → All IsSound bs
        → All (Owned s.heap) bs
        → Any (Within g) bs
        → Apart (q, size) g
    from_blocks g [] ss os w = elim w [ ]
    from_blocks g (b ∷ bs) (s', ss) (o, os) (first w) =
        inner_region (q, size) g b s' w (All-In (Apart (q, size)) s.heap (extent b) fresh o)
    from_blocks g (b ∷ bs) (s', ss) (o, os) (after w) = from_blocks g bs ss os w

    regions_stay :
        (live : List Region)
        → WellFormed s
        → All (Held s) live
        → All (Held grown) live × All (Apart (q, size)) live
    regions_stay [] w hs = (tt, tt)
    regions_stay (g ∷ live) w (used v, hs) =
        let (hs', as_) = regions_stay live w hs in
        ((used v, hs'), (from_blocks g s.pool.blocks w.sound w.owned v, as_))
    regions_stay (g ∷ live) w (outside i e, hs) =
        let (hs', as_) = regions_stay live w hs in
        ((outside (after i) e, hs'), (All-In (Apart (q, size)) s.heap g fresh i, as_))

    taken-Live :
        (base : ℕ → ℕ) (live : List Region)
        → Live base m live s
        → Live (and_at q base) m ((q, size) ∷ live) grown
    taken-Live base live v =
        let (held, apart) = regions_stay live v.well v.held in
        record {
          well = record {
            sound = v.well.sound;
            separate = v.well.separate;
            owned = All-imp (λ b o. after o) s.pool.blocks v.well.owned;
            room = v.well.room;
            even = v.well.even;
          };
          roomy = v.roomy;
          accounts = taken a m base q size s v.accounts;
          tidy = taken-IsTidy q size s.heap fresh new v.tidy;
          held = (outside (first refl) (omega (arith, v.accounts.balance q, new)), held);
          apart = (apart, v.apart);
        }

  -- The result of a call, with the regions that are live after it.
  abbrev pub Given : (ℕ → ℕ) → List Region → ℕ → State → Option Result → Type 0
  Given base live size s r =
      (x : Result) × (r ≡ some x)
      × Live base m (with_grant x.0 size live) x.1
      × Quiet s.pool x.1.pool

  add_large-Quiet :
      (q : ℕ) (s : State) (x : Result) → Quiet s.pool x.1.pool → Quiet s.pool (add_large q x).1.pool
  unfolding add_large
  add_large-Quiet q s (none, t) quiet = quiet
  add_large-Quiet q s (some cell, t) quiet = record {
    kept = quiet.kept;
    cells = quiet.cells;
    head = quiet.head;
  }

  free_taken : (q size : ℕ) (s : State) → record s { heap = free q ((q, size) ∷ s.heap) } ≡ s
  unfolding free
  free_taken q size s = rw ((==_iff q q).1 refl) refl

  -- The end of a large allocation, by the list cell that it was given.
  add_large-Live :
      (base : ℕ → ℕ) (q size : ℕ) (live : List Region) (s : State) (x : Result)
      → Live base m live s
      → Allocated true 16 (record s { heap = (q, size) ∷ s.heap }) x
      → Live (and_at q base) m (with_grant x.0 16 ((q, size) ∷ live)) x.1
      → Live base m (with_grant (add_large q x).0 size live) (add_large q x).1
  unfolding add_large
  add_large-Live base q size live s (none, t) v same after_cell =
      let freed = λ (t : State). record t { heap = free q t.heap } in
      subst (Live base m live) (sym (ap freed same ∙ free_taken q size s)) v
  add_large-Live base q size live s (some cell, t) v ok after_cell =
      relisted-Live _ _ _ (Live-tail after_cell)
        (add_large-Accounts a m base q (some cell, t) after_cell.accounts)

  module _ (base : ℕ → ℕ) (live : List Region) (s : State) (k : 16 ≤ m)
      (v : Live base m live s) where
    cell-Given :
        (depth q size : ℕ)
        → All (Apart (q, size)) s.heap
        → at_address q s.heap ≡ 0
        → Given base live size s (
            Option.map
              (add_large q)
              (palloc (suc depth) a true sizeof_large (record s { heap = (q, size) ∷ s.heap })))
    unfolding palloc
    cell-Given depth q size fresh new =
        let t = grown q size s fresh new in
        let grown-Live = taken-Live q size s fresh new base live v in
        let after_cell =
          small-Live a fair (and_at q base) m true 16 ((q, size) ∷ live) t k grown-Live in
        let ok =
          palloc_small-Allocated a fair.fresh true 16 t grown-Live.well
            (omega (arith, k, v.accounts.limit)) in
        let fits = leb-true 16 t.pool.max (omega (arith, k, v.accounts.limit)) in
        let x = palloc_small a true 16 t in
        let quiet =
          small-Quiet a fair true 16 t grown-Live.well (omega (arith, k, v.accounts.limit)) in
        (
          add_large q x,
          rw fits refl,
          add_large-Live base q size live s x v ok after_cell,
          add_large-Quiet q s x quiet,
        )

    -- `ngx_palloc` and `ngx_pnalloc`
    pub palloc-Given :
        (depth : ℕ) (aligned : Bool) (size : ℕ)
        → (x : Result) × (palloc (suc (suc depth)) a aligned size s ≡ some x)
          × Live base m (with_grant x.0 size live) x.1
          × Quiet s.pool x.1.pool
          × (size ≤ m → Allocated aligned size s x)
    unfolding palloc ngx_alloc
    palloc-Given depth aligned size = elim (Bool-cases (leb size s.pool.max)) [
      | inl fits ↦ (
        palloc_small a aligned size s,
        rw fits refl,
        small-Live a fair base m aligned size live s
            (omega (arith, leb-le size s.pool.max fits, v.accounts.limit)) v,
        small-Quiet a fair aligned size s v.well (leb-le size s.pool.max fits),
        λ _.
            palloc_small-Allocated a fair.fresh aligned size s v.well (leb-le size s.pool.max fits),
      )
      | inr large ↦
          let not_small : size ≤ m → ⊥ =
            λ h. omega (arith, h, leb-false size s.pool.max large, v.accounts.limit) in
          elim (Option-cases (a.malloc s.heap size)) [
            | inl null ↦
                ((none, s), rw (large, null) refl, v, Quiet-refl s.pool, λ h. absurd (not_small h))
            | inr (q, found) ↦
                let fresh = fair.malloc_apart s.heap size q found in
                let new = fair.malloc_new s.heap size q found in
                elim (Option-cases (reuse_cell 0 q s.pool.large)) [
                  | inl full ↦
                      let (x, e, u, quiet) = cell-Given depth q size fresh new in
                      (
                        x,
                        rw (palloc_large_full a m (suc depth) aligned size q s large found full) e,
                        u,
                        quiet,
                        λ h. absurd (not_small h),
                      )
                  | inr (ls, reused) ↦
                      let filled =
                        subst (Filled q s.pool.large) reused (reuse_cell-Filled 0 q s.pool.large) in
                      (
                        _,
                        palloc_large_reused a m (suc depth) aligned size q s ls large found reused,
                        relisted-Live ls s.pool.cleanup s.pool.cells
                            (taken-Live q size s fresh new base live v)
                            (record {
                              balance = λ p. omega (arith, v.accounts.balance p, filled p);
                              limit = v.accounts.limit;
                            }),
                        record { kept = λ g w. w; cells = refl; head = refl },
                        λ h. absurd (not_small h),
                      )
                ]
          ]
    ]

    pub pmemalign-Given :
        (depth size alignment : ℕ)
        → Given base live size s (pmemalign (suc depth) a size alignment s)
    unfolding pmemalign
    pmemalign-Given depth size alignment =
        elim (Option-cases (a.posix_memalign s.heap alignment size)) [
          | inl null ↦ (
            (none, s),
            rw (pmemalign, ngx_memalign_null a alignment size s.heap null) refl,
            v,
            Quiet-refl s.pool,
          )
          | inr (q, found) ↦
              let (x, e, u, quiet) =
                cell-Given depth q size (fair.fresh.apart s.heap alignment size q found)
                  (fair.memalign_new s.heap alignment size q found) in
              (x, rw (pmemalign_found a m (suc depth) size alignment q s found) e, u, quiet)
        ]
