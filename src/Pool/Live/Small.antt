-- ===== src/Pool/Live/Small.antt =====
-- What an allocation of at most `max` bytes does to the live regions of a pool of
-- nginx/src/ngx_palloc.c.
use rabbitmq_work.Base.{
  ℕ, ◌≤◌, ◌≡◌, ◌≢◌, Bool, List, [], ◌∷◌, none, some, All, arith, inl, inr, refl, sym, subst,
  Option-cases,
}
use rabbitmq_work.Pool.{
  Block, Region, Allocator, State, place_from, count_from, new_block, block_size,
}
use rabbitmq_work.Pool.Alloc.{Result, append_block, palloc_small}
use rabbitmq_work.Pool.Grants.{IsSound}
use rabbitmq_work.Pool.Moves.{
  Any, first, after, Within, Moved, moved, end_of_chain, Grant-Moved, count_from-Moved,
}
use rabbitmq_work.Pool.Apart.{Apart, Apart-sym, All-last, Granted, place_from-Granted}
use rabbitmq_work.Pool.Sound.{WellFormed, Owned, extent, Allocated}
use rabbitmq_work.Pool.Small.{
  palloc_block_null, palloc_block_found, palloc_small_full, palloc_small_found,
  palloc_small-Allocated,
}
use rabbitmq_work.Pool.Ledger.{starts_at, larges_at}
use rabbitmq_work.Pool.Balance.{Accounts, palloc_small-Accounts}
use rabbitmq_work.Pool.Tidy.{
  IsFair, IsTidy, In, In-at_address, Pairwise-Apart, taken-IsTidy, starts_at-none,
}
use rabbitmq_work.Pool.Live.{Quiet, Quiet-refl, Roomy, Held, used, outside, Live, with_grant}

-- What the C library has allocated grows by a block at most.
record Growth (s t : State) : Type 0 where
  larges : t.pool.large ≡ s.pool.large
  cells : t.pool.cells ≡ s.pool.cells
  head : t.pool.cleanup ≡ s.pool.cleanup
  kept : (g : Region) → In s.heap g → In t.heap g
  tidy : IsTidy s.heap → IsTidy t.heap
  roomy : All Roomy s.pool.blocks → All Roomy t.pool.blocks

Moved-Roomy : {bs cs : List Block} → Moved bs cs → All Roomy bs → All Roomy cs
Moved-Roomy end_of_chain rs = tt
Moved-Roomy (moved b c p q r t m) (h, rs) = (omega (arith, p, q, h), Moved-Roomy m rs)

pub inner_region :
    (g r : Region) (b : Block) → IsSound b → Within r b → Apart g (extent b) → Apart g r
inner_region g r b s w (inl h) = inl (omega (arith, h, w.0))
inner_region g r b s w (inr h) = inr (omega (arith, h, w.1, s.above, s.below))

no_overlap :
    (g r : Region) (heap : List Region) (bs : List Block)
    → IsTidy heap
    → In heap g
    → All IsSound bs
    → All (Owned heap) bs
    → All (λ (b : Block). g.0 ≢ b.start) bs
    → Any (Within r) bs
    → Apart g r
no_overlap g r heap [] tidy i ss os ns w = elim w [ ]
no_overlap g r heap (b ∷ bs) tidy i (s, ss) (o, os) (n, ns) (first w) =
    inner_region g r b s w (Pairwise-Apart heap g (extent b) tidy.apart i o n)
no_overlap g r heap (b ∷ bs) tidy i (s, ss) (o, os) (n, ns) (after w) =
    no_overlap g r heap bs tidy i ss os ns w

module _ (a : Allocator) (fair : IsFair a) where
  found-Growth :
      (aligned : Bool) (size : ℕ) (s : State) (r : ℕ × List Block)
      → WellFormed s
      → place_from aligned size s.pool.current s.pool.blocks ≡ some r
      → Growth s (record s { pool = record s.pool { blocks = r.1 } })
  found-Growth aligned size s r w found =
      let grant =
        subst (Granted aligned size s.pool.blocks) found
          (place_from-Granted aligned size s.pool.current s.pool.blocks w.sound) in
      record {
        larges = refl;
        cells = refl;
        head = refl;
        kept = λ g i. i;
        tidy = λ t. t;
        roomy = Moved-Roomy (Grant-Moved grant w.sound);
      }

  block-Growth :
      (size q : ℕ) (s : State)
      → WellFormed s
      → a.posix_memalign s.heap 16 (block_size s.pool.blocks) ≡ some q
      → Growth s (record {
        heap = (q, block_size s.pool.blocks) ∷ s.heap;
        pool = append_block q (block_size s.pool.blocks) size s.pool;
      })
  unfolding append_block new_block
  block-Growth size q s w found =
      let psize = block_size s.pool.blocks in
      let k = s.pool.current in
      record {
        larges = refl;
        cells = refl;
        head = refl;
        kept = λ g i. after i;
        tidy =
            taken-IsTidy q psize s.heap (fair.fresh.apart s.heap 16 psize q found)
              (fair.memalign_new s.heap 16 psize q found);
        roomy = λ rs.
            All-last Roomy (count_from k k s.pool.blocks).0 (new_block q psize size)
              (Moved-Roomy (count_from-Moved k k s.pool.blocks w.sound) rs) (omega (arith, w.room));
      }

  same-Growth : (s : State) → Growth s s
  same-Growth s = record {
    larges = refl;
    cells = refl;
    head = refl;
    kept = λ g i. i;
    tidy = λ t. t;
    roomy = λ rs. rs;
  }

  palloc_small-Growth :
      (aligned : Bool) (size : ℕ) (s : State)
      → WellFormed s
      → Growth s (palloc_small a aligned size s).1
  palloc_small-Growth aligned size s w =
      elim (Option-cases (place_from aligned size s.pool.current s.pool.blocks)) [
        | inr (r, found) ↦
            rw (palloc_small_found a aligned size s r found) (found-Growth aligned size s r w found)
        | inl full ↦
            rw (palloc_small_full a aligned size s full)
              (elim (Option-cases (a.posix_memalign s.heap 16 (block_size s.pool.blocks))) [
                | inl null ↦ rw (palloc_block_null a size s null) (same-Growth s)
                | inr (q, found) ↦
                    rw (palloc_block_found a size q s found) (block-Growth size q s w found)
              ])
      ]

  module _ (base : ℕ → ℕ) (m : ℕ) (s t : State) (grow : Growth s t) (sound : WellFormed t)
      (old : Accounts base m s) (acc : Accounts base m t) (tidy : IsTidy t.heap) where
    -- An allocation that is not a block does not become one.
    still_outside :
        (g : Region)
        → In s.heap g
        → starts_at g.0 s.pool.blocks ≡ 0
        → starts_at g.0 t.pool.blocks ≡ 0
    still_outside g i e =
        let there = In-at_address g s.heap i in
        let before : larges_at g.0 t.pool.large ≡ larges_at g.0 s.pool.large =
          rw grow.larges refl in
        omega (arith, old.balance g.0, acc.balance g.0, tidy.once g.0, there, e, before)

    -- Bytes in a block, and an allocation that is no block.
    outside-Apart :
        (g r : Region)
        → In s.heap g
        → starts_at g.0 s.pool.blocks ≡ 0
        → Any (Within r) t.pool.blocks
        → Apart g r
    outside-Apart g r i e w =
        no_overlap g r t.heap t.pool.blocks tidy (grow.kept g i) sound.sound sound.owned
          (starts_at-none g.0 t.pool.blocks (still_outside g i e)) w

    regions_kept :
        (r : Region) (live : List Region)
        → ((g : Region) → Any (Within g) s.pool.blocks → Any (Within g) t.pool.blocks × Apart g r)
        → Any (Within r) t.pool.blocks
        → All (Held s) live
        → All (Held t) live × All (Apart r) live
    regions_kept r [] kept w hs = (tt, tt)
    regions_kept r (g ∷ live) kept w (used v, hs) =
        let (there, apart) = kept g v in
        let (hs', as_) = regions_kept r live kept w hs in
        ((used there, hs'), (Apart-sym g r apart, as_))
    regions_kept r (g ∷ live) kept w (outside i e, hs) =
        let (hs', as_) = regions_kept r live kept w hs in
        (
          (outside (grow.kept g i) (still_outside g i e), hs'),
          (Apart-sym g r (outside-Apart g r i e w), as_),
        )

  granted-Live :
      (base : ℕ → ℕ) (m : ℕ) (aligned : Bool) (size : ℕ) (live : List Region) (s : State)
      (r : Result)
      → Live base m live s
      → Growth s r.1
      → Accounts base m r.1
      → Allocated aligned size s r
      → Live base m (with_grant r.0 size live) r.1
  granted-Live base m aligned size live s (none, t) v grow acc same =
      subst (Live base m live) (sym same) v
  granted-Live base m aligned size live s (some p, t) v grow acc (w, e, even, there, kept) =
      let tidy = grow.tidy v.tidy in
      let (held, apart) =
        regions_kept base m s t grow w v.accounts acc tidy (p, size) live kept there v.held in
      record {
        well = w;
        roomy = grow.roomy v.roomy;
        accounts = acc;
        tidy = tidy;
        held = (used there, held);
        apart = (apart, v.apart);
      }

  pub small-Live :
      (base : ℕ → ℕ) (m : ℕ) (aligned : Bool) (size : ℕ) (live : List Region) (s : State)
      → size ≤ m
      → Live base m live s
      → let r = palloc_small a aligned size s in Live base m (with_grant r.0 size live) r.1
  small-Live base m aligned size live s k v =
      granted-Live base m aligned size live s (palloc_small a aligned size s) v
        (palloc_small-Growth aligned size s v.well)
        (palloc_small-Accounts a m base aligned size s v.accounts)
        (palloc_small-Allocated a fair.fresh aligned size s v.well
          (omega (arith, k, v.accounts.limit)))

  granted-Quiet :
      (aligned : Bool) (size : ℕ) (s : State) (r : Result)
      → Growth s r.1
      → Allocated aligned size s r
      → Quiet s.pool r.1.pool
  granted-Quiet aligned size s (none, t) grow same =
      subst (λ (u : State). Quiet s.pool u.pool) (sym same) (Quiet-refl s.pool)
  granted-Quiet aligned size s (some p, t) grow (w, e, even, there, kept) = record {
    kept = λ g v. (kept g v).0;
    cells = grow.cells;
    head = grow.head;
  }

  pub small-Quiet :
      (aligned : Bool) (size : ℕ) (s : State)
      → WellFormed s
      → size ≤ s.pool.max
      → Quiet s.pool (palloc_small a aligned size s).1.pool
  small-Quiet aligned size s w h =
      granted-Quiet aligned size s (palloc_small a aligned size s)
        (palloc_small-Growth aligned size s w)
        (palloc_small-Allocated a fair.fresh aligned size s w h)
