-- ===== src/Pool/Live/Release.antt =====
-- What `ngx_pfree` and `ngx_reset_pool` of nginx/src/ngx_palloc.c do to the live regions of a pool.
use mathlib.Core.Bool.{false≢true}
use rabbitmq_work.Base.{
  ◌∙◌, ℕ, ◌+◌, ◌≤◌, ◌≡◌, ◌≢◌, ◌==◌, ==_iff, List, [], ◌∷◌, Option, none, some, All, arith, inl, inr,
  sym, ap, map, if◌then◌else◌, Bool-cases,
}
use rabbitmq_work.Pool.{Block, Large, Region, State, free}
use rabbitmq_work.Pool.Alloc.{pfree, clear_cell, reset_block, reset_pool}
use rabbitmq_work.Pool.Apart.{Pairwise, Apart}
use rabbitmq_work.Pool.Sound.{WellFormed, extent}
use rabbitmq_work.Pool.Runs.{All-map2}
use rabbitmq_work.Pool.Reset.{Foreign, reset_pool-WellFormed}
use rabbitmq_work.Pool.Ledger.{one, one_self, starts_at, larges_at, holds}
use rabbitmq_work.Pool.Cells.{clear_cell-Cleared}
use rabbitmq_work.Pool.Balance.{Accounts}
use rabbitmq_work.Pool.Life.{pfree-Accounts, reset_pool-Accounts}
use rabbitmq_work.Pool.Tidy.{free-IsTidy, free_large-IsTidy, free-In, starts_at-none}
use rabbitmq_work.Pool.Live.{Roomy, Held, used, outside, Live}

-- The regions that do not begin at an address.
abbrev pub without : ℕ → List Region → List Region
without p [] = []
without p (g ∷ live) = let rest = without p live in if g.0 == p then rest else (g ∷ rest)

All-without :
    (P : Region → Type 0) (p : ℕ) (live : List Region) → All P live → All P (without p live)
All-without P p [] hs = tt
All-without P p (g ∷ live) (h, hs) = elim (Bool-cases (g.0 == p)) [
  | inl e ↦ rw e (All-without P p live hs)
  | inr e ↦ rw e (h, All-without P p live hs)
]

Pairwise-without : (p : ℕ) (live : List Region) → Pairwise live → Pairwise (without p live)
Pairwise-without p [] hs = tt
Pairwise-without p (g ∷ live) (h, hs) = elim (Bool-cases (g.0 == p)) [
  | inl e ↦ rw e (Pairwise-without p live hs)
  | inr e ↦ rw e (All-without (Apart g) p live h, Pairwise-without p live hs)
]

-- The pool after a large allocation at `p` is given back.
abbrev given_back : ℕ → List Large → State → State
given_back p ls s = record { heap = free p s.heap; pool = record s.pool { large = ls } }

region_stays :
    (p : ℕ) (ls : List Large) (s : State) (g : Region)
    → g.0 ≢ p
    → Held s g
    → Held (given_back p ls s) g
region_stays p ls s g n (used w) = used w
region_stays p ls s g n (outside i e) = outside (free-In p s.heap g n i) e

regions_stay :
    (p : ℕ) (ls : List Large) (s : State) (live : List Region)
    → All (Held s) live
    → All (Held (given_back p ls s)) (without p live)
regions_stay p ls s [] hs = tt
regions_stay p ls s (g ∷ live) (h, hs) = elim (Bool-cases (g.0 == p)) [
  | inl e ↦ rw e (regions_stay p ls s live hs)
  | inr e ↦
      let other = λ (same : g.0 ≡ p). false≢true (sym e ∙ (==_iff g.0 p).1 same) in
      rw e (region_stays p ls s g other h, regions_stay p ls s live hs)
]

-- A block and a large allocation that are never at the same address.
Foreign-cell :
    (b : Block) (alloc : Option ℕ) (n : ℕ)
    → ((p : ℕ) → one (b.start == p) + (holds p alloc + n) ≤ 1)
    → Foreign alloc b
Foreign-cell b none n h = tt
Foreign-cell b (some p) n h =
    λ (same : p ≡ b.start). omega (arith, h p, one_self p, ap (λ (x : ℕ). one (x == p)) same)

Foreign-block :
    (b : Block) (ls : List Large)
    → ((p : ℕ) → one (b.start == p) + larges_at p ls ≤ 1)
    → All (λ (l : Large). Foreign l.alloc b) ls
Foreign-block b [] h = tt
Foreign-block b (l ∷ ls) h = (
  Foreign-cell b l.alloc 0 (λ p. omega (arith, h p)),
  Foreign-block b ls (λ p. omega (arith, h p)),
)

Foreign-blocks :
    (bs : List Block) (ls : List Large)
    → ((p : ℕ) → starts_at p bs + larges_at p ls ≤ 1)
    → All (λ (b : Block). All (λ (l : Large). Foreign l.alloc b) ls) bs
Foreign-blocks [] ls h = tt
Foreign-blocks (b ∷ bs) ls h =
    (Foreign-block b ls (λ p. omega (arith, h p)), Foreign-blocks bs ls (λ p. omega (arith, h p)))

reset-Roomy : (bs : List Block) → All Roomy bs → All Roomy (map reset_block bs)
unfolding reset_block
reset-Roomy [] rs = tt
reset-Roomy (b ∷ bs) (r, rs) = (r, reset-Roomy bs rs)

module _ (base : ℕ → ℕ) (m : ℕ) (live : List Region) (s : State) (v : Live base m live s) where
  -- Whatever is found at an address once is not found there twice.
  sole : (p : ℕ) → starts_at p s.pool.blocks + larges_at p s.pool.large ≤ 1
  sole p = omega (arith, v.accounts.balance p, v.tidy.once p)

  given_back-WellFormed :
      (p : ℕ) (ls : List Large) → starts_at p s.pool.blocks ≡ 0 → WellFormed (given_back p ls s)
  given_back-WellFormed p ls e = record {
    sound = v.well.sound;
    separate = v.well.separate;
    owned =
        All-map2 (λ b o n. free-In p s.heap (extent b) (λ same. n (sym same)) o) s.pool.blocks
          v.well.owned (starts_at-none p s.pool.blocks e);
    room = v.well.room;
    even = v.well.even;
  }

  -- `ngx_pfree`: what begins at the address is live no more, if NGX_OK is the answer.
  pub pfree-Live :
      (p : ℕ) → let r = pfree p s in Live base m (if r.0 then without p live else live) r.1
  unfolding pfree
  pfree-Live p = elim (Bool-cases (clear_cell p s.pool.large).0) [
    | inr e ↦ rw e v
    | inl e ↦
        let ls = (clear_cell p s.pool.large).1 in
        let cleared = clear_cell-Cleared p s.pool.large e p in
        let none_starts : starts_at p s.pool.blocks ≡ 0 =
          omega (arith, sole p, cleared, one_self p) in
        let acc : Accounts base m (given_back p ls s) =
          rw (e, pfree) at (pfree-Accounts base m p s v.accounts) in
        rw e (record {
          well = given_back-WellFormed p ls none_starts;
          roomy = v.roomy;
          accounts = acc;
          tidy = free-IsTidy p s.heap v.tidy;
          held = regions_stay p ls s live v.held;
          apart = Pairwise-without p live v.apart;
        })
  ]

  -- `ngx_reset_pool`: nothing is live any more.
  pub reset_pool-Live : Live base m [] (reset_pool s)
  unfolding reset_pool
  reset_pool-Live = record {
    well = reset_pool-WellFormed s v.well v.roomy (Foreign-blocks s.pool.blocks s.pool.large sole);
    roomy = reset-Roomy s.pool.blocks v.roomy;
    accounts = reset_pool-Accounts base m s v.accounts;
    tidy = free_large-IsTidy s.pool.large s.heap v.tidy;
    held = tt;
    apart = tt;
  }
