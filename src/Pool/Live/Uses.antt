-- ===== src/Pool/Live/Uses.antt =====
-- A pool of nginx/src/ngx_palloc.c in use: calls of its operations in any order, and the regions that
-- they leave with the caller.
use mathlib.Core.Option.{some-injective, none-ne-some}
use rabbitmq_work.Base.{
  ℕ, suc, ◌%◌, ◌≤◌, ◌≡◌, ◌==◌, true, List, [], ◌∷◌, Option, none, some, All, arith, inl, inr, refl,
  sym, subst, ◌∙◌, if◌then◌else◌, Bool-cases, Option-cases,
}
use rabbitmq_work.Pool.{Pool, Allocator, Cleanup, Region, State, new_pool, sizeof_cleanup}
use rabbitmq_work.Pool.Alloc.{
  Result, create_pool, palloc, pmemalign, pfree, reset_pool, cleanup_add, add_cleanup, clear_cell,
}
use rabbitmq_work.Pool.Apart.{Pairwise}
use rabbitmq_work.Pool.Sound.{WellFormed}
use rabbitmq_work.Pool.Small.{create_pool_null, create_pool_found, create_pool-WellFormed}
use rabbitmq_work.Pool.Ledger.{at_address}
use rabbitmq_work.Pool.Life.{
  Op, take, take_aligned, give_back, reset, add_handler, create_pool-Accounts,
}
use rabbitmq_work.Pool.Tidy.{IsFair, IsTidy, taken-IsTidy}
use rabbitmq_work.Pool.Live.{
  Quiet, Quiet-refl, Quiet-trans, Roomy, Held, Live, Live-tail, with_grant, relisted-Live,
}
use rabbitmq_work.Pool.Live.Registering.{Registering, refused, cell_given, end-Registering}
use rabbitmq_work.Pool.Live.Outside.{palloc-Given, pmemalign-Given}
use rabbitmq_work.Pool.Live.Release.{without, pfree-Live, reset_pool-Live}

-- The data of the cleanup that was added last.
abbrev pub newest_data : List Cleanup → Option ℕ
newest_data [] = none
newest_data (c ∷ _) = c.data_

-- A handler is live with its data.
abbrev pub with_handler : ℕ → List Region → Result → List Region
with_handler size live (none, s) = live
with_handler size live (some cell, s) =
    with_grant (newest_data s.pool.cells) size ((cell, sizeof_cleanup) ∷ live)

-- A call, with the live regions before it and after it.
abbrev pub Ledger : Type 0
Ledger = List Region × State

abbrev noted : (Result → List Region) → Option Result → Option Ledger
noted f none = none
noted f (some r) = some (f r, r.1)

unfoldable pub serve_one : ℕ → Allocator → Op → Ledger → Option Ledger
serve_one depth a (take aligned size) (live, s) =
    noted (λ r. with_grant r.0 size live) (palloc depth a aligned size s)
serve_one depth a (take_aligned size alignment) (live, s) =
    noted (λ r. with_grant r.0 size live) (pmemalign depth a size alignment s)
serve_one depth a (give_back p) (live, s) =
    let r = pfree p s in some (if r.0 then without p live else live, r.1)
serve_one depth a reset (live, s) = some ([], reset_pool s)
serve_one depth a (add_handler size) (live, s) =
    noted (with_handler size live) (cleanup_add depth a size s)

unfoldable pub serve : ℕ → Allocator → List Op → Ledger → Option Ledger
serve depth a [] ledger = some ledger
serve depth a (op ∷ ops) ledger = elim (serve_one depth a op ledger) [
  | none ↦ none
  | some after ↦ serve depth a ops after
]

module _ (a : Allocator) (fair : IsFair a) (m : ℕ) (base : ℕ → ℕ) (depth : ℕ) (k : 16 ≤ m) where
  added-Live :
      (cell : ℕ) (d : Option ℕ) (live : List Region) (s : State)
      → Live base m live s
      → Live base m live (add_cleanup cell d s).1
  added-Live cell d live s v =
      let t = (add_cleanup cell d s).1 in
      relisted-Live s.pool.large t.pool.cleanup t.pool.cells v
        (record { balance = v.accounts.balance; limit = v.accounts.limit })

  cleanup_add-Live :
      (size : ℕ) (live : List Region) (s : State)
      → Live base m live s
      → (x : Result) × (cleanup_add (suc (suc depth)) a size s ≡ some x)
        × Live base m (with_handler size live x) x.1
        × (sizeof_cleanup ≤ m → Registering s.pool x.1.pool)
  unfolding cleanup_add
  cleanup_add-Live size live s v =
      let (x, e, u, quiet, ok) = palloc-Given a fair m base live s k v depth true sizeof_cleanup in
      elim (Option-cases x.0) [
        | inl null ↦
            ((none, x.1), rw (e, cleanup_add) (rw null refl), rw null at u, λ _. refused quiet)
        | inr (cell, c) ↦
            let with_cell = (cell, sizeof_cleanup) ∷ live in
            let w : Live base m with_cell x.1 = rw c at u in
            elim (Bool-cases (size == 0)) [
              | inl z ↦ (
                add_cleanup cell none x.1,
                rw (e, cleanup_add) (rw (c, z) refl),
                added-Live cell none with_cell x.1 w,
                λ h.
                    end-Registering cell none s x.1 x.1 (cell_given cell s x c (ok h)) quiet
                      (Quiet-refl x.1.pool),
              )
              | inr nz ↦
                  let (y, f, u2, quiet2, _) =
                    palloc-Given a fair m base with_cell x.1 k w depth true size in
                  elim (Option-cases y.0) [
                    | inl null ↦ (
                      (none, y.1),
                      rw (e, cleanup_add) (rw (c, nz, f) (rw null refl)),
                      Live-tail (rw null at u2),
                      λ _. refused (Quiet-trans quiet quiet2),
                    )
                    | inr (d, g) ↦
                        let w2 : Live base m ((d, size) ∷ with_cell) y.1 = rw g at u2 in
                        (
                          add_cleanup cell (some d) y.1,
                          rw (e, cleanup_add) (rw (c, nz, f) (rw g refl)),
                          added-Live cell (some d) ((d, size) ∷ with_cell) y.1 w2,
                          λ h.
                              end-Registering cell (some d) s x.1 y.1 (cell_given cell s x c (ok h))
                                quiet quiet2,
                        )
                  ]
            ]
      ]

  -- What a call does to the list of cleanups, but for `ngx_reset_pool`.
  abbrev pub Effect : Op → Pool → Pool → Type 0
  Effect (add_handler _) p q = sizeof_cleanup ≤ m → Registering p q
  Effect reset p q = (q.cells ≡ p.cells) × (q.cleanup ≡ p.cleanup)
  Effect _ p q = Quiet p q

  pfree-Quiet : (p : ℕ) (s : State) → Quiet s.pool (pfree p s).1.pool
  unfolding pfree
  pfree-Quiet p s = elim (Bool-cases (clear_cell p s.pool.large).0) [
    | inl e ↦ rw e (record { kept = λ g w. w; cells = refl; head = refl })
    | inr e ↦ rw e (Quiet-refl s.pool)
  ]

  abbrev Served : Option Ledger → Type 0
  Served r = (after : Ledger) × (r ≡ some after) × Live base m after.0 after.1

  pub serve_one-Served :
      (op : Op) (ledger : Ledger)
      → Live base m ledger.0 ledger.1
      → (after : Ledger) × (serve_one (suc (suc depth)) a op ledger ≡ some after)
        × Live base m after.0 after.1
        × Effect op ledger.1.pool after.1.pool
  unfolding serve_one reset_pool
  serve_one-Served (take aligned size) (live, s) v =
      let (x, e, u, quiet, _) = palloc-Given a fair m base live s k v depth aligned size in
      (_, rw e refl, u, quiet)
  serve_one-Served (take_aligned size alignment) (live, s) v =
      let (x, e, u, quiet) = pmemalign-Given a fair m base live s k v (suc depth) size alignment in
      (_, rw e refl, u, quiet)
  serve_one-Served (give_back p) (live, s) v =
      (_, refl, pfree-Live base m live s v p, pfree-Quiet p s)
  serve_one-Served reset (live, s) v = (_, refl, reset_pool-Live base m live s v, (refl, refl))
  serve_one-Served (add_handler size) (live, s) v =
      let (x, e, u, adds) = cleanup_add-Live size live s v in (_, rw e refl, u, adds)

  serve-Served :
      (ops : List Op) (ledger : Ledger)
      → Live base m ledger.0 ledger.1
      → Served (serve (suc (suc depth)) a ops ledger)
  unfolding serve
  serve-Served [] ledger v = (ledger, refl, v)
  serve-Served (op ∷ ops) ledger v =
      let (after, e, u, _) = serve_one-Served op ledger v in
      rw (e, serve) (serve-Served ops after u)

-- A pool that has just been made.
new_pool-Roomy : (pagesize p size : ℕ) → 80 ≤ size → All Roomy (new_pool pagesize p size).blocks
unfolding new_pool
new_pool-Roomy pagesize p size h = (omega (arith, h), tt)

create_pool-Roomy :
    (a : Allocator) (fair : IsFair a) (pagesize size : ℕ) (heap : List Region) (s : State)
    → 80 ≤ size
    → IsTidy heap
    → create_pool a pagesize size heap ≡ some s
    → All Roomy s.pool.blocks × IsTidy s.heap
create_pool-Roomy a fair pagesize size heap s h tidy made =
    elim (Option-cases (a.posix_memalign heap 16 size)) [
      | inl null ↦ absurd (none-ne-some s (sym (create_pool_null a pagesize size heap null) ∙ made))
      | inr (p, found) ↦
          subst (λ (t : State). All Roomy t.pool.blocks × IsTidy t.heap)
            (some-injective _ _ (sym (create_pool_found a pagesize size p heap found) ∙ made))
            (
              new_pool-Roomy pagesize p size h,
              taken-IsTidy p size heap (fair.fresh.apart heap 16 size p found)
                  (fair.memalign_new heap 16 size p found) tidy,
            )
    ]

pub create_pool-Live :
    (a : Allocator) (fair : IsFair a) (pagesize size : ℕ) (heap : List Region) (s : State)
    → create_pool a pagesize size heap ≡ some s
    → 80 ≤ size
    → size % 8 ≡ 0
    → IsTidy heap
    → Live (λ p. at_address p heap) s.pool.max [] s
create_pool-Live a fair pagesize size heap s made h even tidy =
    let (roomy, tidy') = create_pool-Roomy a fair pagesize size heap s h tidy made in
    record {
      well = create_pool-WellFormed a pagesize size heap s fair.fresh h even made;
      roomy = roomy;
      accounts = create_pool-Accounts a pagesize size heap s made;
      tidy = tidy';
      held = tt;
      apart = tt;
    }

-- The C library hands out only memory that it has not handed out, each time at an address of its
-- own, aligned blocks on their alignment and in the lower half of the address space, and what it has
-- handed out before is like that too. A pool is made with a size that holds the header and is a
-- multiple of 8, and its `max` is at least the 16 bytes of a list cell. Then, at a depth of calls of 2
-- or more, every sequence of calls returns: allocations of any size, aligned or not, that succeed or
-- fail, `ngx_pfree` of any address, `ngx_reset_pool` and cleanups with data. Of the regions handed out
-- and not taken back since, no two share a byte, and each lies in the used part of a block of the pool
-- or is an allocation of the C library that still stands; and the pool is sound.
pub serve-Live :
    (a : Allocator) (fair : IsFair a) (pagesize size : ℕ) (heap : List Region) (ops : List Op)
    (depth : ℕ) (s : State)
    → create_pool a pagesize size heap ≡ some s
    → 80 ≤ size
    → size % 8 ≡ 0
    → IsTidy heap
    → 16 ≤ s.pool.max
    → (live : List Region) × (t : State) × (serve (suc (suc depth)) a ops ([], s) ≡ some (live, t))
      × Pairwise live
      × All (Held t) live
      × WellFormed t
serve-Live a fair pagesize size heap ops depth s made h even tidy k =
    let base = λ (p : ℕ). at_address p heap in
    let new = create_pool-Live a fair pagesize size heap s made h even tidy in
    let ((live, t), e, v) = serve-Served a fair s.pool.max base depth k ops ([], s) new in
    (live, t, e, v.apart, v.held, v.well)
