-- ===== src/Pool/Live/Destroy.antt =====
-- `ngx_destroy_pool` of nginx/src/ngx_palloc.c at the end of a pool's life, and its walk over the
-- cleanups.
use mathlib.Core.Option.{some-injective, none-ne-some}
use rabbitmq_work.Base.{
  ℕ, zero, suc, ◌+◌, ◌%◌, ◌≤◌, ◌≡◌, ◌≢◌, ◌==◌, ==_iff, List, [], ◌∷◌, length, Option, none, some,
  All, arith, inl, inr, refl, sym, subst, ◌∙◌, ◌⊎◌, Bool-cases, Option-cases,
}
use rabbitmq_work.Pool.{new_pool, Pool, Allocator, Cleanup, Region, State, sizeof_cleanup}
use rabbitmq_work.Pool.Alloc.{create_pool, ran, cell_at, run_cleanups, destroy_pool}
use rabbitmq_work.Pool.Moves.{Any, Within}
use rabbitmq_work.Pool.Apart.{Apart, All-imp}
use rabbitmq_work.Pool.Small.{create_pool_null, create_pool_found}
use rabbitmq_work.Pool.Ledger.{at_address}
use rabbitmq_work.Pool.Life.{Op, take, take_aligned, give_back, reset, add_handler, all_free-Covers}
use rabbitmq_work.Pool.Tidy.{IsFair, IsTidy}
use rabbitmq_work.Pool.Live.{Quiet, Live}
use rabbitmq_work.Pool.Live.Uses.{Ledger, serve, serve_one-Served, Effect, create_pool-Live}
use rabbitmq_work.Pool.Live.Registering.{Registering, refused, registered}

-- No `ngx_reset_pool`; and none once a cleanup has been added.
abbrev pub NoReset : List Op → Type 0
NoReset [] = Unit
NoReset (reset ∷ ops) = ⊥
NoReset (_ ∷ ops) = NoReset ops

abbrev pub ResetsFirst : List Op → Type 0
ResetsFirst [] = Unit
ResetsFirst (add_handler _ ∷ ops) = NoReset ops
ResetsFirst (_ ∷ ops) = ResetsFirst ops

-- The cells that a pointer leads to, one after the other, up to NULL.
abbrev Chained : List Cleanup → Option ℕ → List ℕ → Type 0
Chained cells head [] = head ≡ none
Chained cells head (c ∷ cs) =
    (head ≡ some c) × (x : Cleanup) × (cell_at c cells ≡ some x) × Chained cells x.next cs

-- The list of cleanups ends, and its cells are in use.
record Listed (p : Pool) (cs : List ℕ) : Type 0 where
  chain : Chained p.cells p.cleanup cs
  used : All (λ (c : ℕ). Any (Within (c, sizeof_cleanup)) p.blocks) cs

pub one_cleanup :
    (p : ℕ) (x : Cleanup) (cells : List Cleanup) (rounds : ℕ)
    → cell_at p cells ≡ some x
    → run_cleanups (some p) cells (suc rounds) ≡ ran x (run_cleanups x.next cells rounds)
unfolding run_cleanups
one_cleanup p x cells rounds e = rw (e, run_cleanups) refl

run_cleanups-Chained :
    (cells : List Cleanup) (cs : List ℕ) (head : Option ℕ) (rounds : ℕ)
    → Chained cells head cs
    → length cs ≤ rounds
    → (out : List (ℕ × Option ℕ)) × (run_cleanups head cells rounds ≡ some out)
unfolding run_cleanups
run_cleanups-Chained cells [] head rounds e n = ([], rw e refl)
run_cleanups-Chained cells (c ∷ cs) head zero (e, x, f, chain) n = absurd (omega (arith, n))
run_cleanups-Chained cells (c ∷ cs) head (suc rounds) (e, x, f, chain) n =
    let (out, g) = run_cleanups-Chained cells cs x.next rounds chain (omega (arith, n)) in
    (
      elim x.handler [ none ↦ out | some h ↦ (h, x.data_) ∷ out ],
      rw (e, one_cleanup c x cells rounds f, g) refl,
    )

-- A cell is written elsewhere.
Chained-fresh :
    (x : Cleanup) (cells : List Cleanup) (head : Option ℕ) (cs : List ℕ)
    → All (λ (c : ℕ). x.cell ≢ c) cs
    → Chained cells head cs
    → Chained (x ∷ cells) head cs
unfolding cell_at
Chained-fresh x cells head [] fresh e = e
Chained-fresh x cells head (c ∷ cs) (n, fresh) (e, y, f, chain) = elim (Bool-cases (x.cell == c)) [
  | inl same ↦ absurd (n ((==_iff x.cell c).0 same))
  | inr other ↦ (e, y, rw other f, Chained-fresh x cells y.next cs fresh chain)
]

Quiet-Listed : {p q : Pool} {cs : List ℕ} → Quiet p q → Listed p cs → Listed q cs
Quiet-Listed {cs = cs} quiet l = record {
  chain = rw (quiet.cells, quiet.head) l.chain;
  used = All-imp (λ c w. quiet.kept (c, sizeof_cleanup) w) cs l.used;
}

pub self_cell : (x : Cleanup) (cells : List Cleanup) → cell_at x.cell (x ∷ cells) ≡ some x
unfolding cell_at
self_cell x cells = rw ((==_iff x.cell x.cell).1 refl) refl

-- A region of 24 bytes that has no byte in common with another one is not at its address.
elsewhere : (c d : ℕ) → Apart (d, sizeof_cleanup) (c, sizeof_cleanup) → c ≢ d
elsewhere c d (inl h) = λ e. omega (arith, h, e)
elsewhere c d (inr h) = λ e. omega (arith, h, e)

Registering-Listed :
    {p q : Pool} (cs : List ℕ)
    → Registering p q
    → Listed p cs
    → (ds : List ℕ) × Listed q ds × (length ds ≤ suc (length cs))
Registering-Listed cs (refused quiet) l = (cs, Quiet-Listed quiet l, omega arith)
Registering-Listed {p = p} {q = q} cs (registered cell d e f kept there) l =
    let x : Cleanup = record { cell = cell; handler = none; data_ = d; next = p.cleanup } in
    let fresh = All-imp (λ c w. elsewhere cell c (kept (c, sizeof_cleanup) w).1) cs l.used in
    (
      cell ∷ cs,
      record {
        chain =
            subst (λ cells. Chained cells q.cleanup (cell ∷ cs)) (sym e)
              (f, x, self_cell x p.cells, Chained-fresh x p.cells p.cleanup cs fresh l.chain);
        used = (there, All-imp (λ c w. (kept (c, sizeof_cleanup) w).0) cs l.used);
      },
      omega arith,
    )

module _ (a : Allocator) (fair : IsFair a) (m : ℕ) (base : ℕ → ℕ) (depth : ℕ) (k : 24 ≤ m) where
  -- One call that is no reset.
  Effect-Listed :
      (op : Op) (ops : List Op) (p q : Pool) (cs : List ℕ)
      → NoReset (op ∷ ops)
      → Effect a fair m base depth (omega (arith, k)) op p q
      → Listed p cs
      → (ds : List ℕ) × Listed q ds × (length ds ≤ suc (length cs)) × NoReset ops
  Effect-Listed (take _ _) ops p q cs n quiet l = (cs, Quiet-Listed quiet l, omega arith, n)
  Effect-Listed (take_aligned _ _) ops p q cs n quiet l = (cs, Quiet-Listed quiet l, omega arith, n)
  Effect-Listed (give_back _) ops p q cs n quiet l = (cs, Quiet-Listed quiet l, omega arith, n)
  Effect-Listed reset ops p q cs n quiet l = absurd n
  Effect-Listed (add_handler _) ops p q cs n adds l =
      let (ds, l', h) = Registering-Listed cs (adds k) l in (ds, l', h, n)

  -- The pool after all the calls, which can be destroyed in so many rounds.
  abbrev Ending : ℕ → Option Ledger → Type 0
  Ending n r =
      (live : List Region) × (t : State) × (cs : List ℕ) × (r ≡ some (live, t))
      × Live base m live t
      × Listed t.pool cs
      × (length cs ≤ n)

  no_reset-Ending :
      (ops : List Op) (live : List Region) (s : State) (cs : List ℕ)
      → NoReset ops
      → Live base m live s
      → Listed s.pool cs
      → Ending (length cs + length ops) (serve (suc (suc depth)) a ops (live, s))
  unfolding serve
  no_reset-Ending [] live s cs n v l = (live, s, cs, refl, v, l, omega arith)
  no_reset-Ending (op ∷ ops) live s cs n v l =
      let ((live', s'), e, v', effect) =
        serve_one-Served a fair m base depth (omega (arith, k)) op (live, s) v in
      let (ds, l', h, n') = Effect-Listed op ops s.pool s'.pool cs n effect l in
      let (live'', t, es, f, v'', l'', h') = no_reset-Ending ops live' s' ds n' v' l' in
      (live'', t, es, rw (e, serve) f, v'', l'', omega (arith, h, h'))

  -- One call before which there is no cleanup.
  first_call :
      (op : Op) (ops : List Op) (p q : Pool)
      → ResetsFirst (op ∷ ops)
      → Effect a fair m base depth (omega (arith, k)) op p q
      → p.cleanup ≡ none
      → ((q.cleanup ≡ none) × ResetsFirst ops) ⊎ (Registering p q × NoReset ops)
  first_call (take _ _) ops p q n quiet e = inl (quiet.head ∙ e, n)
  first_call (take_aligned _ _) ops p q n quiet e = inl (quiet.head ∙ e, n)
  first_call (give_back _) ops p q n quiet e = inl (quiet.head ∙ e, n)
  first_call reset ops p q n (_, same) e = inl (same ∙ e, n)
  first_call (add_handler _) ops p q n adds e = inr (adds k, n)

  resets_first-Ending :
      (ops : List Op) (live : List Region) (s : State)
      → ResetsFirst ops
      → Live base m live s
      → s.pool.cleanup ≡ none
      → Ending (length ops) (serve (suc (suc depth)) a ops (live, s))
  unfolding serve
  resets_first-Ending [] live s n v e =
      (live, s, [], refl, v, record { chain = e; used = tt }, omega arith)
  resets_first-Ending (op ∷ ops) live s n v e =
      let ((live', s'), f, v', effect) =
        serve_one-Served a fair m base depth (omega (arith, k)) op (live, s) v in
      elim (first_call op ops s.pool s'.pool n effect e) [
        | inl (none_yet, n') ↦
            let (live'', t, cs, g, v'', l, h) = resets_first-Ending ops live' s' n' v' none_yet in
            (live'', t, cs, rw (f, serve) g, v'', l, omega (arith, h))
        | inr (adds, n') ↦
            let (ds, l, h) = Registering-Listed [] adds (record { chain = e; used = tt }) in
            let (live'', t, cs, g, v'', l', h') = no_reset-Ending ops live' s' ds n' v' l in
            (live'', t, cs, rw (f, serve) g, v'', l', omega (arith, h, h'))
      ]

new_pool-cleanup :
    (a : Allocator) (pagesize size : ℕ) (heap : List Region) (s : State)
    → create_pool a pagesize size heap ≡ some s
    → s.pool.cleanup ≡ none
unfolding new_pool
new_pool-cleanup a pagesize size heap s made = elim (Option-cases (a.posix_memalign heap 16 size)) [
  | inl null ↦ absurd (none-ne-some s (sym (create_pool_null a pagesize size heap null) ∙ made))
  | inr (p, found) ↦
      subst (λ (t : State). t.pool.cleanup ≡ none)
        (some-injective _ _ (sym (create_pool_found a pagesize size p heap found) ∙ made)) refl
]

-- The C library hands out only memory that it has not handed out, as for the live regions, and a
-- pool is made with a size that holds the header and is a multiple of 8; its `max` is at least the 24
-- bytes of a cleanup. It is then used by any sequence of calls in which no `ngx_reset_pool` comes
-- after an `ngx_pool_cleanup_add`, at a depth of calls of 2 or more. Each call returns, and so does
-- `ngx_destroy_pool`, with as many rounds for its walk over the cleanups as there were calls; after
-- it exactly that is allocated, at every address, which was allocated before the pool was made:
-- nothing is leaked, and nothing is freed that the pool does not own.
pub destroy_pool-create_pool :
    (a : Allocator) (fair : IsFair a) (pagesize size : ℕ) (heap : List Region) (ops : List Op)
    (depth rounds : ℕ) (s : State)
    → create_pool a pagesize size heap ≡ some s
    → 80 ≤ size
    → size % 8 ≡ 0
    → IsTidy heap
    → 24 ≤ s.pool.max
    → ResetsFirst ops
    → length ops ≤ rounds
    → (live : List Region) × (t : State) × (out : List (ℕ × Option ℕ)) × (left : List Region)
      × (serve (suc (suc depth)) a ops ([], s) ≡ some (live, t))
      × (destroy_pool rounds t ≡ some (out, left))
      × ((p : ℕ) → at_address p left ≡ at_address p heap)
unfolding destroy_pool
destroy_pool-create_pool a fair pagesize size heap ops depth rounds s made h even tidy k n enough =
    let base = λ (p : ℕ). at_address p heap in
    let (live, t, cs, e, v, l, short) =
      resets_first-Ending a fair s.pool.max base depth k ops [] s n
        (create_pool-Live a fair pagesize size heap s made h even tidy)
        (new_pool-cleanup a pagesize size heap s made) in
    let (out, f) =
      run_cleanups-Chained t.pool.cells cs t.pool.cleanup rounds l.chain
        (omega (arith, short, enough)) in
    (live, t, out, _, e, rw f refl, all_free-Covers base s.pool.max t v.accounts)
