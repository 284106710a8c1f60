-- ===== src/Pool/Live/Registering.antt =====
-- What `ngx_pool_cleanup_add` of nginx/src/ngx_palloc.c does to the list of cleanups of a pool.
use mathlib.Core.Option.{some-injective, none-ne-some}
use rabbitmq_work.Base.{ℕ, ◌≡◌, true, ◌∷◌, Option, none, some, refl, subst}
use rabbitmq_work.Pool.{Pool, Region, State, sizeof_cleanup}
use rabbitmq_work.Pool.Alloc.{Result, add_cleanup}
use rabbitmq_work.Pool.Apart.{Apart}
use rabbitmq_work.Pool.Moves.{Any, Within}
use rabbitmq_work.Pool.Sound.{Allocated}
use rabbitmq_work.Pool.Live.{Quiet, Quiet-trans}

-- The list of cleanups before and after: nothing has changed, or a cell that was no part of
-- what was used comes first.
pub data Registering (p q : Pool) : Type 0 where
  refused : Quiet p q → Registering p q
  registered :
      (cell : ℕ) (d : Option ℕ)
      → q.cells ≡ record { cell = cell; handler = none; data_ = d; next = p.cleanup } ∷ p.cells
      → q.cleanup ≡ some cell
      → ((g : Region)
          → Any (Within g) p.blocks
          → Any (Within g) q.blocks × Apart g (cell, sizeof_cleanup))
      → Any (Within (cell, sizeof_cleanup)) q.blocks
      → Registering p q

abbrev pub CellGiven : ℕ → State → State → Type 0
CellGiven cell s t =
    ((g : Region)
      → Any (Within g) s.pool.blocks
      → Any (Within g) t.pool.blocks × Apart g (cell, sizeof_cleanup))
    × Any (Within (cell, sizeof_cleanup)) t.pool.blocks

pub cell_given :
    (cell : ℕ) (s : State) (x : Result)
    → x.0 ≡ some cell
    → Allocated true sizeof_cleanup s x
    → CellGiven cell s x.1
cell_given cell s (none, t) e ok = absurd (none-ne-some _ e)
cell_given cell s (some m, t) e (w, f, even, there, kept) =
    subst (λ n. CellGiven n s t) (some-injective _ _ e) (kept, there)

-- The end of the call, after the data.
pub end-Registering :
    (cell : ℕ) (d : Option ℕ) (s t u : State)
    → CellGiven cell s t
    → Quiet s.pool t.pool
    → Quiet t.pool u.pool
    → Registering s.pool (add_cleanup cell d u).1.pool
end-Registering cell d s t u given first second =
    let both = Quiet-trans first second in
    registered cell d (rw (both.cells, both.head) refl) refl
      (λ g w. (second.kept g (given.0 g w).0, (given.0 g w).1)) (second.kept _ given.1)
