-- ===== src/Pool/Live.antt =====
-- A pool of nginx/src/ngx_palloc.c with the regions that it has handed out and not taken back.
pub mod Small
pub mod Outside
pub mod Registering
pub mod Release
pub mod Uses
pub mod Destroy
use rabbitmq_work.Base.{ℕ, ◌+◌, ◌≤◌, ◌≡◌, List, [], ◌∷◌, Option, none, some, All, refl, ◌∙◌}
use rabbitmq_work.Pool.{Pool, Block, Large, Cleanup, Region, State}
use rabbitmq_work.Pool.Moves.{Any, Within}
use rabbitmq_work.Pool.Apart.{Pairwise}
use rabbitmq_work.Pool.Sound.{WellFormed}
use rabbitmq_work.Pool.Ledger.{starts_at}
use rabbitmq_work.Pool.Balance.{Accounts}
use rabbitmq_work.Pool.Tidy.{IsTidy, In}

-- The block holds the header of a pool.
abbrev pub Roomy : Block → Type 0
Roomy b = b.start + 80 ≤ b.end_

-- Bytes in the used part of a block, or an allocation of the C library that is not a block.
pub data Held (s : State) (g : Region) : Type 0 where
  used : Any (Within g) s.pool.blocks → Held s g
  outside : In s.heap g → starts_at g.0 s.pool.blocks ≡ 0 → Held s g

-- The regions `live` are held, and no two of them share a byte.
pub record Live (base : ℕ → ℕ) (m : ℕ) (live : List Region) (s : State) : Type 0 where
  pub well : WellFormed s
  pub roomy : All Roomy s.pool.blocks
  pub accounts : Accounts base m s
  pub tidy : IsTidy s.heap
  pub held : All (Held s) live
  pub apart : Pairwise live

-- What was used stays so, and the cleanups stay as they are.
pub record Quiet (p q : Pool) : Type 0 where
  pub kept : (g : Region) → Any (Within g) p.blocks → Any (Within g) q.blocks
  pub cells : q.cells ≡ p.cells
  pub head : q.cleanup ≡ p.cleanup

pub Quiet-trans : {p q r : Pool} → Quiet p q → Quiet q r → Quiet p r
Quiet-trans a b = record {
  kept = λ g w. b.kept g (a.kept g w);
  cells = b.cells ∙ a.cells;
  head = b.head ∙ a.head;
}

pub Quiet-refl : (p : Pool) → Quiet p p
Quiet-refl p = record { kept = λ g w. w; cells = refl; head = refl }

-- What is live after an allocation of so many bytes.
abbrev pub with_grant : Option ℕ → ℕ → List Region → List Region
with_grant none size live = live
with_grant (some p) size live = (p, size) ∷ live

-- Other large allocations and cleanups.
abbrev pub relisted : List Large → Option ℕ → List Cleanup → State → State
relisted ls head cells s = record s {
  pool = record s.pool { large = ls; cleanup = head; cells = cells };
}

relisted-Held :
    (ls : List Large) (head : Option ℕ) (cells : List Cleanup) (s : State) (live : List Region)
    → All (Held s) live
    → All (Held (relisted ls head cells s)) live
relisted-Held ls head cells s [] hs = tt
relisted-Held ls head cells s (g ∷ live) (used w, hs) =
    (used w, relisted-Held ls head cells s live hs)
relisted-Held ls head cells s (g ∷ live) (outside i e, hs) =
    (outside i e, relisted-Held ls head cells s live hs)

pub relisted-Live :
    {base base' : ℕ → ℕ} {m : ℕ} {live : List Region} {s : State} (ls : List Large)
    (head : Option ℕ) (cells : List Cleanup)
    → Live base m live s
    → Accounts base' m (relisted ls head cells s)
    → Live base' m live (relisted ls head cells s)
relisted-Live {live = live} {s = s} ls head cells v acc = record {
  well = record {
    sound = v.well.sound;
    separate = v.well.separate;
    owned = v.well.owned;
    room = v.well.room;
    even = v.well.even;
  };
  roomy = v.roomy;
  accounts = acc;
  tidy = v.tidy;
  held = relisted-Held ls head cells s live v.held;
  apart = v.apart;
}

-- A region that nobody uses any more.
pub Live-tail :
    {base : ℕ → ℕ} {m : ℕ} {g : Region} {live : List Region} {s : State}
    → Live base m (g ∷ live) s
    → Live base m live s
Live-tail v = record {
  well = v.well;
  roomy = v.roomy;
  accounts = v.accounts;
  tidy = v.tidy;
  held = v.held.1;
  apart = v.apart.1;
}
