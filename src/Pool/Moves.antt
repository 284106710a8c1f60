-- ===== src/Pool/Moves.antt =====
-- What the allocations of nginx/src/ngx_palloc.c do to the chain of blocks: a block stays where it
-- is, and `last` only grows.
use rabbitmq_work.Base.{
  ℕ, zero, suc, ◌+◌, ◌≤◌, ◌≡◌, ◌⊎◌, Bool, List, [], ◌∷◌, All, arith, inl, inr, refl,
}
use rabbitmq_work.Pool.{Block, Region, count_failures, count_from}
use rabbitmq_work.Pool.Grants.{IsSound, Grant, here, there}

-- A predicate at some element.
pub data Any {A : Type 0} (P : A → Type 0) : List A → Type 0 where
  first : {x : A} {xs : List A} → P x → Any P (x ∷ xs)
  after : {x : A} {xs : List A} → Any P xs → Any P (x ∷ xs)

pub data Moved : List Block → List Block → Type 0 where
  end_of_chain : Moved [] []
  moved :
      (b c : Block) {bs cs : List Block}
      → c.start ≡ b.start
      → c.end_ ≡ b.end_
      → b.last ≤ c.last
      → (c.last ≤ c.end_)
      → Moved bs cs
      → Moved (b ∷ bs) (c ∷ cs)

pub Moved-refl : (bs : List Block) → All IsSound bs → Moved bs bs
Moved-refl [] s = end_of_chain
Moved-refl (b ∷ bs) (s, ss) = moved _ _ refl refl (omega arith) s.below (Moved-refl bs ss)

-- Bytes below the allocation pointer of a block.
abbrev pub Within : Region → Block → Type 0
Within g b = (b.start ≤ g.0) × (g.0 + g.1 ≤ b.last)

abbrev pub BlocksApart : Block → Block → Type 0
BlocksApart b c = (b.end_ ≤ c.start) ⊎ (c.end_ ≤ b.start)

abbrev pub Separate : List Block → Type 0
Separate [] = Unit
Separate (b ∷ bs) = All (BlocksApart b) bs × Separate bs

pub Moved-Within :
    {bs cs : List Block} (g : Region) → Moved bs cs → Any (Within g) bs → Any (Within g) cs
Moved-Within g end_of_chain w = elim w [ ]
Moved-Within g (moved b c p q r t m) (first w) =
    first (omega (arith, p, w.0), omega (arith, r, w.1))
Moved-Within g (moved b c p q r t m) (after w) = after (Moved-Within g m w)

pub Moved-IsSound : {bs cs : List Block} → Moved bs cs → All IsSound bs → All IsSound cs
Moved-IsSound end_of_chain ss = tt
Moved-IsSound (moved b c p q r t m) (s, ss) = (
  record {
    above = omega (arith, p, r, s.above);
    below = t;
    even_end = rw q s.even_end;
    low = rw q s.low;
  },
  Moved-IsSound m ss,
)

BlocksApart-moved :
    (b c b' c' : Block)
    → b'.start ≡ b.start
    → b'.end_ ≡ b.end_
    → c'.start ≡ c.start
    → c'.end_ ≡ c.end_
    → BlocksApart b c
    → BlocksApart b' c'
BlocksApart-moved b c b' c' p q p' q' (inl h) = inl (omega (arith, q, p', h))
BlocksApart-moved b c b' c' p q p' q' (inr h) = inr (omega (arith, p, q', h))

BlocksApart-Moved :
    {bs cs : List Block} (b c : Block)
    → c.start ≡ b.start
    → c.end_ ≡ b.end_
    → Moved bs cs
    → All (BlocksApart b) bs
    → All (BlocksApart c) cs
BlocksApart-Moved b c p q end_of_chain rest = tt
BlocksApart-Moved b c p q (moved d e p' q' r t m) (a, rest) =
    (BlocksApart-moved b d c e p q p' q' a, BlocksApart-Moved b c p q m rest)

pub Moved-Separate : {bs cs : List Block} → Moved bs cs → Separate bs → Separate cs
Moved-Separate end_of_chain ss = tt
Moved-Separate (moved b c p q r t m) (a, ss) = (BlocksApart-Moved b c p q m a, Moved-Separate m ss)

pub Grant-Moved :
    {aligned : Bool} {size m : ℕ} {bs cs : List Block}
    → Grant aligned size m bs cs
    → All IsSound bs
    → Moved bs cs
Grant-Moved (here h k e) (s, ss) = moved _ _ refl refl (omega (arith, h)) k (Moved-refl _ ss)
Grant-Moved (there g) (s, ss) = moved _ _ refl refl (omega arith) s.below (Grant-Moved g ss)

pub count_failures-Moved :
    (bs : List Block) (position current : ℕ)
    → All IsSound bs
    → Moved bs (count_failures position current bs).0
unfolding count_failures
count_failures-Moved [] position current ss = end_of_chain
count_failures-Moved (b ∷ []) position current (s, ss) =
    moved _ _ refl refl (omega arith) s.below end_of_chain
count_failures-Moved (b ∷ c ∷ bs) position current (s, ss) =
    moved _ _ refl refl (omega arith) s.below (count_failures-Moved (c ∷ bs) _ _ ss)

pub count_from-Moved :
    (current k : ℕ) (bs : List Block) → All IsSound bs → Moved bs (count_from current k bs).0
unfolding count_from
count_from-Moved current zero bs ss = count_failures-Moved bs current current ss
count_from-Moved current (suc k) [] ss = end_of_chain
count_from-Moved current (suc k) (b ∷ bs) (s, ss) =
    moved _ _ refl refl (omega arith) s.below (count_from-Moved current k bs ss)
