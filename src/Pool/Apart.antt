-- ===== src/Pool/Apart.antt =====
-- Separation of the regions that the pool of nginx/src/ngx_palloc.c hands out.
use rabbitmq_work.Base.{
  ℕ, zero, suc, ◌+◌, ◌≤◌, ◌⊎◌, Bool, List, [], ◌∷◌, ◌++◌, Option, none, some, All, arith, inl, inr,
}
use rabbitmq_work.Pool.{Block, Region, place, place_from}
use rabbitmq_work.Pool.Grants.{IsSound, Grant, here, there, Placed, place-Placed}
use rabbitmq_work.Pool.Moves.{Any, first, after, Within, BlocksApart, Separate}

-- No byte in common.
abbrev pub Apart : Region → Region → Type 0
Apart g r = (g.0 + g.1 ≤ r.0) ⊎ (r.0 + r.1 ≤ g.0)

abbrev pub Pairwise : List Region → Type 0
Pairwise [] = Unit
Pairwise (g ∷ gs) = All (Apart g) gs × Pairwise gs

abbrev pub Inside : Region → Block → Type 0
Inside g b = (b.start ≤ g.0) × (g.0 + g.1 ≤ b.end_)

pub Any-All :
    {A : Type 0} {P Q : A → Type 0} {xs : List A} → Any P xs → All Q xs → (x : A) × P x × Q x
Any-All (first p) (q, qs) = (_, p, q)
Any-All (after a) (q, qs) = Any-All a qs

pub Any-append :
    {A : Type 0} {P : A → Type 0} {xs : List A} (ys : List A) → Any P xs → Any P (xs ++ ys)
Any-append ys (first p) = first p
Any-append ys (after a) = after (Any-append ys a)

pub Any-last : {A : Type 0} {P : A → Type 0} (xs : List A) (y : A) → P y → Any P (xs ++ y ∷ [])
Any-last [] y p = first p
Any-last (x ∷ xs) y p = after (Any-last xs y p)

pub All-last :
    {A : Type 0} (P : A → Type 0) (xs : List A) (y : A) → All P xs → P y → All P (xs ++ y ∷ [])
All-last P [] y ps p = (p, tt)
All-last P (x ∷ xs) y (q, ps) p = (q, All-last P xs y ps p)

pub All-imp :
    {A : Type 0} {P Q : A → Type 0} → ((x : A) → P x → Q x) → (xs : List A) → All P xs → All Q xs
All-imp f [] ps = tt
All-imp f (x ∷ xs) (p, ps) = (f x p, All-imp f xs ps)

pub Within-Inside :
    (g : Region) (bs : List Block) → All IsSound bs → Any (Within g) bs → Any (Inside g) bs
Within-Inside g [] ss w = elim w [ ]
Within-Inside g (b ∷ bs) (s, ss) (first w) = first (w.0, omega (arith, w.1, s.below))
Within-Inside g (b ∷ bs) (s, ss) (after w) = after (Within-Inside g bs ss w)

pub Grant-Inside :
    {aligned : Bool} {size m : ℕ} {bs cs : List Block}
    → Grant aligned size m bs cs
    → All IsSound bs
    → Any (Inside (m, size)) bs
Grant-Inside (here h k e) (s, ss) = first (omega (arith, h, s.above), k)
Grant-Inside (there g) (s, ss) = after (Grant-Inside g ss)

pub Grant-Within :
    {aligned : Bool} {size m : ℕ} {bs cs : List Block}
    → Grant aligned size m bs cs
    → All IsSound bs
    → Any (Within (m, size)) cs
Grant-Within (here h k e) (s, ss) = first (omega (arith, h, s.above), omega arith)
Grant-Within (there g) (s, ss) = after (Grant-Within g ss)

pub Inside-Apart :
    (g r : Region) (b c : Block) → BlocksApart b c → Inside g b → Inside r c → Apart g r
Inside-Apart g r b c (inl h) i j = inl (omega (arith, h, i.1, j.0))
Inside-Apart g r b c (inr h) i j = inr (omega (arith, h, i.0, j.1))

pub Apart-sym : (g r : Region) → Apart g r → Apart r g
Apart-sym g r (inl h) = inr h
Apart-sym g r (inr h) = inl h

-- A region in the first block and one in a later block.
Separate-Apart :
    (g r : Region) (b : Block) (bs : List Block)
    → All (BlocksApart b) bs
    → Inside g b
    → Any (Inside r) bs
    → Apart g r
Separate-Apart g r b bs as_ i a = let (c, j, h) = Any-All a as_ in Inside-Apart g r b c h i j

-- A grant has no byte in common with what lies below the allocation pointers.
pub Grant-Apart :
    {aligned : Bool} {size m : ℕ} (g : Region) (bs : List Block) {cs : List Block}
    → Grant aligned size m bs cs
    → All IsSound bs
    → Separate bs
    → Any (Within g) bs
    → Apart g (m, size)
Grant-Apart g _ (here h k e) (s, ss) (apart, sep) (first w) = inl (omega (arith, w.1, h))
Grant-Apart {size = size} {m = m} g (b ∷ bs) (here h k e) (s, ss) (apart, sep) (after w) =
    Apart-sym (m, size) g
      (Separate-Apart (m, size) g b bs apart (omega (arith, h, s.above), k)
        (Within-Inside g bs ss w))
Grant-Apart {size = size} {m = m} g (b ∷ bs) (there k) (s, ss) (apart, sep) (first w) =
    Separate-Apart g (m, size) b bs apart (w.0, omega (arith, w.1, s.below)) (Grant-Inside k ss)
Grant-Apart g (b ∷ bs) (there k) (s, ss) (apart, sep) (after w) = Grant-Apart g bs k ss sep w

-- The search from `current` on.
abbrev pub Granted : Bool → ℕ → List Block → Option (ℕ × List Block) → Type 0
Granted aligned size bs none = Unit
Granted aligned size bs (some r) = Grant aligned size r.0 bs r.1

Granted-cons :
    (aligned : Bool) (size : ℕ) (b : Block) (bs : List Block) (r : Option (ℕ × List Block))
    → Granted aligned size bs r
    → Granted aligned size (b ∷ bs) (elim r [ none ↦ none | some r ↦ some (r.0, b ∷ r.1) ])
Granted-cons aligned size b bs none g = tt
Granted-cons aligned size b bs (some r) g = there g

place-Granted :
    (aligned : Bool) (size : ℕ) (bs : List Block)
    → All IsSound bs
    → Granted aligned size bs (place aligned size bs)
place-Granted aligned size bs ss =
    (elim (place aligned size bs) as (λ r. Placed aligned size bs r → Granted aligned size bs r) [
      | none ↦ λ p. tt
      | some r ↦ λ p. p
    ])
      (place-Placed aligned size bs ss)

pub place_from-Granted :
    (aligned : Bool) (size k : ℕ) (bs : List Block)
    → All IsSound bs
    → Granted aligned size bs (place_from aligned size k bs)
unfolding place_from
place_from-Granted aligned size zero bs ss = place-Granted aligned size bs ss
place_from-Granted aligned size (suc k) [] ss = tt
place_from-Granted aligned size (suc k) (b ∷ bs) (s, ss) =
    Granted-cons aligned size b bs (place_from aligned size k bs)
      (place_from-Granted aligned size k bs ss)
