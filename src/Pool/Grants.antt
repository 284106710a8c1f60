-- ===== src/Pool/Grants.antt =====
-- What `ngx_palloc` and `ngx_pnalloc` of nginx/src/ngx_palloc.c hand out of the pool's blocks.
use rabbitmq_work.Base.{
  leb-false, leb-le, ℕ, ◌+◌, ◌-◌, ◌%◌, ◌^◌, ◌≤◌, ◌<◌, ◌≡◌, leb, Bool, true, false, List, [], ◌∷◌,
  Option, none, some, All, arith, Bool-cases, inl, inr,
}
use rabbitmq_work.Pool.{Block, align_ptr, size_sub, first_free, place}

-- The allocation pointer lies between the header and the end of the block, whose size is a multiple
-- of 8, and the block in the lower half of the address space.
pub record IsSound (b : Block) : Type 0 where
  pub above : b.start + 32 ≤ b.last
  pub below : b.last ≤ b.end_
  pub even_end : b.end_ % 8 ≡ 0
  pub low : b.end_ < 2 ^ 63

pub size_sub_lem : (x y : ℕ) → y ≤ x → x < 2 ^ 63 → size_sub x y ≡ x - y
unfolding size_sub
size_sub_lem x y h k = omega (arith, h, k)

pub size_sub_under : (x y : ℕ) → x < y → y < 2 ^ 64 → size_sub x y ≡ 2 ^ 64 - (y - x)
unfolding size_sub
size_sub_under x y h k = omega (arith, h, k)

pub align_ptr_lem :
    (p : ℕ) → p < 2 ^ 63 → (p ≤ align_ptr p) × (align_ptr p % 8 ≡ 0) × (align_ptr p < p + 8)
unfolding align_ptr
align_ptr_lem p h = (omega (arith, h), omega (arith, h), omega (arith, h))

first_free-fits :
    (aligned : Bool) (b : Block)
    → IsSound b
    → (b.last ≤ first_free aligned b) × (first_free aligned b ≤ b.end_)
unfolding first_free align_ptr
first_free-fits true b s =
    (omega (arith, s.below, s.low), omega (arith, s.below, s.low, s.even_end))
first_free-fits false b s = (omega arith, s.below)

-- A grant of `size` at `m` out of one block of a chain: the bytes lie in its free part, on a
-- multiple of 8 if that is asked for, `last` moves to their end, and the other blocks stay.
pub data Grant (aligned : Bool) (size m : ℕ) : List Block → List Block → Type 0 where
  here :
      {b : Block} {bs : List Block}
      → b.last ≤ m
      → m + size ≤ b.end_
      → (aligned ≡ true → m % 8 ≡ 0)
      → Grant aligned size m (b ∷ bs) (record b { last = m + size } ∷ bs)
  there :
      {b : Block} {bs cs : List Block}
      → Grant aligned size m bs cs
      → Grant aligned size m (b ∷ bs) (b ∷ cs)

-- No block of a chain has room.
abbrev pub Full : Bool → ℕ → List Block → Type 0
Full aligned size bs = All (λ (b : Block). b.end_ < first_free aligned b + size) bs

abbrev pub Placed : Bool → ℕ → List Block → Option (ℕ × List Block) → Type 0
Placed aligned size bs none = Full aligned size bs
Placed aligned size bs (some r) = Grant aligned size r.0 bs r.1

first_free-even : (b : Block) → IsSound b → first_free true b % 8 ≡ 0
unfolding first_free align_ptr
first_free-even b s = omega arith

even_if_asked :
    (aligned : Bool) (b : Block) → IsSound b → aligned ≡ true → first_free aligned b % 8 ≡ 0
even_if_asked true b s e = first_free-even b s
even_if_asked false b s e = cc

Placed-cons :
    (aligned : Bool) (size : ℕ) (b : Block) (bs : List Block) (r : Option (ℕ × List Block))
    → b.end_ < first_free aligned b + size
    → Placed aligned size bs r
    → Placed aligned size (b ∷ bs) (elim r [ none ↦ none | some r ↦ some (r.0, b ∷ r.1) ])
Placed-cons aligned size b bs none full p = (full, p)
Placed-cons aligned size b bs (some r) full p = there p

pub place-Placed :
    (aligned : Bool) (size : ℕ) (bs : List Block)
    → All IsSound bs
    → Placed aligned size bs (place aligned size bs)
unfolding place
place-Placed aligned size [] s = tt
place-Placed aligned size (b ∷ bs) (s, ss) =
    let m = first_free aligned b in
    let fits = first_free-fits aligned b s in
    let room = size_sub_lem b.end_ m fits.1 s.low in
    elim (Bool-cases (leb size (size_sub b.end_ m))) [
      | inl roomy ↦ rw roomy (
          here fits.0 (omega (arith, leb-le size _ roomy, room, fits.1))
            (even_if_asked aligned b s))
      | inr tight ↦ rw tight (
          Placed-cons aligned size b bs (place aligned size bs)
            (omega (arith, leb-false size _ tight, room, fits.1)) (place-Placed aligned size bs ss))
    ]
