-- ===== src/Pool/Sound.antt =====
-- The invariant of a pool of nginx/src/ngx_palloc.c, kept by the allocations of at most `max` bytes.
use rabbitmq_work.Base.{
  ℕ, ◌+◌, ◌-◌, ◌%◌, ◌^◌, ◌≤◌, ◌<◌, ◌≡◌, Bool, true, List, [], ◌∷◌, ◌++◌, none, some, All, arith,
  inl, inr, refl, ap,
}
use rabbitmq_work.Pool.{Block, Region, Allocator, State, block_size}
use rabbitmq_work.Pool.Alloc.{Result}
use rabbitmq_work.Pool.Grants.{IsSound, Grant}
use rabbitmq_work.Pool.Moves.{
  Any, Within, BlocksApart, Separate, Moved, moved, end_of_chain, Moved-Within, Moved-IsSound,
  Moved-Separate, Grant-Moved,
}
use rabbitmq_work.Pool.Apart.{Apart, Any-All, All-last, Grant-Within, Grant-Apart}

abbrev pub extent : Block → Region
extent b = (b.start, b.end_ - b.start)

-- The block is an allocation of the C library.
abbrev pub Owned : List Region → Block → Type 0
Owned heap b = Any (λ (r : Region). r ≡ extent b) heap

-- The C library's promise for `posix_memalign`: an allocation lies apart from those it has made,
-- on the alignment, in the lower half of the address space.
pub record IsFresh (a : Allocator) : Type 0 where
  pub apart :
      (heap : List Region) (n size p : ℕ)
      → a.posix_memalign heap n size ≡ some p
      → All (Apart (p, size)) heap
  pub even : (heap : List Region) (size p : ℕ) → a.posix_memalign heap 16 size ≡ some p → p % 16 ≡ 0
  pub low :
      (heap : List Region) (n size p : ℕ)
      → a.posix_memalign heap n size ≡ some p
      → p + size < 2 ^ 63

pub record WellFormed (s : State) : Type 0 where
  pub sound : All IsSound s.pool.blocks
  pub separate : Separate s.pool.blocks
  pub owned : All (Owned s.heap) s.pool.blocks
  pub room : s.pool.max + 80 ≤ block_size s.pool.blocks
  pub even : block_size s.pool.blocks % 8 ≡ 0

pub Moved-Owned :
    (heap : List Region) {bs cs : List Block}
    → Moved bs cs
    → All (Owned heap) bs
    → All (Owned heap) cs
Moved-Owned heap end_of_chain os = tt
Moved-Owned heap (moved b c p q r t m) (o, os) = (rw (p, q) o, Moved-Owned heap m os)

pub Moved-block_size : {bs cs : List Block} → Moved bs cs → block_size cs ≡ block_size bs
unfolding block_size
Moved-block_size end_of_chain = refl
Moved-block_size (moved b c p q r t m) = rw (p, q) refl

pub block_size-append :
    (bs cs : List Block) → 1 ≤ block_size bs → block_size (bs ++ cs) ≡ block_size bs
unfolding block_size
block_size-append [] cs h = absurd (omega (arith, h))
block_size-append (b ∷ bs) cs h = refl

pub Separate-last :
    (bs : List Block) (c : Block)
    → Separate bs
    → All (λ (b : Block). BlocksApart b c) bs
    → Separate (bs ++ c ∷ [])
Separate-last [] c sep as_ = (tt, tt)
Separate-last (b ∷ bs) c (a, sep) (h, hs) =
    (All-last (BlocksApart b) bs c a h, Separate-last bs c sep hs)

-- A block that is owned, and one at a fresh allocation.
pub Owned-BlocksApart :
    (heap : List Region) (p size : ℕ) (b c : Block)
    → All (Apart (p, size)) heap
    → c.start ≡ p
    → c.end_ ≡ p + size
    → IsSound b
    → Owned heap b
    → BlocksApart b c
Owned-BlocksApart heap p size b c fresh e f s o =
    let (r, h, a) = Any-All o fresh in
    elim a [
      | inl before ↦ inr (omega (arith, ap (λ (r : Region). r.0) h, e, f, before))
      | inr behind ↦ inl (
          omega (
            arith,
            ap (λ (r : Region). r.0) h,
            ap (λ (r : Region). r.1) h,
            e,
            f,
            behind,
            s.above,
            s.below,
          ))
    ]

-- What an allocation promises of its result: NULL and nothing changed, or bytes that the pool now
-- counts as used, apart from all those that it counted as used before, which stay so.
abbrev pub Allocated : Bool → ℕ → State → Result → Type 0
Allocated aligned size s (none, t) = t ≡ s
Allocated aligned size s (some m, t) =
    WellFormed t
    × (t.pool.max ≡ s.pool.max)
    × (aligned ≡ true → m % 8 ≡ 0)
    × Any (Within (m, size)) t.pool.blocks
    × ((g : Region)
        → Any (Within g) s.pool.blocks
        → Any (Within g) t.pool.blocks × Apart g (m, size))

Grant-even :
    {aligned : Bool} {size m : ℕ} {bs cs : List Block}
    → Grant aligned size m bs cs
    → aligned ≡ true
    → m % 8 ≡ 0
Grant-even (Grant.here h k e) = e
Grant-even (Grant.there g) = Grant-even g

pub Grant-Allocated :
    (aligned : Bool) (size m : ℕ) (s : State) (cs : List Block)
    → WellFormed s
    → Grant aligned size m s.pool.blocks cs
    → Allocated aligned size s (some m, record s { pool = record s.pool { blocks = cs } })
Grant-Allocated aligned size m s cs w g =
    let mv = Grant-Moved g w.sound in
    (
      record {
        sound = Moved-IsSound mv w.sound;
        separate = Moved-Separate mv w.separate;
        owned = Moved-Owned s.heap mv w.owned;
        room = rw (Moved-block_size mv) w.room;
        even = rw (Moved-block_size mv) w.even;
      },
      refl,
      Grant-even g,
      Grant-Within g w.sound,
      λ r a. (Moved-Within r mv a, Grant-Apart r s.pool.blocks g w.sound w.separate a),
    )
