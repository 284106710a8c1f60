-- ===== src/Pool/Runs.antt =====
-- Runs of allocations of at most `max` bytes from a pool of nginx/src/ngx_palloc.c.
use rabbitmq_work.Base.{
  ℕ, ◌+◌, ◌%◌, ◌^◌, ◌≤◌, ◌<◌, ◌≡◌, Bool, List, [], ◌∷◌, some, All, arith, refl, ap, ◌∙◌,
}
use rabbitmq_work.Pool.{Block, Region, State, count_from, block_size, new_block, align_ptr}
use rabbitmq_work.Pool.Alloc.{append_block}
use rabbitmq_work.Pool.Grants.{IsSound}
use rabbitmq_work.Pool.Moves.{
  Any, first, after, Within, BlocksApart, Moved, Moved-Within, Moved-IsSound, Moved-Separate,
  count_from-Moved,
}
use rabbitmq_work.Pool.Apart.{
  Apart, Any-All, Any-append, Any-last, All-last, All-imp, Within-Inside, Inside-Apart,
}
use rabbitmq_work.Pool.Sound.{
  Owned, WellFormed, Moved-Owned, Moved-block_size, block_size-append, Separate-last,
  Owned-BlocksApart, Allocated,
}

module _ (m psize size : ℕ) (e : m % 16 ≡ 0) (f : psize % 8 ≡ 0) (h : size + 80 ≤ psize)
    (k : m + psize < 2 ^ 63) where
  aligned_header : align_ptr (m + 32) ≡ m + 32
  unfolding align_ptr
  aligned_header = omega (arith, e, h, k)

  new_block-IsSound : IsSound (new_block m psize size)
  unfolding new_block
  new_block-IsSound = record {
    above = omega (arith, aligned_header);
    below = omega (arith, aligned_header, h);
    even_end = omega (arith, e, f);
    low = k;
  }

  new_block-Within : Within (align_ptr (m + 32), size) (new_block m psize size)
  unfolding new_block
  new_block-Within = (omega (arith, aligned_header), omega arith)

  new_block-Owned : (heap : List Region) → Owned ((m, psize) ∷ heap) (new_block m psize size)
  unfolding new_block
  new_block-Owned heap = first (ap (λ (n : ℕ). (m, n)) (omega arith))

pub All-map2 :
    {A : Type 0} {P Q R : A → Type 0}
    → ((x : A) → P x → Q x → R x)
    → (xs : List A) → All P xs
    → All Q xs
    → All R xs
All-map2 f [] ps qs = tt
All-map2 f (x ∷ xs) (p, ps) (q, qs) = (f x p q, All-map2 f xs ps qs)

module _ (aligned : Bool) (size m psize : ℕ) (s : State) (w : WellFormed s)
    (d : psize ≡ block_size s.pool.blocks) (h : size ≤ s.pool.max) (e : m % 16 ≡ 0)
    (fresh : All (Apart (m, psize)) s.heap) (k : m + psize < 2 ^ 63) where
  abbrev chain : List Block
  chain = (count_from s.pool.current s.pool.current s.pool.blocks).0

  chain-Moved : Moved s.pool.blocks chain
  chain-Moved = count_from-Moved s.pool.current s.pool.current s.pool.blocks w.sound

  room : size + 80 ≤ psize
  room = omega (arith, d, h, w.room)

  even : psize % 8 ≡ 0
  even = rw d w.even

  old_apart : All (λ (b : Block). BlocksApart b (new_block m psize size)) chain
  unfolding new_block
  old_apart =
      All-map2
        (λ (b : Block). Owned-BlocksApart s.heap m psize b (new_block m psize size) fresh refl refl)
        chain (Moved-IsSound chain-Moved w.sound) (Moved-Owned s.heap chain-Moved w.owned)

  append_block-WellFormed :
      WellFormed (record { heap = (m, psize) ∷ s.heap; pool = append_block m psize size s.pool })
  unfolding append_block
  append_block-WellFormed =
      let nb = new_block m psize size in
      let same =
        block_size-append chain (nb ∷ []) (omega (arith, room, d, Moved-block_size chain-Moved))
        ∙ Moved-block_size chain-Moved in
      record {
        sound =
            All-last IsSound chain nb (Moved-IsSound chain-Moved w.sound)
              (new_block-IsSound m psize size e even room k);
        separate = Separate-last chain nb (Moved-Separate chain-Moved w.separate) old_apart;
        owned =
            All-last (Owned ((m, psize) ∷ s.heap)) chain nb
              (All-imp (λ b o. after o) chain (Moved-Owned s.heap chain-Moved w.owned))
              (new_block-Owned m psize size e even room k s.heap);
        room = rw same w.room;
        even = rw same w.even;
      }

  append_block-Apart :
      (g : Region)
      → Any (Within g) s.pool.blocks
      → Any (Within g) (append_block m psize size s.pool).blocks
        × Apart g (align_ptr (m + 32), size)
  unfolding append_block
  append_block-Apart g a =
      let a' = Moved-Within g chain-Moved a in
      let nb = new_block m psize size in
      let (b, i, p) =
        Any-All (Within-Inside g chain (Moved-IsSound chain-Moved w.sound) a') old_apart in
      let n = new_block-Within m psize size e even room k in
      (
        Any-append (nb ∷ []) a',
        Inside-Apart g (align_ptr (m + 32), size) b nb p i
            (n.0, omega (arith, n.1, (new_block-IsSound m psize size e even room k).below)),
      )

  pub append_block-Allocated : Allocated aligned size s (
    some (align_ptr (m + 32)),
    record { heap = (m, psize) ∷ s.heap; pool = append_block m psize size s.pool },
  )
  unfolding append_block
  append_block-Allocated = (
    append_block-WellFormed,
    refl,
    λ asked. omega (arith, aligned_header m psize size e even room k, e),
    Any-last chain (new_block m psize size) (new_block-Within m psize size e even room k),
    append_block-Apart,
  )
