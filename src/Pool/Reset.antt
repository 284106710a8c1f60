-- ===== src/Pool/Reset.antt =====
-- `ngx_reset_pool` of nginx/src/ngx_palloc.c.
use rabbitmq_work.Base.{
  ℕ, ◌+◌, ◌≤◌, ◌≡◌, ◌≢◌, List, [], ◌∷◌, map, Option, none, some, All, arith, refl, sym,
}
use rabbitmq_work.Pool.{Block, Large, Region, State, block_size, free}
use rabbitmq_work.Pool.Alloc.{free_large, reset_block, reset_pool}
use rabbitmq_work.Pool.Grants.{IsSound}
use rabbitmq_work.Pool.Moves.{BlocksApart, Separate}
use rabbitmq_work.Pool.Sound.{Owned, WellFormed, extent}
use rabbitmq_work.Pool.Tidy.{free-In}

-- The large allocation is not a block of the pool.
abbrev pub Foreign : Option ℕ → Block → Type 0
Foreign none b = Unit
Foreign (some p) b = p ≢ b.start

free-Owned :
    (p : ℕ) (heap : List Region) (b : Block) → p ≢ b.start → Owned heap b → Owned (free p heap) b
free-Owned p heap b other o = free-In p heap (extent b) (λ e. other (sym e)) o

cell-Owned :
    (cell : Option ℕ) (heap : List Region) (b : Block)
    → Foreign cell b
    → Owned heap b
    → Owned (elim cell [ none ↦ heap | some p ↦ free p heap ]) b
cell-Owned none heap b f o = o
cell-Owned (some p) heap b f o = free-Owned p heap b f o

free_large-Owned :
    (ls : List Large) (heap : List Region) (b : Block)
    → All (λ (l : Large). Foreign l.alloc b) ls
    → Owned heap b
    → Owned (free_large ls heap) b
unfolding free_large
free_large-Owned [] heap b fs o = o
free_large-Owned (l ∷ ls) heap b (f, fs) o =
    free_large-Owned ls _ b fs (cell-Owned l.alloc heap b f o)

reset_block-IsSound : (b : Block) → b.start + 80 ≤ b.end_ → IsSound b → IsSound (reset_block b)
unfolding reset_block
reset_block-IsSound b h s = record {
  above = omega arith;
  below = h;
  even_end = s.even_end;
  low = s.low;
}

map-All :
    {A : Type 0} (P Q R : A → Type 0) (f : A → A)
    → ((x : A) → P x → Q x → R (f x))
    → (xs : List A) → All P xs
    → All Q xs
    → All R (map f xs)
map-All P Q R f g [] ps qs = tt
map-All P Q R f g (x ∷ xs) (p, ps) (q, qs) = (g x p q, map-All P Q R f g xs ps qs)

map-BlocksApart :
    (b : Block) (bs : List Block)
    → All (BlocksApart b) bs
    → All (BlocksApart (reset_block b)) (map reset_block bs)
unfolding reset_block
map-BlocksApart b [] rest = tt
map-BlocksApart b (c ∷ bs) (h, rest) = (h, map-BlocksApart b bs rest)

map-Separate : (bs : List Block) → Separate bs → Separate (map reset_block bs)
map-Separate [] sep = tt
map-Separate (b ∷ bs) (h, sep) = (map-BlocksApart b bs h, map-Separate bs sep)

map-block_size : (bs : List Block) → block_size (map reset_block bs) ≡ block_size bs
unfolding block_size reset_block
map-block_size [] = refl
map-block_size (b ∷ bs) = refl

kept-Owned :
    (s : State) (b : Block)
    → Owned s.heap b
    → All (λ (l : Large). Foreign l.alloc b) s.pool.large
    → Owned (free_large s.pool.large s.heap) (reset_block b)
unfolding reset_block
kept-Owned s b o f = free_large-Owned s.pool.large s.heap b f o

-- If no large allocation is a block of the pool and every block holds the header of a pool, then
-- after `ngx_reset_pool` the pool is sound again, its blocks still allocated.
pub reset_pool-WellFormed :
    (s : State)
    → WellFormed s
    → All (λ (b : Block). b.start + 80 ≤ b.end_) s.pool.blocks
    → All (λ (b : Block). All (λ (l : Large). Foreign l.alloc b) s.pool.large) s.pool.blocks
    → WellFormed (reset_pool s)
unfolding reset_pool
reset_pool-WellFormed s w roomy foreign =
    let bs = s.pool.blocks in
    let same = map-block_size bs in
    record {
      sound =
          map-All (λ (b : Block). b.start + 80 ≤ b.end_) IsSound IsSound reset_block
            reset_block-IsSound bs roomy w.sound;
      separate = map-Separate bs w.separate;
      owned =
          map-All (Owned s.heap)
            (λ (b : Block). All (λ (l : Large). Foreign l.alloc b) s.pool.large)
            (Owned (free_large s.pool.large s.heap)) reset_block (kept-Owned s) bs w.owned foreign;
      room = rw same w.room;
      even = rw same w.even;
    }
