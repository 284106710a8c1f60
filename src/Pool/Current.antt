-- ===== src/Pool/Current.antt =====
-- The pointer `current` of a pool of nginx/src/ngx_palloc.c, where the search for room begins.
use rabbitmq_work.Base.{
  ℕ, ◌+◌, ◌≤◌, ◌<◌, ◌≡◌, ltb, List, [], ◌∷◌, length, Option, none, some, arith, refl, if◌then◌else◌,
}
use rabbitmq_work.Pool.{Block, Pool, count_failures}

pub length-count_failures :
    (bs : List Block) (position current : ℕ)
    → length (count_failures position current bs).0 ≡ length bs
unfolding count_failures
length-count_failures [] position current = refl
length-count_failures (b ∷ []) position current = refl
length-count_failures (b ∷ c ∷ bs) position current = omega (
  arith,
  length-count_failures (c ∷ bs) (position + 1) (if ltb 4 b.failed then position + 1 else current),
)

-- A position between two bounds.
abbrev Between : ℕ → ℕ → ℕ → Type 0
Between low high n = (low ≤ n) × (n < high)

abbrev SameLength : List Block → Option (ℕ × List Block) → Type 0
SameLength bs none = Unit
SameLength bs (some r) = length r.1 ≡ length bs

-- `current` has not gone back, and is a block of the chain.
abbrev pub Advanced : Pool → Pool → Type 0
Advanced p q = (p.current ≤ q.current) × (q.current < length q.blocks)
