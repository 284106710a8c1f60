-- ===== src/Pool/Ledger.antt =====
-- What of the C library's memory a pool of nginx/src/ngx_palloc.c answers for, address by address.
use rabbitmq_work.Base.{
  ℕ, zero, suc, ◌+◌, ◌≤◌, ◌≡◌, ◌==◌, ==_iff, Bool, true, false, List, [], ◌∷◌, ◌++◌, Option, none,
  some, arith, refl, ap, inl, inr, Bool-cases, if◌then◌else◌, leb, ltb, map,
}
use rabbitmq_work.Pool.{
  Block, Large, Region, place, place_from, first_free, size_sub, count_failures, count_from, free,
}
use rabbitmq_work.Pool.Alloc.{free_large, free_blocks, reset_block}

abbrev pub one : Bool → ℕ
one true = 1
one false = 0

-- How many allocations there are at an address, how many blocks begin there, and how many large
-- allocations are there.
abbrev pub at_address : ℕ → List Region → ℕ
at_address p [] = 0
at_address p (r ∷ rs) = one (r.0 == p) + at_address p rs

abbrev pub starts_at : ℕ → List Block → ℕ
starts_at p [] = 0
starts_at p (b ∷ bs) = one (b.start == p) + starts_at p bs

abbrev pub holds : ℕ → Option ℕ → ℕ
holds p none = 0
holds p (some q) = one (q == p)

abbrev pub larges_at : ℕ → List Large → ℕ
larges_at p [] = 0
larges_at p (l ∷ ls) = holds p l.alloc + larges_at p ls

pub one_self : (q : ℕ) → one (q == q) ≡ 1
one_self q = rw ((==_iff q q).1 refl) refl

-- One allocation at `q` is given back.
pub at_address-free :
    (p q : ℕ) (heap : List Region)
    → 1 ≤ at_address q heap
    → at_address p (free q heap) + one (q == p) ≡ at_address p heap
unfolding free
at_address-free p q [] h = absurd (omega (arith, h))
at_address-free p q (r ∷ rs) h = elim (Bool-cases (r.0 == q)) [
  | inl e ↦ rw (e, (==_iff r.0 q).0 e) (omega arith)
  | inr e ↦
      let there : 1 ≤ one false + at_address q rs = rw e at h in
      rw e (omega (arith, at_address-free p q rs (omega (arith, there))))
]

-- What is left when allocations are given back.
pub free-Covers :
    (heap : List Region) (q : ℕ) (f : ℕ → ℕ)
    → ((p : ℕ) → at_address p heap ≡ one (q == p) + f p)
    → (p : ℕ) → at_address p (free q heap) ≡ f p
free-Covers heap q f c p =
    omega (arith, at_address-free p q heap (omega (arith, c q, one_self q)), c p)

given_back :
    (cell : Option ℕ) (heap : List Region) (f : ℕ → ℕ)
    → ((p : ℕ) → at_address p heap ≡ holds p cell + f p)
    → (p : ℕ) → at_address p (elim cell [ none ↦ heap | some q ↦ free q heap ]) ≡ f p
given_back none heap f c p = omega (arith, c p)
given_back (some q) heap f c p = free-Covers heap q f c p

pub free_large-Covers :
    (ls : List Large) (heap : List Region) (f : ℕ → ℕ)
    → ((p : ℕ) → at_address p heap ≡ larges_at p ls + f p)
    → (p : ℕ) → at_address p (free_large ls heap) ≡ f p
unfolding free_large
free_large-Covers [] heap f c p = omega (arith, c p)
free_large-Covers (l ∷ ls) heap f c p =
    free_large-Covers ls (elim l.alloc [ none ↦ heap | some q ↦ free q heap ]) f
      (given_back l.alloc heap (λ p'. larges_at p' ls + f p') (λ p'. omega (arith, c p'))) p

pub free_blocks-Covers :
    (bs : List Block) (heap : List Region) (f : ℕ → ℕ)
    → ((p : ℕ) → at_address p heap ≡ starts_at p bs + f p)
    → (p : ℕ) → at_address p (free_blocks bs heap) ≡ f p
unfolding free_blocks
free_blocks-Covers [] heap f c p = omega (arith, c p)
free_blocks-Covers (b ∷ bs) heap f c p =
    free_blocks-Covers bs (free b.start heap) f
      (free-Covers heap b.start (λ p'. starts_at p' bs + f p') (λ p'. omega (arith, c p'))) p

-- An allocation from the blocks, and the count of failures, leave the blocks where they are.
abbrev pub SameStarts : List Block → Option (ℕ × List Block) → Type 0
SameStarts bs none = Unit
SameStarts bs (some r) = (p : ℕ) → starts_at p r.1 ≡ starts_at p bs

later :
    (b : Block) (bs : List Block) (r : Option (ℕ × List Block))
    → SameStarts bs r
    → SameStarts (b ∷ bs) (elim r [ none ↦ none | some x ↦ some (x.0, b ∷ x.1) ])
later b bs none h = tt
later b bs (some x) h = λ p. omega (arith, h p)

place-SameStarts :
    (aligned : Bool) (size : ℕ) (bs : List Block) → SameStarts bs (place aligned size bs)
unfolding place
place-SameStarts aligned size [] = tt
place-SameStarts aligned size (b ∷ bs) =
    let ih = later b bs (place aligned size bs) (place-SameStarts aligned size bs) in
    elim (Bool-cases (leb size (size_sub b.end_ (first_free aligned b)))) [
      | inl e ↦ rw e (λ p. refl)
      | inr e ↦ rw e ih
    ]

pub place_from-SameStarts :
    (aligned : Bool) (size current : ℕ) (bs : List Block)
    → SameStarts bs (place_from aligned size current bs)
unfolding place_from
place_from-SameStarts aligned size zero bs = place-SameStarts aligned size bs
place_from-SameStarts aligned size (suc k) [] = tt
place_from-SameStarts aligned size (suc k) (b ∷ bs) =
    later b bs (place_from aligned size k bs) (place_from-SameStarts aligned size k bs)

count_failures-starts_at :
    (position current : ℕ) (bs : List Block) (p : ℕ)
    → starts_at p (count_failures position current bs).0 ≡ starts_at p bs
unfolding count_failures
count_failures-starts_at position current [] p = refl
count_failures-starts_at position current (b ∷ []) p = refl
count_failures-starts_at position current (b ∷ c ∷ bs) p =
    ap (λ (n : ℕ). one (b.start == p) + n)
      (count_failures-starts_at (position + 1) (if ltb 4 b.failed then position + 1 else current)
        (c ∷ bs) p)

pub count_from-starts_at :
    (current k : ℕ) (bs : List Block) (p : ℕ)
    → starts_at p (count_from current k bs).0 ≡ starts_at p bs
unfolding count_from
count_from-starts_at current zero bs p = count_failures-starts_at current current bs p
count_from-starts_at current (suc k) [] p = refl
count_from-starts_at current (suc k) (b ∷ bs) p =
    ap (λ (n : ℕ). one (b.start == p) + n) (count_from-starts_at current k bs p)

pub starts_at-append :
    (p : ℕ) (bs cs : List Block) → starts_at p (bs ++ cs) ≡ starts_at p bs + starts_at p cs
starts_at-append p [] cs = omega arith
starts_at-append p (b ∷ bs) cs = omega (arith, starts_at-append p bs cs)

pub starts_at-reset : (p : ℕ) (bs : List Block) → starts_at p (map reset_block bs) ≡ starts_at p bs
unfolding reset_block
starts_at-reset p [] = refl
starts_at-reset p (b ∷ bs) = ap (λ (n : ℕ). one (b.start == p) + n) (starts_at-reset p bs)
