-- ===== src/Queue/Placing.antt =====
-- Where the inner loop of `ngx_queue_sort` puts a node.
use rabbitmq_work.Base.{
  ℕ, zero, suc, ◌<◌, ◌≡◌, ◌≢◌, ◌==◌, ==_iff, ◌⊎◌, inl, inr, ℤ, List, [], ◌∷◌, ◌++◌, append_assoc,
  All, length, length-append, Option, some, Bool, true, false, refl, sym, subst, arith, Bool-cases,
}
use rabbitmq_work.Queue.{Links, at_most_zero, place_after}
use rabbitmq_work.Queue.Chain.{Chain, Fresh, Chain-parts, All-parts}

-- A list is empty or has a last node.
pub last_of : (xs : List ℕ) → (xs ≡ []) ⊎ ((ys : List ℕ) × (y : ℕ) × (xs ≡ ys ++ y ∷ []))
last_of [] = inl refl
last_of (x ∷ xs) = elim (last_of xs) [
  | inl e ↦ inr ([], x, rw e refl)
  | inr (ys, y, e) ↦ inr (x ∷ ys, y, rw e refl)
]

-- The sorted part falls into nodes `bs` that are out of order with `q`, and a node before them that
-- is in order with it, if there is one: behind that, or behind the sentinel `h`, `q` goes.
abbrev pub Passed : (ℕ → ℕ → Bool) → ℕ → List ℕ → Type 0
Passed le q bs = All (λ (b : ℕ). le b q ≡ false) bs

pub data Placed (le : ℕ → ℕ → Bool) (h q : ℕ) (front : List ℕ) (found : Option ℕ) : Type 0 where
  first : found ≡ some h → Passed le q front → Placed le h q front found
  behind :
      (as_ : List ℕ) (p : ℕ) (bs : List ℕ)
      → front ≡ as_ ++ p ∷ bs
      → found ≡ some p
      → le p q ≡ true
      → Passed le q bs
      → Placed le h q front found

pub different : (a b : ℕ) → b ≢ a → (a == b) ≡ false
different a b h = elim (Bool-cases (a == b)) [
  | inl e ↦ absurd (h (sym ((==_iff a b).0 e)))
  | inr e ↦ e
]

module _ (cmp : ℕ → ℕ → ℤ) where
  abbrev pub le : ℕ → ℕ → Bool
  le a b = at_most_zero (cmp a b)

  module _ (s : Links) (h q : ℕ) where
    -- The loop stands at `p`.
    pub place_after-Placed :
        (rounds : ℕ) (as_ : List ℕ) (p : ℕ) (bs : List ℕ)
        → Chain s h as_ p
        → Fresh h as_
        → Passed le q bs
        → length as_ < rounds
        → Placed le h q (as_ ++ p ∷ bs) (place_after cmp rounds s h q p)
    unfolding place_after
    place_after-Placed zero as_ p bs c f b n = absurd (omega (arith, n))
    place_after-Placed (suc rounds) as_ p bs c f b n = elim (Bool-cases (le p q)) [
      | inl e ↦ behind as_ p bs refl (rw e refl) e b
      | inr e ↦ elim (last_of as_) [
        | inl none_left ↦
            let at_start : s.prev p ≡ h = (subst (λ xs. Chain s h xs p) none_left c).1 in
            rw none_left (first (rw (e, at_start, (==_iff h h).1 refl) refl) (e, b))
        | inr (ys, y, eq) ↦
            let (c1, c2) = Chain-parts s h ys y [] p (subst (λ xs. Chain s h xs p) eq c) in
            let (f1, f2) = All-parts (λ z. h ≢ z) ys (y ∷ []) (subst (Fresh h) eq f) in
            let short : length ys < rounds = omega (
              arith,
              n,
              subst (λ xs. length xs < suc rounds) eq n,
              length-append {0} ys (y ∷ []),
            ) in
            let rest = place_after-Placed rounds ys y (p ∷ bs) c1 f1 (e, b) short in
            rw (eq, append_assoc ys (y ∷ []) (p ∷ bs), e, c2.1, different y h f2.0) rest
      ]
    ]
