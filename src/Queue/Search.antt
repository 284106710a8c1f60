-- ===== src/Queue/Search.antt =====
-- Where a node stands in a queue of ngx_queue.h, as a list of nodes.
use mathlib.Core.Bool.{false≢true}
use rabbitmq_work.Base.{
  ℕ, ◌≡◌, ◌≢◌, ◌==◌, ==_iff, List, [], ◌∷◌, ◌++◌, Option, none, some, Bool, true, false, refl, sym,
  ◌∙◌, if◌then◌else◌, inl, inr, Bool-cases,
}
use rabbitmq_work.Queue.Chain.{Fresh}

-- What stands before a node and what stands behind it, if it is there.
abbrev pub with_first : ℕ → Option (List ℕ × List ℕ) → Option (List ℕ × List ℕ)
with_first y none = none
with_first y (some (l, r)) = some (y ∷ l, r)

unfoldable pub parts_at : ℕ → List ℕ → Option (List ℕ × List ℕ)
parts_at x [] = none
parts_at x (y ∷ ys) =
    let rest = parts_at x ys in if x == y then some ([], ys) else with_first y rest

abbrev pub is_missing : Option (List ℕ × List ℕ) → Bool
is_missing none = true
is_missing (some _) = false

-- Whether a node may be put in: it is not there, and it is not the sentinel.
unfoldable pub may_enter : ℕ → ℕ → List ℕ → Bool
may_enter h x xs = is_missing (parts_at x (h ∷ xs))

-- What the search finds.
pub data Found (x : ℕ) (xs : List ℕ) : Option (List ℕ × List ℕ) → Type 0 where
  there : (l r : List ℕ) → xs ≡ l ++ x ∷ r → Found x xs (some (l, r))
  nowhere : Fresh x xs → Found x xs none

further :
    (x y : ℕ) (ys : List ℕ) (o : Option (List ℕ × List ℕ))
    → x ≢ y
    → Found x ys o
    → Found x (y ∷ ys) (with_first y o)
further x y ys o n (there l r e) = there (y ∷ l) r (rw e refl)
further x y ys o n (nowhere f) = nowhere (n, f)

pub parts_at-Found : (x : ℕ) (xs : List ℕ) → Found x xs (parts_at x xs)
unfolding parts_at
parts_at-Found x [] = nowhere tt
parts_at-Found x (y ∷ ys) = elim (Bool-cases (x == y)) [
  | inl e ↦ rw e (there [] ys (rw ((==_iff x y).0 e) refl))
  | inr e ↦
      rw e (further x y ys _ (λ p. false≢true (sym e ∙ (==_iff x y).1 p)) (parts_at-Found x ys))
]

missing-Fresh :
    (x : ℕ) (xs : List ℕ) (o : Option (List ℕ × List ℕ))
    → Found x xs o
    → is_missing o ≡ true
    → Fresh x xs
missing-Fresh x xs o (there l r e) f = absurd (false≢true f)
missing-Fresh x xs o (nowhere f) e = f

pub may_enter-Fresh : (h x : ℕ) (xs : List ℕ) → may_enter h x xs ≡ true → Fresh x (h ∷ xs)
unfolding may_enter
may_enter-Fresh h x xs e = missing-Fresh x (h ∷ xs) _ (parts_at-Found x (h ∷ xs)) e
