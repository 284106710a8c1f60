-- ===== src/Queue/Order.antt =====
-- What a stable sort does to a list: neighbours that are out of order change places.
use mathlib.Core.List.{Perm}
use mathlib.Core.List.Perm
use rabbitmq_work.Base.{ℕ, ◌≡◌, ◌⊎◌, inl, inr, List, [], ◌∷◌, ◌++◌, All, Bool, true, false}
use rabbitmq_work.Queue.Chain.{Pairs, Cross, Pairs-append, Pairs-parts}

-- `a` stands somewhere in the list, or somewhere before `b`.
abbrev pub In : ℕ → List ℕ → Type 0
In a [] = ⊥
In a (x ∷ xs) = (a ≡ x) ⊎ In a xs

abbrev pub Before : ℕ → ℕ → List ℕ → Type 0
Before a b [] = ⊥
Before a b (x ∷ xs) = ((a ≡ x) × In b xs) ⊎ Before a b xs

module _ (le : ℕ → ℕ → Bool) where
  -- Every node is at most each one behind it.
  abbrev pub Sorted : List ℕ → Type 0
  Sorted xs = Pairs (λ (x y : ℕ). le x y ≡ true) xs

  -- Two nodes that are in order stay in order.
  abbrev pub Stable : List ℕ → List ℕ → Type 0
  Stable xs ys = (a b : ℕ) → Before a b xs → le a b ≡ true → Before a b ys

  -- Neighbours that are out of order change places, any number of times.
  pub data Swaps : List ℕ → List ℕ → Type 0 where
    done : {xs : List ℕ} → Swaps xs xs
    keep : {xs ys : List ℕ} (x : ℕ) → Swaps xs ys → Swaps (x ∷ xs) (x ∷ ys)
    swap : {xs : List ℕ} (x y : ℕ) → le x y ≡ false → Swaps (x ∷ y ∷ xs) (y ∷ x ∷ xs)
    after : {xs ys zs : List ℕ} → Swaps xs ys → Swaps ys zs → Swaps xs zs

  pub Swaps-Perm : {xs ys : List ℕ} → Swaps xs ys → Perm xs ys
  Swaps-Perm done = Perm.rfl
  Swaps-Perm (keep x r) = Perm.cons x (Swaps-Perm r)
  Swaps-Perm (swap x y e) = Perm.swap y x _
  Swaps-Perm (after r q) = Perm.trans (Swaps-Perm r) (Swaps-Perm q)

  Swaps-In : {xs ys : List ℕ} → Swaps xs ys → (a : ℕ) → In a xs → In a ys
  Swaps-In done a i = i
  Swaps-In (keep x r) a (inl e) = inl e
  Swaps-In (keep x r) a (inr i) = inr (Swaps-In r a i)
  Swaps-In (swap x y e) a (inl p) = inr (inl p)
  Swaps-In (swap x y e) a (inr (inl p)) = inl p
  Swaps-In (swap x y e) a (inr (inr i)) = inr (inr i)
  Swaps-In (after r q) a i = Swaps-In q a (Swaps-In r a i)

  pub Swaps-Stable : {xs ys : List ℕ} → Swaps xs ys → Stable xs ys
  Swaps-Stable done a b i h = i
  Swaps-Stable (keep x r) a b (inl (e, i)) h = inl (e, Swaps-In r b i)
  Swaps-Stable (keep x r) a b (inr i) h = inr (Swaps-Stable r a b i h)
  Swaps-Stable (swap x y e) a b (inl (p, inl q)) h = absurd (cc)
  Swaps-Stable (swap x y e) a b (inl (p, inr i)) h = inr (inl (p, i))
  Swaps-Stable (swap x y e) a b (inr (inl (p, i))) h = inl (p, inr i)
  Swaps-Stable (swap x y e) a b (inr (inr i)) h = inr (inr i)
  Swaps-Stable (after r q) a b i h = Swaps-Stable q a b (Swaps-Stable r a b i h) h

  pub Swaps-behind : (as_ : List ℕ) {xs ys : List ℕ} → Swaps xs ys → Swaps (as_ ++ xs) (as_ ++ ys)
  Swaps-behind [] r = r
  Swaps-behind (a ∷ as_) r = keep a (Swaps-behind as_ r)

  -- A node goes before all those that it is out of order with.
  pub Swaps-insert :
      (q : ℕ) (bs zs : List ℕ)
      → All (λ (b : ℕ). le b q ≡ false) bs
      → Swaps (bs ++ q ∷ zs) (q ∷ (bs ++ zs))
  Swaps-insert q [] zs h = done
  Swaps-insert q (b ∷ bs) zs (e, h) = after (keep b (Swaps-insert q bs zs h)) (swap b q e)

  -- A comparison that decides for any two nodes, and passes on.
  pub record IsOrder : Type 0 where
    pub total : (a b : ℕ) → le a b ≡ false → le b a ≡ true
    pub trans : (a b c : ℕ) → le a b ≡ true → le b c ≡ true → le a c ≡ true

  module _ (order : IsOrder) (q : ℕ) where
    below : (bs : List ℕ) → All (λ (b : ℕ). le b q ≡ false) bs → All (λ (b : ℕ). le q b ≡ true) bs
    below [] h = tt
    below (b ∷ bs) (e, h) = (order.total b q e, below bs h)

    above :
        (p : ℕ) (as_ bs : List ℕ)
        → le p q ≡ true
        → Cross (λ x y. le x y ≡ true) as_ (p ∷ bs)
        → Cross (λ x y. le x y ≡ true) as_ (p ∷ q ∷ bs)
    above p [] bs e c = tt
    above p (a ∷ as_) bs e ((f, g), c) = ((f, (order.trans a p q f e, g)), above p as_ bs e c)

    pub Sorted-first :
        (bs : List ℕ) → All (λ (b : ℕ). le b q ≡ false) bs → Sorted bs → Sorted (q ∷ bs)
    Sorted-first bs h s = (below bs h, s)

    pub Sorted-behind :
        (as_ : List ℕ) (p : ℕ) (bs : List ℕ)
        → le p q ≡ true
        → All (λ (b : ℕ). le b q ≡ false) bs
        → Sorted (as_ ++ p ∷ bs)
        → Sorted (as_ ++ p ∷ q ∷ bs)
    Sorted-behind as_ p bs e h s =
        let (s1, s2, c) = Pairs-parts (λ x y. le x y ≡ true) as_ (p ∷ bs) s in
        Pairs-append (λ x y. le x y ≡ true) as_ (p ∷ q ∷ bs) s1 ((e, s2.0), Sorted-first bs h s2.1)
          (above p as_ bs e c)
