-- ===== src/Queue/Reference.antt =====
-- The sort that `ngx_queue_sort` is an implementation of, on lists: each node in turn goes right
-- behind the last of the nodes before it that it is in order with.
use rabbitmq_work.Base.{
  ℕ, suc, ◌+◌, ◌≡◌, inl, inr, List, [], ◌∷◌, ◌++◌, length, Bool, true, false, not, ◌&&◌, refl,
  arith, if◌then◌else◌, Bool-cases, append-nil, append_assoc, subst,
}
use rabbitmq_work.Queue.Order.{
  Sorted, Swaps, done, after, IsOrder, Sorted-first, Sorted-behind, Swaps-behind, Swaps-insert,
  keep,
}
use rabbitmq_work.Queue.Placing.{Passed}

module _ (le : ℕ → ℕ → Bool) where
  -- Whether every node is out of order with `q`.
  unfoldable pub passed : ℕ → List ℕ → Bool
  passed q [] = true
  passed q (x ∷ xs) = not (le x q) && passed q xs

  -- `q` behind the last node that it is in order with, or in front.
  unfoldable pub insert_last : ℕ → List ℕ → List ℕ
  insert_last q [] = q ∷ []
  insert_last q (x ∷ xs) =
      let rest = insert_last q xs in if passed q (x ∷ xs) then q ∷ x ∷ xs else x ∷ rest

  unfoldable pub sort_into : List ℕ → List ℕ → List ℕ
  sort_into front [] = front
  sort_into front (q ∷ rest) = sort_into (insert_last q front) rest

  unfoldable pub insertion_sort : List ℕ → List ℕ
  insertion_sort xs = sort_into [] xs

  module _ (q : ℕ) where
    Passed-passed : (bs : List ℕ) → Passed le q bs → passed q bs ≡ true
    unfolding passed
    Passed-passed [] h = refl
    Passed-passed (b ∷ bs) (e, h) = rw (e, Passed-passed bs h) refl

    not_passed :
        (as_ : List ℕ) (p : ℕ) (bs : List ℕ) → le p q ≡ true → passed q (as_ ++ p ∷ bs) ≡ false
    unfolding passed
    not_passed [] p bs e = rw e refl
    not_passed (a ∷ as_) p bs e = elim (Bool-cases (le a q)) [
      | inl f ↦ rw f refl
      | inr f ↦ rw (f, not_passed as_ p bs e) refl
    ]

    pub insert_last-first : (bs : List ℕ) → Passed le q bs → insert_last q bs ≡ q ∷ bs
    unfolding insert_last
    insert_last-first [] h = refl
    insert_last-first (b ∷ bs) h = rw (Passed-passed (b ∷ bs) h) refl

    pub insert_last-behind :
        (as_ : List ℕ) (p : ℕ) (bs : List ℕ)
        → le p q ≡ true
        → Passed le q bs
        → insert_last q (as_ ++ p ∷ bs) ≡ as_ ++ p ∷ q ∷ bs
    unfolding insert_last
    insert_last-behind [] p bs e h = rw (not_passed [] p bs e, insert_last-first bs h) refl
    insert_last-behind (a ∷ as_) p bs e h =
        rw (not_passed (a ∷ as_) p bs e, insert_last-behind as_ p bs e h) refl

    -- A list falls into nodes that are out of order with `q` and one before them that is not.
    data Parts (xs : List ℕ) : Type 0 where
      all_passed : Passed le q xs → Parts xs
      stops_at :
          (as_ : List ℕ) (p : ℕ) (bs : List ℕ)
          → xs ≡ as_ ++ p ∷ bs
          → le p q ≡ true
          → Passed le q bs
          → Parts xs

    parts : (xs : List ℕ) → Parts xs
    parts [] = all_passed tt
    parts (x ∷ xs) = elim (parts xs) [
      | stops_at as_ p bs eq e h ↦ stops_at (x ∷ as_) p bs (rw eq refl) e h
      | all_passed h ↦ elim (Bool-cases (le x q)) [
        | inl e ↦ stops_at [] x xs refl e h
        | inr e ↦ all_passed (e, h)
      ]
    ]

  pub insert_last-length : (q : ℕ) (xs : List ℕ) → length (insert_last q xs) ≡ suc (length xs)
  unfolding insert_last
  insert_last-length q [] = refl
  insert_last-length q (x ∷ xs) = elim (Bool-cases (passed q (x ∷ xs))) [
    | inl e ↦ rw e refl
    | inr e ↦ rw (e, insert_last-length q xs) refl
  ]

  pub insert_last-Swaps :
      (q : ℕ) (xs zs : List ℕ) → Swaps le (xs ++ q ∷ zs) (insert_last q xs ++ zs)
  insert_last-Swaps q xs zs = elim (parts q xs) [
    | all_passed h ↦ rw (insert_last-first q xs h) (Swaps-insert le q xs zs h)
    | stops_at as_ p bs eq e h ↦
        rw
          (
            eq,
            insert_last-behind q as_ p bs e h,
            append_assoc as_ (p ∷ bs) (q ∷ zs),
            append_assoc as_ (p ∷ q ∷ bs) zs,
          )
          (Swaps-behind le as_ (keep p (Swaps-insert le q bs zs h)))
  ]

  insert_last-Sorted :
      IsOrder le → (q : ℕ) (xs : List ℕ) → Sorted le xs → Sorted le (insert_last q xs)
  insert_last-Sorted order q xs s = elim (parts q xs) [
    | all_passed h ↦ rw (insert_last-first q xs h) (Sorted-first le order q xs h s)
    | stops_at as_ p bs eq e h ↦
        rw (eq, insert_last-behind q as_ p bs e h)
          (Sorted-behind le order q as_ p bs e h (subst (Sorted le) eq s))
  ]

  sort_into-Swaps : (front rest : List ℕ) → Swaps le (front ++ rest) (sort_into front rest)
  unfolding sort_into
  sort_into-Swaps front [] = rw (append-nil front) done
  sort_into-Swaps front (q ∷ rest) =
      after (insert_last-Swaps q front rest) (sort_into-Swaps (insert_last q front) rest)

  sort_into-Sorted :
      IsOrder le → (front rest : List ℕ) → Sorted le front → Sorted le (sort_into front rest)
  unfolding sort_into
  sort_into-Sorted order front [] s = s
  sort_into-Sorted order front (q ∷ rest) s =
      sort_into-Sorted order (insert_last q front) rest (insert_last-Sorted order q front s)

  pub insertion_sort-Swaps : (xs : List ℕ) → Swaps le xs (insertion_sort xs)
  unfolding insertion_sort
  insertion_sort-Swaps xs = sort_into-Swaps [] xs

  pub insertion_sort-Sorted : IsOrder le → (xs : List ℕ) → Sorted le (insertion_sort xs)
  unfolding insertion_sort
  insertion_sort-Sorted order xs = sort_into-Sorted order [] xs tt

  sort_into-length :
      (front rest : List ℕ) → length (sort_into front rest) ≡ length front + length rest
  unfolding sort_into
  sort_into-length front [] = omega arith
  sort_into-length front (q ∷ rest) =
      omega (arith, sort_into-length (insert_last q front) rest, insert_last-length q front)

  pub insertion_sort-length : (xs : List ℕ) → length (insertion_sort xs) ≡ length xs
  unfolding insertion_sort
  insertion_sort-length xs = omega (arith, sort_into-length [] xs)
