-- ===== src/Queue/Uses.antt =====
-- A queue of ngx_queue.h in use: calls of the macros and of `ngx_queue_sort`, in any order, on one
-- sentinel.
use mathlib.Core.Option.{some-injective, none-ne-some}
use rabbitmq_work.Base.{
  ℕ, suc, ◌+◌, ◌≤◌, ◌≡◌, ℤ, List, [], ◌∷◌, ◌++◌, length, length-append, Option, none, some, Bool,
  true, false, refl, sym, subst, ap, arith, if◌then◌else◌, inl, inr, Option-cases,
}
use rabbitmq_work.Queue.{Links, init, is_empty, insert_head, insert_tail, remove, sort}
use rabbitmq_work.Queue.Chain.{Fresh, IsQueue}
use rabbitmq_work.Queue.Insertion.{
  init-IsQueue, insert_head-IsQueue, insert_tail-IsQueue, insert_after-IsQueue,
}
use rabbitmq_work.Queue.Removal.{remove-IsQueue}
use rabbitmq_work.Queue.Middle.{is_last, not_last}
use rabbitmq_work.Queue.Placing.{le}
use rabbitmq_work.Queue.Reference.{insertion_sort, insertion_sort-length}
use rabbitmq_work.Queue.Search.{
  parts_at, may_enter, Found, there, nowhere, parts_at-Found, may_enter-Fresh,
}
use rabbitmq_work.Queue.Sorting.{Leaves, sort-insertion_sort}

-- `ngx_queue_insert_head`, `_tail` and `_after` (the node that is there, and the new one),
-- `ngx_queue_remove` and `ngx_queue_sort`
pub data Op : Type 0 where
  push_head push_tail : ℕ → Op
  push_behind : ℕ → ℕ → Op
  take_out : ℕ → Op
  sort_nodes : Op

abbrev joined : (List ℕ → List ℕ) → Option (List ℕ × List ℕ) → Option (List ℕ)
joined f none = none
joined f (some (l, r)) = some (l ++ f r)

module _ (cmp : ℕ → ℕ → ℤ) (rounds h : ℕ) where
  -- What a call does to the links, and what it is to do to the list of nodes: nothing is said of a
  -- node put in that is there already, nor of one taken out, or put behind, that is not there.
  step : Op → Links → Option Links
  step (push_head x) s = some (insert_head h x s)
  step (push_tail x) s = some (insert_tail h x s)
  step (push_behind p x) s = some (insert_head p x s)
  step (take_out x) s = some (remove x s)
  step sort_nodes s = sort cmp rounds s h

  unfoldable pub intended : Op → List ℕ → Option (List ℕ)
  intended (push_head x) xs = if may_enter h x xs then some (x ∷ xs) else none
  intended (push_tail x) xs = if may_enter h x xs then some (xs ++ x ∷ []) else none
  intended (push_behind p x) xs =
      if may_enter h x xs then joined (λ r. p ∷ x ∷ r) (parts_at p xs) else none
  intended (take_out x) xs = joined (λ r. r) (parts_at x xs)
  intended sort_nodes xs = some (insertion_sort (le cmp) xs)

  -- Calls one after the other.
  pub run : List Op → Links → Option Links
  run [] s = some s
  run (op ∷ ops) s = elim (step op s) [ none ↦ none | some t ↦ run ops t ]

  unfoldable pub replay : List Op → List ℕ → Option (List ℕ)
  replay [] xs = some xs
  replay (op ∷ ops) xs = elim (intended op xs) [ none ↦ none | some ys ↦ replay ops ys ]

joined-parts :
    (f : List ℕ → List ℕ) (x : ℕ) (xs ys : List ℕ) (o : Option (List ℕ × List ℕ))
    → Found x xs o
    → joined f o ≡ some ys
    → (l : List ℕ) × (r : List ℕ) × (xs ≡ l ++ x ∷ r) × (ys ≡ l ++ f r)
joined-parts f x xs ys o (there l r e) g = (l, r, e, sym (some-injective _ _ g))
joined-parts f x xs ys o (nowhere _) g = absurd (none-ne-some _ g)

-- A test that has let its first branch through.
let_through :
    (b : Bool) (o : Option (List ℕ)) (ys : List ℕ)
    → (if b then o else none) ≡ some ys
    → (b ≡ true) × (o ≡ some ys)
let_through true o ys e = (refl, e)
let_through false o ys e = absurd (none-ne-some _ e)

module _ (cmp : ℕ → ℕ → ℤ) (rounds h : ℕ) where
  -- A call that is intended to make the nodes `ys` of a queue.
  step-Leaves :
      (op : Op) (s : Links) (xs ys : List ℕ)
      → IsQueue s h xs
      → length xs ≤ rounds
      → intended cmp rounds h op xs ≡ some ys
      → Leaves cmp h ys (step cmp rounds h op s)
  unfolding step intended
  step-Leaves (push_head x) s xs ys w n e =
      let (enters, made) = let_through (may_enter h x xs) _ ys e in
      let q = insert_head-IsQueue s h x xs w (may_enter-Fresh h x xs enters) in
      (_, refl, subst (IsQueue _ h) (some-injective _ _ made) q)
  step-Leaves (push_tail x) s xs ys w n e =
      let (enters, made) = let_through (may_enter h x xs) _ ys e in
      let q = insert_tail-IsQueue s h x xs w (may_enter-Fresh h x xs enters) in
      (_, refl, subst (IsQueue _ h) (some-injective _ _ made) q)
  step-Leaves (push_behind p x) s xs ys w n e =
      let (enters, made) = let_through (may_enter h x xs) _ ys e in
      let (l, r, before, behind) = joined-parts _ p xs ys _ (parts_at-Found p xs) made in
      let fresh = subst (λ zs. Fresh x (h ∷ zs)) before (may_enter-Fresh h x xs enters) in
      let q = insert_after-IsQueue s h l p x r (subst (IsQueue s h) before w) fresh in
      (_, refl, subst (IsQueue _ h) (sym behind) q)
  step-Leaves (take_out x) s xs ys w n e =
      let (l, r, before, behind) = joined-parts _ x xs ys _ (parts_at-Found x xs) e in
      let q = remove-IsQueue s h l x r (subst (IsQueue s h) before w) in
      (_, refl, subst (IsQueue _ h) (sym behind) q)
  step-Leaves sort_nodes s xs ys w n e =
      let (t, returned, q) = sort-insertion_sort cmp h rounds s xs w n in
      (t, returned, subst (IsQueue t h) (some-injective _ _ e) q)

  joined-length :
      (f : List ℕ → List ℕ) (x : ℕ) (xs ys : List ℕ)
      → ((r : List ℕ) → length (f r) ≤ suc (suc (length r)))
      → joined f (parts_at x xs) ≡ some ys
      → length ys ≤ suc (length xs)
  joined-length f x xs ys grows e =
      let (l, r, before, behind) = joined-parts f x xs ys _ (parts_at-Found x xs) e in
      omega (
        arith,
        grows r,
        ap (λ (zs : List ℕ). length zs) before,
        ap (λ (zs : List ℕ). length zs) behind,
        length-append {0} l (x ∷ r),
        length-append {0} l (f r),
      )

  intended-length :
      (op : Op) (xs ys : List ℕ)
      → intended cmp rounds h op xs ≡ some ys
      → length ys ≤ suc (length xs)
  unfolding intended
  intended-length (push_head x) xs ys e =
      rw (sym (some-injective _ _ (let_through (may_enter h x xs) _ ys e).1)) (omega arith)
  intended-length (push_tail x) xs ys e =
      rw (sym (some-injective _ _ (let_through (may_enter h x xs) _ ys e).1))
        (omega (arith, length-append {0} xs (x ∷ [])))
  intended-length (push_behind p x) xs ys e =
      joined-length (λ r. p ∷ x ∷ r) p xs ys (λ r. omega arith)
        (let_through (may_enter h x xs) _ ys e).1
  intended-length (take_out x) xs ys e = joined-length (λ r. r) x xs ys (λ r. omega arith) e
  intended-length sort_nodes xs ys e =
      rw (sym (some-injective _ _ e)) (omega (arith, insertion_sort-length (le cmp) xs))

  run-Leaves :
      (ops : List Op) (s : Links) (xs ys : List ℕ)
      → IsQueue s h xs
      → length xs + length ops ≤ rounds
      → replay cmp rounds h ops xs ≡ some ys
      → Leaves cmp h ys (run cmp rounds h ops s)
  unfolding run replay
  run-Leaves [] s xs ys w n e = (s, refl, subst (IsQueue s h) (some-injective _ _ e) w)
  run-Leaves (op ∷ ops) s xs ys w n e = elim (Option-cases (intended cmp rounds h op xs)) [
    | inl missing ↦ absurd (none-ne-some _ (rw (missing, replay) at e))
    | inr (zs, made) ↦
        let (t, returned, q) = step-Leaves op s xs zs w (omega (arith, n)) made in
        let size = intended-length op xs zs made in
        rw (returned, run)
          (run-Leaves ops t zs ys q (omega (arith, n, size)) (rw (made, replay) at e))
  ]

abbrev pub none_of : List ℕ → Bool
none_of [] = true
none_of (_ ∷ _) = false

-- The queue holds the nodes `xs`, and `ngx_queue_empty` tells whether there are any.
pub record Holds (h : ℕ) (xs : List ℕ) (s : Links) : Type 0 where
  pub queue : IsQueue s h xs
  pub empty : is_empty h s ≡ none_of xs

IsQueue-Holds : (s : Links) (h : ℕ) (xs : List ℕ) → IsQueue s h xs → Holds h xs s
unfolding is_empty
IsQueue-Holds s h [] w = record { queue = w; empty = is_last s h h w.chain.1 }
IsQueue-Holds s h (x ∷ xs) w = record { queue = w; empty = not_last s h x xs h w.chain w.distinct }

-- From `ngx_queue_init` on, in every sequence of insertions at the head, at the tail and behind a
-- node, of removals and of sorts, that puts in only nodes which are not there, and takes out, and
-- puts behind, only nodes which are there, with as many rounds for either loop of a sort as there are
-- calls, every call returns, and the links end as a queue of just the nodes of the list on which the
-- same calls are made as operations on lists, in its order, which `ngx_queue_empty` finds empty if
-- that list is.
pub run-Holds :
    (cmp : ℕ → ℕ → ℤ) (rounds h : ℕ) (ops : List Op) (s : Links) (xs : List ℕ)
    → replay cmp rounds h ops [] ≡ some xs
    → length ops ≤ rounds
    → (t : Links) × (run cmp rounds h ops (init h s) ≡ some t) × Holds h xs t
run-Holds cmp rounds h ops s xs e n =
    let (t, returned, w) =
      run-Leaves cmp rounds h ops (init h s) [] xs (init-IsQueue h s) (omega (arith, n)) e in
    (t, returned, IsQueue-Holds t h xs w)
