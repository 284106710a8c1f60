-- ===== src/Tests/Queues.antt =====
-- The theorems about queues at a queue of three nodes, 1, 2 and 3, around the sentinel 0.
use rabbitmq_work.Base.{
  List, some, ℕ, suc, ◌+◌, ◌-◌, ◌≡◌, ◌==◌, ℤ, pos, [], ◌∷◌, refl, sym, ◌∙◌, arith, if◌then◌else◌,
  zero,
}
use rabbitmq_work.Queue.{Links, init, at_most_zero, split, add, middle, sort}
use rabbitmq_work.Queue.Chain.{IsQueue}
use rabbitmq_work.Queue.Reference.{insertion_sort, sort_into, insert_last, passed}
use rabbitmq_work.Queue.Search.{may_enter, parts_at}
use rabbitmq_work.Queue.Uses.{
  Op, push_head, push_tail, push_behind, take_out, sort_nodes, replay, intended, run, Holds,
  run-Holds,
}
use rabbitmq_work.Queue.Joining.{split-add}
use rabbitmq_work.Queue.Middle.{Halved, middle-Halved}
use rabbitmq_work.Queue.Order.{IsOrder}
use rabbitmq_work.Queue.Placing.{le}
use rabbitmq_work.Queue.Sorting.{IsSortOf, sort-IsSortOf}

abbrev circle : Links
circle = record { prev = λ a. if a == 0 then 3 else a - 1; next = λ a. if a == 3 then 0 else a + 1 }

circle-IsQueue : IsQueue circle 0 (1 ∷ 2 ∷ 3 ∷ [])
circle-IsQueue = record { chain = omega arith; distinct = omega arith }

split-add_example :
    let t = split 0 2 5 circle in
    IsQueue t 0 (1 ∷ []) × IsQueue t 5 (2 ∷ 3 ∷ []) × IsQueue (add 0 5 t) 0 (1 ∷ 2 ∷ 3 ∷ [])
split-add_example = split-add circle 0 (1 ∷ []) 2 5 (3 ∷ []) circle-IsQueue (omega arith)

middle_example : Halved (1 ∷ 2 ∷ 3 ∷ []) (middle 3 circle 0)
middle_example = middle-Halved 3 circle 0 1 (2 ∷ 3 ∷ []) circle-IsQueue (omega arith)

-- Larger nodes come first.
abbrev descending : ℕ → ℕ → ℤ
descending a b = pos (b - a)

at_most_zero_lem : (n : ℕ) → at_most_zero (pos n) ≡ (n == 0)
at_most_zero_lem zero = refl
at_most_zero_lem (suc n) = ground arith

descending-IsOrder : IsOrder (le descending)
descending-IsOrder = record {
  total = λ a b h. at_most_zero_lem (a - b) ∙ ground (arith, sym (at_most_zero_lem (b - a)) ∙ h);
  trans = λ a b c g h.
      at_most_zero_lem (c - a)
      ∙ ground (arith, sym (at_most_zero_lem (b - a)) ∙ g, sym (at_most_zero_lem (c - b)) ∙ h);
}

-- The calls leave 3 and 2: 5 is put behind 2 and taken out again.
abbrev calls : List Op
calls =
    push_tail 2
    ∷ push_head 1
    ∷ push_behind 2 5
    ∷ push_tail 3
    ∷ take_out 1
    ∷ sort_nodes
    ∷ take_out 5
    ∷ []

intended_calls : replay descending 9 0 calls [] ≡ some (3 ∷ 2 ∷ [])
unfolding replay intended may_enter parts_at insertion_sort sort_into insert_last passed
intended_calls = refl

run-Holds_example :
    (t : Links) × (run descending 9 0 calls (init 0 circle) ≡ some t) × Holds 0 (3 ∷ 2 ∷ []) t
run-Holds_example = run-Holds descending 9 0 calls circle (3 ∷ 2 ∷ []) intended_calls (omega arith)

sort_example : IsSortOf descending 0 (1 ∷ 2 ∷ 3 ∷ []) (sort descending 3 circle 0)
sort_example =
    sort-IsSortOf descending descending-IsOrder 0 3 circle (1 ∷ 2 ∷ 3 ∷ []) circle-IsQueue
      (omega arith)
