-- ===== src/Queue/Sorting.antt =====
-- What `ngx_queue_sort` makes of a queue.
use mathlib.Core.List.{Perm}
use rabbitmq_work.Base.{
  ℕ, zero, suc, ◌+◌, ◌≤◌, ◌<◌, ◌≡◌, ==_iff, ℤ, List, [], ◌∷◌, ◌++◌, append-nil, length, Option,
  some, refl, subst, arith,
}
use rabbitmq_work.Queue.{Links, remove, insert_head, sort_loop, sort}
use rabbitmq_work.Queue.Chain.{Chain, IsQueue, Chain-parts, around}
use rabbitmq_work.Queue.Order.{Sorted, Stable, IsOrder, Swaps-Perm, Swaps-Stable}
use rabbitmq_work.Queue.Reference.{
  insert_last, sort_into, insertion_sort, insert_last-length, insertion_sort-Swaps,
  insertion_sort-Sorted,
}
use rabbitmq_work.Queue.Middle.{is_last, not_last}
use rabbitmq_work.Queue.Placing.{le, different}
use rabbitmq_work.Queue.Rounds.{round-Inserted}

-- The node at which the rest of a queue begins.
abbrev first_of : ℕ → List ℕ → ℕ
first_of h [] = h
first_of h (x ∷ xs) = x

module _ (cmp : ℕ → ℕ → ℤ) (h : ℕ) where
  -- Links are returned, and they form a queue of the nodes `out`.
  abbrev pub Leaves : List ℕ → Option Links → Type 0
  Leaves out result = (end : Links) × (result ≡ some end) × IsQueue end h out

  next-first_of :
      (s : Links) (q : ℕ) (rest : List ℕ) → Chain s q rest h → s.next q ≡ first_of h rest
  next-first_of s q [] c = c.0
  next-first_of s q (r ∷ rest) c = c.0

  sort_loop-Leaves :
      (inner rounds : ℕ) (s : Links) (front rest : List ℕ)
      → IsQueue s h (front ++ rest)
      → 0 < length front
      → length front + length rest ≤ inner
      → length rest < rounds
      → Leaves (sort_into (le cmp) front rest) (sort_loop cmp inner rounds s h (first_of h rest))
  unfolding sort_loop sort_into
  sort_loop-Leaves inner zero s front rest w p n m = absurd (omega (arith, m))
  sort_loop-Leaves inner (suc rounds) s front [] w p n m =
      (s, rw ((==_iff h h).1 refl) refl, subst (IsQueue s h) (append-nil front) w)
  sort_loop-Leaves inner (suc rounds) s front (q ∷ rest) w p n m =
      let (c1, c2) = Chain-parts s h front q rest h w.chain in
      let a = around h front q rest w.distinct in
      let r = round-Inserted cmp h inner s front q rest w p (omega (arith, n)) in
      let size = insert_last-length (le cmp) q front in
      let (end, returned, queue) =
        sort_loop-Leaves inner rounds (insert_head r.place q (remove q s))
          (insert_last (le cmp) q front) rest r.queue (omega (arith, size)) (omega (arith, n, size))
          (omega (arith, m)) in
      (
        end,
        rw (different q h a.h_behind.0, r.found_there, next-first_of s q rest c2) returned,
        queue,
      )

-- For any comparison at all, and with as many rounds for either loop as the queue has nodes,
-- `ngx_queue_sort` returns, and the links then form a queue of the nodes in the order in which the
-- insertion sort of lists puts them.
pub sort-insertion_sort :
    (cmp : ℕ → ℕ → ℤ) (h rounds : ℕ) (s : Links) (xs : List ℕ)
    → IsQueue s h xs
    → length xs ≤ rounds
    → Leaves cmp h (insertion_sort (le cmp) xs) (sort cmp rounds s h)
unfolding sort insertion_sort sort_into insert_last
sort-insertion_sort cmp h rounds s [] w n = (s, rw (w.chain.0, is_last s h h w.chain.1) refl, w)
sort-insertion_sort cmp h rounds s (x ∷ []) w n =
    let (e, f, c) = w.chain in (s, rw (e, is_last s x h c.1) refl, w)
sort-insertion_sort cmp h rounds s (x ∷ y ∷ xs) w n =
    let (e, f, c) = w.chain in
    rw (e, not_last s x y xs h c w.distinct.1, c.0)
      (sort_loop-Leaves cmp h rounds rounds s (x ∷ []) (y ∷ xs) w (omega arith) (omega (arith, n))
        (omega (arith, n)))

-- The queue holds the same nodes, sorted by `cmp`, and nodes that were in order stay in order.
pub record IsSortOf (cmp : ℕ → ℕ → ℤ) (h : ℕ) (nodes : List ℕ) (result : Option Links)
    : Type 0 where
  pub end : Links
  pub out : List ℕ
  pub returned : result ≡ some end
  pub queue : IsQueue end h out
  pub perm : Perm nodes out
  pub sorted : Sorted (le cmp) out
  pub stable : Stable (le cmp) nodes out

-- For a comparison that is total and transitive, and with as many rounds for either loop as the queue
-- has nodes, `ngx_queue_sort` returns, and the links then form a queue of the same nodes in which
-- every node compares at most 0 with each behind it, and any two nodes that did so in this order
-- before are still in this order.
pub sort-IsSortOf :
    (cmp : ℕ → ℕ → ℤ) (order : IsOrder (le cmp)) (h rounds : ℕ) (s : Links) (xs : List ℕ)
    → IsQueue s h xs
    → length xs ≤ rounds
    → IsSortOf cmp h xs (sort cmp rounds s h)
sort-IsSortOf cmp order h rounds s xs w n =
    let (end, returned, queue) = sort-insertion_sort cmp h rounds s xs w n in
    let swaps = insertion_sort-Swaps (le cmp) xs in
    record {
      end = end;
      out = insertion_sort (le cmp) xs;
      returned = returned;
      queue = queue;
      perm = Swaps-Perm (le cmp) swaps;
      sorted = insertion_sort-Sorted (le cmp) order xs;
      stable = Swaps-Stable (le cmp) swaps;
    }
