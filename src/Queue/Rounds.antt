-- ===== src/Queue/Rounds.antt =====
-- One round of the outer loop of `ngx_queue_sort`: a node is put in its place in the part
-- before it.
use rabbitmq_work.Base.{
  ℕ, ◌≤◌, ◌<◌, ◌≡◌, ◌≢◌, inl, inr, ℤ, List, [], ◌∷◌, ◌++◌, append_assoc, length, length-append,
  Option, some, ◌∙◌, subst, ap, arith,
}
use rabbitmq_work.Queue.{Links, remove, insert_head, place_after}
use rabbitmq_work.Queue.Chain.{Chain, Fresh, IsQueue, Chain-parts, All-append, All-parts, around}
use rabbitmq_work.Queue.Insertion.{insert_head-IsQueue, insert_after-IsQueue}
use rabbitmq_work.Queue.Removal.{remove-IsQueue}
use rabbitmq_work.Queue.Reference.{insert_last, insert_last-first, insert_last-behind}
use rabbitmq_work.Queue.Placing.{Placed, first, behind, le, last_of, place_after-Placed}

module _ (cmp : ℕ → ℕ → ℤ) (h : ℕ) where
  -- After one round: the part in front has taken `q` in.
  pub record Inserted (front : List ℕ) (q : ℕ) (rest : List ℕ) (s : Links) (found : Option ℕ)
      : Type 0 where
    pub place : ℕ
    pub found_there : found ≡ some place
    pub queue : IsQueue (insert_head place q s) h (insert_last (le cmp) q front ++ rest)

  Placed-Inserted :
      (front : List ℕ) (q : ℕ) (rest : List ℕ) (s : Links) (found : Option ℕ)
      → IsQueue s h (front ++ rest)
      → Fresh q (h ∷ (front ++ rest))
      → Placed (le cmp) h q front found
      → Inserted front q rest s found
  Placed-Inserted front q rest s found w f (first e b) = record {
    place = h;
    found_there = e;
    queue =
        rw (insert_last-first (le cmp) q front b) (insert_head-IsQueue s h q (front ++ rest) w f);
  }
  Placed-Inserted front q rest s found w f (behind as_ p bs eq e in_order b) =
      let parts : front ++ rest ≡ as_ ++ p ∷ (bs ++ rest) =
        ap (λ (xs : List ℕ). xs ++ rest) eq ∙ append_assoc as_ (p ∷ bs) rest in
      record {
        place = p;
        found_there = e;
        queue =
            rw
              (
                eq,
                insert_last-behind (le cmp) q as_ p bs in_order b,
                append_assoc as_ (p ∷ q ∷ bs) rest,
              )
              (insert_after-IsQueue s h as_ p q (bs ++ rest) (subst (IsQueue s h) parts w)
                (subst (λ xs. Fresh q (h ∷ xs)) parts f));
      }

  -- One round of the loop finds the place of `q`.
  pub round-Inserted :
      (inner : ℕ) (s : Links) (front : List ℕ) (q : ℕ) (rest : List ℕ)
      → IsQueue s h (front ++ q ∷ rest)
      → 0 < length front
      → length front ≤ inner
      → Inserted front q rest (remove q s) (place_after cmp inner (remove q s) h q (s.prev q))
  round-Inserted inner s front q rest w nonempty n =
      let s1 = remove q s in
      let w1 = remove-IsQueue s h front q rest w in
      let a = around h front q rest w.distinct in
      let (c1, c2) = Chain-parts s h front q rest h w.chain in
      let fresh : Fresh q (h ∷ (front ++ rest)) =
        (a.p_before.0, All-append (λ y. q ≢ y) front rest a.p_before.1 a.behind.0) in
      elim (last_of front) [
        | inl e ↦ absurd (omega (arith, nonempty, ap (λ (xs : List ℕ). length xs) e))
        | inr (ys, p, e) ↦
            let at_p : s.prev q ≡ p =
              (Chain-parts s h ys p [] q (subst (λ xs. Chain s h xs q) e c1)).1.1 in
            let w2 =
              subst (IsQueue s1 h) (append_assoc ys (p ∷ []) rest)
                (subst (λ (xs : List ℕ). IsQueue s1 h (xs ++ rest)) e w1) in
            let short : length ys < inner =
              omega (arith, n, ap (λ (xs : List ℕ). length xs) e, length-append {0} ys (p ∷ [])) in
            let found =
              place_after-Placed cmp s1 h q inner ys p [] (Chain-parts s1 h ys p rest h w2.chain).0
                (All-parts (λ z. h ≢ z) ys (p ∷ rest) w2.distinct.0).0 tt short in
            Placed-Inserted front q rest s1 _ w1 fresh (rw (at_p, e) found)
      ]
