-- ===== src/Queue/Middle.antt =====
-- What `ngx_queue_middle` finds.
use rabbitmq_work.Base.{
  ℕ, zero, suc, ◌+◌, ◌≤◌, ◌<◌, ◌≡◌, ◌≢◌, ◌==◌, ==_iff, ◌⊎◌, inl, inr, List, [], ◌∷◌, ◌++◌,
  append_assoc, length, length-append, Option, some, true, false, refl, sym, arith, Bool-cases,
}
use rabbitmq_work.Queue.{Links, middle, middle_loop}
use rabbitmq_work.Queue.Chain.{Chain, Distinct, IsQueue, All-last, flip}

-- As many before it as behind it, or one more before it.
abbrev pub Balanced : List ℕ → List ℕ → Type 0
Balanced xs ys = (length xs ≡ length ys) ⊎ (length xs ≡ length ys + 1)

pub record Halved (nodes : List ℕ) (found : Option ℕ) : Type 0 where
  pub before : List ℕ
  pub node : ℕ
  pub behind : List ℕ
  pub parts : nodes ≡ before ++ node ∷ behind
  pub balanced : Balanced before behind
  pub result : found ≡ some node

-- A node of a chain with others behind it is not the last.
pub not_last :
    (s : Links) (a : ℕ) (x : ℕ) (xs : List ℕ) (b : ℕ)
    → Chain s a (x ∷ xs) b
    → Distinct (a ∷ x ∷ xs)
    → (a == s.prev b) ≡ false
not_last s a x xs b (e, f, c) (d, ds) = elim (Bool-cases (a == s.prev b)) [
  | inl p ↦
      absurd
        (All-last (λ z. z ≢ a) s x xs b c (flip a (x ∷ xs) d) (sym ((==_iff a (s.prev b)).0 p)))
  | inr p ↦ p
]

pub is_last : (s : Links) (a b : ℕ) → s.prev b ≡ a → (a == s.prev b) ≡ true
is_last s a b e = (==_iff a (s.prev b)).1 (sym e)

shift :
    (front : List ℕ) (m m1 : ℕ) (ms : List ℕ) → front ++ m ∷ m1 ∷ ms ≡ (front ++ m ∷ []) ++ m1 ∷ ms
shift front m m1 ms = sym (append_assoc front (m ∷ []) (m1 ∷ ms))

found :
    (front : List ℕ) (m m1 : ℕ) (ms : List ℕ) (r : Option ℕ)
    → Balanced (front ++ m ∷ []) ms
    → r ≡ some m1
    → Halved (front ++ m ∷ m1 ∷ ms) r
found front m m1 ms r b e = record {
  before = front ++ m ∷ [];
  node = m1;
  behind = ms;
  parts = shift front m m1 ms;
  balanced = b;
  result = e;
}

-- The slow pointer is at `m` and the fast one at `n`, twice as far.
middle_loop-Halved :
    (rounds : ℕ) (s : Links) (h : ℕ) (front : List ℕ) (m : ℕ) (ms : List ℕ) (n : ℕ) (ns : List ℕ)
    → Chain s m ms h
    → Chain s n ns h
    → Distinct (n ∷ ns)
    → length ms ≡ length ns + length front
    → 0 < length ns
    → length ns ≤ rounds
    → Halved (front ++ m ∷ ms) (middle_loop rounds s h m n)
unfolding middle_loop
middle_loop-Halved rounds s h front m ms n [] c d u e p q = absurd (omega (arith, p))
middle_loop-Halved zero s h front m ms n (n1 ∷ ns) c d u e p q = absurd (omega (arith, q))
middle_loop-Halved (suc rounds) s h front m [] n (n1 ∷ ns) c d u e p q = absurd (omega (arith, e))
middle_loop-Halved (suc rounds) s h front m (m1 ∷ ms) n (n1 ∷ []) (c1, c2, c) (d1, d2, d) u e p q =
    found front m m1 ms _ (inr (omega (arith, e, length-append {0} front (m ∷ []))))
      (rw (d1, c1, is_last s n1 h d.1) refl)
middle_loop-Halved (suc rounds) s h front m (m1 ∷ ms) n (n1 ∷ n2 ∷ []) (c1, c2, c) (d1, d2, d) u e p
      q =
    found front m m1 ms _ (inl (omega (arith, e, length-append {0} front (m ∷ []))))
      (rw (d1, c1, d.0, not_last s n1 n2 [] h d u.1, is_last s n2 h d.2.1) refl)
middle_loop-Halved (suc rounds) s h front m (m1 ∷ ms) n (n1 ∷ n2 ∷ n3 ∷ ns) (c1, c2, c) (d1, d2, d)
      u e p q =
    rw
      (
        d1,
        c1,
        d.0,
        not_last s n1 n2 (n3 ∷ ns) h d u.1,
        not_last s n2 n3 ns h d.2 u.1.1,
        shift front m m1 ms,
      )
      (middle_loop-Halved rounds s h (front ++ m ∷ []) m1 ms n2 (n3 ∷ ns) c d.2 u.1.1
        (omega (arith, e, length-append {0} front (m ∷ []))) (omega arith) (omega (arith, q)))

-- In a queue that is not empty, with as many rounds as it has nodes, `ngx_queue_middle` returns the
-- node that has as many nodes before it as behind it, or one more before it.
pub middle-Halved :
    (rounds : ℕ) (s : Links) (h x : ℕ) (xs : List ℕ)
    → IsQueue s h (x ∷ xs)
    → length (x ∷ xs) ≤ rounds
    → Halved (x ∷ xs) (middle rounds s h)
unfolding middle
middle-Halved rounds s h x [] q e =
    let (c1, c2, c) = q.chain in
    record {
      before = [];
      node = x;
      behind = [];
      parts = refl;
      balanced = inl refl;
      result = rw (c1, is_last s x h c.1) refl;
    }
middle-Halved rounds s h x (y ∷ xs) q e =
    let (c1, c2, c) = q.chain in
    rw (c1, not_last s x y xs h c q.distinct.1)
      (middle_loop-Halved rounds s h [] x (y ∷ xs) x (y ∷ xs) c c q.distinct.1 (omega arith)
        (omega arith) (omega (arith, e)))
