-- ===== src/Queue/Writes.antt =====
-- The operations of ngx_queue.h as links made one after the other.
use rabbitmq_work.Base.{
  ℕ, ◌≡◌, ◌≢◌, ◌==◌, ==_iff, refl, sym, ap, fun_ext, if◌then◌else◌, Bool-cases, inl, inr,
}
use rabbitmq_work.Queue.{Links, insert_head, insert_tail, remove, split, add}
use rabbitmq_work.Queue.Chain.{link, was_set, unset}

pub insert_head-link : (h x : ℕ) (s : Links) → insert_head h x s ≡ link h x (link x (s.next h) s)
unfolding insert_head
insert_head-link h x s = rw (was_set s.next x (s.next h)) refl

pub insert_tail-link : (h x : ℕ) (s : Links) → insert_tail h x s ≡ link x h (link (s.prev h) x s)
unfolding insert_tail
insert_tail-link h x s = rw (was_set s.prev x (s.prev h)) refl

-- A value that a write of the same value leaves as it was.
same_write : (f : ℕ → ℕ) (q a : ℕ) → (if a == q then f a else f a) ≡ f a
same_write f q a = elim (Bool-cases (a == q)) [ inl e ↦ rw e refl | inr e ↦ rw e refl ]

pub remove-link : (x : ℕ) (s : Links) → remove x s ≡ link (s.prev x) (s.next x) s
unfolding remove
remove-link x s = rw (same_write s.prev (s.next x) x) refl

pub add-link :
    (h n : ℕ) (s : Links)
    → s.next n ≢ n
    → add h n s ≡ link (s.prev n) h (link (s.prev h) (s.next n) s)
unfolding add
add-link h n s nonempty =
    rw
      (
        same_write s.next (s.prev h) n,
        unset s.prev (s.next n) (s.prev h) n nonempty,
        was_set (λ (a : ℕ). if a == s.next n then s.prev h else s.prev a) h (s.prev n),
      )
      refl

-- Two writes at different places.
swap :
    (f : ℕ → ℕ) (a x b y : ℕ)
    → a ≢ b
    → ◌≡◌ {A = ℕ → ℕ}
        (λ c. if c == a then x else if c == b then y else f c)
        (λ c. if c == b then y else if c == a then x else f c)
swap f a x b y d = fun_ext (λ c. elim (Bool-cases (c == a)) [
  | inl e ↦ rw (e, (==_iff c a).0 e) (sym (unset (λ _. x) b y a (λ p. d (sym p))))
  | inr e ↦ rw e refl
])

pub split-link :
    (h q n : ℕ) (s : Links)
    → n ≢ q
    → s.prev q ≢ n
    → split h q n s ≡ link n q (link (s.prev q) h (link (s.prev h) n s))
unfolding split
split-link h q n s fresh elsewhere =
    let p = s.prev q in
    let l = s.prev h in
    rw
      (
        unset s.prev n l q fresh,
        was_set (λ (a : ℕ). if a == n then l else s.prev a) h p,
        was_set s.prev n l,
      )
      (ap
        (λ (f : ℕ → ℕ). record {
          prev =
              λ (a : ℕ). if a == q then n else if a == h then p else if a == n then l else s.prev a;
          next = f;
        })
        (swap (λ (a : ℕ). if a == l then n else s.next a) p h n q elsewhere))
