-- ===== src/Queue/Insertion.antt =====
-- `ngx_queue_insert_head`, `_after` and `_tail` as insertions into the list of nodes.
use rabbitmq_work.Base.{ℕ, ◌≢◌, List, [], ◌∷◌, ◌++◌, sym, subst}
use rabbitmq_work.Queue.{Links, init, insert_head, insert_tail}
use rabbitmq_work.Queue.Chain.{
  Chain, Fresh, Distinct, Disjoint, IsQueue, link, linked, still_linked, Chain-link, Chain-relink,
  Chain-append, Chain-parts, Distinct-append, Disjoint-cons, Disjoint-tail, Disjoint-sym,
  Disjoint-nil, All-parts, around,
}
use rabbitmq_work.Queue.Writes.{insert_head-link, insert_tail-link}

-- A new node at the front of a chain.
Chain-insert :
    (s : Links) (p x : ℕ) (ys : List ℕ) (b : ℕ)
    → Chain s p ys b
    → x ≢ p
    → x ≢ b
    → Fresh x ys
    → Fresh p ys
    → Distinct (b ∷ ys)
    → Chain (link p x (link x (s.next p) s)) p (x ∷ ys) b
Chain-insert s p x [] b (e, f) xp xb xs ps d =
    let s1 = link x (s.next p) s in
    let (g, h) = linked p x s1 in
    (g, h, still_linked p x x b s1 (λ q. xp (sym q)) xb (rw e (linked x b s)))
Chain-insert s p x (y ∷ ys) b (e, f, c) xp xb (xy, xs) (py, ps) ((by, bs), (yd, ds)) =
    let s1 = link x (s.next p) s in
    let (g, h) = linked p x s1 in
    let (i, j) = still_linked p x x y s1 (λ q. xp (sym q)) xy (rw e (linked x y s)) in
    let first = Chain-link s x y y ys b (xy, xs) ((λ q. by (sym q)), yd) c in
    (g, h, (i, j, Chain-link s1 p x y ys b (py, ps) (xb, xs) (rw e first)))

-- `ngx_queue_init` makes an empty queue.
pub init-IsQueue : (h : ℕ) (s : Links) → IsQueue (init h s) h []
unfolding init
init-IsQueue h s = record { chain = linked h h s; distinct = (tt, tt) }

-- At the head.
pub insert_head-IsQueue :
    (s : Links) (h x : ℕ) (xs : List ℕ)
    → IsQueue s h xs
    → Fresh x (h ∷ xs)
    → IsQueue (insert_head h x s) h (x ∷ xs)
insert_head-IsQueue s h x xs q (xh, f) =
    let (hs, ds) = q.distinct in
    rw (insert_head-link h x s) (record {
      chain = Chain-insert s h x xs h q.chain xh xh f hs q.distinct;
      distinct = (((λ e. xh (sym e)), hs), (f, ds));
    })

-- At the tail.
pub insert_tail-IsQueue :
    (s : Links) (h x : ℕ) (xs : List ℕ)
    → IsQueue s h xs
    → Fresh x (h ∷ xs)
    → IsQueue (insert_tail h x s) h (xs ++ x ∷ [])
insert_tail-IsQueue s h x xs q (xh, f) =
    let (hs, ds) = q.distinct in
    let s1 = link (s.prev h) x s in
    let chain = Chain-relink s h xs h x q.chain q.distinct f in
    rw (insert_tail-link h x s) (record {
      chain =
          Chain-append (link x h s1) h xs x [] h
            (Chain-link s1 x h h xs x (xh, f) ((λ e. xh (sym e)), hs) chain) (linked x h s1);
      distinct =
          Distinct-append (h ∷ xs) (x ∷ []) q.distinct (tt, tt)
            (Disjoint-cons x (h ∷ xs) [] (xh, f) (Disjoint-nil (h ∷ xs)));
    })

next-Fresh :
    (s : Links) (p : ℕ) (ys : List ℕ) (b : ℕ) (zs : List ℕ)
    → Chain s p ys b
    → Fresh b zs
    → Disjoint ys zs
    → Fresh (s.next p) zs
next-Fresh s p [] b zs (e, f) g d = subst (λ a. Fresh a zs) (sym e) g
next-Fresh s p (y ∷ ys) b zs (e, f, c) g (h, d) = subst (λ a. Fresh a zs) (sym e) h

-- A node that is not in the queue goes right behind a node of it.
pub insert_after-IsQueue :
    (s : Links) (h : ℕ) (xs : List ℕ) (p x : ℕ) (ys : List ℕ)
    → IsQueue s h (xs ++ p ∷ ys)
    → Fresh x (h ∷ (xs ++ p ∷ ys))
    → IsQueue (insert_head p x s) h (xs ++ p ∷ x ∷ ys)
insert_after-IsQueue s h xs p x ys q (xh, f) =
    let (c1, c2) = Chain-parts s h xs p ys h q.chain in
    let (fxs, (xp, fys)) = All-parts (λ y. x ≢ y) xs (p ∷ ys) f in
    let a = around h xs p ys q.distinct in
    let (pys, dys) = a.behind in
    let (hxs, dxs) = a.before in
    let (ph, pxs) = a.p_before in
    let ysxs = Disjoint-sym (h ∷ xs) (p ∷ ys) a.apart in
    let s1 = link x (s.next p) s in
    let n-Fresh =
      next-Fresh s p ys h (p ∷ xs) c2 ((λ e. ph (sym e)), hxs)
        (Disjoint-cons p ys xs pys (Disjoint-tail h ys xs ysxs.1)) in
    rw (insert_head-link p x s) (record {
      chain =
          Chain-append (link p x s1) h xs p (x ∷ ys) h
            (Chain-link s1 p x h xs p (ph, pxs) (xp, fxs)
              (Chain-link s x (s.next p) h xs p (xh, fxs) n-Fresh c1))
            (Chain-insert s p x ys h c2 xp xh fys pys (a.h_behind.1, dys));
      distinct =
          Distinct-append (h ∷ xs) (p ∷ x ∷ ys) a.before (((λ e. xp (sym e)), pys), (fys, dys))
            (Disjoint-sym (p ∷ x ∷ ys) (h ∷ xs) (ysxs.0, ((xh, fxs), ysxs.1)));
    })
