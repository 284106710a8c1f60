-- ===== src/Queue/Joining.antt =====
-- `ngx_queue_split` and `ngx_queue_add`: a queue cut in two, and two made one.
use rabbitmq_work.Base.{ℕ, ◌≡◌, ◌≢◌, List, ◌∷◌, ◌++◌, sym}
use rabbitmq_work.Queue.{Links, split, add}
use rabbitmq_work.Queue.Chain.{
  Chain, Fresh, Disjoint, IsQueue, link, linked, unset, Chain-link, Chain-relink, Chain-append,
  Chain-parts, Distinct-append, Disjoint-cons, Disjoint-sym, Disjoint-tail, All-last, All-parts,
  around, flip,
}
use rabbitmq_work.Queue.Writes.{split-link, add-link}

-- `split` alone.
split-IsQueue :
    (s : Links) (h : ℕ) (xs : List ℕ) (q n : ℕ) (ys : List ℕ)
    → IsQueue s h (xs ++ q ∷ ys)
    → Fresh n (h ∷ (xs ++ q ∷ ys))
    → IsQueue (split h q n s) h xs × IsQueue (split h q n s) n (q ∷ ys)
split-IsQueue s h xs q n ys w (nh, f) =
    let (c1, c2) = Chain-parts s h xs q ys h w.chain in
    let (nxs, (nq, nys)) = All-parts (λ y. n ≢ y) xs (q ∷ ys) f in
    let a = around h xs q ys w.distinct in
    let back = Disjoint-sym (h ∷ xs) (q ∷ ys) a.apart in
    let l = s.prev h in
    let p = s.prev q in
    let l-Fresh = All-last (λ z. Fresh z (h ∷ xs)) s q ys h c2 back in
    let p-Fresh = All-last (λ z. Fresh z (q ∷ ys)) s h xs q c1 a.apart in
    let p≢n = All-last (λ z. z ≢ n) s h xs q c1 (flip n (h ∷ xs) (nh, nxs)) in
    let s1 = link l n s in
    let s2 = link p h s1 in
    let same : s1.prev q ≡ p = unset s.prev n l q nq in
    let d1 = Chain-link s l n h xs q l-Fresh (nq, nxs) c1 in
    let d2 = Chain-relink s q ys h n c2 a.behind nys in
    let e1 : Chain s2 h xs h = rw same at (Chain-relink s1 h xs q h d1 a.before a.before.0) in
    let e2 = Chain-link s1 p h q ys n p-Fresh ((λ e. nh (sym e)), a.h_behind.1) d2 in
    let (f1, f2) = linked n q s2 in
    rw (split-link h q n s nq p≢n) (
      record { chain = Chain-link s2 n q h xs h (nh, nxs) back.0 e1; distinct = a.before },
      record {
        chain = (f1, f2, Chain-link s2 n q q ys n (nq, nys) ((λ e. nq (sym e)), a.behind.0) e2);
        distinct = ((nq, nys), a.behind);
      },
    )

-- `add` alone: the queue of `n` is not empty.
add-IsQueue :
    (s : Links) (h : ℕ) (xs : List ℕ) (n y : ℕ) (ys : List ℕ)
    → IsQueue s h xs
    → IsQueue s n (y ∷ ys)
    → Disjoint (h ∷ xs) (n ∷ y ∷ ys)
    → IsQueue (add h n s) h (xs ++ y ∷ ys)
add-IsQueue s h xs n y ys v w a =
    let (e, f, c) = w.chain in
    let ((ny, nys), yys) = w.distinct in
    let y≢n = λ (z : y ≡ n). ny (sym z) in
    let (hxs, dxs) = v.distinct in
    let (hn, (hy, hys)) = a.0 in
    let back = Disjoint-sym (h ∷ xs) (n ∷ y ∷ ys) a in
    let (yh, yxs) = back.1.0 in
    let l = s.prev h in
    let m = s.prev n in
    let m-Fresh = All-last (λ z. Fresh z (h ∷ xs)) s n (y ∷ ys) n w.chain back in
    let l-Fresh = All-last (λ z. Fresh z (n ∷ y ∷ ys)) s h xs h v.chain a in
    let s1 = link l y s in
    let same : s1.prev n ≡ m = unset s.prev y l n y≢n in
    let d1 = Chain-relink s h xs h y v.chain v.distinct yxs in
    let d2 = Chain-link s1 m h h xs y m-Fresh (hy, hxs) d1 in
    let g1 = Chain-link s l y y ys n l-Fresh.1 (y≢n, yys.0) c in
    let g2 : Chain (link m h s1) y ys h = rw same at (Chain-relink s1 y ys n h g1 yys hys) in
    rw (add-link h n s (rw e y≢n), e)
      (record {
        chain = Chain-append (link m h s1) h xs y ys h d2 g2;
        distinct =
            Distinct-append (h ∷ xs) (y ∷ ys) v.distinct yys (Disjoint-tail n (h ∷ xs) (y ∷ ys) a);
      })

-- A queue is split at one of its nodes `q`, with a new sentinel: what stands before `q` stays with
-- the old sentinel, what stands from `q` on goes to the new one, both in their order; and `add`
-- makes one queue of the two again, with the nodes in the order that they had.
pub split-add :
    (s : Links) (h : ℕ) (xs : List ℕ) (q n : ℕ) (ys : List ℕ)
    → IsQueue s h (xs ++ q ∷ ys)
    → Fresh n (h ∷ (xs ++ q ∷ ys))
    → let t = split h q n s in
      IsQueue t h xs × IsQueue t n (q ∷ ys) × IsQueue (add h n t) h (xs ++ q ∷ ys)
split-add s h xs q n ys w (nh, f) =
    let (v1, v2) = split-IsQueue s h xs q n ys w (nh, f) in
    let (nxs, _) = All-parts (λ y. n ≢ y) xs (q ∷ ys) f in
    let a = around h xs q ys w.distinct in
    let apart = Disjoint-cons n (h ∷ xs) (q ∷ ys) (nh, nxs) a.apart in
    (v1, v2, add-IsQueue (split h q n s) h xs n q ys v1 v2 apart)
