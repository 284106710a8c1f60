-- ===== src/Queue/Removal.antt =====
-- `ngx_queue_remove` as a removal from the list of nodes.
use rabbitmq_work.Base.{ℕ, List, [], ◌∷◌, ◌++◌, append-nil}
use rabbitmq_work.Queue.{Links, remove}
use rabbitmq_work.Queue.Chain.{
  Chain, Fresh, Distinct, Disjoint, IsQueue, link, Chain-link, Chain-relink, Chain-append,
  Chain-parts, Distinct-append, Disjoint-sym, Disjoint-tail, All-last, around,
}
use rabbitmq_work.Queue.Writes.{remove-link}

Chain-remove :
    (s : Links) (h : ℕ) (xs : List ℕ) (x : ℕ) (ys : List ℕ)
    → Chain s h xs x
    → Chain s x ys h
    → Distinct (h ∷ xs)
    → Distinct (h ∷ ys)
    → Disjoint (h ∷ xs) ys
    → Chain (link (s.prev x) (s.next x) s) h (xs ++ ys) h
Chain-remove s h xs x [] c (e, f) d ds a = rw (e, append-nil xs) (Chain-relink s h xs x h c d d.0)
Chain-remove s h xs x (y ∷ ys) c (e, f, c2) d ((hy, hys), (yys, ds)) a =
    let p = s.prev x in
    let p-Fresh = All-last (λ z. Fresh z (y ∷ ys)) s h xs x c a in
    let (yh, yxs) = (Disjoint-sym (h ∷ xs) (y ∷ ys) a).0 in
    rw e (
      Chain-append (link p y s) h xs y ys h (Chain-relink s h xs x y c d yxs)
        (Chain-link s p y y ys h p-Fresh (yh, yys) c2))

-- A node of the queue is taken out, and the others stay in their order.
pub remove-IsQueue :
    (s : Links) (h : ℕ) (xs : List ℕ) (x : ℕ) (ys : List ℕ)
    → IsQueue s h (xs ++ x ∷ ys)
    → IsQueue (remove x s) h (xs ++ ys)
remove-IsQueue s h xs x ys q =
    let (c1, c2) = Chain-parts s h xs x ys h q.chain in
    let a = around h xs x ys q.distinct in
    let apart = Disjoint-tail x (h ∷ xs) ys a.apart in
    rw (remove-link x s) (record {
      chain = Chain-remove s h xs x ys c1 c2 a.before (a.h_behind.1, a.behind.1) apart;
      distinct = Distinct-append (h ∷ xs) ys a.before a.behind.1 apart;
    })
