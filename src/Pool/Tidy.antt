-- ===== src/Pool/Tidy.antt =====
-- The memory that the C library has allocated to a pool of nginx/src/ngx_palloc.c: allocations
-- apart from each other, each at an address of its own.
use rabbitmq_work.Base.{
  ℕ, ◌≤◌, ◌≡◌, ◌≢◌, ◌==◌, ==_iff, List, [], ◌∷◌, some, All, arith, inl, inr, sym, ap, ◌∙◌, subst,
  Bool-cases, Option-cases,
}
use rabbitmq_work.Pool.{Block, Large, Region, Allocator, free}
use rabbitmq_work.Pool.Alloc.{free_large}
use rabbitmq_work.Pool.Moves.{Any, first, after}
use rabbitmq_work.Pool.Apart.{Pairwise, Apart, Apart-sym}
use rabbitmq_work.Pool.Sound.{IsFresh}
use rabbitmq_work.Pool.Ledger.{one, one_self, at_address, starts_at}

-- The C library's promise for `malloc` and `posix_memalign`: besides `IsFresh`, an allocation of
-- `malloc` lies apart from those made, and no two have the same address.
pub record IsFair (a : Allocator) : Type 0 where
  pub fresh : IsFresh a
  pub malloc_apart :
      (heap : List Region) (size p : ℕ) → a.malloc heap size ≡ some p → All (Apart (p, size)) heap
  pub malloc_new :
      (heap : List Region) (size p : ℕ) → a.malloc heap size ≡ some p → at_address p heap ≡ 0
  pub memalign_new :
      (heap : List Region) (n size p : ℕ)
      → a.posix_memalign heap n size ≡ some p
      → at_address p heap ≡ 0

pub record IsTidy (heap : List Region) : Type 0 where
  pub apart : Pairwise heap
  pub once : (p : ℕ) → at_address p heap ≤ 1

abbrev pub In : List Region → Region → Type 0
In heap g = Any (λ (r : Region). r ≡ g) heap

pub In-at_address : (g : Region) (heap : List Region) → In heap g → 1 ≤ at_address g.0 heap
In-at_address g [] i = elim i [ ]
In-at_address g (r ∷ rs) (first e) = rw e (omega (arith, one_self g.0))
In-at_address g (r ∷ rs) (after i) = omega (arith, In-at_address g rs i)

pub All-In : (P : Region → Type 0) (heap : List Region) (g : Region) → All P heap → In heap g → P g
All-In P [] g ps i = elim i [ ]
All-In P (r ∷ rs) g (p, ps) (first e) = subst P e p
All-In P (r ∷ rs) g (p, ps) (after i) = All-In P rs g ps i

-- Two allocations at different addresses.
pub Pairwise-Apart :
    (heap : List Region) (g h : Region)
    → Pairwise heap
    → In heap g
    → In heap h
    → g.0 ≢ h.0
    → Apart g h
Pairwise-Apart [] g h ps i j n = elim i [ ]
Pairwise-Apart (r ∷ rs) g h (p, ps) (first e) (first f) n =
    absurd (n (ap (λ (x : Region). x.0) (sym e ∙ f)))
Pairwise-Apart (r ∷ rs) g h (p, ps) (first e) (after j) n =
    subst (λ (x : Region). Apart x h) e (All-In (Apart r) rs h p j)
Pairwise-Apart (r ∷ rs) g h (p, ps) (after i) (first f) n =
    Apart-sym h g (subst (λ (x : Region). Apart x g) f (All-In (Apart r) rs g p i))
Pairwise-Apart (r ∷ rs) g h (p, ps) (after i) (after j) n = Pairwise-Apart rs g h ps i j n

pub taken-IsTidy :
    (p size : ℕ) (heap : List Region)
    → All (Apart (p, size)) heap
    → at_address p heap ≡ 0
    → IsTidy heap
    → IsTidy ((p, size) ∷ heap)
taken-IsTidy p size heap fresh new t = record {
  apart = (fresh, t.apart);
  once = λ q. elim (Bool-cases (p == q)) [
    | inl e ↦ rw e (omega (arith, ap (λ (x : ℕ). at_address x heap) ((==_iff p q).0 e), new))
    | inr e ↦ rw e (omega (arith, t.once q))
  ];
}

-- What is left when an allocation is given back.
All-free : (P : Region → Type 0) (q : ℕ) (heap : List Region) → All P heap → All P (free q heap)
unfolding free
All-free P q [] ps = tt
All-free P q (r ∷ rs) (p, ps) = elim (Bool-cases (r.0 == q)) [
  | inl e ↦ rw e ps
  | inr e ↦ rw e (p, All-free P q rs ps)
]

free-Pairwise : (q : ℕ) (heap : List Region) → Pairwise heap → Pairwise (free q heap)
unfolding free
free-Pairwise q [] ps = tt
free-Pairwise q (r ∷ rs) (p, ps) = elim (Bool-cases (r.0 == q)) [
  | inl e ↦ rw e ps
  | inr e ↦ rw e (All-free (Apart r) q rs p, free-Pairwise q rs ps)
]

at_address-free_le : (p q : ℕ) (heap : List Region) → at_address p (free q heap) ≤ at_address p heap
unfolding free
at_address-free_le p q [] = omega arith
at_address-free_le p q (r ∷ rs) = elim (Bool-cases (r.0 == q)) [
  | inl e ↦ rw e (omega arith)
  | inr e ↦ rw e (omega (arith, at_address-free_le p q rs))
]

pub free-IsTidy : (q : ℕ) (heap : List Region) → IsTidy heap → IsTidy (free q heap)
free-IsTidy q heap t = record {
  apart = free-Pairwise q heap t.apart;
  once = λ p. omega (arith, t.once p, at_address-free_le p q heap);
}

pub free_large-IsTidy :
    (ls : List Large) (heap : List Region) → IsTidy heap → IsTidy (free_large ls heap)
unfolding free_large
free_large-IsTidy [] heap t = t
free_large-IsTidy (l ∷ ls) heap t = elim (Option-cases l.alloc) [
  | inl e ↦ rw e (free_large-IsTidy ls heap t)
  | inr (p, e) ↦ rw e (free_large-IsTidy ls (free p heap) (free-IsTidy p heap t))
]

pub free-In : (q : ℕ) (heap : List Region) (g : Region) → g.0 ≢ q → In heap g → In (free q heap) g
unfolding free
free-In q [] g other i = elim i [ ]
free-In q (r ∷ rs) g other (first e) = elim (Bool-cases (r.0 == q)) [
  | inl same ↦ absurd (other (ap (λ (x : Region). x.0) (sym e) ∙ (==_iff r.0 q).0 same))
  | inr differs ↦ rw differs (first e)
]
free-In q (r ∷ rs) g other (after i) = elim (Bool-cases (r.0 == q)) [
  | inl same ↦ rw same i
  | inr differs ↦ rw differs (after (free-In q rs g other i))
]

-- No block begins at an address.
pub starts_at-none :
    (q : ℕ) (bs : List Block) → starts_at q bs ≡ 0 → All (λ (b : Block). q ≢ b.start) bs
starts_at-none q [] e = tt
starts_at-none q (b ∷ bs) e = (
  λ (same : q ≡ b.start). omega (arith, e, one_self q, ap (λ (x : ℕ). one (x == q)) same),
  starts_at-none q bs (omega (arith, e)),
)
