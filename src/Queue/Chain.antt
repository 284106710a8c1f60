-- ===== src/Queue/Chain.antt =====
-- What a queue of ngx_queue.h stands for: the nodes from the sentinel on, in order.
use rabbitmq_work.Base.{
  ℕ, ◌≡◌, ◌≢◌, ◌==◌, ==_iff, List, [], ◌∷◌, ◌++◌, All, refl, sym, subst, ◌∙◌, if◌then◌else◌,
  Bool-cases, inl, inr,
}
use rabbitmq_work.Queue.{Links, set_prev, set_next}

-- The links from `a` through the nodes to `b`, in both directions.
abbrev pub Chain : Links → ℕ → List ℕ → ℕ → Type 0
Chain s a [] b = (s.next a ≡ b) × (s.prev b ≡ a)
Chain s a (x ∷ xs) b = (s.next a ≡ x) × (s.prev x ≡ a) × Chain s x xs b

abbrev pub Fresh : ℕ → List ℕ → Type 0
Fresh a xs = All (λ (y : ℕ). a ≢ y) xs

-- A relation from every node to each behind it, and between all of two lists.
abbrev pub Pairs : (ℕ → ℕ → Type 0) → List ℕ → Type 0
Pairs R [] = Unit
Pairs R (x ∷ xs) = All (R x) xs × Pairs R xs

abbrev pub Cross : (ℕ → ℕ → Type 0) → List ℕ → List ℕ → Type 0
Cross R xs ys = All (λ (x : ℕ). All (R x) ys) xs

abbrev pub Distinct : List ℕ → Type 0
Distinct xs = Pairs (λ (x y : ℕ). x ≢ y) xs

abbrev pub Disjoint : List ℕ → List ℕ → Type 0
Disjoint xs ys = Cross (λ (x y : ℕ). x ≢ y) xs ys

-- The queue with the sentinel `h` holds the nodes `xs`.
pub record IsQueue (s : Links) (h : ℕ) (xs : List ℕ) : Type 0 where
  pub chain : Chain s h xs h
  pub distinct : Distinct (h ∷ xs)

-- A chain has its links in the nodes that it leaves and in those that it enters.
pub Chain-frame :
    (s t : Links) (a : ℕ) (xs : List ℕ) (b : ℕ)
    → All (λ (y : ℕ). t.next y ≡ s.next y) (a ∷ xs)
    → All (λ (y : ℕ). t.prev y ≡ s.prev y) (b ∷ xs)
    → Chain s a xs b
    → Chain t a xs b
Chain-frame s t a [] b (n, ns) (p, ps) (e, f) = (n ∙ e, p ∙ f)
Chain-frame s t a (x ∷ xs) b (n, ns) (p, (q, ps)) (e, f, c) =
    (n ∙ e, q ∙ f, Chain-frame s t x xs b ns (p, ps) c)

-- A chain in two parts.
pub Chain-append :
    (s : Links) (a : ℕ) (xs : List ℕ) (x : ℕ) (ys : List ℕ) (b : ℕ)
    → Chain s a xs x
    → Chain s x ys b
    → Chain s a (xs ++ x ∷ ys) b
Chain-append s a [] x ys b (e, f) c = (e, f, c)
Chain-append s a (y ∷ xs) x ys b (e, f, c) d = (e, f, Chain-append s y xs x ys b c d)

pub Chain-parts :
    (s : Links) (a : ℕ) (xs : List ℕ) (x : ℕ) (ys : List ℕ) (b : ℕ)
    → Chain s a (xs ++ x ∷ ys) b
    → Chain s a xs x × Chain s x ys b
Chain-parts s a [] x ys b (e, f, c) = ((e, f), c)
Chain-parts s a (y ∷ xs) x ys b (e, f, c) =
    let (c1, c2) = Chain-parts s y xs x ys b c in ((e, f, c1), c2)

-- Facts on every element.
pub All-append : (P : ℕ → Type 0) (xs ys : List ℕ) → All P xs → All P ys → All P (xs ++ ys)
All-append P [] ys p q = q
All-append P (x ∷ xs) ys (p, ps) q = (p, All-append P xs ys ps q)

pub All-parts : (P : ℕ → Type 0) (xs ys : List ℕ) → All P (xs ++ ys) → All P xs × All P ys
All-parts P [] ys q = (tt, q)
All-parts P (x ∷ xs) ys (p, ps) = let (l, r) = All-parts P xs ys ps in ((p, l), r)

pub Pairs-append :
    (R : ℕ → ℕ → Type 0) (xs ys : List ℕ)
    → Pairs R xs
    → Pairs R ys
    → Cross R xs ys
    → Pairs R (xs ++ ys)
Pairs-append R [] ys d e a = e
Pairs-append R (x ∷ xs) ys (f, d) e (g, a) =
    (All-append (R x) xs ys f g, Pairs-append R xs ys d e a)

pub Pairs-parts :
    (R : ℕ → ℕ → Type 0) (xs ys : List ℕ)
    → Pairs R (xs ++ ys)
    → Pairs R xs × Pairs R ys × Cross R xs ys
Pairs-parts R [] ys d = (tt, d, tt)
Pairs-parts R (x ∷ xs) ys (f, d) =
    let (d1, d2, a) = Pairs-parts R xs ys d in
    let (f1, f2) = All-parts (R x) xs ys f in ((f1, d1), d2, (f2, a))

pub Distinct-append :
    (xs ys : List ℕ) → Distinct xs → Distinct ys → Disjoint xs ys → Distinct (xs ++ ys)
Distinct-append = Pairs-append (λ x y. x ≢ y)

pub Distinct-parts :
    (xs ys : List ℕ) → Distinct (xs ++ ys) → Distinct xs × Distinct ys × Disjoint xs ys
Distinct-parts = Pairs-parts (λ x y. x ≢ y)

pub Disjoint-nil : (xs : List ℕ) → Disjoint xs []
Disjoint-nil [] = tt
Disjoint-nil (x ∷ xs) = (tt, Disjoint-nil xs)

pub Disjoint-cons : (y : ℕ) (xs ys : List ℕ) → Fresh y xs → Disjoint xs ys → Disjoint xs (y ∷ ys)
Disjoint-cons y [] ys f d = tt
Disjoint-cons y (x ∷ xs) ys (n, f) (g, d) =
    ((λ (e : x ≡ y). n (sym e), g), Disjoint-cons y xs ys f d)

pub Disjoint-sym : (xs ys : List ℕ) → Disjoint xs ys → Disjoint ys xs
Disjoint-sym [] ys d = Disjoint-nil ys
Disjoint-sym (x ∷ xs) ys (f, d) = Disjoint-cons x ys xs f (Disjoint-sym xs ys d)

pub Disjoint-tail : (y : ℕ) (xs ys : List ℕ) → Disjoint xs (y ∷ ys) → Disjoint xs ys
Disjoint-tail y [] ys d = tt
Disjoint-tail y (x ∷ xs) ys ((_, f), d) = (f, Disjoint-tail y xs ys d)

-- A write elsewhere.
pub unset : (f : ℕ → ℕ) (q p a : ℕ) → q ≢ a → (if a == q then p else f a) ≡ f a
unset f q p a h = elim (Bool-cases (a == q)) [
  | inl e ↦ absurd (h (sym ((==_iff a q).0 e)))
  | inr e ↦ rw e refl
]

pub was_set : (f : ℕ → ℕ) (q p : ℕ) → (if q == q then p else f q) ≡ p
was_set f q p = rw ((==_iff q q).1 refl) refl

unset-All :
    (f : ℕ → ℕ) (q p : ℕ) (xs : List ℕ)
    → Fresh q xs
    → All (λ (y : ℕ). (if y == q then p else f y) ≡ f y) xs
unset-All f q p [] h = tt
unset-All f q p (x ∷ xs) (h, hs) = (unset f q p x h, unset-All f q p xs hs)

-- `b` is made the successor of `a`.
abbrev pub link : ℕ → ℕ → Links → Links
link a b s = set_next a b (set_prev b a s)

pub linked : (a b : ℕ) (s : Links) → ((link a b s).next a ≡ b) × ((link a b s).prev b ≡ a)
linked a b s = (was_set s.next a b, was_set s.prev b a)

-- The link from `c` to `d` outlasts another one.
pub still_linked :
    (a b c d : ℕ) (s : Links)
    → a ≢ c
    → b ≢ d
    → (s.next c ≡ d) × (s.prev d ≡ c)
    → ((link a b s).next c ≡ d) × ((link a b s).prev d ≡ c)
still_linked a b c d s p q (e, f) = (unset s.next a b c p ∙ e, unset s.prev b a d q ∙ f)

pub Chain-link :
    (s : Links) (p q a : ℕ) (xs : List ℕ) (b : ℕ)
    → Fresh p (a ∷ xs)
    → Fresh q (b ∷ xs)
    → Chain s a xs b
    → Chain (link p q s) a xs b
Chain-link s p q a xs b f g c =
    Chain-frame s (link p q s) a xs b (unset-All s.next p q (a ∷ xs) f)
      (unset-All s.prev q p (b ∷ xs) g) c

-- The last node before the end.
pub All-last :
    (P : ℕ → Type 0) (s : Links) (a : ℕ) (xs : List ℕ) (b : ℕ)
    → Chain s a xs b
    → All P (a ∷ xs)
    → P (s.prev b)
All-last P s a [] b (e, f) (p, ps) = subst P (sym f) p
All-last P s a (x ∷ xs) b (e, f, c) (p, ps) = All-last P s x xs b c ps

pub flip : (a : ℕ) (xs : List ℕ) → Fresh a xs → All (λ (y : ℕ). y ≢ a) xs
flip a [] f = tt
flip a (x ∷ xs) (n, f) = (λ (e : x ≡ a). n (sym e), flip a xs f)

-- The last node of a chain gets another successor.
pub Chain-relink :
    (s : Links) (a : ℕ) (xs : List ℕ) (b c : ℕ)
    → Chain s a xs b
    → Distinct (a ∷ xs)
    → Fresh c xs
    → Chain (link (s.prev b) c s) a xs c
Chain-relink s a [] b c (e, f) d g = rw f (was_set s.next a c, was_set s.prev c a)
Chain-relink s a (x ∷ xs) b c (e, f, r) (d, ds) (g, gs) =
    let last : s.prev b ≢ a = All-last (λ y. y ≢ a) s x xs b r (flip a (x ∷ xs) d) in
    (
      unset s.next (s.prev b) c a last ∙ e,
      unset s.prev c (s.prev b) x g ∙ f,
      Chain-relink s x xs b c r ds gs,
    )

-- Facts on a queue with a node `p`, on both sides of which others may stand.
pub record Around (h : ℕ) (xs : List ℕ) (p : ℕ) (ys : List ℕ) : Type 0 where
  pub before : Distinct (h ∷ xs)
  pub behind : Distinct (p ∷ ys)
  pub p_before : Fresh p (h ∷ xs)
  pub h_behind : Fresh h (p ∷ ys)
  pub apart : Disjoint (h ∷ xs) (p ∷ ys)

pub around :
    (h : ℕ) (xs : List ℕ) (p : ℕ) (ys : List ℕ) → Distinct (h ∷ (xs ++ p ∷ ys)) → Around h xs p ys
around h xs p ys d =
    let (d1, d2, a) = Distinct-parts (h ∷ xs) (p ∷ ys) d in
    record {
      before = d1;
      behind = d2;
      p_before = (Disjoint-sym (h ∷ xs) (p ∷ ys) a).0;
      h_behind = a.0;
      apart = a;
    }
