-- ===== src/Queue.antt =====
-- nginx/src/ngx_queue.h and ngx_queue.c (copied to work/src/datestructure/nginx/core): circular
-- doubly linked lists through a sentinel. The store is the two links of every node; a node is its
-- address. Each macro is its assignments, one after the other, without NGX_DEBUG. A loop takes one
-- from `rounds`, and has no result when they are used up.
pub mod Chain
pub mod Writes
pub mod Insertion
pub mod Removal
pub mod Joining
pub mod Middle
pub mod Order
pub mod Placing
pub mod Rounds
pub mod Reference
pub mod Search
pub mod Uses
pub mod Sorting
use rabbitmq_work.Base.{
  ℕ, zero, suc, ◌==◌, Bool, true, false, ltb, Option, none, some, ℤ, pos, negsuc, if◌then◌else◌,
}

pub record Links : Type 0 where
  pub prev : ℕ → ℕ
  pub next : ℕ → ℕ

-- `(q)->prev = p` and `(q)->next = p`
abbrev pub set_prev : ℕ → ℕ → Links → Links
set_prev q p s = record s { prev = λ a. if a == q then p else s.prev a }

abbrev pub set_next : ℕ → ℕ → Links → Links
set_next q p s = record s { next = λ a. if a == q then p else s.next a }

-- `ngx_queue_init`
unfoldable pub init : ℕ → Links → Links
init q s = set_next q q (set_prev q q s)

-- `ngx_queue_empty`
unfoldable pub is_empty : ℕ → Links → Bool
is_empty h s = h == s.prev h

-- `ngx_queue_insert_head`, which is `ngx_queue_insert_after` too
unfoldable pub insert_head : ℕ → ℕ → Links → Links
insert_head h x s =
    let s1 = set_next x (s.next h) s in
    let s2 = set_prev (s1.next x) x s1 in let s3 = set_prev x h s2 in set_next h x s3

-- `ngx_queue_insert_tail`
unfoldable pub insert_tail : ℕ → ℕ → Links → Links
insert_tail h x s =
    let s1 = set_prev x (s.prev h) s in
    let s2 = set_next (s1.prev x) x s1 in let s3 = set_next x h s2 in set_prev h x s3

-- `ngx_queue_remove`
unfoldable pub remove : ℕ → Links → Links
remove x s = let s1 = set_prev (s.next x) (s.prev x) s in set_next (s1.prev x) (s1.next x) s1

-- `ngx_queue_split`: what stands from `q` on goes to the sentinel `n`.
unfoldable pub split : ℕ → ℕ → ℕ → Links → Links
split h q n s =
    let s1 = set_prev n (s.prev h) s in
    let s2 = set_next (s1.prev n) n s1 in
    let s3 = set_next n q s2 in
    let s4 = set_prev h (s3.prev q) s3 in let s5 = set_next (s4.prev h) h s4 in set_prev q n s5

-- `ngx_queue_add`: the nodes of `n` are appended to `h`.
unfoldable pub add : ℕ → ℕ → Links → Links
add h n s =
    let s1 = set_next (s.prev h) (s.next n) s in
    let s2 = set_prev (s1.next n) (s1.prev h) s1 in
    let s3 = set_prev h (s2.prev n) s2 in set_next (s3.prev h) h s3

-- The `for` loop of `ngx_queue_middle`.
middle_loop : ℕ → Links → ℕ → ℕ → ℕ → Option ℕ
middle_loop zero s queue middle next = none
middle_loop (suc rounds) s queue middle next =
    let middle' = s.next middle in
    let next' = s.next next in
    let next'' = s.next next' in
    let rest = middle_loop rounds s queue middle' next'' in
    if next' == s.prev queue
    then some middle'
    else if next'' == s.prev queue
    then some middle'
    else rest

-- `ngx_queue_middle`
pub middle : ℕ → Links → ℕ → Option ℕ
middle rounds s queue =
    let first = s.next queue in
    if first == s.prev queue then some first else middle_loop rounds s queue first first

-- Whether an `ngx_int_t` is at most 0.
abbrev pub at_most_zero : ℤ → Bool
at_most_zero (pos zero) = true
at_most_zero (pos (suc _)) = false
at_most_zero (negsuc _) = true

-- The `do` loop of `ngx_queue_sort`: the node after which `q` goes.
pub place_after : (ℕ → ℕ → ℤ) → ℕ → Links → ℕ → ℕ → ℕ → Option ℕ
place_after cmp zero s queue q prev = none
place_after cmp (suc rounds) s queue q prev =
    let prev' = s.prev prev in
    let rest = place_after cmp rounds s queue q prev' in
    if at_most_zero (cmp prev q) then some prev else if prev' == queue then some prev' else rest

-- The `for` loop of `ngx_queue_sort`; the inner loop has the same rounds.
pub sort_loop : (ℕ → ℕ → ℤ) → ℕ → ℕ → Links → ℕ → ℕ → Option Links
sort_loop cmp inner zero s queue q = none
sort_loop cmp inner (suc rounds) s queue q =
    let prev = s.prev q in
    let next = s.next q in
    let s1 = remove q s in
    let rest = λ (p : ℕ). sort_loop cmp inner rounds (insert_head p q s1) queue next in
    if q == queue
    then some s
    else (elim (place_after cmp inner s1 queue q prev) [ none ↦ none | some p ↦ rest p ])

-- `ngx_queue_sort`
pub sort : (ℕ → ℕ → ℤ) → ℕ → Links → ℕ → Option Links
sort cmp rounds s queue =
    let q = s.next queue in
    if q == s.prev queue then some s else sort_loop cmp rounds rounds s queue (s.next q)
