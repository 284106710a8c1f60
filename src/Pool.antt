-- ===== src/Pool.antt =====
-- nginx/src/ngx_palloc.c and ngx_alloc.c: memory pools. Addresses and sizes are natural numbers; a
-- `size_t` has 64 bits and wraps around. A pool is the chain of its blocks (`d.next`), the pool
-- itself first; `current` is the position of the block in the chain. The log calls, which the files
-- comment out, are left out; the bytes of the memory are in `Content`.
pub mod Alloc
pub mod Grants
pub mod Moves
pub mod Apart
pub mod Sound
pub mod Runs
pub mod Small
pub mod Overrun
pub mod Current
pub mod Reset
pub mod Ledger
pub mod Cells
pub mod Balance
pub mod Life
pub mod Tidy
pub mod Live
pub mod Cyclic
pub mod Endless
pub mod Content
use rabbitmq_work.Base.{
  ℕ, zero, suc, ◌+◌, ◌-◌, ◌*◌, ◌/◌, ◌%◌, ◌^◌, ltb, leb, ◌==◌, Bool, true, false, List, [], ◌∷◌,
  ◌++◌, Option, none, some, if◌then◌else◌,
}

pub record Block : Type 0 where
  pub start : ℕ
  pub last : ℕ
  pub end_ : ℕ
  pub failed : ℕ

-- `ngx_pool_large_t`: the address of the list cell, and `alloc`, where `none` is NULL.
pub record Large : Type 0 where
  pub cell : ℕ
  pub alloc : Option ℕ

-- `ngx_pool_cleanup_t`, with the address of the cell; a handler is a name for its function.
pub record Cleanup : Type 0 where
  pub cell : ℕ
  pub handler : Option ℕ
  pub data_ : Option ℕ
  pub next : Option ℕ

-- `cleanup` points to a cell; `cells` is the memory of the cells, with what was written last first.
pub record Pool : Type 0 where
  pub blocks : List Block
  pub max : ℕ
  pub current : ℕ
  pub large : List Large
  pub cleanup : Option ℕ
  pub cells : List Cleanup

-- An allocation of the C library, with the address and the size.
abbrev pub Region : Type 0
Region = ℕ × ℕ

-- What `malloc` and `posix_memalign` answer, in view of what is allocated: a size, and an
-- alignment and a size.
pub record Allocator : Type 0 where
  pub malloc : List Region → ℕ → Option ℕ
  pub posix_memalign : List Region → ℕ → ℕ → Option ℕ

pub record State : Type 0 where
  pub heap : List Region
  pub pool : Pool

abbrev pub size_t_limit : ℕ
size_t_limit = 2 ^ 64

-- sizeof(ngx_pool_t), sizeof(ngx_pool_data_t), sizeof(ngx_pool_large_t), sizeof(ngx_pool_cleanup_t)
abbrev pub sizeof_pool : ℕ
sizeof_pool = 80

abbrev pub sizeof_pool_data : ℕ
sizeof_pool_data = 32

abbrev pub sizeof_large : ℕ
sizeof_large = 16

abbrev pub sizeof_cleanup : ℕ
sizeof_cleanup = 24

-- `ngx_align_ptr(p, NGX_ALIGNMENT)`: the next multiple of 8.
unfoldable pub align_ptr : ℕ → ℕ
align_ptr p = (p + 7) % size_t_limit / 8 * 8

-- `x - y` in `size_t`.
unfoldable pub size_sub : ℕ → ℕ → ℕ
size_sub x y = (x + size_t_limit - y) % size_t_limit

-- The fields that `ngx_create_pool` writes; `pagesize` is the global `ngx_pagesize`.
unfoldable pub new_pool : ℕ → ℕ → ℕ → Pool
new_pool pagesize p size =
    let room = size_sub size sizeof_pool in
    let limit = size_sub pagesize 1 in
    record {
      blocks = record { start = p; last = p + sizeof_pool; end_ = p + size; failed = 0 } ∷ [];
      max = if ltb room limit then room else limit;
      current = 0;
      large = [];
      cleanup = none;
      cells = [];
    }

-- Where an allocation in a block begins: `ngx_palloc` aligns it and `ngx_pnalloc` does not.
unfoldable pub first_free : Bool → Block → ℕ
first_free aligned b = if aligned then align_ptr b.last else b.last

-- The `do` loop of `ngx_palloc` and `ngx_pnalloc`, from a block on: the address, and the chain with
-- `last` moved on.
unfoldable pub place : Bool → ℕ → List Block → Option (ℕ × List Block)
place aligned size [] = none
place aligned size (b ∷ bs) =
    let m = first_free aligned b in
    if leb size (size_sub b.end_ m)
    then some (m, record b { last = m + size } ∷ bs)
    else (elim (place aligned size bs) [ none ↦ none | some r ↦ some (r.0, b ∷ r.1) ])

-- The same from the position `current` on.
unfoldable pub place_from : Bool → ℕ → ℕ → List Block → Option (ℕ × List Block)
place_from aligned size zero bs = place aligned size bs
place_from aligned size (suc k) [] = none
place_from aligned size (suc k) (b ∷ bs) = elim (place_from aligned size k bs) [
  | none ↦ none
  | some r ↦ some (r.0, b ∷ r.1)
]

-- The `for` loop of `ngx_palloc_block`, from a block at a position on: `failed` is counted up in
-- every block but the last, and `current` moves past those that have failed too often.
unfoldable pub count_failures : ℕ → ℕ → List Block → List Block × ℕ
count_failures position current [] = ([], current)
count_failures position current (b ∷ []) = (b ∷ [], current)
count_failures position current (b ∷ c ∷ bs) =
    let r =
      count_failures (position + 1) (if ltb 4 b.failed then position + 1 else current) (c ∷ bs) in
    (record b { failed = (b.failed + 1) % size_t_limit } ∷ r.0, r.1)

unfoldable pub count_from : ℕ → ℕ → List Block → List Block × ℕ
count_from current zero bs = count_failures current current bs
count_from current (suc k) [] = ([], current)
count_from current (suc k) (b ∷ bs) = let r = count_from current k bs in (b ∷ r.0, r.1)

-- `p->d.end - (u_char *) p` of the pool.
unfoldable pub block_size : List Block → ℕ
block_size [] = 0
block_size (b ∷ _) = size_sub b.end_ b.start

unfoldable pub new_block : ℕ → ℕ → ℕ → Block
new_block m psize size = record {
  start = m;
  last = align_ptr (m + sizeof_pool_data) + size;
  end_ = m + psize;
  failed = 0;
}

-- `ngx_free`
unfoldable pub free : ℕ → List Region → List Region
free p [] = []
free p (r ∷ rs) = if r.0 == p then rs else (r ∷ free p rs)
