-- ===== src/Pool/Alloc.antt =====
-- The operations of nginx/src/ngx_palloc.c. A `State` is the pool and what the C library has
-- allocated; `none` in a result is NULL. `ngx_palloc` and `ngx_palloc_large` call each other, to a
-- depth that is passed; a call that exceeds it has no result. Depth 1 is enough at sizes up to `max`.
use mathlib.Core.Option
use rabbitmq_work.Base.{
  ℕ, zero, suc, ◌+◌, ◌==◌, ltb, leb, Bool, true, false, List, [], ◌∷◌, ◌++◌, map, Option, none,
  some, if◌then◌else◌,
}
use rabbitmq_work.Pool.{
  Block, Large, Cleanup, Pool, Region, Allocator, State, sizeof_pool, sizeof_large, sizeof_cleanup,
  new_pool, place_from, count_from, block_size, new_block, free, align_ptr, sizeof_pool_data,
}

abbrev pub Result : Type 0
Result = Option ℕ × State

-- `ngx_alloc`
unfoldable pub ngx_alloc : Allocator → ℕ → List Region → Option ℕ × List Region
ngx_alloc a size heap = elim (a.malloc heap size) [
  | none ↦ (none, heap)
  | some p ↦ (some p, (p, size) ∷ heap)
]

-- `ngx_memalign`
unfoldable pub ngx_memalign : Allocator → ℕ → ℕ → List Region → Option ℕ × List Region
ngx_memalign a alignment size heap = elim (a.posix_memalign heap alignment size) [
  | none ↦ (none, heap)
  | some p ↦ (some p, (p, size) ∷ heap)
]

-- `ngx_create_pool`
unfoldable pub create_pool : Allocator → ℕ → ℕ → List Region → Option State
unfolding ngx_memalign
create_pool a pagesize size heap =
    let r = ngx_memalign a 16 size heap in
    elim r.0 [
      | none ↦ none
      | some p ↦ some (record { heap = r.1; pool = new_pool pagesize p size })
    ]

-- `main` of nginx/src/amqp_exchange_declare.cpp, which makes a pool and ends.
unfoldable pub pool_main : Allocator → ℕ → List Region → Option State
pool_main a pagesize heap = create_pool a pagesize 100 heap

-- The block that `ngx_palloc_block` appends.
unfoldable pub append_block : ℕ → ℕ → ℕ → Pool → Pool
append_block m psize size p =
    let counted = count_from p.current p.current p.blocks in
    record p { blocks = counted.0 ++ (new_block m psize size ∷ []); current = counted.1 }

-- `ngx_palloc_block`
unfoldable pub palloc_block : Allocator → ℕ → State → Result
palloc_block a size s =
    let psize = block_size s.pool.blocks in
    let r = ngx_memalign a 16 psize s.heap in
    elim r.0 [
      | none ↦ (none, s)
      | some m ↦ (
        some (align_ptr (m + sizeof_pool_data)),
        record { heap = r.1; pool = append_block m psize size s.pool },
      )
    ]

-- `ngx_palloc` (aligned) and `ngx_pnalloc`, where the size is at most `max`.
unfoldable pub palloc_small : Allocator → Bool → ℕ → State → Result
palloc_small a aligned size s = elim (place_from aligned size s.pool.current s.pool.blocks) [
  | none ↦ palloc_block a size s
  | some r ↦ (some r.0, record s { pool = record s.pool { blocks = r.1 } })
]

-- The search of `ngx_palloc_large` for a cell that is free, among the first five.
unfoldable pub reuse_cell : ℕ → ℕ → List Large → Option (List Large)
reuse_cell n p [] = none
reuse_cell n p (l ∷ ls) = elim l.alloc [
  | none ↦ some (record l { alloc = some p } ∷ ls)
  | some _ ↦
      if ltb 3 n
      then none
      else (elim (reuse_cell (n + 1) p ls) [ none ↦ none | some r ↦ some (l ∷ r) ])
]

-- The end of `ngx_palloc_large` and of `ngx_pmemalign`, by the cell that `ngx_palloc` gave.
unfoldable pub add_large : ℕ → Result → Result
add_large p (none, s) = (none, record s { heap = free p s.heap })
add_large p (some cell, s) = (
  some p,
  record s {
    pool = record s.pool { large = record { cell = cell; alloc = some p } ∷ s.pool.large };
  },
)

-- `ngx_palloc` and `ngx_pnalloc`; the large case is `ngx_palloc_large`.
unfoldable pub palloc : ℕ → Allocator → Bool → ℕ → State → Option Result
palloc zero a aligned size s = none
palloc (suc depth) a aligned size s =
    if leb size s.pool.max
    then some (palloc_small a aligned size s)
    else (let r = ngx_alloc a size s.heap in
        elim r.0 [
          | none ↦ some (none, s)
          | some p ↦ elim (reuse_cell 0 p s.pool.large) [
            | some ls ↦ some (some p, record { heap = r.1; pool = record s.pool { large = ls } })
            | none ↦
                Option.map (add_large p)
                  (palloc depth a true sizeof_large (record s { heap = r.1 }))
          ]
        ])

-- `ngx_pmemalign`
unfoldable pub pmemalign : ℕ → Allocator → ℕ → ℕ → State → Option Result
pmemalign depth a size alignment s =
    let r = ngx_memalign a alignment size s.heap in
    elim r.0 [
      | none ↦ some (none, s)
      | some p ↦
          Option.map (add_large p) (palloc depth a true sizeof_large (record s { heap = r.1 }))
    ]

-- The loop of `ngx_pfree`: whether it found the address, and the list with that cell cleared.
unfoldable pub clear_cell : ℕ → List Large → Bool × List Large
clear_cell p [] = (false, [])
clear_cell p (l ∷ ls) =
    let r = clear_cell p ls in
    elim l.alloc [
      | none ↦ (r.0, l ∷ r.1)
      | some q ↦ if p == q then (true, record l { alloc = none } ∷ ls) else (r.0, l ∷ r.1)
    ]

-- `ngx_pfree` of an address that is not NULL: whether it is NGX_OK, and not NGX_DECLINED.
unfoldable pub pfree : ℕ → State → Bool × State
pfree p s =
    let r = clear_cell p s.pool.large in
    if r.0
    then (true, record { heap = free p s.heap; pool = record s.pool { large = r.1 } })
    else (false, s)

-- The loop over the large allocations in `ngx_reset_pool` and `ngx_destroy_pool`.
unfoldable pub free_large : List Large → List Region → List Region
free_large [] heap = heap
free_large (l ∷ ls) heap = free_large ls (elim l.alloc [ none ↦ heap | some p ↦ free p heap ])

unfoldable pub reset_block : Block → Block
reset_block b = record b { last = b.start + sizeof_pool; failed = 0 }

-- `ngx_reset_pool`
unfoldable pub reset_pool : State → State
reset_pool s = record {
  heap = free_large s.pool.large s.heap;
  pool = record s.pool { blocks = map reset_block s.pool.blocks; current = 0; large = [] };
}

unfoldable pub free_blocks : List Block → List Region → List Region
free_blocks [] heap = heap
free_blocks (b ∷ bs) heap = free_blocks bs (free b.start heap)

-- The cell that a pointer points to.
unfoldable pub cell_at : ℕ → List Cleanup → Option Cleanup
cell_at p [] = none
cell_at p (c ∷ cells) = let rest = cell_at p cells in if c.cell == p then some c else rest

-- The cleanups that `ngx_destroy_pool` runs from a pointer on, in order: handler and data. There is no
-- result when the rounds are used up, nor for a pointer to no cell.
abbrev pub ran : Cleanup → Option (List (ℕ × Option ℕ)) → Option (List (ℕ × Option ℕ))
ran c none = none
ran c (some out) = some (elim c.handler [ none ↦ out | some h ↦ (h, c.data_) ∷ out ])

unfoldable pub run_cleanups : Option ℕ → List Cleanup → ℕ → Option (List (ℕ × Option ℕ))
run_cleanups none cells rounds = some []
run_cleanups (some p) cells zero = none
run_cleanups (some p) cells (suc rounds) = elim (cell_at p cells) [
  | none ↦ none
  | some c ↦ ran c (run_cleanups c.next cells rounds)
]

-- `ngx_destroy_pool`
unfoldable pub destroy_pool : ℕ → State → Option (List (ℕ × Option ℕ) × List Region)
destroy_pool rounds s =
    Option.map (λ out. (out, free_blocks s.pool.blocks (free_large s.pool.large s.heap)))
      (run_cleanups s.pool.cleanup s.pool.cells rounds)

-- The end of `ngx_pool_cleanup_add`: the new cell has no handler.
abbrev pub add_cleanup : ℕ → Option ℕ → State → Result
add_cleanup cell d s = (
  some cell,
  record s {
    pool = record s.pool {
      cleanup = some cell;
      cells =
          record { cell = cell; handler = none; data_ = d; next = s.pool.cleanup } ∷ s.pool.cells;
    };
  },
)

-- `ngx_pool_cleanup_add`
unfoldable pub cleanup_add : ℕ → Allocator → ℕ → State → Option Result
cleanup_add depth a size s = elim (palloc depth a true sizeof_cleanup s) [
  | none ↦ none
  | some r ↦ elim r.0 [
    | none ↦ some (none, r.1)
    | some cell ↦
        if size == 0
        then some (add_cleanup cell none r.1)
        else (elim (palloc depth a true size r.1) [
          | none ↦ none
          | some q ↦ elim q.0 [
            | none ↦ some (none, q.1)
            | some d ↦ some (add_cleanup cell (some d) q.1)
          ]
        ])
  ]
]
