-- ===== src/Utils/Dump.antt =====
-- `amqp_dump` of utils.cpp, with `dump_row` and `rows_eq`: a hexadecimal dump of a buffer, 16 bytes to
-- a row, in which rows that repeat the one before are left out. `isprint` is the C library's. A
-- buffer is shorter than 2 ^ 63.
pub mod Reading
pub mod Rows
pub mod RoundTrip
use rabbitmq_work.Base.{
  ℕ, zero, suc, ◌+◌, ◌-◌, Bool, true, false, ◌&&◌, ◌==◌, ltb, List, [], ◌∷◌, ◌++◌, length,
  if◌then◌else◌,
}
use rabbitmq_work.Amqp.{Bytes}
use rabbitmq_work.Session.{M, num, pure, printf, ◌>>=◌, ◌>>◌}

-- The colon in the middle of a row.
abbrev colon : ℕ → M (Unit {0})
colon i = if i == 8 then printf " :" [] else pure tt

-- The three loops of `dump_row`: from position `i` on the bytes, the blanks in place of the bytes
-- that the row has not, and the characters.
hex_cells : ℕ → Bytes → M (Unit {0})
hex_cells i [] = pure tt
hex_cells i (ch ∷ chs) = do colon i; printf " %02X" (num ch ∷ []); hex_cells (i + 1) chs

blank_cells : ℕ → ℕ → M (Unit {0})
blank_cells i zero = pure tt
blank_cells i (suc left) = do colon i; printf "   " []; blank_cells (i + 1) left

-- The variables of the loop: `count`, `chs` up to `numinrow`, `oldchs` and `showed_dots`.
pub record DumpState : Type 0 where
  pub count : ℕ
  pub chs : Bytes
  pub oldchs : Bytes
  pub showed_dots : Bool

pub rows_eq : Bytes → Bytes → Bool
rows_eq [] [] = true
rows_eq (a ∷ as_) (b ∷ bs) = (a == b) && rows_eq as_ bs
rows_eq _ _ = false

abbrev add_byte : DumpState → ℕ → DumpState
add_byte s ch = record s { count = s.count + 1; chs = s.chs ++ ch ∷ [] }

abbrev zeros : ℕ → Bytes
zeros zero = []
zeros (suc n) = 0 ∷ zeros n

module _ (isprint : ℕ → Bool) where
  characters : Bytes → M (Unit {0})
  characters [] = pure tt
  characters (ch ∷ chs) = do
    if isprint ch then printf "%c" (num ch ∷ []) else printf "." []
    characters chs

  row_cells : Bytes → M (Unit {0})
  row_cells chs = do
    hex_cells 0 chs
    blank_cells (length chs) (16 - length chs)
    printf "  " []
    characters chs

  -- `dump_row`; `chs` are the `numinrow` bytes of the row.
  pub dump_row : ℕ → Bytes → M (Unit {0})
  dump_row count chs = do
    printf "%08lX:" (num (count - length chs) ∷ [])
    if ltb 0 (length chs) then row_cells chs else pure tt
    printf "\n" []

  -- What is done with a full row before the next byte.
  end_row : DumpState → M DumpState
  end_row s = do
    showed ←
        (if rows_eq s.oldchs s.chs
          then (if s.showed_dots
              then pure true
              else (printf "          .. .. .. .. .. .. .. .. : .. .. .. .. .. .. .. ..\n" []
                  >> pure true))
          else (dump_row s.count s.chs >> pure false))
    pure (record s { chs = []; oldchs = s.chs; showed_dots = showed })

  -- The `for` loop over the rest of the buffer.
  dump_loop : Bytes → DumpState → M DumpState
  dump_loop [] s = pure s
  dump_loop (ch ∷ buf) s = do
    t ← (if length s.chs == 16 then end_row s else pure s)
    dump_loop buf (add_byte t ch)

  -- After the loop.
  dump_end : DumpState → M (Unit {0})
  dump_end s = do
    dump_row s.count s.chs
    if length s.chs == 0 then pure tt else printf "%08lX:\n" (num s.count ∷ [])

  -- `amqp_dump`
  pub amqp_dump : Bytes → M (Unit {0})
  amqp_dump buf = do
    s ← dump_loop buf (record { count = 0; chs = []; oldchs = zeros 16; showed_dots = false })
    dump_end s
