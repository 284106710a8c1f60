-- ===== src/Utils/Dump/Reading.antt =====
-- The dump as lines, and how a reader gets the buffer back from them.
use rabbitmq_work.Base.{
  ℕ, zero, suc, ◌+◌, ◌-◌, ◌/◌, ◌≡◌, Bool, true, false, ◌==◌, ltb, List, [], ◌∷◌, ◌++◌, Option, none,
  some, length, if◌then◌else◌, arith, refl, inl, inr, Bool-cases,
}
use rabbitmq_work.Amqp.{Bytes}
use rabbitmq_work.Session.{Event, Log, Oracle, ok, num, printed}
use rabbitmq_work.Utils.Dump.{colon, hex_cells, blank_cells, characters, row_cells, dump_row, zeros}

-- A line of the dump: a row with its offset, the dots, or the last line with the size.
pub data Line : Type 0 where
  row : ℕ → Bytes → Line
  dots : Line
  total : ℕ → Line

abbrev colon_events : ℕ → List Event
colon_events i = if i == 8 then printed " :" [] ∷ [] else []

abbrev hex_events : ℕ → Bytes → List Event
hex_events i [] = []
hex_events i (ch ∷ chs) = colon_events i ++ (printed " %02X" (num ch ∷ []) ∷ hex_events (i + 1) chs)

abbrev blank_events : ℕ → ℕ → List Event
blank_events i zero = []
blank_events i (suc left) = colon_events i ++ (printed "   " [] ∷ blank_events (i + 1) left)

-- What was printed, oldest first, on top of a transcript.
abbrev pub write : List Event → Log → Log
write [] l = l
write (e ∷ es) l = write es (e ∷ l)

write-append : (es fs : List Event) (l : Log) → write (es ++ fs) l ≡ write fs (write es l)
write-append [] fs l = refl
write-append (e ∷ es) fs l = write-append es fs (e ∷ l)

colon_lem : (i : ℕ) (o : Oracle) (l : Log) → colon i o l ≡ (ok tt, write (colon_events i) l)
colon_lem i o l = elim (Bool-cases (i == 8)) [ inl e ↦ rw e refl | inr e ↦ rw e refl ]

hex_cells_lem :
    (i : ℕ) (chs : Bytes) (o : Oracle) (l : Log)
    → hex_cells i chs o l ≡ (ok tt, write (hex_events i chs) l)
unfolding hex_cells
hex_cells_lem i [] o l = refl
hex_cells_lem i (ch ∷ chs) o l =
    rw (write-append, colon_lem i o l)
      (hex_cells_lem (i + 1) chs o (printed " %02X" (num ch ∷ []) ∷ write (colon_events i) l))

blank_cells_lem :
    (i left : ℕ) (o : Oracle) (l : Log)
    → blank_cells i left o l ≡ (ok tt, write (blank_events i left) l)
unfolding blank_cells
blank_cells_lem i zero o l = refl
blank_cells_lem i (suc left) o l =
    rw (write-append, colon_lem i o l)
      (blank_cells_lem (i + 1) left o (printed "   " [] ∷ write (colon_events i) l))

positive : (n : ℕ) → ltb 0 (suc n) ≡ true
positive n = ground arith

module _ (isprint : ℕ → Bool) where
  abbrev character_events : Bytes → List Event
  character_events [] = []
  character_events (ch ∷ chs) =
      (if isprint ch then printed "%c" (num ch ∷ []) else printed "." []) ∷ character_events chs

  characters_lem :
      (chs : Bytes) (o : Oracle) (l : Log)
      → characters isprint chs o l ≡ (ok tt, write (character_events chs) l)
  unfolding characters
  characters_lem [] o l = refl
  characters_lem (ch ∷ chs) o l = elim (Bool-cases (isprint ch)) [
    | inl e ↦ rw e (characters_lem chs o _)
    | inr e ↦ rw e (characters_lem chs o _)
  ]

  abbrev cell_events : Bytes → List Event
  cell_events chs =
      hex_events 0 chs
      ++ (blank_events (length chs) (16 - length chs) ++ (printed "  " [] ∷ character_events chs))

  row_cells_lem :
      (chs : Bytes) (o : Oracle) (l : Log)
      → row_cells isprint chs o l ≡ (ok tt, write (cell_events chs) l)
  unfolding row_cells
  row_cells_lem chs o l =
      let l1 = write (hex_events 0 chs) l in
      let l2 = write (blank_events (length chs) (16 - length chs)) l1 in
      rw
        (
          write-append (hex_events 0 chs)
              (blank_events (length chs) (16 - length chs)
                ++ (printed "  " [] ∷ character_events chs))
              l,
          write-append (blank_events (length chs) (16 - length chs))
              (printed "  " [] ∷ character_events chs) l1,
          hex_cells_lem 0 chs o l,
          blank_cells_lem (length chs) (16 - length chs) o l1,
        )
        (characters_lem chs o (printed "  " [] ∷ l2))

  abbrev row_events : Bytes → List Event
  row_events [] = []
  row_events (ch ∷ chs) = cell_events (ch ∷ chs)

  -- How a line is printed.
  unfoldable pub line_events : Line → List Event
  line_events (row offset chs) =
      printed "%08lX:" (num offset ∷ []) ∷ (row_events chs ++ (printed "\n" [] ∷ []))
  line_events dots = printed "          .. .. .. .. .. .. .. .. : .. .. .. .. .. .. .. ..\n" [] ∷ []
  line_events (total n) = printed "%08lX:\n" (num n ∷ []) ∷ []

  abbrev pub write_lines : List Line → Log → Log
  write_lines [] l = l
  write_lines (x ∷ xs) l = write_lines xs (write (line_events x) l)

  pub dump_row_lem :
      (count : ℕ) (chs : Bytes) (o : Oracle) (l : Log)
      → dump_row isprint count chs o l
        ≡ (ok tt, write (line_events (row (count - length chs) chs)) l)
  unfolding dump_row line_events
  dump_row_lem count [] o l = refl
  dump_row_lem count (ch ∷ chs) o l =
      let l1 = printed "%08lX:" (num (count - length (ch ∷ chs)) ∷ []) ∷ l in
      rw
        (
          positive (length chs),
          write-append (cell_events (ch ∷ chs)) (printed "\n" [] ∷ []) l1,
          row_cells_lem (ch ∷ chs) o l1,
        )
        refl

-- What a reader makes of the lines, from `n` bytes on with `prev` as the last row: a row's offset
-- says how often `prev` came again before it, and there are dots exactly if it did. `none` for lines
-- that are no dump.
abbrev pub repeat_row : ℕ → Bytes → Bytes
repeat_row zero prev = []
repeat_row (suc k) prev = prev ++ repeat_row k prev

abbrev pub same : Bool → Bool → Bool
same true b = b
same false true = false
same false false = true

abbrev pub put_before : Bytes → Option Bytes → Option Bytes
put_before bs none = none
put_before bs (some cs) = some (bs ++ cs)

unfoldable pub read_lines : Bool → ℕ → Bytes → List Line → Option Bytes
read_lines dotted n prev [] = none
read_lines dotted n prev (dots ∷ xs) = if dotted then none else read_lines true n prev xs
read_lines dotted n prev (row offset chs ∷ xs) =
    if same dotted (ltb n offset)
    then put_before (repeat_row ((offset - n) / 16) prev ++ chs)
        (read_lines false (offset + length chs) chs xs)
    else none
read_lines dotted n prev (total m ∷ []) =
    if m == n then (if dotted then none else some []) else none
read_lines dotted n prev (total m ∷ _ ∷ _) = none

-- An empty buffer has an empty row and no last line.
unfoldable pub read_dump : List Line → Option Bytes
unfolding read_lines
read_dump (row offset [] ∷ []) = if offset == 0 then some [] else none
read_dump xs = read_lines false 0 (zeros 16) xs
