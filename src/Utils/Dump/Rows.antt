-- ===== src/Utils/Dump/Rows.antt =====
-- How the lines of a dump read, row by row.
use rabbitmq_work.Base.{
  ℕ, zero, suc, ◌+◌, ◌-◌, ◌*◌, ◌/◌, ◌≤◌, ◌≡◌, Bool, true, false, ◌==◌, ltb, List, [], ◌∷◌, ◌++◌,
  append_assoc, append-nil, none, some, length, arith, refl, sym, ap, ◌∙◌, inl, inr, Bool-cases,
  ==_iff,
}
use rabbitmq_work.Amqp.{Bytes}
use rabbitmq_work.Utils.Dump.{rows_eq, zeros}
use rabbitmq_work.Utils.Dump.Reading.{
  Line, row, dots, total, repeat_row, same, put_before, read_lines, read_dump,
}

pub same_self : (b : Bool) → same b b ≡ true
same_self true = refl
same_self false = refl

pub read_row :
    (d : Bool) (n k offset : ℕ) (prev chs : Bytes) (xs : List Line)
    → offset ≡ n + 16 * k
    → d ≡ ltb 0 k
    → read_lines d n prev (row offset chs ∷ xs)
      ≡ put_before (repeat_row k prev ++ chs) (read_lines false (offset + length chs) chs xs)
unfolding read_lines
read_row d n k offset prev chs xs e f =
    let gap : ltb n offset ≡ ltb 0 k = ground arith in
    let times : (offset - n) / 16 ≡ k = omega (arith, e) in
    rw (f, gap, times, same_self (ltb 0 k)) refl

pub repeat_row_last : (k : ℕ) (r : Bytes) → repeat_row k r ++ r ≡ r ++ repeat_row k r
repeat_row_last zero r = sym (append-nil r)
repeat_row_last (suc k) r =
    append_assoc r (repeat_row k r) r ∙ ap (λ t. r ++ t) (repeat_row_last k r)

pub rows_eq_lem : (a b : Bytes) → rows_eq a b ≡ true → a ≡ b
unfolding rows_eq
rows_eq_lem [] [] h = refl
rows_eq_lem [] (y ∷ b) h = cc
rows_eq_lem (x ∷ a) [] h = cc
rows_eq_lem (x ∷ a) (y ∷ b) h = elim (Bool-cases (x == y)) [
  | inl e ↦ rw ((==_iff x y).0 e) (ap (λ (t : Bytes). y ∷ t) (rows_eq_lem a b (rw e at h)))
  | inr e ↦ cc (rw e at h)
]

pub read_total : (n : ℕ) (prev : Bytes) → read_lines false n prev (total n ∷ []) ≡ some []
unfolding read_lines
read_total n prev = rw ((==_iff n n).1 refl) refl

pub not_empty : (n : ℕ) → (suc n == 0) ≡ false
not_empty n = ground arith

-- The lines read as the row so far and the rest of the buffer, after `k` repetitions of the row before.
abbrev pub Reads : Bool → Bytes → Bytes → ℕ → Bytes → List Line → Type 0
Reads d old chs offset buf ls =
    (n k : ℕ)
    → offset ≡ n + 16 * k
    → d ≡ ltb 0 k
    → read_lines d n old ls ≡ some (repeat_row k old ++ (chs ++ buf))

pub positive : (n : ℕ) → true ≡ ltb 0 (suc n)
positive n = ground arith

-- One more repetition is one more row.
pub repeat-Reads :
    (b : ℕ) (buf : Bytes) (n : ℕ) (chs old : Bytes) (ls : List Line)
    → length chs ≡ 16
    → length chs ≤ n
    → rows_eq old chs ≡ true
    → Reads true chs (b ∷ []) (n + 1 - 1) buf ls
    → (m k : ℕ) → n - length chs ≡ m + 16 * k
    → read_lines true m old ls ≡ some (repeat_row k old ++ (chs ++ b ∷ buf))
repeat-Reads b buf n chs old ls full h e reads m k p = rw (rows_eq_lem old chs e) (
    reads m (suc k) (omega (arith, full, h, p)) (positive k)
    ∙ ap (λ (t : Bytes). some (t ++ (b ∷ buf))) (sym (repeat_row_last k chs))
    ∙ ap (λ (t : Bytes). some t) (append_assoc (repeat_row k chs) chs (b ∷ buf)))

pub read_dots :
    (m : ℕ) (old : Bytes) (ls : List Line)
    → read_lines false m old (dots ∷ ls) ≡ read_lines true m old ls
unfolding read_lines
read_dots m old ls = refl

lone_row : (offset : ℕ) → read_lines false 0 (zeros 16) (row offset [] ∷ []) ≡ none
unfolding read_lines
lone_row offset = elim (Bool-cases (same false (ltb 0 offset))) [
  | inl e ↦ rw e refl
  | inr e ↦ rw e refl
]

-- Lines that begin a buffer with a byte are not the one empty row.
pub read_dump_lem :
    (b : ℕ) (buf : Bytes) (ls : List Line)
    → read_lines false 0 (zeros 16) ls ≡ some (b ∷ buf)
    → read_dump ls ≡ some (b ∷ buf)
unfolding read_dump
read_dump_lem b buf [] h = h
read_dump_lem b buf (row offset [] ∷ []) h = cc (sym h ∙ lone_row offset)
read_dump_lem b buf (row offset [] ∷ x ∷ xs) h = h
read_dump_lem b buf (row offset (c ∷ cs) ∷ xs) h = h
read_dump_lem b buf (dots ∷ xs) h = h
read_dump_lem b buf (total n ∷ xs) h = h
