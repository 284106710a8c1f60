-- ===== src/Utils/Dump/RoundTrip.antt =====
-- The buffer can be read back from what `amqp_dump` of utils.cpp prints.
use rabbitmq_work.Base.{
  ℕ, ◌+◌, ◌-◌, ◌≤◌, ◌≡◌, Bool, true, false, ◌==◌, List, [], ◌∷◌, ◌++◌, append_assoc, some, length,
  length-append, arith, refl, ap, ◌∙◌, inl, inr, Bool-cases, ==_iff,
}
use rabbitmq_work.Amqp.{Bytes}
use rabbitmq_work.Session.{Log, Oracle, M, ok, ◌>>=◌}
use rabbitmq_work.Utils.Dump.{DumpState, rows_eq, zeros, end_row, dump_loop, dump_end, amqp_dump}
use rabbitmq_work.Utils.Dump.Reading.{
  Line, row, dots, total, line_events, write_lines, dump_row_lem, repeat_row, put_before, read_dump,
}
use rabbitmq_work.Utils.Dump.Rows.{
  read_dump_lem, read_row, read_total, not_empty, repeat-Reads, read_dots, Reads,
}

abbrev state : ℕ → Bytes → Bytes → Bool → DumpState
state n chs old d = record { count = n; chs = chs; oldchs = old; showed_dots = d }

module _ (isprint : ℕ → Bool) (o : Oracle) where
  end_row_again :
      (n : ℕ) (chs old : Bytes) (l : Log)
      → rows_eq old chs ≡ true
      → end_row isprint (state n chs old true) o l ≡ (ok (state n [] chs true), l)
  unfolding end_row
  end_row_again n chs old l e = rw e refl

  end_row_dots :
      (n : ℕ) (chs old : Bytes) (l : Log)
      → rows_eq old chs ≡ true
      → end_row isprint (state n chs old false) o l
        ≡ (ok (state n [] chs true), write_lines isprint (dots ∷ []) l)
  unfolding end_row line_events
  end_row_dots n chs old l e = rw e refl

  end_row_shown :
      (n : ℕ) (chs old : Bytes) (d : Bool) (l : Log)
      → rows_eq old chs ≡ false
      → end_row isprint (state n chs old d) o l
        ≡ (ok (state n [] chs false), write_lines isprint (row (n - length chs) chs ∷ []) l)
  unfolding end_row
  end_row_shown n chs old d l e = rw (e, dump_row_lem isprint n chs o l) refl

  abbrev tail : Bytes → DumpState → M (Unit {0})
  tail buf s = dump_loop isprint buf s >>= dump_end isprint

  record Dumped (buf : Bytes) (n : ℕ) (chs old : Bytes) (d : Bool) (l : Log) : Type 0 where
    lines : List Line
    printed : tail buf (state n chs old d) o l ≡ (ok tt, write_lines isprint lines l)
    reads : Reads d old chs (n - length chs) buf lines

  end_lines : ℕ → ℕ → Bytes → List Line
  end_lines n ch chs = row (n - length (ch ∷ chs)) (ch ∷ chs) ∷ total n ∷ []

  dump_end_lem :
      (n ch : ℕ) (chs old : Bytes) (d : Bool) (l : Log)
      → dump_end isprint (state n (ch ∷ chs) old d) o l
        ≡ (ok tt, write_lines isprint (end_lines n ch chs) l)
  unfolding dump_end end_lines line_events
  dump_end_lem n ch chs old d l =
      rw (dump_row_lem isprint n (ch ∷ chs) o l, not_empty (length chs)) refl

  end-Reads :
      (n ch : ℕ) (chs old : Bytes) (d : Bool)
      → length (ch ∷ chs) ≤ n
      → Reads d old (ch ∷ chs) (n - length (ch ∷ chs)) [] (end_lines n ch chs)
  unfolding end_lines
  end-Reads n ch chs old d h m k e f =
      let back : n - length (ch ∷ chs) + length (ch ∷ chs) ≡ n = omega (arith, h) in
      read_row d m k _ old (ch ∷ chs) (total n ∷ []) e f
      ∙ rw (back, read_total n (ch ∷ chs))
          (ap (λ (t : Bytes). some t) (append_assoc (repeat_row k old) (ch ∷ chs) []))

  end-Dumped :
      (n ch : ℕ) (chs old : Bytes) (d : Bool) (l : Log)
      → length (ch ∷ chs) ≤ n
      → Dumped [] n (ch ∷ chs) old d l
  unfolding dump_loop
  end-Dumped n ch chs old d l h = record {
    lines = end_lines n ch chs;
    printed = dump_end_lem n ch chs old d l;
    reads = end-Reads n ch chs old d h;
  }

  byte-Dumped :
      (b : ℕ) (buf : Bytes) (n : ℕ) (chs old : Bytes) (d : Bool) (l : Log)
      → length chs ≤ n
      → (length chs == 16) ≡ false
      → Dumped buf (n + 1) (chs ++ b ∷ []) old d l
      → Dumped (b ∷ buf) n chs old d l
  unfolding dump_loop
  byte-Dumped b buf n chs old d l h short ih =
      let same_offset : n + 1 - length (chs ++ b ∷ []) ≡ n - length chs =
        omega (arith, h, length-append {0} chs (b ∷ [])) in
      record {
        lines = ih.lines;
        printed = rw short ih.printed;
        reads = λ m k e f.
            ih.reads m k (same_offset ∙ e) f
            ∙ ap (λ (t : Bytes). some (repeat_row k old ++ t)) (append_assoc chs (b ∷ []) buf);
      }

  -- The three ways in which a full row ends, before the byte `b`.
  again-Dumped :
      (b : ℕ) (buf : Bytes) (n : ℕ) (chs old : Bytes) (l : Log)
      → length chs ≡ 16
      → length chs ≤ n
      → rows_eq old chs ≡ true
      → Dumped buf (n + 1) (b ∷ []) chs true l
      → Dumped (b ∷ buf) n chs old true l
  unfolding dump_loop
  again-Dumped b buf n chs old l full h e ih = record {
    lines = ih.lines;
    printed = rw ((==_iff (length chs) 16).1 full, end_row_again n chs old l e) ih.printed;
    reads = λ m k p f. repeat-Reads b buf n chs old ih.lines full h e ih.reads m k p;
  }

  dots-Dumped :
      (b : ℕ) (buf : Bytes) (n : ℕ) (chs old : Bytes) (l : Log)
      → length chs ≡ 16
      → length chs ≤ n
      → rows_eq old chs ≡ true
      → Dumped buf (n + 1) (b ∷ []) chs true (write_lines isprint (dots ∷ []) l)
      → Dumped (b ∷ buf) n chs old false l
  unfolding dump_loop
  dots-Dumped b buf n chs old l full h e ih = record {
    lines = dots ∷ ih.lines;
    printed = rw ((==_iff (length chs) 16).1 full, end_row_dots n chs old l e) ih.printed;
    reads = λ m k p f.
        read_dots m old ih.lines ∙ repeat-Reads b buf n chs old ih.lines full h e ih.reads m k p;
  }

  shown-Dumped :
      (b : ℕ) (buf : Bytes) (n : ℕ) (chs old : Bytes) (d : Bool) (l : Log)
      → length chs ≡ 16
      → length chs ≤ n
      → rows_eq old chs ≡ false
      → Dumped buf
          (n + 1)
          (b ∷ [])
          chs
          false
          (write_lines isprint (row (n - length chs) chs ∷ []) l)
      → Dumped (b ∷ buf) n chs old d l
  unfolding dump_loop
  shown-Dumped b buf n chs old d l full h e ih = record {
    lines = row (n - length chs) chs ∷ ih.lines;
    printed = rw ((==_iff (length chs) 16).1 full, end_row_shown n chs old d l e) ih.printed;
    reads = λ m k p f.
        read_row d m k (n - length chs) old chs ih.lines p f
        ∙ ap (put_before (repeat_row k old ++ chs))
            (ih.reads (n - length chs + length chs) 0 (omega (arith, h)) refl)
        ∙ ap (λ (t : Bytes). some t) (append_assoc (repeat_row k old) chs (b ∷ buf));
  }

  full-Dumped :
      (b : ℕ) (buf : Bytes) (n : ℕ) (chs old : Bytes) (d : Bool) (l : Log)
      → length chs ≡ 16
      → length chs ≤ n
      → ((d' : Bool) (l' : Log) → Dumped buf (n + 1) (b ∷ []) chs d' l')
      → Dumped (b ∷ buf) n chs old d l
  full-Dumped b buf n chs old true l full h ih = elim (Bool-cases (rows_eq old chs)) [
    | inl e ↦ again-Dumped b buf n chs old l full h e (ih true l)
    | inr e ↦ shown-Dumped b buf n chs old true l full h e (ih false _)
  ]
  full-Dumped b buf n chs old false l full h ih = elim (Bool-cases (rows_eq old chs)) [
    | inl e ↦ dots-Dumped b buf n chs old l full h e (ih true _)
    | inr e ↦ shown-Dumped b buf n chs old false l full h e (ih false _)
  ]

  loop-Dumped :
      (buf : Bytes) (n ch : ℕ) (chs old : Bytes) (d : Bool) (l : Log)
      → length (ch ∷ chs) ≤ n
      → Dumped buf n (ch ∷ chs) old d l
  loop-Dumped [] n ch chs old d l h = end-Dumped n ch chs old d l h
  loop-Dumped (b ∷ buf) n ch chs old d l h = elim (Bool-cases (length (ch ∷ chs) == 16)) [
    | inl full ↦
        full-Dumped b buf n (ch ∷ chs) old d l ((==_iff (length (ch ∷ chs)) 16).0 full) h
          (λ d' l'. loop-Dumped buf (n + 1) b [] (ch ∷ chs) d' l' (omega arith))
    | inr short ↦ byte-Dumped b buf n (ch ∷ chs) old d l h short (
        loop-Dumped buf (n + 1) ch (chs ++ b ∷ []) old d l
          (omega (arith, h, length-append {0} chs (b ∷ []))))
  ]

  empty_lem : (l : Log) → amqp_dump isprint [] o l ≡ (ok tt, write_lines isprint (row 0 [] ∷ []) l)
  unfolding amqp_dump dump_loop dump_end
  empty_lem l = rw (dump_row_lem isprint 0 [] o l) refl

  amqp_dump-tail :
      (b : ℕ) (buf : Bytes) (l : Log)
      → amqp_dump isprint (b ∷ buf) o l ≡ tail buf (state 1 (b ∷ []) (zeros 16) false) o l
  unfolding amqp_dump dump_loop
  amqp_dump-tail b buf l = refl

  -- `amqp_dump` returns for every buffer, and what it prints is a dump that gives the buffer back:
  -- a reader who takes the offsets, the bytes of the rows shown, and for every gap between offsets,
  -- which is marked by dots exactly once, the row before it again, has the buffer, no byte more or
  -- less.
  pub amqp_dump_reads :
      (buf : Bytes) (l : Log)
      → (ls : List Line) × (amqp_dump isprint buf o l ≡ (ok tt, write_lines isprint ls l))
        × (read_dump ls ≡ some buf)
  unfolding read_dump
  amqp_dump_reads [] l = (row 0 [] ∷ [], empty_lem l, refl)
  amqp_dump_reads (b ∷ buf) l =
      let whole = loop-Dumped buf 1 b [] (zeros 16) false l (omega arith) in
      (
        whole.lines,
        amqp_dump-tail b buf l ∙ whole.printed,
        read_dump_lem b buf whole.lines (whole.reads 0 0 refl refl),
      )
