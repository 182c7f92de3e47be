-- ===== src/LineReader/Reads.antt =====
-- lafe_line_reader_next() gives the lines of the file, however they fall into the buffer.
use archive_tar_builder.Prelude.{
  ℕ, suc, ◌+◌, ◌^◌, ◌≡◌, ◌<◌, ◌⊎◌, refl, sym, ap, ◌∙◌, false, Option, none, some, List, [], ◌∷◌,
  ◌++◌, Bytes, length, take, drop, arith, inl, inr, length-append, length-take, length-drop,
}
use archive_tar_builder.LineReader.{Input, LineReader, cspn, terminate, find_eol, step_over, unread}
use archive_tar_builder.LineReader.Splits.{
  emit, lines, IsPlain, IsPlain-append, cspn-IsPlain, lines-find_eol, lines-eol, eol_nul,
}

-- The lines that are still to be given.
abbrev pub remaining : LineReader → List Bytes
remaining lr = lines lr.null_separator lr.line (lr.rest ++ unread lr.file)

-- The bytes in the buffer, those in front of the line too
abbrev pub held : LineReader → ℕ
held lr = lr.consumed + length lr.line + length lr.rest

-- The file can be read without an error, and the buffer is full, as long as the end was not seen; at
-- first it is not there.
abbrev pub Filled : Option Input → LineReader → Type 0
Filled none lr = Unit {0}
Filled (some f) lr =
    (f.fails ≡ false)
    × (0 < lr.buff_length)
    × ((held lr ≡ lr.buff_length) ⊎ ((held lr ≡ 0) × (lr.buff_length ≡ 8192)))

-- The reader between its calls: the line goes to a NUL or to the end of the buffer, and what is in the
-- buffer and in the file has less than 2^62 bytes.
pub record IsReady (lr : LineReader) : Type 0 where
  pub plain : IsPlain lr.null_separator lr.line
  pub tail : Bytes
  pub rest_eq : lr.rest ≡ terminate tail
  pub small : held lr + length (unread lr.file) < 2 ^ 62
  pub filled : Filled lr.file lr

pub length-terminate : (s : Bytes) → length (terminate s) ≡ length s
unfolding terminate
length-terminate [] = refl
length-terminate (c ∷ s) = refl

pub find_eol-held : (lr : LineReader) → held (find_eol lr) ≡ held lr
unfolding find_eol
find_eol-held lr =
    let n = cspn lr.null_separator lr.rest in
    omega (
      arith,
      length-append lr.line (take n lr.rest),
      length-terminate (drop n lr.rest),
      length-take n lr.rest,
      length-drop n lr.rest,
    )

pub find_eol-remaining : (lr : LineReader) → remaining (find_eol lr) ≡ remaining lr
unfolding find_eol
find_eol-remaining lr = sym (lines-find_eol lr.null_separator lr.line lr.rest (unread lr.file))

Filled-held :
    (file : Option Input) (lr lr' : LineReader)
    → held lr ≡ held lr'
    → lr.buff_length ≡ lr'.buff_length
    → Filled file lr
    → Filled file lr'
Filled-held none lr lr' e f h = tt
Filled-held (some input) lr lr' e f (sound, size, inl full) =
    (sound, omega (arith, f, size), inl (omega (arith, e, f, full)))
Filled-held (some input) lr lr' e f (sound, size, inr fresh) =
    (sound, omega (arith, f, size), inr (omega (arith, e, fresh.0), omega (arith, f, fresh.1)))

-- Behind the search for the end of the line the reader is ready.
pub find_eol-IsReady :
    (lr : LineReader)
    → IsPlain lr.null_separator lr.line
    → held lr + length (unread lr.file) < 2 ^ 62
    → Filled lr.file lr
    → IsReady (find_eol lr)
unfolding find_eol
find_eol-IsReady lr plain small filled =
    let n = cspn lr.null_separator lr.rest in
    record {
      plain =
          IsPlain-append lr.null_separator lr.line (take n lr.rest) plain
            (cspn-IsPlain lr.null_separator lr.rest);
      tail = drop n lr.rest;
      rest_eq = refl;
      small = omega (arith, small, find_eol-held lr);
      filled = Filled-held lr.file lr (find_eol lr) (sym (find_eol-held lr)) refl filled;
    }

-- The reader with the line that ended taken off
abbrev taken_off : LineReader → LineReader
taken_off lr = record lr {
  consumed = lr.consumed + suc (length lr.line);
  line = [];
  rest = drop 1 lr.rest;
}

taken_off-held : (lr : LineReader) → 0 < length lr.rest → held (taken_off lr) ≡ held lr
taken_off-held lr more = omega (arith, length-drop 1 lr.rest)

pub step_over-IsReady : (lr : LineReader) → IsReady lr → 0 < length lr.rest → IsReady (step_over lr)
unfolding step_over IsPlain
step_over-IsReady lr h more =
    find_eol-IsReady (taken_off lr) tt (omega (arith, h.small, taken_off-held lr more))
      (Filled-held lr.file lr (taken_off lr) (sym (taken_off-held lr more)) refl h.filled)

pub terminated : (s t : Bytes) → t ≡ terminate s → 0 < length t → t ≡ 0 ∷ drop 1 t
unfolding terminate
terminated [] t e more = absurd (omega (arith, ap length e))
terminated (c ∷ s) t e more = e ∙ ap (λ r. 0 ∷ drop 1 r) (sym e)

pub step_over-remaining :
    (lr : LineReader)
    → IsReady lr
    → 0 < length lr.rest
    → remaining lr ≡ emit lr.null_separator lr.line (remaining (step_over lr))
unfolding step_over
step_over-remaining lr h more =
    let null = lr.null_separator in
    ap (λ r. lines null lr.line (r ++ unread lr.file)) (terminated h.tail lr.rest h.rest_eq more)
    ∙ lines-eol null lr.line 0 (drop 1 lr.rest ++ unread lr.file) (eol_nul null)
    ∙ ap (emit null lr.line) (sym (find_eol-remaining (taken_off lr)))
