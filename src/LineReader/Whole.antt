-- ===== src/LineReader/Whole.antt =====
-- All lines of a file, call by call.
use archive_tar_builder.Prelude.{
  ℕ, zero, suc, ◌+◌, ◌^◌, ◌≡◌, ◌≤◌, ◌<◌, refl, sym, ap, ◌∙◌, Bool, false, not, ◌||◌, Option, none,
  some, List, [], ◌∷◌, ◌++◌, Bytes, length, arith, inl, inr, ◌==◌, Bool-cases, length-append,
}
use archive_tar_builder.LineReader.{
  Input, LineReader, Answer, line, no_more, failed, out_of_fuel, Round, done, again, round,
  next_loop, unread, next, add_line, all_lines, terminate,
}
use archive_tar_builder.LineReader.Splits.{lines, emit, IsPlain, is_eol}
use archive_tar_builder.LineReader.Reads.{remaining, IsReady}
use archive_tar_builder.LineReader.Rounds.{measure, Sound, round-Sound}

-- What a call answers: the next line, with the others to come, or that there is none.
abbrev pub Answered : LineReader → Answer × LineReader → Type 0
Answered lr (line s, lr') =
    IsReady lr' × (lr'.null_separator ≡ lr.null_separator) × (remaining lr ≡ s ∷ remaining lr')
Answered lr (no_more, lr') = remaining lr ≡ []
Answered lr (failed, lr') = ⊥
Answered lr (out_of_fuel, lr') = ⊥

after_round :
    (fuel : ℕ) (lr : LineReader) (r : Round)
    → round lr ≡ r
    → Sound lr r
    → ((lr' : LineReader)
        → IsReady lr'
        → measure lr'.file < measure lr.file
        → Answered lr' (next_loop fuel lr'))
    → Answered lr (next_loop (suc fuel) lr)
unfolding next_loop
after_round fuel lr (done (line s) lr') e h rest = rw (e, next_loop) h
after_round fuel lr (done no_more lr') e h rest = rw (e, next_loop) h
after_round fuel lr (done failed lr') e h rest = absurd h
after_round fuel lr (done out_of_fuel lr') e h rest = absurd h
after_round fuel lr (again lr') e (ready, mode, same, less) rest =
    rw (e, next_loop) (answered lr' (next_loop fuel lr') mode same (rest lr' ready less))
  where
    answered :
        (lr' : LineReader) (a : Answer × LineReader)
        → lr'.null_separator ≡ lr.null_separator
        → remaining lr ≡ remaining lr'
        → Answered lr' a
        → Answered lr a
    answered lr' (line s, lr'') m k a = (a.0, a.1 ∙ m, k ∙ a.2)
    answered lr' (no_more, lr'') m k a = k ∙ a
    answered lr' (failed, lr'') m k a = a
    answered lr' (out_of_fuel, lr'') m k a = a

next_loop-Answered :
    (fuel : ℕ) (lr : LineReader)
    → IsReady lr
    → measure lr.file < fuel
    → Answered lr (next_loop fuel lr)
next_loop-Answered zero lr h enough = absurd (omega arith)
next_loop-Answered (suc fuel) lr h enough =
    after_round fuel lr (round lr) refl (round-Sound lr h)
      (λ lr' ready less. next_loop-Answered fuel lr' ready (omega (arith, less)))

measure-unread : (file : Option Input) → measure file < length (unread file) + 3
unfolding unread
measure-unread none = omega arith
measure-unread (some f) = omega arith

-- lafe_line_reader_next() answers: for a reader that is ready, whose file is read without an error, it
-- gives the first of the lines that are to come, and leaves the reader ready for the others, or says
-- that there is none.
pub next-Answered : (lr : LineReader) → IsReady lr → Answered lr (next lr)
unfolding next
next-Answered lr h = next_loop-Answered (length (unread lr.file) + 3) lr h (measure-unread lr.file)

after_next :
    (n : ℕ) (lr : LineReader) (a : Answer × LineReader)
    → next lr ≡ a
    → Answered lr a
    → ((lr' : LineReader)
        → IsReady lr'
        → length (remaining lr') < length (remaining lr)
        → all_lines n lr' ≡ remaining lr')
    → all_lines (suc n) lr ≡ remaining lr
unfolding all_lines add_line
after_next n lr (line s, lr') e (ready, mode, same) rest =
    ap (λ a. add_line a.0 (all_lines n a.1)) e
    ∙ ap (λ ls. s ∷ ls) (rest lr' ready (omega (arith, ap length same)))
    ∙ sym same
after_next n lr (no_more, lr') e none_left rest =
    ap (λ a. add_line a.0 (all_lines n a.1)) e ∙ sym none_left
after_next n lr (failed, lr') e h rest = absurd h
after_next n lr (out_of_fuel, lr') e h rest = absurd h

all_lines-remaining :
    (n : ℕ) (lr : LineReader)
    → IsReady lr
    → length (remaining lr) < n
    → all_lines n lr ≡ remaining lr
all_lines-remaining zero lr h enough = absurd (omega arith)
all_lines-remaining (suc n) lr h enough =
    after_next n lr (next lr) refl (next-Answered lr h)
      (λ lr' ready less. all_lines-remaining n lr' ready (omega (arith, less, enough)))

length-emit :
    (null : Bool) (l : Bytes) (rest : List Bytes) → length (emit null l rest) ≤ suc (length rest)
unfolding emit
length-emit null l rest = elim (Bool-cases (null || not (length l == 0))) [
  | inl e ↦ rw e (omega arith)
  | inr e ↦ rw e (omega arith)
]

-- There are no more lines than bytes.
length-lines : (null : Bool) (l s : Bytes) → length (lines null l s) ≤ length l + length s
unfolding lines
length-lines null l [] = elim (Bool-cases (length l == 0)) [
  | inl e ↦ rw e (omega arith)
  | inr e ↦ rw e (ground arith)
]
length-lines null l (c ∷ s) = elim (Bool-cases (is_eol null c)) [
  | inl e ↦ rw e (omega (arith, length-emit null l (lines null [] s), length-lines null [] s))
  | inr e ↦ rw e (omega (arith, length-lines null (l ++ c ∷ []) s, length-append l (c ∷ [])))
]

-- A new reader of a file
abbrev pub reader : Input → Bool → LineReader
reader f null = record {
  file = some f;
  consumed = 0;
  line = [];
  rest = [];
  buff_length = 8192;
  null_separator = null;
}

reader-IsReady :
    (f : Input) (null : Bool)
    → f.fails ≡ false
    → length f.content < 2 ^ 62
    → IsReady (reader f null)
unfolding IsPlain unread terminate
reader-IsReady f null sound small = record {
  plain = tt;
  tail = [];
  rest_eq = refl;
  small = omega (arith, small);
  filled = (sound, omega arith, inr (refl, refl));
}

-- The lines that a new reader gives, one call after the other, are those of the file: it is cut at NUL,
-- and unless lines end with NUL at CR and LF too, where lines without bytes are left out; whatever
-- the lengths of the lines and however they fall into the buffer. The file is read without an error and
-- has less than 2^62 bytes, and a call for each byte and one more are enough.
pub all_lines-lines :
    (f : Input) (null : Bool) (n : ℕ)
    → f.fails ≡ false
    → length f.content < 2 ^ 62
    → length f.content < n
    → all_lines n (reader f null) ≡ lines null [] f.content
unfolding unread
all_lines-lines f null n sound small enough =
    all_lines-remaining n (reader f null) (reader-IsReady f null sound small)
      (omega (arith, length-lines null [] f.content))
