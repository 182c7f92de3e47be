-- ===== src/LineReader.antt =====
-- match_line_reader.c: the lines of a file, read into a buffer that grows.
-- realloc(3) is granted. The buffer is cut at its pointers: `consumed` is how much is in front of
-- `line_start`, which is not read again, `line` goes from there to `line_end`, and `rest` from there to
-- `buff_end`, where a NUL stands. A line that is given stays as it is until the next call.
pub mod Splits
pub mod Reads
pub mod Found
pub mod Rounds
pub mod Whole
pub mod Patterns
use archive_tar_builder.Prelude.{
  ℕ, zero, suc, ◌+◌, ◌-◌, ◌*◌, ◌%◌, ◌^◌, Bool, true, false, not, ◌&&◌, ◌||◌, Option, none, some,
  List, [], ◌∷◌, ◌++◌, ◌==◌, ltb, leb, if◌then◌else◌, Bytes, length, take, drop, c_str, codes,
  str_eq,
}

-- An open file: the bytes from its offset on, and whether an error stands behind them, not the end.
pub record Input : Type 0 where
  pub content : Bytes
  pub fails : Bool

-- struct lafe_line_reader; `file` is NULL behind the end.
pub record LineReader : Type 0 where
  pub file : Option Input
  pub consumed : ℕ
  pub line : Bytes
  pub rest : Bytes
  pub buff_length : ℕ
  pub null_separator : Bool

-- lafe_line_reader(): `granted` answers calloc(), and `fopen` what stands at a path.
unfoldable pub new : Bool → Input → (Bytes → Option Input) → Bytes → Bool → Option LineReader
new granted stdin fopen pathname null_separator =
    let f = if str_eq pathname (codes "-") then some stdin else fopen pathname in
    if not granted then none else elim f [
      | none ↦ none
      | some input ↦ some (record {
        file = some input;
        consumed = 0;
        line = [];
        rest = [];
        buff_length = 8192;
        null_separator = null_separator;
      })
    ]

-- strcspn(3), with "" or with "\x0d\x0a"
unfoldable pub cspn : Bool → Bytes → ℕ
cspn null_separator [] = 0
cspn null_separator (c ∷ s) =
    let n = cspn null_separator s in
    if c == 0 || (not null_separator && (c == 13 || c == 10)) then 0 else suc n

-- `*line_end = '\0'`
unfoldable pub terminate : Bytes → Bytes
terminate [] = []
terminate (c ∷ s) = 0 ∷ s

unfoldable pub find_eol : LineReader → LineReader
unfolding cspn terminate
find_eol lr =
    let n = cspn lr.null_separator lr.rest in
    record lr { line = lr.line ++ take n lr.rest; rest = terminate (drop n lr.rest) }

-- `line_start[0] != '\0'`
unfoldable pub starts : Bytes → Bool
starts [] = false
starts (c ∷ s) = not (c == 0)

-- The line behind the one that ended: `line_start = ++line_end`, and the next end.
unfoldable pub step_over : LineReader → LineReader
unfolding find_eol
step_over lr =
    find_eol (record lr {
      consumed = lr.consumed + suc (length lr.line);
      line = [];
      rest = drop 1 lr.rest;
    })

-- The loop over the lines that are in the buffer, of which there are at most `n`.
unfoldable pub buffered : ℕ → LineReader → Option Bytes × LineReader
unfolding step_over starts
buffered zero lr = (none, lr)
buffered (suc n) lr =
    let later = buffered n (step_over lr) in
    if length lr.rest == 0
    then (none, lr)
    else if lr.null_separator || starts (lr.line ++ lr.rest)
    then (some (c_str (lr.line ++ lr.rest)), step_over lr)
    else later

-- What lafe_line_reader_next() answers: a line, NULL at the end, or -1. `out_of_fuel` belongs to the
-- model only.
pub data Answer : Type 0 where
  line : Bytes → Answer
  no_more : Answer
  failed : Answer
  out_of_fuel : Answer

-- A round of the outer loop
pub data Round : Type 0 where
  done : Answer → LineReader → Round
  again : LineReader → Round

-- Behind the end of the file
unfoldable pub final_data : LineReader → Round
final_data lr =
    let text = lr.line ++ lr.rest in
    if length text == 0
    then done no_more lr
    else done (line (c_str text))
        (record lr { consumed = lr.consumed + length text; line = []; rest = [] })

-- Room in the buffer: what was read is moved to its start, or it becomes twice as large. `none` is
-- ENOMEM.
unfoldable pub make_room : LineReader → Option LineReader
make_room lr =
    let size = (lr.buff_length * 2) % 2 ^ 64 in
    if ltb 0 lr.consumed
    then some (record lr { consumed = 0 })
    else if leb size lr.buff_length
    then none
    else some (record lr { buff_length = size })

-- fread(3) fills the free part of the buffer; less is the end of the file, or the error.
unfoldable pub refill : Input → LineReader → Round
unfolding find_eol
refill f lr =
    let wanted = lr.buff_length - length (lr.line ++ lr.rest) in
    let f' = record f { content = drop wanted f.content } in
    let filled = find_eol (record lr { rest = lr.rest ++ take wanted f.content }) in
    if ltb (length f.content) wanted
    then (if f.fails
        then done failed (record filled { file = some f' })
        else again (record filled { file = none }))
    else again (record filled { file = some f' })

unfoldable pub after_room : LineReader → Input → Option LineReader → Round
unfolding refill
after_room lr f none = done failed lr
after_room lr f (some lr') = refill f lr'

-- Behind the loop over the buffer, with or without a file
unfoldable pub without_line : Option Input → LineReader → Round
unfolding final_data make_room after_room
without_line none lr = final_data lr
without_line (some f) lr = after_room lr f (make_room lr)

unfoldable pub after_buffered : Option Bytes × LineReader → Round
unfolding without_line
after_buffered (some s, lr) = done (line s) lr
after_buffered (none, lr) = without_line lr.file lr

unfoldable pub round : LineReader → Round
unfolding buffered after_buffered
round lr = after_buffered (buffered (length lr.rest) lr)

unfoldable pub next_loop : ℕ → LineReader → Answer × LineReader
next_loop zero lr = (out_of_fuel, lr)
next_loop (suc fuel) lr = elim (round lr) [
  | done answer lr' ↦ (answer, lr')
  | again lr' ↦ next_loop fuel lr'
]

-- How much of the file is still to be read
unfoldable pub unread : Option Input → Bytes
unread none = []
unread (some f) = f.content

-- lafe_line_reader_next(). Each round but the last two reads at least a byte.
unfoldable pub next : LineReader → Answer × LineReader
unfolding next_loop unread
next lr = next_loop (length (unread lr.file) + 3) lr

-- A line in front of those behind it; at the end and on an error there are none.
unfoldable pub add_line : Answer → List Bytes → List Bytes
add_line (line s) rest = s ∷ rest
add_line no_more rest = []
add_line failed rest = []
add_line out_of_fuel rest = []

-- The loop of lafe_exclude_from_file() and of lafe_include_from_file() over the lines, at most `n`, to
-- the end or to an error.
unfoldable pub all_lines : ℕ → LineReader → List Bytes
unfolding add_line
all_lines zero lr = []
all_lines (suc n) lr = add_line (next lr).0 (all_lines n (next lr).1)
