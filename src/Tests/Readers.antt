-- ===== src/Tests/Readers.antt =====
-- Files of lines at concrete inputs.
use archive_tar_builder.Prelude.{◌≡◌, refl, true, false, none, [], ◌∷◌, arith, codes, str_eq, map}
use archive_tar_builder.Matching.{add_lines, include}
use archive_tar_builder.LineReader.{Input, all_lines}
use archive_tar_builder.LineReader.Splits.{lines, emit, is_eol}
use archive_tar_builder.LineReader.Whole.{reader, all_lines-lines}
use archive_tar_builder.LineReader.Patterns.{include_path, include_path-lines}

-- "ab", CR, LF, "c", and no end of the last line
abbrev two_lines : Input
two_lines = record { content = b'a' ∷ b'b' ∷ 13 ∷ 10 ∷ b'c' ∷ []; fails = false }

all_lines-lines_example : all_lines 9 (reader two_lines false) ≡ lines false [] two_lines.content
all_lines-lines_example = all_lines-lines two_lines false 9 refl (omega arith) (omega arith)

two_lines_lem : lines false [] two_lines.content ≡ codes "ab" ∷ codes "c" ∷ []
unfolding lines emit is_eol
two_lines_lem = refl

-- With NUL alone at the end of lines, it is one line.
null_lines_lem : lines true [] two_lines.content ≡ two_lines.content ∷ []
unfolding lines emit is_eol
null_lines_lem = refl

include_path-lines_example :
    include_path true two_lines (λ path. none) none (codes "-") true
    ≡ add_lines include true none (map (λ s. (true, s)) (lines true [] two_lines.content))
unfolding str_eq
include_path-lines_example =
    include_path-lines two_lines two_lines (λ path. none) none (codes "-") true refl refl
      (omega arith)
