-- ===== src/LineReader/Patterns.antt =====
-- match_engine.c: the patterns of a file, read with the line reader.
use archive_tar_builder.Prelude.{
  ◌+◌, ◌^◌, ◌≡◌, ◌<◌, refl, ap, ◌∙◌, map, Bool, true, false, Option, none, some, [], Bytes, length,
  arith, codes, str_eq, if◌then◌else◌,
}
use archive_tar_builder.Matching.{
  LafeMatching, Lines, exclude, include, add_lines, exclude_from_file, include_from_file,
}
use archive_tar_builder.LineReader.{Input, LineReader, new, unread, all_lines}
use archive_tar_builder.LineReader.Splits.{lines}
use archive_tar_builder.LineReader.Whole.{reader, all_lines-lines}

-- What the loops over the lines of a pattern file are given, where malloc() grants the patterns.
unfoldable pub file_lines : Option LineReader → Option Lines
file_lines none = none
file_lines (some lr) = some (map (λ s. (true, s)) (all_lines (length (unread lr.file) + 1) lr))

-- lafe_exclude_from_file() and lafe_include_from_file(), from the path of the file on
unfoldable pub exclude_path :
    Bool → Input → (Bytes → Option Input) → Option LafeMatching → Bytes → Bool × Option LafeMatching
unfolding file_lines new
exclude_path granted stdin fopen matching pathname =
    exclude_from_file matching (file_lines (new granted stdin fopen pathname false))

unfoldable pub include_path :
    Bool
    → Input
    → (Bytes → Option Input)
    → Option LafeMatching
    → Bytes
    → Bool
    → Bool × Option LafeMatching
unfolding file_lines new
include_path granted stdin fopen matching pathname null_separator =
    include_from_file matching (file_lines (new granted stdin fopen pathname null_separator))

new-reader :
    (stdin f : Input) (fopen : Bytes → Option Input) (pathname : Bytes) (null : Bool)
    → (if str_eq pathname (codes "-") then some stdin else fopen pathname) ≡ some f
    → new true stdin fopen pathname null ≡ some (reader f null)
unfolding new
new-reader stdin f fopen pathname null e = rw e refl

file_lines-lines :
    (f : Input) (null : Bool)
    → f.fails ≡ false
    → length f.content < 2 ^ 62
    → file_lines (some (reader f null)) ≡ some (map (λ s. (true, s)) (lines null [] f.content))
unfolding file_lines unread
file_lines-lines f null sound small =
    ap (λ ls. some (map (λ s. (true, s)) ls))
      (all_lines-lines f null (length f.content + 1) sound small (omega arith))

-- The inclusions that are read from a file, or from standard input for "-", are its lines, added in
-- order; the file is read without an error and has less than 2^62 bytes, and memory is granted.
pub include_path-lines :
    (stdin f : Input) (fopen : Bytes → Option Input) (matching : Option LafeMatching)
    (pathname : Bytes) (null : Bool)
    → (if str_eq pathname (codes "-") then some stdin else fopen pathname) ≡ some f
    → f.fails ≡ false
    → length f.content < 2 ^ 62
    → include_path true stdin fopen matching pathname null
      ≡ add_lines include true matching (map (λ s. (true, s)) (lines null [] f.content))
unfolding include_path include_from_file
include_path-lines stdin f fopen matching pathname null e sound small =
    ap (λ r. include_from_file matching (file_lines r)) (new-reader stdin f fopen pathname null e)
    ∙ ap (include_from_file matching) (file_lines-lines f null sound small)

-- So are the exclusions, whose lines never end with NUL only.
pub exclude_path-lines :
    (stdin f : Input) (fopen : Bytes → Option Input) (matching : Option LafeMatching)
    (pathname : Bytes)
    → (if str_eq pathname (codes "-") then some stdin else fopen pathname) ≡ some f
    → f.fails ≡ false
    → length f.content < 2 ^ 62
    → exclude_path true stdin fopen matching pathname
      ≡ add_lines exclude true matching (map (λ s. (true, s)) (lines false [] f.content))
unfolding exclude_path exclude_from_file
exclude_path-lines stdin f fopen matching pathname e sound small =
    ap (λ r. exclude_from_file matching (file_lines r)) (new-reader stdin f fopen pathname false e)
    ∙ ap (exclude_from_file matching) (file_lines-lines f false sound small)
