-- ===== src/Builder/Options.antt =====
-- b_builder.c: what a caller sets and asks of a builder, and the patterns that it passes on.
use archive_tar_builder.Prelude.{ℕ, Bool, Option, none, some, Bytes}
use archive_tar_builder.Buffer.{Channel}
use archive_tar_builder.Errors.{Error}
use archive_tar_builder.Matching.{
  Matcher, Lines, LafeMatching, exclude, include, exclude_from_file, include_from_file, excluded,
}
use archive_tar_builder.Builder.{Builder, UserLookup, no_options}
use archive_tar_builder.Member.{HardlinkLookup}

unfoldable pub get_options : Option Builder → ℕ
get_options none = no_options
get_options (some b) = b.options

unfoldable pub set_options : Builder → ℕ → Builder
set_options b options = record b { options = options }

unfoldable pub get_error : Option Builder → Option Error
get_error none = none
get_error (some b) = some b.err

unfoldable pub get_buffer : Option Builder → Option Channel
get_buffer none = none
get_buffer (some b) = some b.ch

unfoldable pub set_data : Builder → ℕ → Builder
set_data b pointer = record b { caller_data = pointer }

unfoldable pub set_user_lookup : Builder → Option UserLookup → Builder
set_user_lookup b service = record b { user_lookup = service }

unfoldable pub set_hardlink_cache : Builder → Option (Bytes → HardlinkLookup) → Builder
set_hardlink_cache b service = record b { hardlink_lookup = service }

-- What the lists of patterns answer, and the builder with the lists behind it.
unfoldable pub with_matching : Builder → Bool × Option LafeMatching → Bool × Builder
with_matching b (answer, matching) = (answer, record b { matching = matching })

unfoldable pub is_excluded : Matcher → Builder → Bytes → Bool × Builder
unfolding with_matching
is_excluded matcher b path = with_matching b (excluded matcher b.matching path)

unfoldable pub builder_include : Bool → Builder → Bytes → Bool × Builder
unfolding with_matching
builder_include granted b pattern = with_matching b (include granted b.matching pattern)

unfoldable pub builder_include_from_file : Builder → Option Lines → Bool × Builder
unfolding with_matching
builder_include_from_file b lines = with_matching b (include_from_file b.matching lines)

unfoldable pub builder_exclude : Bool → Builder → Bytes → Bool × Builder
unfolding with_matching
builder_exclude granted b pattern = with_matching b (exclude granted b.matching pattern)

unfoldable pub builder_exclude_from_file : Builder → Option Lines → Bool × Builder
unfolding with_matching
builder_exclude_from_file b lines = with_matching b (exclude_from_file b.matching lines)
