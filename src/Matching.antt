-- ===== src/Matching.antt =====
-- match_engine.c: the inclusion and exclusion patterns of an archive, and which paths they leave out.
-- The path matcher is an interface; Matching/Lafe fills it with lafe_pathmatch().
pub mod Verdict
pub mod Unmatched
pub mod Lafe
use archive_tar_builder.Prelude.{
  ℕ, zero, suc, ◌+◌, ◌-◌, Bool, true, false, Option, none, some, List, [], ◌∷◌, ◌==◌, ltb, ◌&&◌,
  if◌then◌else◌, Bytes,
}
use archive_tar_builder.PathMatch.Loop.{Flags, inclusion_flags, exclusion_flags}

-- `path_match flags pattern path`
pub record Matcher : Type 0 where
  pub path_match : Flags → Bytes → Bytes → Bool

-- A node of the lists of patterns.
pub record Match : Type 0 where
  pub matches : ℕ
  pub pattern : Bytes

pub record LafeMatching : Type 0 where
  pub exclusions : List Match
  pub exclusions_count : ℕ
  pub inclusions : List Match
  pub inclusions_count : ℕ
  pub inclusions_unmatched_count : ℕ

-- initialize_matching(), whose allocation is granted
abbrev pub initialize_matching : LafeMatching
initialize_matching = record {
  exclusions = [];
  exclusions_count = 0;
  inclusions = [];
  inclusions_count = 0;
  inclusions_unmatched_count = 0;
}

-- `if (*matching == NULL) initialize_matching(matching);`
abbrev pub initialized : Option LafeMatching → LafeMatching
initialized none = initialize_matching
initialized (some m) = m

-- A trailing slash is dropped, so that "foo/" matches "foo/bar" as "foo" does.
unfoldable pub strip_slash : Bytes → Bytes
strip_slash [] = []
strip_slash (c ∷ []) = if c == b'/' then [] else c ∷ []
strip_slash (c ∷ d ∷ p) = c ∷ strip_slash (d ∷ p)

-- `granted` is what malloc() answers.
unfoldable pub add_pattern : Bool → List Match → Bytes → Option (List Match)
unfolding strip_slash
add_pattern granted list pattern =
    if granted then some (record { matches = 0; pattern = strip_slash pattern } ∷ list) else none

-- True is the return value 0, false is -1.
unfoldable pub exclude : Bool → Option LafeMatching → Bytes → Bool × Option LafeMatching
unfolding add_pattern
exclude granted matching pattern =
    let m = initialized matching in
    elim (add_pattern granted m.exclusions pattern) [
      | none ↦ (false, some m)
      | some list ↦
          (true, some (record m { exclusions = list; exclusions_count = m.exclusions_count + 1 }))
    ]

unfoldable pub include : Bool → Option LafeMatching → Bytes → Bool × Option LafeMatching
unfolding add_pattern
include granted matching pattern =
    let m = initialized matching in
    elim (add_pattern granted m.inclusions pattern) [
      | none ↦ (false, some m)
      | some list ↦ (
        true,
        some (record m {
          inclusions = list;
          inclusions_count = m.inclusions_count + 1;
          inclusions_unmatched_count = m.inclusions_unmatched_count + 1;
        }),
      )
    ]

-- The lines that the line reader gives, each with what malloc() answers for it.
abbrev pub Lines : Type 0
Lines = List (Bool × Bytes)

unfoldable pub add_lines :
    (Bool → Option LafeMatching → Bytes → Bool × Option LafeMatching)
    → Bool
    → Option LafeMatching
    → Lines
    → Bool × Option LafeMatching
add_lines add ret matching [] = (ret, matching)
add_lines add ret matching ((granted, p) ∷ lines) =
    let (added, matching') = add granted matching p in
    add_lines add (if added then ret else false) matching' lines

-- `none` for the lines: the reader could not be opened.
unfoldable pub exclude_from_file : Option LafeMatching → Option Lines → Bool × Option LafeMatching
unfolding add_lines exclude
exclude_from_file matching none = (false, matching)
exclude_from_file matching (some lines) = add_lines exclude true matching lines

unfoldable pub include_from_file : Option LafeMatching → Option Lines → Bool × Option LafeMatching
unfolding add_lines include
include_from_file matching none = (false, matching)
include_from_file matching (some lines) = add_lines include true matching lines

abbrev pub is_empty : List Match → Bool
is_empty [] = true
is_empty (_ ∷ _) = false

module _ (matcher : Matcher) where
  unfoldable pub match_exclusion : Match → Bytes → Bool
  match_exclusion m pathname = matcher.path_match exclusion_flags m.pattern pathname

  unfoldable pub match_inclusion : Match → Bytes → Bool
  match_inclusion m pathname = matcher.path_match inclusion_flags m.pattern pathname

  -- The first loop of lafe_excluded(): the list with the new matches marked, and how many they are.
  unfoldable pub mark_inclusions : Bytes → List Match → List Match × ℕ
  unfolding match_inclusion
  mark_inclusions pathname [] = ([], 0)
  mark_inclusions pathname (m ∷ list) =
      let (list', found) = mark_inclusions pathname list in
      if m.matches == 0 && match_inclusion m pathname
      then ((record m { matches = m.matches + 1 }) ∷ list', found + 1)
      else (m ∷ list', found)

  unfoldable pub any_exclusion : Bytes → List Match → Bool
  unfolding match_exclusion
  any_exclusion pathname [] = false
  any_exclusion pathname (m ∷ list) =
      if match_exclusion m pathname then true else any_exclusion pathname list

  -- The last loop: the first inclusion that had matched before and matches now is counted up.
  unfoldable pub match_again : Bytes → List Match → Bool × List Match
  unfolding match_inclusion
  match_again pathname [] = (false, [])
  match_again pathname (m ∷ list) =
      let (found, list') = match_again pathname list in
      if ltb 0 m.matches && match_inclusion m pathname
      then (true, (record m { matches = m.matches + 1 }) ∷ list)
      else (found, m ∷ list')

  -- lafe_excluded(): the verdict, and the marked lists.
  unfoldable pub excluded : Option LafeMatching → Bytes → Bool × Option LafeMatching
  excluded none pathname = (false, none)
  excluded (some m) pathname =
      let (marked, found) = mark_inclusions pathname m.inclusions in
      let m' = record m {
        inclusions = marked;
        inclusions_unmatched_count = m.inclusions_unmatched_count - found;
      } in
      let (again, counted) = match_again pathname marked in
      if any_exclusion pathname m.exclusions
      then (true, some m')
      else if ltb 0 found
      then (false, some m')
      else if again
      then (false, some (record m' { inclusions = counted }))
      else if is_empty marked
      then (false, some m')
      else (true, some m')

-- lafe_unmatched_inclusions()
unfoldable pub unmatched_inclusions : Option LafeMatching → ℕ
unmatched_inclusions none = 0
unmatched_inclusions (some m) = m.inclusions_unmatched_count

-- lafe_cleanup_exclusions()
abbrev pub cleanup_exclusions : Option LafeMatching → Option LafeMatching
cleanup_exclusions matching = none
