-- ===== src/Tests/Patterns.antt =====
-- The matcher and the lists of patterns at concrete inputs.
use archive_tar_builder.Prelude.{
  Bool, ◌≡◌, refl, true, false, not, none, some, List, [], ◌∷◌, ◌++◌, arith, Bytes,
}
use archive_tar_builder.PathMatch.Class.{pm_list, scan, char_le}
use archive_tar_builder.PathMatch.Loop.{
  answer, overrun, inclusion_flags, exclusion_flags, skip_dot, pathmatch,
}
use archive_tar_builder.PathMatch.Safe.{pathmatch-answer}
use archive_tar_builder.PathMatch.Fuel.{Ends, pathmatch-Ends}
use archive_tar_builder.PathMatch.Literal.{AllOrdinary, has_component_prefix, any, all_starts}
use archive_tar_builder.PathMatch.Literals.{
  pathmatch-inclusion, pathmatch-exclusion, pathmatch-not_byte, not_byte,
}
use archive_tar_builder.PathMatch.Render.{ClassItem, single, range, render, member, pm_list-render}
use archive_tar_builder.Matching.{LafeMatching, exclude, excluded, unmatched_inclusions}
use archive_tar_builder.Matching.Verdict.{should_exclude, excluded-should_exclude}
use archive_tar_builder.Matching.Unmatched.{
  unmatched, IsCounted, IsCountedOption, ask_all, never_matched, unmatched_inclusions-ask_all,
  excluded-IsCounted,
}
use archive_tar_builder.Matching.Lafe.{lafe, excluded-name}

-- "ab" and "x/ab/c"
abbrev ab : Bytes
ab = b'a' ∷ b'b' ∷ []

abbrev inner : Bytes
inner = b'x' ∷ b'/' ∷ b'a' ∷ b'b' ∷ b'/' ∷ b'c' ∷ []

ab-AllOrdinary : AllOrdinary ab
ab-AllOrdinary = ground arith

-- "*[a-b]" on "ab"
pathmatch-Ends_example :
    Ends (pathmatch exclusion_flags (b'*' ∷ b'[' ∷ b'a' ∷ b'-' ∷ b'b' ∷ b']' ∷ []) ab)
pathmatch-Ends_example =
    pathmatch-Ends exclusion_flags (b'*' ∷ b'[' ∷ b'a' ∷ b'-' ∷ b'b' ∷ b']' ∷ []) ab

pathmatch-inclusion_example :
    pathmatch inclusion_flags ab inner ≡ answer (has_component_prefix ab (skip_dot inner))
pathmatch-inclusion_example = pathmatch-inclusion b'a' (b'b' ∷ []) ab-AllOrdinary inner

pathmatch-exclusion_example :
    pathmatch exclusion_flags ab inner
    ≡ answer (any (λ t. has_component_prefix ab (skip_dot t)) (all_starts inner))
pathmatch-exclusion_example = pathmatch-exclusion b'a' (b'b' ∷ []) ab-AllOrdinary inner

-- "*b?" on "ab"
pathmatch-answer_example :
    (b : Bool) × (pathmatch exclusion_flags (b'*' ∷ b'b' ∷ b'?' ∷ []) ab ≡ answer b)
pathmatch-answer_example =
    pathmatch-answer exclusion_flags (b'*' ∷ b'b' ∷ b'?' ∷ []) ab (ground arith)

-- "[!x]" behind the name
pathmatch-not_byte_example :
    (pathmatch inclusion_flags (ab ++ not_byte b'x') ab ≡ overrun)
    × (pathmatch exclusion_flags (ab ++ not_byte b'x') ab ≡ overrun)
pathmatch-not_byte_example =
    pathmatch-not_byte b'a' (b'b' ∷ []) b'x' ab-AllOrdinary (ground arith) (ground arith)
      (ground arith)

abbrev hex_class : List ClassItem
hex_class = range b'0' b'9' ∷ range b'a' b'f' ∷ single b'x' ∷ []

pm_list-render_example :
    (pm_list (render hex_class) b'c' ≡ member hex_class b'c')
    × (pm_list (b'!' ∷ render hex_class) b'c' ≡ not (member hex_class b'c'))
pm_list-render_example = pm_list-render hex_class b'c' (ground arith)

-- One exclusion and two inclusions, one of which has matched.
abbrev lists : LafeMatching
lists = record {
  exclusions = record { matches = 0; pattern = b'c' ∷ [] } ∷ [];
  exclusions_count = 1;
  inclusions =
      record { matches = 0; pattern = ab } ∷ record { matches = 2; pattern = b'x' ∷ [] } ∷ [];
  inclusions_count = 2;
  inclusions_unmatched_count = 1;
}

lists-IsCounted : IsCounted lists
unfolding unmatched
lists-IsCounted = record { exclusions_eq = refl; inclusions_eq = refl; unmatched_eq = refl }

excluded-should_exclude_example :
    (excluded (lafe false) (some lists) inner).0 ≡ should_exclude (lafe false) lists inner
excluded-should_exclude_example = excluded-should_exclude (lafe false) lists inner

excluded-IsCounted_example : IsCountedOption (excluded (lafe false) (some lists) ab).1
excluded-IsCounted_example = excluded-IsCounted (lafe false) (some lists) ab lists-IsCounted

unmatched_inclusions-ask_all_example :
    unmatched_inclusions (ask_all (lafe false) (some lists) (inner ∷ ab ∷ []))
    ≡ never_matched (lafe false) (inner ∷ ab ∷ []) lists.inclusions
unmatched_inclusions-ask_all_example =
    unmatched_inclusions-ask_all (lafe false) (inner ∷ ab ∷ []) (some lists) lists-IsCounted

excluded-name_example :
    (excluded (lafe false) (exclude true none ab).1 inner).0
    ≡ any (λ t. has_component_prefix ab (skip_dot t)) (all_starts inner)
excluded-name_example = excluded-name false b'a' (b'b' ∷ []) inner ab-AllOrdinary

-- "[\a-\c]" without its brackets
class_examples :
    (pm_list (b'a' ∷ b'-' ∷ b'c' ∷ []) b'b' ≡ true)
    × (pm_list (b'^' ∷ b'a' ∷ b'-' ∷ []) b'-' ≡ false)
unfolding pm_list scan char_le
class_examples = (refl, refl)
