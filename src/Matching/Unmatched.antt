-- ===== src/Matching/Unmatched.antt =====
-- The counts of match_engine.c, and what lafe_unmatched_inclusions() says after a run.
use archive_tar_builder.Prelude.{
  ℕ, ◌+◌, ◌≡◌, refl, sym, ◌∙◌, Bool, true, false, not, Option, none, some, List, [], ◌∷◌, arith,
  ◌==◌, ◌&&◌, ◌||◌, if◌then◌else◌, Bytes, length,
}
use archive_tar_builder.PathMatch.Loop.{inclusion_flags}
use archive_tar_builder.Matching.{
  Matcher, Match, LafeMatching, initialized, mark_inclusions, match_again, exclude, include,
  excluded, unmatched_inclusions,
}

-- The inclusions that have matched nothing so far.
unfoldable pub unmatched : List Match → ℕ
unmatched [] = 0
unmatched (m ∷ list) = (if m.matches == 0 then 1 else 0) + unmatched list

-- The counts of the structure are those of its lists.
pub record IsCounted (m : LafeMatching) : Type 0 where
  pub exclusions_eq : m.exclusions_count ≡ length m.exclusions
  pub inclusions_eq : m.inclusions_count ≡ length m.inclusions
  pub unmatched_eq : m.inclusions_unmatched_count ≡ unmatched m.inclusions

-- So for a structure that may not be there yet.
abbrev pub IsCountedOption : Option LafeMatching → Type 0
IsCountedOption none = Unit {0}
IsCountedOption (some m) = IsCounted m

initialized-IsCounted : (m : Option LafeMatching) → IsCountedOption m → IsCounted (initialized m)
unfolding unmatched
initialized-IsCounted none h = omega arith
initialized-IsCounted (some m) h = h

-- lafe_exclude() keeps the counts of the structure those of its lists, whatever malloc() answers.
pub exclude-IsCounted :
    (granted : Bool) (m : Option LafeMatching) (pattern : Bytes)
    → IsCountedOption m
    → IsCountedOption (exclude granted m pattern).1
unfolding exclude unmatched
exclude-IsCounted true m pattern h =
    let k = initialized-IsCounted m h in
    omega (arith, k.exclusions_eq, k.inclusions_eq, k.unmatched_eq)
exclude-IsCounted false m pattern h = initialized-IsCounted m h

-- lafe_include() keeps the counts of the structure those of its lists, whatever malloc() answers.
pub include-IsCounted :
    (granted : Bool) (m : Option LafeMatching) (pattern : Bytes)
    → IsCountedOption m
    → IsCountedOption (include granted m pattern).1
unfolding include unmatched
include-IsCounted true m pattern h =
    let k = initialized-IsCounted m h in
    ground (arith, k.exclusions_eq, k.inclusions_eq, k.unmatched_eq)
include-IsCounted false m pattern h = initialized-IsCounted m h

unmatched_inclusions-none : unmatched_inclusions none ≡ 0
unfolding unmatched_inclusions
unmatched_inclusions-none = refl

unmatched_inclusions-some :
    (m : LafeMatching) → unmatched_inclusions (some m) ≡ m.inclusions_unmatched_count
unfolding unmatched_inclusions
unmatched_inclusions-some m = refl

module _ (matcher : Matcher) where
  mark-counts :
      (path : Bytes) (list : List Match)
      → let (marked, found) = mark_inclusions matcher path list in
        (unmatched marked + found ≡ unmatched list) × (length marked ≡ length list)
  unfolding mark_inclusions unmatched
  mark-counts path [] = omega arith
  mark-counts path (m ∷ list) = ground (arith, mark-counts path list)

  again-counts :
      (path : Bytes) (list : List Match)
      → (unmatched (match_again matcher path list).1 ≡ unmatched list)
        × (length (match_again matcher path list).1 ≡ length list)
  unfolding match_again unmatched
  again-counts path [] = omega arith
  again-counts path (m ∷ list) = ground (arith, again-counts path list)

  -- lafe_excluded() keeps the counts of the structure those of its lists.
  pub excluded-IsCounted :
      (m : Option LafeMatching) (path : Bytes)
      → IsCountedOption m
      → IsCountedOption (excluded matcher m path).1
  unfolding excluded
  excluded-IsCounted none path h = tt
  excluded-IsCounted (some m) path h = ground (
    arith,
    mark-counts path m.inclusions,
    again-counts path (mark_inclusions matcher path m.inclusions).0,
  )

  -- lafe_excluded() asked about each path in turn
  unfoldable pub ask_all : Option LafeMatching → List Bytes → Option LafeMatching
  ask_all m [] = m
  ask_all m (path ∷ paths) = ask_all (excluded matcher m path).1 paths

  unfoldable pub any_path : Bytes → List Bytes → Bool
  any_path pattern [] = false
  any_path pattern (path ∷ paths) =
      matcher.path_match inclusion_flags pattern path || any_path pattern paths

  -- The inclusions that had matched nothing before and match none of the paths.
  unfoldable pub never_matched : List Bytes → List Match → ℕ
  unfolding any_path
  never_matched paths [] = 0
  never_matched paths (m ∷ list) =
      (if m.matches == 0 && not (any_path m.pattern paths) then 1 else 0) + never_matched paths list

  never_matched-nil : (list : List Match) → never_matched [] list ≡ unmatched list
  unfolding never_matched unmatched
  never_matched-nil [] = refl
  never_matched-nil (m ∷ list) = ground (arith, never_matched-nil list)

  never_matched-again :
      (path : Bytes) (paths : List Bytes) (list : List Match)
      → never_matched paths (match_again matcher path list).1 ≡ never_matched paths list
  unfolding match_again never_matched
  never_matched-again path paths [] = refl
  never_matched-again path paths (m ∷ list) = ground (arith, never_matched-again path paths list)

  never_matched-mark :
      (path : Bytes) (paths : List Bytes) (list : List Match)
      → never_matched paths (mark_inclusions matcher path list).0
        ≡ never_matched (path ∷ paths) list
  unfolding mark_inclusions never_matched
  never_matched-mark path paths [] = refl
  never_matched-mark path paths (m ∷ list) = ground (arith, never_matched-mark path paths list)

  never_matched-no_list : (paths : List Bytes) → never_matched paths [] ≡ 0
  unfolding never_matched
  never_matched-no_list paths = refl

  abbrev pub inclusions_of : Option LafeMatching → List Match
  inclusions_of none = []
  inclusions_of (some m) = m.inclusions

  never_matched-excluded :
      (path : Bytes) (paths : List Bytes) (m : Option LafeMatching)
      → never_matched paths (inclusions_of (excluded matcher m path).1)
        ≡ never_matched (path ∷ paths) (inclusions_of m)
  unfolding excluded
  never_matched-excluded path paths none =
      never_matched-no_list paths ∙ sym (never_matched-no_list (path ∷ paths))
  never_matched-excluded path paths (some m) = ground (
    arith,
    never_matched-mark path paths m.inclusions,
    never_matched-again path paths (mark_inclusions matcher path m.inclusions).0,
  )

  -- If the counts are right, then after lafe_excluded() was asked about each path in turn
  -- lafe_unmatched_inclusions() is the number of the inclusions that had matched nothing before and
  -- match none of the paths.
  pub unmatched_inclusions-ask_all :
      (paths : List Bytes) (m : Option LafeMatching)
      → IsCountedOption m
      → unmatched_inclusions (ask_all m paths) ≡ never_matched paths (inclusions_of m)
  unfolding ask_all
  unmatched_inclusions-ask_all [] none h = no_inclusions
    where
      no_inclusions : unmatched_inclusions none ≡ never_matched [] []
      no_inclusions = unmatched_inclusions-none ∙ sym (never_matched-no_list [])
  unmatched_inclusions-ask_all [] (some m) h =
      unmatched_inclusions-some m ∙ h.unmatched_eq ∙ sym (never_matched-nil m.inclusions)
  unmatched_inclusions-ask_all (path ∷ paths) m h =
      unmatched_inclusions-ask_all paths (excluded matcher m path).1 (excluded-IsCounted m path h)
      ∙ never_matched-excluded path paths m
