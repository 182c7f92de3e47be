-- ===== src/Matching/Verdict.antt =====
-- Which paths lafe_excluded() leaves out.
use archive_tar_builder.Prelude.{
  ◌≡◌, refl, Bool, false, not, some, List, [], ◌∷◌, arith, ltb, ◌&&◌, ◌||◌, Bytes,
}
use archive_tar_builder.PathMatch.Loop.{Flags, inclusion_flags, exclusion_flags}
use archive_tar_builder.Matching.{
  Matcher, Match, LafeMatching, mark_inclusions, any_exclusion, match_again, is_empty, excluded,
}

module _ (matcher : Matcher) where
  -- Some pattern of the list matches the path under the flags.
  unfoldable pub some_matches : Flags → List Match → Bytes → Bool
  some_matches flags [] path = false
  some_matches flags (m ∷ list) path =
      matcher.path_match flags m.pattern path || some_matches flags list path

  -- The paths to leave out: those that an exclusion matches, and those that no inclusion matches
  -- where there are inclusions.
  unfoldable pub should_exclude : LafeMatching → Bytes → Bool
  unfolding some_matches
  should_exclude m path =
      some_matches exclusion_flags m.exclusions path
      || (not (is_empty m.inclusions) && not (some_matches inclusion_flags m.inclusions path))

  any_exclusion-some :
      (path : Bytes) (list : List Match)
      → any_exclusion matcher path list ≡ some_matches exclusion_flags list path
  unfolding any_exclusion some_matches
  any_exclusion-some path [] = refl
  any_exclusion-some path (m ∷ list) = ground (arith, any_exclusion-some path list)

  -- A path matches an inclusion if it is a new match or matches one that had matched before.
  marked-some :
      (path : Bytes) (list : List Match)
      → let (marked, found) = mark_inclusions matcher path list in
        (ltb 0 found || (match_again matcher path marked).0)
        ≡ some_matches inclusion_flags list path
  unfolding mark_inclusions match_again some_matches
  marked-some path [] = refl
  marked-some path (m ∷ list) = ground (arith, marked-some path list)

  marked-empty :
      (path : Bytes) (list : List Match)
      → is_empty (mark_inclusions matcher path list).0 ≡ is_empty list
  unfolding mark_inclusions
  marked-empty path [] = refl
  marked-empty path (m ∷ list) = ground arith

  -- Whatever the matcher, lafe_excluded() answers true exactly for the paths that an exclusion matches,
  -- and, where there are inclusions, for those that no inclusion matches.
  pub excluded-should_exclude :
      (m : LafeMatching) (path : Bytes) → (excluded matcher (some m) path).0 ≡ should_exclude m path
  unfolding excluded should_exclude
  excluded-should_exclude m path = ground (
    arith,
    any_exclusion-some path m.exclusions,
    marked-some path m.inclusions,
    marked-empty path m.inclusions,
  )
