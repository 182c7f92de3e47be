-- ===== src/Matching/Lafe.antt =====
-- The matcher of the program: lafe_pathmatch() behind the lists of patterns.
use archive_tar_builder.Prelude.{
  ℕ, ◌≡◌, refl, ap, ◌∙◌, Bool, true, false, Option, none, some, [], ◌∷◌, ◌++◌, arith, ◌||◌, Bytes,
}
use archive_tar_builder.PathMatch.Loop.{Outcome, answer, overrun, out_of_fuel, pathmatch, skip_dot}
use archive_tar_builder.PathMatch.Literal.{AllOrdinary, has_component_prefix, all_starts, any}
use archive_tar_builder.PathMatch.Literals.{pathmatch-exclusion}
use archive_tar_builder.Matching.{
  Matcher, LafeMatching, initialize_matching, strip_slash, exclude, include, excluded,
}
use archive_tar_builder.Matching.Verdict.{should_exclude, excluded-should_exclude}

abbrev pub to_answer : Bool → Outcome → Bool
to_answer undefined (answer b) = b
to_answer undefined overrun = undefined
to_answer undefined out_of_fuel = undefined

-- `undefined` is what the source answers where it reads behind a terminator.
abbrev pub lafe : Bool → Matcher
lafe undefined = record { path_match = λ flags p s. to_answer undefined (pathmatch flags p s) }

strip_slash-append : (p : Bytes) → strip_slash (p ++ b'/' ∷ []) ≡ p
unfolding strip_slash
strip_slash-append [] = refl
strip_slash-append (c ∷ []) = refl
strip_slash-append (c ∷ d ∷ p) = ap (λ t. c ∷ t) (strip_slash-append (d ∷ p))

strip_slash-ordinary : (p : Bytes) → AllOrdinary p → strip_slash p ≡ p
unfolding strip_slash
strip_slash-ordinary [] h = refl
strip_slash-ordinary (c ∷ []) h = ground arith
strip_slash-ordinary (c ∷ d ∷ p) h = ap (λ t. c ∷ t) (strip_slash-ordinary (d ∷ p) h.1)

module _ (m : Option LafeMatching) (p : Bytes) (h : AllOrdinary p) where
  -- A pattern without special bytes may be written with a slash behind it: as an exclusion and as an
  -- inclusion it is then the same pattern.
  pub trailing_slash :
      (granted : Bool)
      → (exclude granted m (p ++ b'/' ∷ []) ≡ exclude granted m p)
        × (include granted m (p ++ b'/' ∷ []) ≡ include granted m p)
  unfolding exclude include
  trailing_slash true = rw (strip_slash-append p, strip_slash-ordinary p h) (refl, refl)
  trailing_slash false = (refl, refl)

-- With one exclusion, of ordinary bytes, the paths left out are exactly those of which some element,
-- with what follows it, is the pattern or goes on with a slash behind it, after a leading "./".
pub excluded-name :
    (undefined : Bool) (c : ℕ) (p path : Bytes)
    → AllOrdinary (c ∷ p)
    → (excluded (lafe undefined) (exclude true none (c ∷ p)).1 path).0
      ≡ any (λ t. has_component_prefix (c ∷ p) (skip_dot t)) (all_starts path)
unfolding exclude should_exclude
excluded-name undefined c p path h =
    ap
      (λ q.
        (excluded (lafe undefined)
          (some (record initialize_matching {
            exclusions = record { matches = 0; pattern = q } ∷ [];
            exclusions_count = 1;
          }))
          path).0)
      (strip_slash-ordinary (c ∷ p) h)
    ∙ excluded-should_exclude (lafe undefined)
        (record initialize_matching {
          exclusions = record { matches = 0; pattern = c ∷ p } ∷ [];
          exclusions_count = 1;
        })
        path
    ∙ ap (λ o. (to_answer undefined o || false) || false) (pathmatch-exclusion c p h path)
    ∙ or-false (any (λ t. has_component_prefix (c ∷ p) (skip_dot t)) (all_starts path))
  where
    or-false : (b : Bool) → ((b || false) || false) ≡ b
    or-false true = refl
    or-false false = refl
