-- ===== src/PathMatch/Literals.antt =====
-- What patterns without special characters match, and where a negated class reads too far.
use archive_tar_builder.Prelude.{
  ℕ, suc, ◌+◌, ◌≡◌, ◌≢◌, refl, sym, ap, ap₂, ◌∙◌, true, [], ◌∷◌, ◌++◌, arith, if◌then◌else◌, Bytes,
  length, append-nil, length-append,
}
use archive_tar_builder.PathMatch.Class.{backslash}
use archive_tar_builder.PathMatch.Loop.{
  answer, overrun, Flags, inclusion_flags, exclusion_flags, skip_dot, bracket, switch, elements,
  anchored, pathmatch_with, loop, pm, pathmatch,
}
use archive_tar_builder.PathMatch.Literal.{
  AllOrdinary, has_component_prefix, loop-ordinary, loop-ordinary_append, skip_dot-ordinary,
  elements-any, all_starts, any,
}

module _ (c : ℕ) (p : Bytes) (h : AllOrdinary (c ∷ p)) where
  pm-ordinary :
      (flags : Flags) (s : Bytes)
      → flags.no_anchor_end ≡ true
      → pm (suc (length (c ∷ p))) flags (c ∷ p) s
        ≡ answer (has_component_prefix (c ∷ p) (skip_dot s))
  unfolding pm
  pm-ordinary flags s e =
      ap (λ t. loop (suc (length (c ∷ p))) flags t (skip_dot s)) (skip_dot-ordinary (c ∷ p) h)
      ∙ loop-ordinary (suc (length (c ∷ p))) flags (c ∷ p) (skip_dot s) (omega arith) h e

  pathmatch-ordinary :
      (flags : Flags) (s : Bytes)
      → pathmatch flags (c ∷ p) s ≡ (
          if flags.no_anchor_start
          then elements (pm (suc (length (c ∷ p))) flags (c ∷ p)) s
          else pm (suc (length (c ∷ p))) flags (c ∷ p) s)
  unfolding pathmatch pathmatch_with anchored
  pathmatch-ordinary flags s = ground arith

  -- As an inclusion a pattern of ordinary bytes, at least one, matches exactly the paths that are the
  -- pattern or go on with a slash behind it, after a leading "./" of the path.
  pub pathmatch-inclusion :
      (s : Bytes)
      → pathmatch inclusion_flags (c ∷ p) s ≡ answer (has_component_prefix (c ∷ p) (skip_dot s))
  pathmatch-inclusion s = pathmatch-ordinary inclusion_flags s ∙ pm-ordinary inclusion_flags s refl

  -- As an exclusion a pattern of ordinary bytes, at least one, matches exactly the paths of which some
  -- element, with what follows it, is the pattern or goes on with a slash behind it, after a "./".
  pub pathmatch-exclusion :
      (s : Bytes)
      → pathmatch exclusion_flags (c ∷ p) s
        ≡ answer (any (λ t. has_component_prefix (c ∷ p) (skip_dot t)) (all_starts s))
  pathmatch-exclusion s =
      pathmatch-ordinary exclusion_flags s
      ∙ elements-any (pm (suc (length (c ∷ p))) exclusion_flags (c ∷ p))
          (λ t. has_component_prefix (c ∷ p) (skip_dot t)) (λ t. pm-ordinary exclusion_flags t refl)
          s

-- `[!x]`
abbrev pub not_byte : ℕ → Bytes
not_byte x = b'[' ∷ b'!' ∷ x ∷ b']' ∷ []

-- The class `[!x]` accepts the terminator of the path, and the source steps over it.
loop-not_byte :
    (f : ℕ) (flags : Flags) (x : ℕ)
    → x ≢ 0
    → x ≢ b']'
    → x ≢ backslash
    → loop (suc f) flags (not_byte x) [] ≡ overrun
unfolding loop switch bracket
loop-not_byte f flags x h k l = ground arith

skip_dot-ordinary_class : (p q : Bytes) → AllOrdinary p → skip_dot (p ++ b'[' ∷ q) ≡ p ++ b'[' ∷ q
unfolding skip_dot
skip_dot-ordinary_class [] q h = ground arith
skip_dot-ordinary_class (c ∷ []) q h = ground arith
skip_dot-ordinary_class (c ∷ d ∷ p) q h = ground arith

module _ (c : ℕ) (p : Bytes) (x : ℕ) (h : AllOrdinary (c ∷ p)) (not_nul : x ≢ 0) where
  pm-not_byte :
      (flags : Flags)
      → x ≢ b']'
      → x ≢ backslash
      → pm (suc (length (c ∷ (p ++ not_byte x)))) flags (c ∷ (p ++ not_byte x)) (c ∷ p) ≡ overrun
  unfolding pm
  pm-not_byte flags k l =
      ap₂ (loop (suc (length (c ∷ (p ++ not_byte x)))) flags)
        (skip_dot-ordinary_class (c ∷ p) (b'!' ∷ x ∷ b']' ∷ []) h)
        (skip_dot-ordinary (c ∷ p) h ∙ sym (append-nil (c ∷ p)))
      ∙ ap (λ n. loop n flags ((c ∷ p) ++ not_byte x) ((c ∷ p) ++ []))
          {x = suc (length (c ∷ (p ++ not_byte x)))} {y = length (c ∷ p) + 5}
          (omega (arith, length-append p (not_byte x)))
      ∙ loop-ordinary_append 5 flags (c ∷ p) (not_byte x) [] h
      ∙ loop-not_byte 4 flags x not_nul k l

  -- For ordinary bytes `c ∷ p`, and `x` that is none of the terminator, a closing bracket and a
  -- backslash, the pattern that ends in `[!x]` behind these bytes reads behind the terminator of the
  -- path that they spell, with the flags of an inclusion and with those of an exclusion.
  pub pathmatch-not_byte :
      x ≢ b']'
      → x ≢ backslash
      → (pathmatch inclusion_flags ((c ∷ p) ++ not_byte x) (c ∷ p) ≡ overrun)
        × (pathmatch exclusion_flags ((c ∷ p) ++ not_byte x) (c ∷ p) ≡ overrun)
  unfolding pathmatch pathmatch_with anchored elements
  pathmatch-not_byte k l = (
    ground (arith, pm-not_byte inclusion_flags k l),
    ground (arith, pm-not_byte exclusion_flags k l),
  )
