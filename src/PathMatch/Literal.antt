-- ===== src/PathMatch/Literal.antt =====
-- Patterns without special characters, as inclusions (anchored at the start) and as exclusions
-- (anchored nowhere), and what a negated class does at the end of a path.
use archive_tar_builder.Prelude.{
  ℕ, zero, suc, ◌+◌, ◌<◌, ◌≡◌, ◌≢◌, refl, ap, ◌∙◌, Bool, true, false, List, [], ◌∷◌, ◌++◌, arith,
  ◌==◌, ◌||◌, if◌then◌else◌, Bytes, length,
}
use archive_tar_builder.PathMatch.Class.{backslash, is_nil}
use archive_tar_builder.PathMatch.Loop.{
  Outcome, answer, Flags, starts_with, skip_dot, or_else, literal, switch, later_elements, elements,
  pathmatch_with, loop,
}

-- Neither special in a pattern nor a separator nor a terminator.
abbrev pub IsOrdinary : ℕ → Type 0
IsOrdinary c =
    (c ≢ b'?') × (c ≢ b'*') × (c ≢ b'[') × (c ≢ backslash) × (c ≢ b'/') × (c ≢ b'$') × (c ≢ b'^')

abbrev pub AllOrdinary : Bytes → Type 0
AllOrdinary [] = Unit {0}
AllOrdinary (c ∷ p) = IsOrdinary c × AllOrdinary p

-- The path `s` is `p`, or `p` with a slash behind it.
unfoldable pub has_component_prefix : Bytes → Bytes → Bool
unfolding starts_with
has_component_prefix [] s = is_nil s || starts_with b'/' s
has_component_prefix (c ∷ p) [] = false
has_component_prefix (c ∷ p) (x ∷ s) = if x == c then has_component_prefix p s else false

-- An ordinary byte is compared with the path's.
pub switch-ordinary :
    (flags : Flags) (c : ℕ) (p s : Bytes) (next again : Bytes → Bytes → Outcome)
    → IsOrdinary c
    → switch flags c p s next again ≡ literal c p s next
unfolding switch
switch-ordinary flags c p s next again h = ground arith

-- The call of lafe_pathmatch() in a round with `f` more to come.
abbrev again : ℕ → Flags → Bytes → Bytes → Outcome
again f flags = pathmatch_with (λ fl p s. loop f fl (skip_dot p) (skip_dot s)) flags

-- The rounds for ordinary bytes succeed exactly if they are the path's next bytes.
pub loop-ordinary :
    (f : ℕ) (flags : Flags) (p s : Bytes)
    → length p < f
    → AllOrdinary p
    → flags.no_anchor_end ≡ true
    → loop f flags p s ≡ answer (has_component_prefix p s)
unfolding loop has_component_prefix
loop-ordinary zero flags p s k h e = absurd (omega arith)
loop-ordinary (suc f) flags [] [] k h e = refl
loop-ordinary (suc f) flags [] (x ∷ s) k h e = ground arith
loop-ordinary (suc f) flags (c ∷ p) [] k h e =
    switch-ordinary flags c p [] (loop f flags) (again f flags) h.0
loop-ordinary (suc f) flags (c ∷ p) (x ∷ s) k h e =
    switch-ordinary flags c p (x ∷ s) (loop f flags) (again f flags) h.0
    ∙ ground (arith, loop-ordinary f flags p s (omega arith) h.1 e)

-- The same rounds in front of the rest `q` of a pattern, on a path that goes on with them.
pub loop-ordinary_append :
    (f : ℕ) (flags : Flags) (p q s : Bytes)
    → AllOrdinary p
    → loop (length p + f) flags (p ++ q) (p ++ s) ≡ loop f flags q s
unfolding loop
loop-ordinary_append f flags [] q s h = ap (λ k. loop k flags q s) (omega arith)
loop-ordinary_append f flags (c ∷ p) q s h =
    ap (λ k. loop k flags (c ∷ (p ++ q)) (c ∷ (p ++ s))) {x = suc (length p) + f}
      {y = suc (length p + f)} (omega arith)
    ∙ switch-ordinary flags c (p ++ q) (c ∷ (p ++ s)) (loop (length p + f) flags)
        (again (length p + f) flags) h.0
    ∙ ground (arith, loop-ordinary_append f flags p q s h.1)

pub skip_dot-ordinary : (p : Bytes) → AllOrdinary p → skip_dot p ≡ p
unfolding skip_dot
skip_dot-ordinary [] h = refl
skip_dot-ordinary (c ∷ []) h = ground arith
skip_dot-ordinary (c ∷ d ∷ p) h = ground arith

-- The paths that start at an element of `s`: behind a leading slash, and behind every slash.
unfoldable pub element_starts : Bytes → List Bytes
element_starts [] = []
element_starts (c ∷ s) = if c == b'/' then s ∷ element_starts s else element_starts s

unfoldable pub all_starts : Bytes → List Bytes
unfolding element_starts
all_starts [] = [] ∷ []
all_starts (c ∷ s) = if c == b'/' then s ∷ element_starts s else (c ∷ s) ∷ element_starts (c ∷ s)

unfoldable pub any : (Bytes → Bool) → List Bytes → Bool
any f [] = false
any f (x ∷ xs) = f x || any f xs

module _ (pm : Bytes → Outcome) (f : Bytes → Bool) (e : (s : Bytes) → pm s ≡ answer (f s)) where
  or_else-answer :
      (s : Bytes) (r : Outcome) (b : Bool) → r ≡ answer b → or_else (pm s) r ≡ answer (f s || b)
  unfolding or_else
  or_else-answer s r b h = rw (e s, h) (by_cases (f s))
    where
      by_cases : (t : Bool) → or_else (answer t) (answer b) ≡ answer (t || b)
      by_cases true = refl
      by_cases false = refl

  later_elements-any : (s : Bytes) → later_elements pm s ≡ answer (any f (element_starts s))
  unfolding later_elements any element_starts
  later_elements-any [] = refl
  later_elements-any (c ∷ s) = ground (
    arith,
    later_elements-any s,
    or_else-answer s (later_elements pm s) (any f (element_starts s)),
  )

  pub elements-any : (s : Bytes) → elements pm s ≡ answer (any f (all_starts s))
  unfolding elements any all_starts
  elements-any [] = or_else-answer [] (answer false) false refl
  elements-any (c ∷ s) = ground (
    arith,
    or_else-answer s (later_elements pm s) (any f (element_starts s)) (later_elements-any s),
    or_else-answer (c ∷ s) (later_elements pm (c ∷ s)) (any f (element_starts (c ∷ s)))
        (later_elements-any (c ∷ s)),
  )
