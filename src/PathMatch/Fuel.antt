-- ===== src/PathMatch/Fuel.antt =====
-- The recursion of pm() and lafe_pathmatch() ends: a round for each byte of the pattern is enough.
use archive_tar_builder.Prelude.{
  ℕ, zero, suc, ◌≤◌, ◌<◌, true, false, Option, none, some, [], ◌∷◌, arith, Bytes, length,
  Bool-cases, inl, inr, ◌>>=◌,
}
use archive_tar_builder.PathMatch.Class.{backslash, is_nil}
use archive_tar_builder.PathMatch.Loop.{
  Outcome, answer, overrun, out_of_fuel, Flags, slashskip, skip_dot, class_split, drop_while, Next,
  or_else, at_end, literal, question, try_all, star, past_end, advance, in_class, bracket, escape,
  separator, dollar, switch, later_elements, elements, anchored, pathmatch_with, loop, pm,
  pathmatch,
}

-- The run ends, with an answer or behind the terminator of the path.
abbrev pub Ends : Outcome → Type 0
Ends (answer b) = Unit {0}
Ends overrun = Unit {0}
Ends out_of_fuel = ⊥

-- The calls on patterns of at most `n` bytes end.
abbrev pub EndsBelow : ℕ → Next → Type 0
EndsBelow n next = (p s : Bytes) → length p ≤ n → Ends (next p s)

pub length-slashskip-le : (s : Bytes) → length (slashskip s) ≤ length s
unfolding slashskip
length-slashskip-le [] = omega arith
length-slashskip-le (c ∷ s) = ground (arith, length-slashskip-le s)

pub length-skip_dot-le : (s : Bytes) → length (skip_dot s) ≤ length s
unfolding skip_dot
length-skip_dot-le [] = omega arith
length-skip_dot-le (c ∷ s) = ground (arith, length-slashskip-le s)

length-drop_while-le : (c : ℕ) (s : Bytes) → length (drop_while c s) ≤ length s
unfolding drop_while
length-drop_while-le c [] = omega arith
length-drop_while-le c (x ∷ s) = ground (arith, length-drop_while-le c s)

-- What follows a class is shorter than what follows its opening bracket.
abbrev RestBelow : ℕ → Option (Bytes × Bytes) → Type 0
RestBelow n none = Unit {0}
RestBelow n (some (class, rest)) = length rest ≤ n

RestBelow-bind :
    (n m : ℕ) (o : Option (Bytes × Bytes)) (f : Bytes → Bytes)
    → RestBelow n o
    → n ≤ m
    → RestBelow m (o >>= λ r. some (f r.0, r.1))
RestBelow-bind n m none f h le = tt
RestBelow-bind n m (some r) f h le = omega arith

class_split-RestBelow : (p : Bytes) → RestBelow (length p) (class_split p)
unfolding class_split
class_split-RestBelow [] = tt
class_split-RestBelow (c ∷ []) = ground arith
class_split-RestBelow (c ∷ d ∷ p) = ground (
  arith,
  RestBelow-bind (length p) (length (c ∷ d ∷ p)) (class_split p) (λ q. c ∷ d ∷ q)
      (class_split-RestBelow p),
  RestBelow-bind (length (d ∷ p)) (length (c ∷ d ∷ p)) (class_split (d ∷ p)) (λ q. c ∷ q)
      (class_split-RestBelow (d ∷ p)),
)

or_else-Ends : (a b : Outcome) → Ends a → Ends b → Ends (or_else a b)
unfolding or_else
or_else-Ends (answer true) b h k = tt
or_else-Ends (answer false) b h k = k
or_else-Ends overrun b h k = tt
or_else-Ends out_of_fuel b h k = h

try_all-Ends :
    (again : Bytes → Outcome) (s : Bytes) → ((t : Bytes) → Ends (again t)) → Ends (try_all again s)
unfolding try_all
try_all-Ends again [] h = tt
try_all-Ends again (x ∷ s) h =
    or_else-Ends (again (x ∷ s)) (try_all again s) (h (x ∷ s)) (try_all-Ends again s h)

at_end-Ends : (flags : Flags) (s : Bytes) → Ends (at_end flags s)
unfolding at_end
at_end-Ends flags s = ground arith

past_end-Ends : (p : Bytes) → Ends (past_end p)
unfolding past_end
past_end-Ends p = ground arith

-- Every case of the switch goes on with patterns that are not longer.
module _ (n : ℕ) (flags : Flags) (next : Next) (ends : EndsBelow n next) where
  literal-Ends : (c : ℕ) (p s : Bytes) → length p ≤ n → Ends (literal c p s next)
  unfolding literal
  literal-Ends c p [] h = tt
  literal-Ends c p (x ∷ s) h = ground (arith, ends p s)

  question-Ends : (p s : Bytes) → length p ≤ n → Ends (question p s next)
  unfolding question
  question-Ends p [] h = tt
  question-Ends p (x ∷ s) h = ends p s h

  star-Ends : (p s : Bytes) → length p ≤ n → Ends (star p s next)
  unfolding star
  star-Ends p s h = elim (Bool-cases (is_nil (drop_while b'*' p))) [
    | inl e ↦ rw e tt
    | inr e ↦ rw e (
        try_all-Ends (next (drop_while b'*' p)) s
          (λ t. ends (drop_while b'*' p) t (omega (arith, length-drop_while-le b'*' p))))
  ]

  advance-Ends : (p s : Bytes) → length p ≤ n → Ends (advance p s next)
  unfolding advance
  advance-Ends p [] h = past_end-Ends p
  advance-Ends p (x ∷ s) h = ends p s h

  in_class-Ends :
      (o : Option (Bytes × Bytes)) (p s : Bytes)
      → RestBelow (length p) o
      → length p ≤ n
      → Ends (in_class o p s next)
  unfolding in_class
  in_class-Ends none p s k h = literal-Ends b'[' p s h
  in_class-Ends (some (class, rest)) p s k h = ground (arith, advance-Ends rest s)

  bracket-Ends : (p s : Bytes) → length p ≤ n → Ends (bracket p s next)
  unfolding bracket
  bracket-Ends p s h = in_class-Ends (class_split p) p s (class_split-RestBelow p) h

  escape-Ends : (p s : Bytes) → length p ≤ n → Ends (escape p s next)
  unfolding escape
  escape-Ends [] s h = literal-Ends backslash [] s h
  escape-Ends (x ∷ p) s h = literal-Ends x p s (omega arith)

  separator-Ends : (p s : Bytes) → length p ≤ n → Ends (separator flags p s next)
  unfolding separator
  separator-Ends p s h = ground (arith, length-slashskip-le p, ends (slashskip p) (slashskip s))

  dollar-Ends : (p s : Bytes) → length p ≤ n → Ends (dollar flags p s next)
  unfolding dollar
  dollar-Ends p s h = ground (arith, literal-Ends b'$' p s)

switch-Ends :
    (n : ℕ) (flags : Flags) (c : ℕ) (p s : Bytes) (next again : Next)
    → EndsBelow n next
    → EndsBelow n again
    → length p ≤ n
    → Ends (switch flags c p s next again)
unfolding switch
switch-Ends n flags c p s next again ends ends_again h = ground (
  arith,
  question-Ends n flags next ends p s h,
  star-Ends n flags again ends_again p s h,
  bracket-Ends n flags next ends p s h,
  escape-Ends n flags next ends p s h,
  separator-Ends n flags next ends p s h,
  dollar-Ends n flags next ends p s h,
  literal-Ends n flags next ends c p s h,
)

module _ (pm : Bytes → Outcome) (ends : (s : Bytes) → Ends (pm s)) where
  later_elements-Ends : (s : Bytes) → Ends (later_elements pm s)
  unfolding later_elements
  later_elements-Ends [] = tt
  later_elements-Ends (c ∷ s) =
      ground (arith, later_elements-Ends s, or_else-Ends (pm s) (later_elements pm s), ends s)

  elements-Ends : (s : Bytes) → Ends (elements pm s)
  unfolding elements
  elements-Ends [] = or_else-Ends (pm []) (answer false) (ends []) tt
  elements-Ends (c ∷ s) = ground (
    arith,
    or_else-Ends (pm s) (later_elements pm s) (ends s) (later_elements-Ends s),
    or_else-Ends (pm (c ∷ s)) (later_elements pm (c ∷ s)) (ends (c ∷ s))
        (later_elements-Ends (c ∷ s)),
  )

module _ (n : ℕ) (pm : Flags → Next) (ends : (flags : Flags) → EndsBelow n (pm flags)) where
  anchored-Ends : (flags : Flags) → EndsBelow n (anchored pm flags)
  unfolding anchored
  anchored-Ends flags p s h = ground (
    arith,
    ends flags (drop_while b'/' p) (drop_while b'/' s) (omega (arith, length-drop_while-le b'/' p)),
    elements-Ends (pm flags p) (λ t. ends flags p t h) s,
    ends flags p s h,
  )

  pathmatch_with-Ends : (flags : Flags) → EndsBelow n (pathmatch_with pm flags)
  unfolding pathmatch_with
  pathmatch_with-Ends flags [] s h = tt
  pathmatch_with-Ends flags (c ∷ p) s h = ground (
    arith,
    anchored-Ends (record flags { no_anchor_start = false }) p s (omega arith),
    anchored-Ends flags (c ∷ p) s h,
  )

loop-Ends : (f : ℕ) (flags : Flags) (p s : Bytes) → length p < f → Ends (loop f flags p s)
unfolding loop
loop-Ends zero flags p s h = absurd (omega arith)
loop-Ends (suc f) flags [] s h = at_end-Ends flags s
loop-Ends (suc f) flags (c ∷ p) s h =
    switch-Ends (length p) flags c p s (loop f flags)
      (pathmatch_with (λ fl q t. loop f fl (skip_dot q) (skip_dot t)) flags)
      (λ q t k. loop-Ends f flags q t (omega arith))
      (pathmatch_with-Ends (length p) (λ fl q t. loop f fl (skip_dot q) (skip_dot t))
        (λ fl q t k. loop-Ends f fl (skip_dot q) (skip_dot t) (omega (arith, length-skip_dot-le q)))
        flags)
      (omega arith)

-- lafe_pathmatch() ends for every pattern, path and flags: it gives an answer or reads behind the path,
-- and never runs out of the fuel of the model.
pub pathmatch-Ends : (flags : Flags) (p s : Bytes) → Ends (pathmatch flags p s)
unfolding pathmatch pm
pathmatch-Ends flags p s =
    pathmatch_with-Ends (length p) (pm (suc (length p)))
      (λ fl q t k.
        loop-Ends (suc (length p)) fl (skip_dot q) (skip_dot t)
          (omega (arith, length-skip_dot-le q)))
      flags p s (omega arith)
