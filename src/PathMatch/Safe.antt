-- ===== src/PathMatch/Safe.antt =====
-- Patterns without a bracket: matching never reads behind the end of the path.
use archive_tar_builder.Prelude.{
  ℕ, zero, suc, ◌≡◌, ◌≢◌, refl, Bool, true, false, [], ◌∷◌, ◌==◌, arith, Bytes, length, Bool-cases,
  inl, inr,
}
use archive_tar_builder.PathMatch.Class.{backslash, is_nil}
use archive_tar_builder.PathMatch.Loop.{
  Outcome, answer, overrun, out_of_fuel, Flags, slashskip, skip_dot, drop_while, Next, or_else,
  at_end, literal, question, try_all, star, escape, separator, dollar, switch, later_elements,
  elements, anchored, pathmatch_with, loop, pm, pathmatch,
}
use archive_tar_builder.PathMatch.Fuel.{Ends, pathmatch-Ends}

abbrev pub NoBracket : Bytes → Type 0
NoBracket [] = Unit {0}
NoBracket (c ∷ p) = (c ≢ b'[') × NoBracket p

-- The run does not read behind the path.
abbrev Stays : Outcome → Type 0
Stays (answer b) = Unit {0}
Stays overrun = ⊥
Stays out_of_fuel = Unit {0}

abbrev StaysOn : Next → Type 0
StaysOn next = (p s : Bytes) → NoBracket p → Stays (next p s)

slashskip-NoBracket : (p : Bytes) → NoBracket p → NoBracket (slashskip p)
unfolding slashskip
slashskip-NoBracket [] h = tt
slashskip-NoBracket (c ∷ p) h = ground (arith, slashskip-NoBracket p h.1)

skip_dot-NoBracket : (p : Bytes) → NoBracket p → NoBracket (skip_dot p)
unfolding skip_dot
skip_dot-NoBracket [] h = tt
skip_dot-NoBracket (c ∷ p) h = ground (arith, slashskip-NoBracket p h.1)

drop_while-NoBracket : (c : ℕ) (p : Bytes) → NoBracket p → NoBracket (drop_while c p)
unfolding drop_while
drop_while-NoBracket c [] h = tt
drop_while-NoBracket c (x ∷ p) h = ground (arith, drop_while-NoBracket c p h.1)

or_else-Stays : (a b : Outcome) → Stays a → Stays b → Stays (or_else a b)
unfolding or_else
or_else-Stays (answer true) b h k = tt
or_else-Stays (answer false) b h k = k
or_else-Stays overrun b h k = h
or_else-Stays out_of_fuel b h k = tt

try_all-Stays :
    (again : Bytes → Outcome) (s : Bytes)
    → ((t : Bytes) → Stays (again t))
    → Stays (try_all again s)
unfolding try_all
try_all-Stays again [] h = tt
try_all-Stays again (x ∷ s) h =
    or_else-Stays (again (x ∷ s)) (try_all again s) (h (x ∷ s)) (try_all-Stays again s h)

at_end-Stays : (flags : Flags) (s : Bytes) → Stays (at_end flags s)
unfolding at_end
at_end-Stays flags s = ground arith

-- The cases of the switch, but for that of a bracket.
module _ (flags : Flags) (next : Next) (stays : StaysOn next) where
  literal-Stays : (c : ℕ) (p s : Bytes) → NoBracket p → Stays (literal c p s next)
  unfolding literal
  literal-Stays c p [] h = tt
  literal-Stays c p (x ∷ s) h = ground (arith, stays p s h)

  question-Stays : (p s : Bytes) → NoBracket p → Stays (question p s next)
  unfolding question
  question-Stays p [] h = tt
  question-Stays p (x ∷ s) h = stays p s h

  star-Stays : (p s : Bytes) → NoBracket p → Stays (star p s next)
  unfolding star
  star-Stays p s h = elim (Bool-cases (is_nil (drop_while b'*' p))) [
    | inl e ↦ rw e tt
    | inr e ↦ rw e (
        try_all-Stays (next (drop_while b'*' p)) s
          (λ t. stays (drop_while b'*' p) t (drop_while-NoBracket b'*' p h)))
  ]

  escape-Stays : (p s : Bytes) → NoBracket p → Stays (escape p s next)
  unfolding escape
  escape-Stays [] s h = literal-Stays backslash [] s h
  escape-Stays (x ∷ p) s h = literal-Stays x p s h.1

  separator-Stays : (p s : Bytes) → NoBracket p → Stays (separator flags p s next)
  unfolding separator
  separator-Stays p s h = ground (
    arith,
    stays (slashskip (b'/' ∷ p)) (slashskip s) (slashskip-NoBracket (b'/' ∷ p) (ground arith, h)),
  )

  dollar-Stays : (p s : Bytes) → NoBracket p → Stays (dollar flags p s next)
  unfolding dollar
  dollar-Stays p s h = ground (arith, literal-Stays b'$' p s h)

switch-Stays :
    (flags : Flags) (c : ℕ) (p s : Bytes) (next again : Next)
    → StaysOn next
    → StaysOn again
    → NoBracket (c ∷ p)
    → Stays (switch flags c p s next again)
unfolding switch
switch-Stays flags c p s next again stays stays_again h =
    let not_bracket : (c == b'[') ≡ false = ground (arith, h.0) in
    rw not_bracket (
      ground (
        arith,
        question-Stays flags next stays p s h.1,
        star-Stays flags again stays_again p s h.1,
        escape-Stays flags next stays p s h.1,
        separator-Stays flags next stays p s h.1,
        dollar-Stays flags next stays p s h.1,
        literal-Stays flags next stays c p s h.1,
      ))

module _ (pm : Bytes → Outcome) (stays : (s : Bytes) → Stays (pm s)) where
  later_elements-Stays : (s : Bytes) → Stays (later_elements pm s)
  unfolding later_elements
  later_elements-Stays [] = tt
  later_elements-Stays (c ∷ s) =
      ground (arith, later_elements-Stays s, or_else-Stays (pm s) (later_elements pm s) (stays s))

  elements-Stays : (s : Bytes) → Stays (elements pm s)
  unfolding elements
  elements-Stays [] = or_else-Stays (pm []) (answer false) (stays []) tt
  elements-Stays (c ∷ s) = ground (
    arith,
    or_else-Stays (pm s) (later_elements pm s) (stays s) (later_elements-Stays s),
    or_else-Stays (pm (c ∷ s)) (later_elements pm (c ∷ s)) (stays (c ∷ s))
        (later_elements-Stays (c ∷ s)),
  )

module _ (pm : Flags → Next) (stays : (flags : Flags) → StaysOn (pm flags)) where
  anchored-Stays : (flags : Flags) → StaysOn (anchored pm flags)
  unfolding anchored
  anchored-Stays flags p s h = ground (
    arith,
    stays flags (drop_while b'/' p) (drop_while b'/' s) (drop_while-NoBracket b'/' p h),
    elements-Stays (pm flags p) (λ t. stays flags p t h) s,
    stays flags p s h,
  )

  pathmatch_with-Stays : (flags : Flags) → StaysOn (pathmatch_with pm flags)
  unfolding pathmatch_with
  pathmatch_with-Stays flags [] s h = tt
  pathmatch_with-Stays flags (c ∷ p) s h = ground (
    arith,
    anchored-Stays (record flags { no_anchor_start = false }) p s h.1,
    anchored-Stays flags (c ∷ p) s h,
  )

loop-Stays : (f : ℕ) (flags : Flags) → StaysOn (loop f flags)
unfolding loop
loop-Stays zero flags p s h = tt
loop-Stays (suc f) flags [] s h = at_end-Stays flags s
loop-Stays (suc f) flags (c ∷ p) s h =
    switch-Stays flags c p s (loop f flags)
      (pathmatch_with (λ fl q t. loop f fl (skip_dot q) (skip_dot t)) flags) (loop-Stays f flags)
      (pathmatch_with-Stays (λ fl q t. loop f fl (skip_dot q) (skip_dot t))
        (λ fl q t k. loop-Stays f fl (skip_dot q) (skip_dot t) (skip_dot-NoBracket q k)) flags)
      h

answered : (o : Outcome) → Ends o → Stays o → (b : Bool) × (o ≡ answer b)
answered (answer b) h k = (b, refl)
answered overrun h k = absurd k
answered out_of_fuel h k = absurd h

-- For a pattern without an opening bracket lafe_pathmatch() gives an answer, whatever the path and the
-- flags: it never reads behind the end of the path.
pub pathmatch-answer :
    (flags : Flags) (p s : Bytes) → NoBracket p → (b : Bool) × (pathmatch flags p s ≡ answer b)
unfolding pathmatch pm
pathmatch-answer flags p s h = answered (pathmatch flags p s) (pathmatch-Ends flags p s) (
    pathmatch_with-Stays (λ fl q t. loop (suc (length p)) fl (skip_dot q) (skip_dot t))
      (λ fl q t k.
        loop-Stays (suc (length p)) fl (skip_dot q) (skip_dot t) (skip_dot-NoBracket q k))
      flags p s h)
