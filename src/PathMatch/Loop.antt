-- ===== src/PathMatch/Loop.antt =====
-- pm() and lafe_pathmatch(). A pointer into a text is what is left of the text; at its end the source
-- reads the terminator.
use archive_tar_builder.Prelude.{
  ℕ, zero, suc, Bool, true, false, Option, none, some, [], ◌∷◌, ◌==◌, not, ◌&&◌, ◌||◌,
  if◌then◌else◌, ◌>>=◌, Bytes, length,
}
use archive_tar_builder.PathMatch.Class.{backslash, is_nil, pm_list}

-- `overrun`: the source goes on reading behind the terminator of the path. `out_of_fuel` belongs to
-- the model only.
pub data Outcome : Type 0 where
  answer : Bool → Outcome
  overrun : Outcome
  out_of_fuel : Outcome

-- PATHMATCH_NO_ANCHOR_START and PATHMATCH_NO_ANCHOR_END
pub record Flags : Type 0 where
  pub no_anchor_start : Bool
  pub no_anchor_end : Bool

-- The flags of match_inclusion() and of match_exclusion()
abbrev pub inclusion_flags : Flags
inclusion_flags = record { no_anchor_start = false; no_anchor_end = true }

abbrev pub exclusion_flags : Flags
exclusion_flags = record { no_anchor_start = true; no_anchor_end = true }

-- `*s == c`, for a `c` other than the terminator
unfoldable pub starts_with : ℕ → Bytes → Bool
starts_with c [] = false
starts_with c (x ∷ s) = x == c

-- pm_slashskip()
unfoldable pub slashskip : Bytes → Bytes
unfolding starts_with
slashskip [] = []
slashskip (c ∷ s) =
    if c == b'/' || (c == b'.' && (starts_with b'/' s || is_nil s)) then slashskip s else c ∷ s

-- The first lines of pm(): a leading "./" is skipped, with what pm_slashskip() skips behind it.
unfoldable pub skip_dot : Bytes → Bytes
unfolding slashskip starts_with
skip_dot [] = []
skip_dot (c ∷ s) = if c == b'.' && starts_with b'/' s then slashskip s else c ∷ s

-- What stands in the brackets, and what follows them; `none` if there is no closing one.
unfoldable pub class_split : Bytes → Option (Bytes × Bytes)
class_split [] = none
class_split (c ∷ []) = if c == b']' then some ([], []) else none
class_split (c ∷ d ∷ p) =
    let pair = (class_split p >>= λ r. some (c ∷ d ∷ r.0, r.1)) in
    let one = (class_split (d ∷ p) >>= λ r. some (c ∷ r.0, r.1)) in
    if c == b']' then some ([], d ∷ p) else if c == backslash then pair else one

unfoldable pub drop_while : ℕ → Bytes → Bytes
drop_while c [] = []
drop_while c (x ∷ s) = if x == c then drop_while c s else x ∷ s

abbrev pub Next : Type 0
Next = Bytes → Bytes → Outcome

-- `if (r) return 1;`, and on otherwise
unfoldable pub or_else : Outcome → Outcome → Outcome
or_else (answer false) r = r
or_else (answer true) r = answer true
or_else overrun r = overrun
or_else out_of_fuel r = out_of_fuel

-- case '\0'
unfoldable pub at_end : Flags → Bytes → Outcome
unfolding starts_with slashskip
at_end flags s =
    if starts_with b'/' s
    then (if flags.no_anchor_end then answer true else answer (is_nil (slashskip s)))
    else answer (is_nil s)

-- `if (*p != *s) return 0;` and the increments
unfoldable pub literal : ℕ → Bytes → Bytes → Next → Outcome
literal c p [] next = answer false
literal c p (x ∷ s) next = if x == c then next p s else answer false

-- case '?'
unfoldable pub question : Bytes → Bytes → Next → Outcome
question p [] next = answer false
question p (x ∷ s) next = next p s

-- The loop of case '*' over what is left of the path
unfoldable pub try_all : (Bytes → Outcome) → Bytes → Outcome
unfolding or_else
try_all again [] = answer false
try_all again (x ∷ s) = let rest = try_all again s in or_else (again (x ∷ s)) rest

-- case '*': `again` is the call of lafe_pathmatch()
unfoldable pub star : Bytes → Bytes → Next → Outcome
unfolding try_all drop_while
star p s again = let q = drop_while b'*' p in if is_nil q then answer true else try_all (again q) s

-- The next round with `s` behind the terminator of the path: a trailing '*' succeeds without looking at
-- `*s`, all else reads there.
unfoldable pub past_end : Bytes → Outcome
unfolding starts_with drop_while
past_end p = if starts_with b'*' p && is_nil (drop_while b'*' p) then answer true else overrun

-- `break`, and the increments: at the end of the path `s` leaves it.
unfoldable pub advance : Bytes → Bytes → Next → Outcome
unfolding past_end
advance p [] next = past_end p
advance p (x ∷ s) next = next p s

-- `*s`
unfoldable pub peek : Bytes → ℕ
peek [] = 0
peek (x ∷ s) = x

-- A class that was found, or an opening bracket that stands for itself
unfoldable pub in_class : Option (Bytes × Bytes) → Bytes → Bytes → Next → Outcome
unfolding pm_list peek advance literal
in_class none p s next = literal b'[' p s next
in_class (some (class, rest)) p s next =
    if pm_list class (peek s) then advance rest s next else answer false

-- case '[': `p` is what follows the bracket
unfoldable pub bracket : Bytes → Bytes → Next → Outcome
unfolding class_split in_class
bracket p s next = in_class (class_split p) p s next

-- case '\\'
unfoldable pub escape : Bytes → Bytes → Next → Outcome
unfolding literal
escape [] s next = literal backslash [] s next
escape (x ∷ p) s next = literal x p s next

-- case '/'
unfoldable pub separator : Flags → Bytes → Bytes → Next → Outcome
unfolding starts_with slashskip
separator flags p s next =
    let q = slashskip (b'/' ∷ p) in
    if not (starts_with b'/' s) && not (is_nil s)
    then answer false
    else if is_nil q && flags.no_anchor_end
    then answer true
    else next q (slashskip s)

-- case '$'
unfoldable pub dollar : Flags → Bytes → Bytes → Next → Outcome
unfolding slashskip literal
dollar flags p s next =
    if is_nil p && flags.no_anchor_end then answer (is_nil (slashskip s)) else literal b'$' p s next

-- The `switch` on `*p`: `next` is the next round of the loop
unfoldable pub switch : Flags → ℕ → Bytes → Bytes → Next → Next → Outcome
switch flags c p s next again =
    if c == b'?'
    then question p s next
    else if c == b'*'
    then star p s again
    else if c == b'['
    then bracket p s next
    else if c == backslash
    then escape p s next
    else if c == b'/'
    then separator flags p s next
    else if c == b'$'
    then dollar flags p s next
    else literal c p s next

-- `for ( ; s != NULL; s = strchr(s, '/'))` behind its first round
unfoldable pub later_elements : (Bytes → Outcome) → Bytes → Outcome
unfolding or_else
later_elements pm [] = answer false
later_elements pm (c ∷ s) =
    let rest = later_elements pm s in if c == b'/' then or_else (pm s) rest else rest

unfoldable pub elements : (Bytes → Outcome) → Bytes → Outcome
unfolding later_elements
elements pm [] = or_else (pm []) (answer false)
elements pm (c ∷ s) =
    if c == b'/'
    then or_else (pm s) (later_elements pm s)
    else or_else (pm (c ∷ s)) (later_elements pm (c ∷ s))

-- lafe_pathmatch() behind its tests for an empty pattern and a leading '^'
unfoldable pub anchored : (Flags → Next) → Flags → Next
unfolding starts_with drop_while
anchored pm flags p s =
    if starts_with b'/' p && not (starts_with b'/' s)
    then answer false
    else if starts_with b'*' p || starts_with b'/' p
    then pm flags (drop_while b'/' p) (drop_while b'/' s)
    else if flags.no_anchor_start
    then elements (pm flags p) s
    else pm flags p s

-- lafe_pathmatch(), calling `pm`
unfoldable pub pathmatch_with : (Flags → Next) → Flags → Next
pathmatch_with pm flags [] s = answer (is_nil s)
pathmatch_with pm flags (c ∷ p) s =
    if c == b'^'
    then anchored pm (record flags { no_anchor_start = false }) p s
    else anchored pm flags (c ∷ p) s

-- The loop of pm(): a round drops at least a byte of the pattern
unfoldable pub loop : ℕ → Flags → Next
unfolding at_end switch pathmatch_with anchored elements skip_dot question star bracket escape
    separator dollar literal
loop zero flags p s = out_of_fuel
loop (suc f) flags [] s = at_end flags s
loop (suc f) flags (c ∷ p) s =
    switch flags c p s (loop f flags)
      (pathmatch_with (λ flags p s. loop f flags (skip_dot p) (skip_dot s)) flags)

-- pm()
unfoldable pub pm : ℕ → Flags → Next
pm fuel flags p s = loop fuel flags (skip_dot p) (skip_dot s)

-- lafe_pathmatch(). A call of pm() has a pattern of at most this one's length: one round for each
-- byte of it and one for its end are enough.
unfoldable pub pathmatch : Flags → Next
pathmatch flags p s = pathmatch_with (pm (suc (length p))) flags p s
