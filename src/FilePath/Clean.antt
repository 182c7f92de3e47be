-- ===== src/FilePath/Clean.antt =====
-- What b_path_new() and b_path_clean() make of a path.
use archive_tar_builder.Prelude.{
  ℕ, ◌≡◌, ◌≢◌, refl, sym, ap, ap₂, ◌∙◌, Bool, true, false, List, [], ◌∷◌, ◌++◌, arith, ◌==◌, ◌&&◌,
  if◌then◌else◌, Bytes, NoNul, NoNul-append, c_str, c_str-NoNul, c_str_self, str_eq, length,
  append_assoc, append-nil, Bool-cases, inl, inr,
}
use archive_tar_builder.Util.Texts.{join_bytes}
use archive_tar_builder.FilePath.{
  slash, dot, flush, tokens_from, tokens, is_absolute, add_items, new, clean,
}

-- Neither a slash nor a terminator.
abbrev pub Plain : Bytes → Type 0
Plain [] = Unit {0}
Plain (c ∷ s) = (c ≢ slash) × (c ≢ 0) × Plain s

-- A component: some plain bytes.
abbrev pub IsItem : Bytes → Type 0
IsItem [] = ⊥
IsItem (c ∷ s) = Plain (c ∷ s)

abbrev pub AllItems : List Bytes → Type 0
AllItems [] = Unit {0}
AllItems (x ∷ xs) = IsItem x × AllItems xs

Plain-append : (s : Bytes) (c : ℕ) → Plain s → c ≢ slash → c ≢ 0 → Plain (s ++ c ∷ [])
Plain-append [] c h p q = (p, q, tt)
Plain-append (d ∷ s) c h p q = (h.0, h.1, Plain-append s c h.2 p q)

flush-AllItems :
    (token : Bytes) (rest : List Bytes) → Plain token → AllItems rest → AllItems (flush token rest)
unfolding flush
flush-AllItems [] rest h k = k
flush-AllItems (c ∷ token) rest h k = (h, k)

tokens_from-AllItems : (token s : Bytes) → Plain token → NoNul s → AllItems (tokens_from token s)
unfolding tokens_from
tokens_from-AllItems token [] h k = flush-AllItems token [] h tt
tokens_from-AllItems token (c ∷ s) h k = elim (Bool-cases (c == slash)) [
  | inl e ↦
      rw (e, tokens_from)
        (flush-AllItems token (tokens_from [] s) h (tokens_from-AllItems [] s tt k.1))
  | inr e ↦
      rw (e, tokens_from)
        (tokens_from-AllItems (token ++ c ∷ []) s (Plain-append token c h (ground arith) k.0) k.1)
]

-- A plain text is read to its end.
tokens_from-Plain :
    (token x s : Bytes) → Plain x → tokens_from token (x ++ s) ≡ tokens_from (token ++ x) s
unfolding tokens_from
tokens_from-Plain token [] s h = ap (λ t. tokens_from t s) (sym (append-nil token))
tokens_from-Plain token (c ∷ x) s h =
    let other : (c == slash) ≡ false = ground arith in
    rw (other, tokens_from)
      (tokens_from-Plain (token ++ c ∷ []) x s h.2
        ∙ ap (λ t. tokens_from t s) (append_assoc token (c ∷ []) x))

-- The components of a joined list are its items.
tokens-join_bytes :
    (xs : List Bytes) → AllItems xs → tokens_from [] (join_bytes (slash ∷ []) xs) ≡ xs
unfolding tokens_from join_bytes flush
tokens-join_bytes [] h = refl
tokens-join_bytes ([] ∷ xs) h = absurd h.0
tokens-join_bytes ((c ∷ x) ∷ []) h =
    ap (tokens_from []) (sym (append-nil (c ∷ x))) ∙ tokens_from-Plain [] (c ∷ x) [] h.0
tokens-join_bytes ((c ∷ x) ∷ y ∷ ys) h =
    tokens_from-Plain [] (c ∷ x) (slash ∷ join_bytes (slash ∷ []) (y ∷ ys)) h.0
    ∙ ap (λ t. (c ∷ x) ∷ t) (tokens-join_bytes (y ∷ ys) h.1)

-- The items that are not ".".
unfoldable pub drop_dots : List Bytes → List Bytes
drop_dots [] = []
drop_dots (x ∷ xs) = if str_eq x dot then drop_dots xs else x ∷ drop_dots xs

-- The components that a path with these tokens should have: an empty one first if it is absolute, and
-- no "." but perhaps the first; "/" alone for a path of slashes.
unfoldable pub normal : Bool → List Bytes → List Bytes
unfolding drop_dots
normal true [] = (slash ∷ []) ∷ []
normal false [] = []
normal true (x ∷ xs) = [] ∷ x ∷ drop_dots xs
normal false (x ∷ xs) = x ∷ drop_dots xs

add_items-started :
    (a : Bool) (p : Bytes) (ps xs : List Bytes) → add_items a (p ∷ ps) xs ≡ (p ∷ ps) ++ drop_dots xs
unfolding add_items drop_dots
add_items-started a p ps [] = sym (append-nil (p ∷ ps))
add_items-started a p ps (x ∷ xs) = elim (Bool-cases (str_eq x dot)) [
  | inl e ↦ step e (add_items-started a p ps xs)
  | inr e ↦
      step' e
        (add_items-started a p (ps ++ x ∷ []) xs ∙ append_assoc (p ∷ ps) (x ∷ []) (drop_dots xs))
]
  where
    step :
        str_eq x dot ≡ true
        → add_items a (p ∷ ps) xs ≡ (p ∷ ps) ++ drop_dots xs
        → add_items a (p ∷ ps) (x ∷ xs) ≡ (p ∷ ps) ++ drop_dots (x ∷ xs)
    step e h = ground (arith, h)

    step' :
        str_eq x dot ≡ false
        → add_items a (p ∷ (ps ++ x ∷ [])) xs ≡ (p ∷ ps) ++ (x ∷ drop_dots xs)
        → add_items a (p ∷ ps) (x ∷ xs) ≡ (p ∷ ps) ++ drop_dots (x ∷ xs)
    step' e h = ground (arith, h)

-- A path is split into its tokens between slashes, an empty component before them if it is absolute,
-- without the tokens "." behind the first; a path of slashes alone into "/".
pub new-normal : (s : Bytes) → new s ≡ normal (is_absolute s) (tokens (c_str s))
unfolding new normal
new-normal s = by_tokens (is_absolute s) (tokens_from [] (c_str s))
  where
    by_tokens :
        (a : Bool) (ts : List Bytes)
        → (if length (add_items a [] ts) == 0 && a then (slash ∷ []) ∷ [] else add_items a [] ts)
          ≡ normal a ts
    by_tokens true [] = refl
    by_tokens false [] = refl
    by_tokens true (x ∷ xs) = rw (add_items-started true [] (x ∷ []) xs) (ground arith)
    by_tokens false (x ∷ xs) = rw (add_items-started false x [] xs) (ground arith)

drop_dots_idem : (xs : List Bytes) → drop_dots (drop_dots xs) ≡ drop_dots xs
unfolding drop_dots
drop_dots_idem [] = refl
drop_dots_idem (x ∷ xs) = elim (Bool-cases (str_eq x dot)) [
  | inl e ↦ rw e (drop_dots_idem xs)
  | inr e ↦ rw (e, e) (ap (λ t. x ∷ t) (drop_dots_idem xs))
]

drop_dots-AllItems : (xs : List Bytes) → AllItems xs → AllItems (drop_dots xs)
unfolding drop_dots
drop_dots-AllItems [] h = tt
drop_dots-AllItems (x ∷ xs) h = ground (arith, drop_dots-AllItems xs h.1)

pub Plain-NoNul : (x : Bytes) → Plain x → NoNul x
Plain-NoNul [] h = tt
Plain-NoNul (c ∷ x) h = (h.1, Plain-NoNul x h.2)

join_bytes-NoNul : (xs : List Bytes) → AllItems xs → NoNul (join_bytes (slash ∷ []) xs)
unfolding join_bytes
join_bytes-NoNul [] h = tt
join_bytes-NoNul ([] ∷ xs) h = absurd h.0
join_bytes-NoNul ((c ∷ x) ∷ []) h = Plain-NoNul (c ∷ x) h.0
join_bytes-NoNul ((c ∷ x) ∷ y ∷ ys) h =
    NoNul-append (c ∷ x) (slash ∷ join_bytes (slash ∷ []) (y ∷ ys)) (Plain-NoNul (c ∷ x) h.0)
      (ground arith, join_bytes-NoNul (y ∷ ys) h.1)

relative : (xs : List Bytes) → AllItems xs → is_absolute (join_bytes (slash ∷ []) xs) ≡ false
unfolding join_bytes is_absolute
relative [] h = refl
relative ([] ∷ xs) h = absurd h.0
relative ((c ∷ x) ∷ []) h = ground arith
relative ((c ∷ x) ∷ y ∷ ys) h = ground arith

-- Splitting a joined list of components gives them back, behind a leading slash too.
pub new-join_bytes :
    (xs : List Bytes) → AllItems xs → new (join_bytes (slash ∷ []) xs) ≡ normal false xs
unfolding tokens
new-join_bytes xs h =
    let j = join_bytes (slash ∷ []) xs in
    new-normal j
    ∙ ap₂ normal (relative xs h)
        (ap (tokens_from []) (c_str_self j (join_bytes-NoNul xs h)) ∙ tokens-join_bytes xs h)

new-slash-join_bytes :
    (xs : List Bytes) → AllItems xs → new (slash ∷ join_bytes (slash ∷ []) xs) ≡ normal true xs
unfolding is_absolute tokens_from flush tokens
new-slash-join_bytes xs h =
    let j = join_bytes (slash ∷ []) xs in
    new-normal (slash ∷ j)
    ∙ ap (λ t. normal true (tokens_from [] t))
        (c_str_self (slash ∷ j) (ground arith, join_bytes-NoNul xs h))
    ∙ ap (normal true) (tokens-join_bytes xs h)

pub tokens-AllItems : (s : Bytes) → AllItems (tokens (c_str s))
unfolding tokens
tokens-AllItems s = tokens_from-AllItems [] (c_str s) tt (c_str-NoNul s)

new-nil : new (join_bytes (slash ∷ []) []) ≡ []
unfolding new join_bytes
new-nil = refl

new-root : new (join_bytes (slash ∷ []) ((slash ∷ []) ∷ [])) ≡ (slash ∷ []) ∷ []
unfolding new join_bytes
new-root = refl

join_bytes-leading :
    (x : Bytes) (xs : List Bytes)
    → join_bytes (slash ∷ []) ([] ∷ x ∷ xs) ≡ slash ∷ join_bytes (slash ∷ []) (x ∷ xs)
unfolding join_bytes
join_bytes-leading x xs = refl

new-join-normal :
    (a : Bool) (ts : List Bytes)
    → AllItems ts
    → new (join_bytes (slash ∷ []) (normal a ts)) ≡ normal a ts
unfolding normal
new-join-normal false [] h = new-nil
new-join-normal true [] h = new-root
new-join-normal false (t ∷ ts) h =
    new-join_bytes (t ∷ drop_dots ts) (h.0, drop_dots-AllItems ts h.1)
    ∙ ap (λ r. t ∷ r) (drop_dots_idem ts)
new-join-normal true (t ∷ ts) h =
    ap new (join_bytes-leading t (drop_dots ts))
    ∙ new-slash-join_bytes (t ∷ drop_dots ts) (h.0, drop_dots-AllItems ts h.1)
    ∙ ap (λ r. [] ∷ t ∷ r) (drop_dots_idem ts)

-- A cleaned path is split into the same components as the path that it was made from.
pub new-clean : (s : Bytes) → new (clean s) ≡ new s
unfolding clean
new-clean s =
    ap (λ t. new (join_bytes (slash ∷ []) t)) (new-normal s)
    ∙ new-join-normal (is_absolute s) (tokens (c_str s)) (tokens-AllItems s)
    ∙ sym (new-normal s)
