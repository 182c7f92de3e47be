-- ===== src/Member/Parts.antt =====
-- path_split(): the two parts of a path are its components, and the truncation flag is right.
use archive_tar_builder.Prelude.{
  ◌+◌, ◌<◌, ◌≡◌, ◌≢◌, ◌⊎◌, refl, sym, ap, ap₂, ◌∙◌, subst, Bool, true, false, some, List, [], ◌∷◌,
  ◌++◌, reverse, reverse-append, reverse-reverse, append-nil, append_assoc, ltb, ◌==◌, ◌||◌,
  if◌then◌else◌, Bytes, length, length-append, c_str, str_eq, arith, Bool-cases, inl, inr,
}
use archive_tar_builder.Util.Texts.{join_bytes}
use archive_tar_builder.FilePath.{slash, dot, is_absolute, tokens}
use archive_tar_builder.FilePath
use archive_tar_builder.FilePath.Clean.{AllItems, drop_dots, normal, new-normal, tokens-AllItems}
use archive_tar_builder.Member.{
  Stat, file_type, ifdir, Split, grow, leaves_suffix, split_item, split_items, no_split, PathData,
  strip_leading, assemble, path_split,
}

-- Every text has a byte.
abbrev pub AllLong : List Bytes → Type 0
AllLong [] = Unit {0}
AllLong (x ∷ xs) = (0 < length x) × AllLong xs

abbrev pub joined : List Bytes → Bytes
joined items = join_bytes (slash ∷ []) items

-- The size that is counted for an item more in front.
length-joined :
    (x : Bytes) (xs : List Bytes)
    → AllLong xs
    → length (joined (x ∷ xs)) ≡ grow (length (joined xs)) (length x)
unfolding join_bytes grow
length-joined x [] h = omega arith
length-joined x (y ∷ []) h = length-append x (slash ∷ y) ∙ ground (arith, h.0)
length-joined x (y ∷ z ∷ ys) h =
    let rest = join_bytes (slash ∷ []) (z ∷ ys) in
    length-append x (slash ∷ (y ++ slash ∷ rest))
    ∙ ground (arith, h.0, length-append y (slash ∷ rest))

reverse-end : (xs : List Bytes) (x : Bytes) → reverse (xs ++ x ∷ []) ≡ x ∷ reverse xs
reverse-end xs x = reverse-append xs (x ∷ [])

-- What holds in the loop of path_split() when the components `done` have been popped.
pub record Splits (s : Split) (done : List Bytes) : Type 0 where
  pub order : reverse s.prefix_items ++ reverse s.suffix_items ≡ done
  pub prefix_eq : s.prefix_size ≡ length (joined (reverse s.prefix_items))
  pub suffix_eq : s.suffix_size ≡ length (joined (reverse s.suffix_items))
  pub prefix_long : AllLong (reverse s.prefix_items)
  pub suffix_long : AllLong (reverse s.suffix_items)
  pub started : (s.add_to_prefix ≡ true) ⊎ (s.prefix_items ≡ [])

not_started :
    (is_dir : Bool) (s : Split) (x : Bytes)
    → leaves_suffix is_dir s x ≡ false
    → (s.add_to_prefix ≡ true) ⊎ (s.prefix_items ≡ [])
    → s.prefix_items ≡ []
unfolding leaves_suffix
not_started is_dir s x e (inl k) = absurd (ground (arith, k))
not_started is_dir s x e (inr k) = k

split_item-Splits :
    (is_dir : Bool) (s : Split) (done : List Bytes) (x : Bytes)
    → Splits s done
    → 0 < length x
    → Splits (split_item is_dir s x) (x ∷ done)
unfolding split_item
split_item-Splits is_dir s done x h long = elim (Bool-cases (leaves_suffix is_dir s x)) [
  | inl e ↦ rw e (record {
    order = rw (reverse-end s.prefix_items x) (ap (λ t. x ∷ t) h.order);
    prefix_eq = rw (reverse-end s.prefix_items x) (
        ap (λ n. grow n (length x)) h.prefix_eq
        ∙ sym (length-joined x (reverse s.prefix_items) h.prefix_long));
    suffix_eq = h.suffix_eq;
    prefix_long = rw (reverse-end s.prefix_items x) (long, h.prefix_long);
    suffix_long = h.suffix_long;
    started = inl refl;
  })
  | inr e ↦
      let empty : s.prefix_items ≡ [] = not_started is_dir s x e h.started in
      rw e (record {
        order =
            ap (λ p. reverse p ++ reverse (s.suffix_items ++ x ∷ [])) empty
            ∙ reverse-end s.suffix_items x
            ∙ ap (λ t. x ∷ t) (sym (ap (λ p. reverse p ++ reverse s.suffix_items) empty) ∙ h.order);
        prefix_eq = h.prefix_eq;
        suffix_eq = rw (reverse-end s.suffix_items x) (
            ap (λ n. grow n (length x)) h.suffix_eq
            ∙ sym (length-joined x (reverse s.suffix_items) h.suffix_long));
        prefix_long = h.prefix_long;
        suffix_long = rw (reverse-end s.suffix_items x) (long, h.suffix_long);
        started = inr empty;
      })
]

split_items-Splits :
    (is_dir : Bool) (s : Split) (done items : List Bytes)
    → Splits s done
    → AllLong items
    → Splits (split_items is_dir s items) (reverse items ++ done)
unfolding split_items
split_items-Splits is_dir s done [] h long = h
split_items-Splits is_dir s done (x ∷ items) h long =
    subst (Splits (split_items is_dir (split_item is_dir s x) items))
      (sym (
        ap (λ t. t ++ done) (reverse-append (x ∷ []) items)
        ∙ append_assoc (reverse items) (x ∷ []) done))
      (split_items-Splits is_dir (split_item is_dir s x) (x ∷ done) items
        (split_item-Splits is_dir s done x h long.0) long.1)

AllLong-append : (xs ys : List Bytes) → AllLong xs → AllLong ys → AllLong (xs ++ ys)
AllLong-append [] ys h k = k
AllLong-append (x ∷ xs) ys h k = (h.0, AllLong-append xs ys h.1 k)

reverse-AllLong : (xs : List Bytes) → AllLong xs → AllLong (reverse xs)
reverse-AllLong [] h = tt
reverse-AllLong (x ∷ xs) h =
    subst AllLong (sym (reverse-append (x ∷ []) xs))
      (AllLong-append (reverse xs) (x ∷ []) (reverse-AllLong xs h.1) (h.0, tt))

AllItems-AllLong : (xs : List Bytes) → AllItems xs → AllLong xs
AllItems-AllLong [] h = tt
AllItems-AllLong ([] ∷ xs) h = absurd h.0
AllItems-AllLong ((c ∷ x) ∷ xs) h = (omega arith, AllItems-AllLong xs h.1)

drop_dots-AllLong : (xs : List Bytes) → AllLong xs → AllLong (drop_dots xs)
unfolding drop_dots
drop_dots-AllLong [] h = tt
drop_dots-AllLong (x ∷ xs) h = elim (Bool-cases (str_eq x dot)) [
  | inl e ↦ rw e (drop_dots-AllLong xs h.1)
  | inr e ↦ rw e (h.0, drop_dots-AllLong xs h.1)
]

strip_leading-normal :
    (a : Bool) (xs : List Bytes) → AllLong xs → AllLong (strip_leading (normal a xs))
unfolding strip_leading normal
strip_leading-normal true [] h = (omega arith, tt)
strip_leading-normal false [] h = tt
strip_leading-normal true (x ∷ xs) h = (h.0, drop_dots-AllLong xs h.1)
strip_leading-normal false (x ∷ xs) h =
    let nonempty : (length x == 0) ≡ false = ground (arith, h.0) in
    rw nonempty (h.0, drop_dots-AllLong xs h.1)

-- The components of a path without the leading empty one are not empty.
pub strip_leading-AllLong : (path : Bytes) → AllLong (strip_leading (FilePath.new path))
strip_leading-AllLong path =
    subst (λ t. AllLong (strip_leading t)) (sym (new-normal path))
      (strip_leading-normal (is_absolute path) (tokens (c_str path))
        (AllItems-AllLong (tokens (c_str path)) (tokens-AllItems path)))

no_split-Splits : Splits no_split []
unfolding join_bytes
no_split-Splits = record {
  order = refl;
  prefix_eq = refl;
  suffix_eq = refl;
  prefix_long = tt;
  suffix_long = tt;
  started = inr refl;
}

-- A path whose components are `p` and `q` has the prefix and the suffix that these make, and is marked
-- as truncated exactly if one of them does not fit its field.
pub record IsSplit (is_dir : Bool) (d : PathData) (p q : List Bytes) : Type 0 where
  pub prefix_eq : d.prefix ≡ join_bytes (slash ∷ []) p
  pub suffix_eq : d.suffix ≡ join_bytes (slash ∷ []) q ++ (if is_dir then slash ∷ [] else [])
  pub truncated_eq : d.truncated ≡ (ltb 100 (length d.suffix) || ltb 155 (length d.prefix))

assemble-IsSplit :
    (is_dir : Bool) (s : Split) (done : List Bytes)
    → Splits s done
    → IsSplit is_dir (assemble is_dir s) (reverse s.prefix_items) (reverse s.suffix_items)
unfolding assemble
assemble-IsSplit is_dir s done h = record {
  prefix_eq = refl;
  suffix_eq = refl;
  truncated_eq = ap₂ (λ a b. ltb 100 a || ltb 155 b) suffix_len h.prefix_eq;
}
  where
    slash_len : (b : Bool) → (if b then 1 else 0) ≡ length (if b then slash ∷ [] else [])
    slash_len true = refl
    slash_len false = refl

    suffix_len :
        s.suffix_size + (if is_dir then 1 else 0)
        ≡ length (
            join_bytes (slash ∷ []) (reverse s.suffix_items) ++ (if is_dir then slash ∷ [] else []))
    suffix_len =
        ap₂ (λ a b. a + b) h.suffix_eq (slash_len is_dir)
        ∙ sym (length-append (joined (reverse s.suffix_items)) (if is_dir then slash ∷ [] else []))

-- path_split() cuts the components of a path, without the leading empty one, into those of the prefix
-- and those of the suffix, for every path that has components; a directory's suffix ends in a slash,
-- and the path is marked as truncated exactly if the suffix has more than 100 bytes or the prefix
-- more than 155.
pub path_split-IsSplit :
    (path : Bytes) (st : Stat)
    → FilePath.new path ≢ []
    → (d : PathData) × (p : List Bytes) × (q : List Bytes) × (path_split path st ≡ some d)
      × (p ++ q ≡ strip_leading (FilePath.new path))
      × IsSplit (file_type st == ifdir) d p q
unfolding path_split
path_split-IsSplit path st some_parts =
    let parts = strip_leading (FilePath.new path) in
    let is_dir = file_type st == ifdir in
    let s = split_items is_dir no_split (reverse parts) in
    let h : Splits s (reverse (reverse parts) ++ []) =
      split_items-Splits is_dir no_split [] (reverse parts) no_split-Splits
        (reverse-AllLong parts (strip_leading-AllLong path)) in
    (
      assemble is_dir s,
      reverse s.prefix_items,
      reverse s.suffix_items,
      rw (nonempty (FilePath.new path) some_parts) refl,
      h.order ∙ append-nil (reverse (reverse parts)) ∙ reverse-reverse parts,
      assemble-IsSplit is_dir s (reverse (reverse parts) ++ []) h,
    )
  where
    nonempty : (ps : List Bytes) → ps ≢ [] → (length ps == 0) ≡ false
    nonempty [] h = absurd (h refl)
    nonempty (p ∷ ps) h = ground arith
