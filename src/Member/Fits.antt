-- ===== src/Member/Fits.antt =====
-- From a member's name to its header block and back: a reader finds the components of the name.
use archive_tar_builder.Prelude.{
  ℕ, ◌≡◌, ◌≢◌, refl, sym, ap, ◌∙◌, subst, Bool, true, false, Option, none, some, List, [], ◌∷◌,
  ◌++◌, ltb, ◌==◌, ◌||◌, if◌then◌else◌, Bytes, length, c_str, NoNul, NoNul-append, str_eq, arith,
  Bool-cases, inl, inr, ◌>>=◌,
}
use archive_tar_builder.Util.Texts.{join_bytes}
use archive_tar_builder.FilePath.{slash, dot, is_absolute, tokens}
use archive_tar_builder.FilePath
use archive_tar_builder.FilePath.Clean.{
  AllItems, Plain-NoNul, drop_dots, normal, new-normal, tokens-AllItems,
}
use archive_tar_builder.Header.Layout.{Header, HeaderBlock}
use archive_tar_builder.Header.Encode.{
  put_text, put_device, fields, encode_fields, encode_checksum, encode_block,
}
use archive_tar_builder.Header.Checksum.{put_text-read}
use archive_tar_builder.Member.{
  Stat, file_type, ifdir, iflnk, PathData, strip_leading, path_split, is_hardlink, HardlinkLookup,
  hard_link, add_link, plain_header, mark_long, header_for_file,
}
use archive_tar_builder.Member.Parts.{IsSplit, path_split-IsSplit}

abbrev AllNoNul : List Bytes → Type 0
AllNoNul [] = Unit {0}
AllNoNul (x ∷ xs) = NoNul x × AllNoNul xs

AllItems-AllNoNul : (xs : List Bytes) → AllItems xs → AllNoNul xs
AllItems-AllNoNul [] h = tt
AllItems-AllNoNul ([] ∷ xs) h = absurd h.0
AllItems-AllNoNul ((c ∷ x) ∷ xs) h = (Plain-NoNul (c ∷ x) h.0, AllItems-AllNoNul xs h.1)

drop_dots-AllNoNul : (xs : List Bytes) → AllNoNul xs → AllNoNul (drop_dots xs)
unfolding drop_dots
drop_dots-AllNoNul [] h = tt
drop_dots-AllNoNul (x ∷ xs) h = elim (Bool-cases (str_eq x dot)) [
  | inl e ↦ rw e (drop_dots-AllNoNul xs h.1)
  | inr e ↦ rw e (h.0, drop_dots-AllNoNul xs h.1)
]

strip_leading-AllNoNul : (ps : List Bytes) → AllNoNul ps → AllNoNul (strip_leading ps)
unfolding strip_leading
strip_leading-AllNoNul [] h = tt
strip_leading-AllNoNul (p ∷ ps) h = elim (Bool-cases (length p == 0)) [
  | inl e ↦ rw e h.1
  | inr e ↦ rw e h
]

normal-AllNoNul : (a : Bool) (xs : List Bytes) → AllNoNul xs → AllNoNul (normal a xs)
unfolding normal
normal-AllNoNul true [] h = ground arith
normal-AllNoNul false [] h = tt
normal-AllNoNul true (x ∷ xs) h = (tt, (h.0, drop_dots-AllNoNul xs h.1))
normal-AllNoNul false (x ∷ xs) h = (h.0, drop_dots-AllNoNul xs h.1)

parts-AllNoNul : (path : Bytes) → AllNoNul (strip_leading (FilePath.new path))
parts-AllNoNul path = strip_leading-AllNoNul (FilePath.new path) (
    subst AllNoNul (sym (new-normal path)) (
      normal-AllNoNul (is_absolute path) (tokens (c_str path))
        (AllItems-AllNoNul (tokens (c_str path)) (tokens-AllItems path))))

AllNoNul-split : (p q : List Bytes) → AllNoNul (p ++ q) → AllNoNul p × AllNoNul q
AllNoNul-split [] q h = (tt, h)
AllNoNul-split (x ∷ p) q h = let k = AllNoNul-split p q h.1 in ((h.0, k.0), k.1)

join_bytes-AllNoNul : (xs : List Bytes) → AllNoNul xs → NoNul (join_bytes (slash ∷ []) xs)
unfolding join_bytes
join_bytes-AllNoNul [] h = tt
join_bytes-AllNoNul (x ∷ []) h = h.0
join_bytes-AllNoNul (x ∷ y ∷ ys) h =
    NoNul-append x (slash ∷ join_bytes (slash ∷ []) (y ∷ ys)) h.0
      (ground arith, join_bytes-AllNoNul (y ∷ ys) h.1)

-- A header that is there has this prefix and suffix and this mark.
abbrev Keeps : Option Header → PathData → Type 0
Keeps none d = Unit {0}
Keeps (some header) d =
    (header.prefix ≡ some d.prefix)
    × (header.suffix ≡ some d.suffix)
    × (header.truncated ≡ d.truncated)

hard_link-Keeps :
    (d : PathData) (header : Header) (st : Stat) (lookup : Option HardlinkLookup)
    → Keeps (some header) d
    → Keeps (some (hard_link header st lookup)) d
unfolding hard_link
hard_link-Keeps d header st none h = h
hard_link-Keeps d header st (some lookup) h = by_answer (lookup st.dev st.ino)
  where
    by_answer :
        (answer : Option Bytes)
        → Keeps
            (some (elim answer [
              | none ↦ header
              | some linkdest ↦ record header { linktype = b'1'; linkdest = some linkdest }
            ]))
            d
    by_answer none = h
    by_answer (some linkdest) = h

add_link-Keeps :
    (d : PathData) (header : Header) (st : Stat) (link : Option Bytes)
    (lookup : Option HardlinkLookup)
    → Keeps (some header) d
    → Keeps (add_link header st link lookup >>= λ header. some (mark_long header)) d
unfolding add_link mark_long
add_link-Keeps d header st link lookup h = elim (Bool-cases (file_type st == iflnk)) [
  | inl e ↦ rw e (by_link link)
  | inr e ↦ rw e (elim (Bool-cases (is_hardlink st)) [
    | inl k ↦ rw k (hard_link-Keeps d header st lookup h)
    | inr k ↦ rw k h
  ])
]
  where
    by_link :
        (l : Option Bytes)
        → Keeps
            ((l >>= λ l. some (record header { linkdest = some l })) >>= λ header.
              some (mark_long header))
            d
    by_link none = tt
    by_link (some l) = h

header_for_file-Keeps :
    (device_major device_minor : ℕ → ℕ) (lookup : Option HardlinkLookup) (link : Option Bytes)
    (name : Bytes) (st : Stat) (d : PathData)
    → path_split name st ≡ some d
    → Keeps (header_for_file device_major device_minor lookup link name st) d
unfolding header_for_file plain_header
header_for_file-Keeps device_major device_minor lookup link name st d e = rw e (
    add_link-Keeps d (plain_header device_major device_minor d st) st link lookup
      (refl, refl, refl))

put_device-texts :
    (b : HeaderBlock) (header : Header)
    → ((put_device b header).prefix ≡ b.prefix) × ((put_device b header).suffix ≡ b.suffix)
unfolding put_device
put_device-texts b header = ground arith

-- The texts that a reader finds in an encoded header.
encode_block-texts :
    (big : Bool) (block : HeaderBlock) (header : Header) (prefix suffix : Bytes)
    → header.prefix ≡ some prefix
    → header.suffix ≡ some suffix
    → NoNul prefix × NoNul suffix
    → (ltb 100 (length suffix) || ltb 155 (length prefix)) ≡ false
    → (c_str (encode_block big block header).prefix ≡ prefix)
      × (c_str (encode_block big block header).suffix ≡ suffix)
unfolding encode_block encode_checksum encode_fields fields
encode_block-texts big block header prefix suffix p s no_nul fits =
    let kept = put_device-texts (fields big block header) header in
    (
      ap c_str (kept.0 ∙ ap (put_text block.prefix 155) p)
          ∙ put_text-read block.prefix 155 prefix no_nul.0 (ground (arith, fits)),
      ap c_str (kept.1 ∙ ap (put_text block.suffix 100) s)
          ∙ put_text-read block.suffix 100 suffix no_nul.1 (ground (arith, fits)),
    )

-- `d` splits these components, all of them plain texts.
IsSplit-NoNul :
    (is_dir : Bool) (d : PathData) (p q : List Bytes)
    → IsSplit is_dir d p q
    → AllNoNul p × AllNoNul q
    → NoNul d.prefix × NoNul d.suffix
IsSplit-NoNul is_dir d p q h no_nul = (
  subst NoNul (sym h.prefix_eq) (join_bytes-AllNoNul p no_nul.0),
  subst NoNul (sym h.suffix_eq) (
      NoNul-append (join_bytes (slash ∷ []) q) (if is_dir then slash ∷ [] else [])
        (join_bytes-AllNoNul q no_nul.1) (ending is_dir)),
)
  where
    ending : (b : Bool) → NoNul (if b then slash ∷ [] else [])
    ending true = (ground arith, tt)
    ending false = tt

-- What a reader finds in a block: the components of a member's name, cut into those of the prefix and
-- those of the suffix.
pub record Names (block : HeaderBlock) (is_dir : Bool) (name : Bytes) : Type 0 where
  pub prefix_items : List Bytes
  pub suffix_items : List Bytes
  pub items_eq : prefix_items ++ suffix_items ≡ strip_leading (FilePath.new name)
  pub prefix_eq : c_str block.prefix ≡ join_bytes (slash ∷ []) prefix_items
  pub suffix_eq :
      c_str block.suffix
      ≡ join_bytes (slash ∷ []) suffix_items ++ (if is_dir then slash ∷ [] else [])

-- The header that is made for a member whose name has components, unless it is marked as truncated, is
-- encoded into a block in which a reader finds the components of the name, without the leading empty one of an
-- absolute path: the first of them joined in the prefix and the others in the suffix, which ends in a
-- slash for a directory.
pub header_for_file-Names :
    (device_major device_minor : ℕ → ℕ) (lookup : Option HardlinkLookup) (link : Option Bytes)
    (name : Bytes) (st : Stat) (big : Bool) (block : HeaderBlock) {header : Header}
    → header_for_file device_major device_minor lookup link name st ≡ some header
    → header.truncated ≡ false
    → FilePath.new name ≢ []
    → Names (encode_block big block header) (file_type st == ifdir) name
header_for_file-Names device_major device_minor lookup link name st big block {header} e t
      some_parts =
    let (d, p, q, split_eq, items_eq, h) = path_split-IsSplit name st some_parts in
    let kept : Keeps (some header) d =
      subst (λ o. Keeps o d) e
        (header_for_file-Keeps device_major device_minor lookup link name st d split_eq) in
    let no_nul : AllNoNul p × AllNoNul q =
      AllNoNul-split p q (subst AllNoNul (sym items_eq) (parts-AllNoNul name)) in
    let texts =
      encode_block-texts big block header d.prefix d.suffix kept.0 kept.1
        (IsSplit-NoNul (file_type st == ifdir) d p q h no_nul)
        (sym h.truncated_eq ∙ sym kept.2 ∙ t) in
    record {
      prefix_items = p;
      suffix_items = q;
      items_eq = items_eq;
      prefix_eq = texts.0 ∙ h.prefix_eq;
      suffix_eq = texts.1 ∙ h.suffix_eq;
    }
