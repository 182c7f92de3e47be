-- ===== src/Header/Sized.antt =====
-- Encoding a header keeps the size of every field, so that the block keeps its 512 bytes.
use archive_tar_builder.Prelude.{
  ℕ, zero, suc, ◌+◌, ◌-◌, ◌<◌, ◌≤◌, ◌≡◌, refl, ap, ap₂, ◌∙◌, Bool, Option, none, some, [], ◌∷◌,
  ◌++◌, arith, leb, ◌==◌, not, ◌&&◌, Bytes, length, take, drop, length-append, length-take,
  length-drop, length-strncpy, Bool-cases, inl, inr,
}
use archive_tar_builder.Header.Number.{
  octal, snprintf, base256_bytes, mark_base256, encode_base256_value, max_file_size, size_field,
}
use archive_tar_builder.Header.Layout.{Header, HeaderBlock, block_bytes}
use archive_tar_builder.Header.Readback.{IsSized}
use archive_tar_builder.Header.Encode.{
  empty_checksum, end_with_space, encode_checksum, put_text, put_device, fields, encode_fields,
  encode_block, encode_longlink_block, longlink_path,
}

-- Printing into the first `size` bytes of a field keeps the field's length.
length-snprintf_le :
    (field : Bytes) (size : ℕ) (text : Bytes)
    → 0 < size
    → size ≤ length field
    → length (snprintf field size text) ≡ length field
unfolding snprintf
length-snprintf_le field size text pos fits =
    let written = take (size - 1) text in
    omega (
      arith,
      length-append written (0 ∷ drop (length written + 1) field),
      length-take (size - 1) text,
      length-drop (length written + 1) field,
    )

length-end_with_space : (field : Bytes) → length field ≡ 8 → length (end_with_space field) ≡ 8
unfolding end_with_space
length-end_with_space field h =
    omega (arith, length-append (take 7 field) (32 ∷ []), length-take 7 field)

length-put_text :
    (field : Bytes) (n : ℕ) (s : Option Bytes) → length field ≡ n → length (put_text field n s) ≡ n
unfolding put_text
length-put_text field n none h = h
length-put_text field n (some s) h = length-strncpy n s

length-mark_base256 : (field : Bytes) → length (mark_base256 field) ≡ length field
unfolding mark_base256
length-mark_base256 [] = refl
length-mark_base256 (b ∷ field) = refl

length-base256_bytes : (big : Bool) (v n i : ℕ) → length (base256_bytes big v n i) ≡ n
unfolding base256_bytes
length-base256_bytes big v zero i = refl
length-base256_bytes big v (suc n) i = ap suc (length-base256_bytes big v n (suc i))

length-size_field :
    (big : Bool) (field : Bytes) (size : ℕ)
    → length field ≡ 12
    → length (size_field big field size) ≡ 12
unfolding size_field encode_base256_value
length-size_field big field size h =
    let marked = take (12 - 8) field ++ base256_bytes big size 8 0 in
    let l : length (mark_base256 marked) ≡ 12 = omega (
      arith,
      length-mark_base256 marked,
      length-append (take (12 - 8) field) (base256_bytes big size 8 0),
      length-take (12 - 8) field,
      length-base256_bytes big size 8 0,
    ) in
    elim (Bool-cases (leb max_file_size size)) [
      | inl e ↦ rw e l
      | inr e ↦
          rw e (length-snprintf_le field 12 (octal 11 size) (omega arith) (omega (arith, h)) ∙ h)
    ]

put_device-IsSized : (b : HeaderBlock) (header : Header) → IsSized b → IsSized (put_device b header)
unfolding put_device
put_device-IsSized b header h =
    elim (Bool-cases (not (header.major == 0) && not (header.minor == 0))) [
      | inl e ↦ rw e (
          sized_with (snprintf b.major 8 (octal 7 header.major))
            (snprintf b.minor 8 (octal 7 header.minor))
            (length-snprintf_le b.major 8 (octal 7 header.major) (omega arith)
                (omega (arith, h.major_len))
              ∙ h.major_len)
            (length-snprintf_le b.minor 8 (octal 7 header.minor) (omega arith)
                (omega (arith, h.minor_len))
              ∙ h.minor_len))
      | inr e ↦ rw e h
    ]
  where
    sized_with :
        (major minor : Bytes)
        → length major ≡ 8
        → length minor ≡ 8
        → IsSized (record b { major = major; minor = minor })
    sized_with major minor k l = record {
      suffix_len = h.suffix_len;
      mode_len = h.mode_len;
      uid_len = h.uid_len;
      gid_len = h.gid_len;
      size_len = h.size_len;
      mtime_len = h.mtime_len;
      checksum_len = h.checksum_len;
      linkdest_len = h.linkdest_len;
      magic_len = h.magic_len;
      user_len = h.user_len;
      group_len = h.group_len;
      major_len = k;
      minor_len = l;
      prefix_len = h.prefix_len;
      padding_len = h.padding_len;
    }

pub printed :
    (field : Bytes) (n : ℕ) (text : Bytes)
    → 0 < n
    → length field ≡ n
    → length (snprintf field n text) ≡ n
printed field n text pos h = length-snprintf_le field n text pos (omega (arith, h)) ∙ h

fields-IsSized :
    (big : Bool) (b : HeaderBlock) (header : Header) → IsSized b → IsSized (fields big b header)
unfolding fields
fields-IsSized big b header h = record {
  suffix_len = length-put_text b.suffix 100 header.suffix h.suffix_len;
  mode_len = printed b.mode 8 _ (omega arith) h.mode_len;
  uid_len = printed b.uid 8 _ (omega arith) h.uid_len;
  gid_len = printed b.gid 8 _ (omega arith) h.gid_len;
  size_len = length-size_field big b.size header.size h.size_len;
  mtime_len = printed b.mtime 12 _ (omega arith) h.mtime_len;
  checksum_len = h.checksum_len;
  linkdest_len = length-put_text b.linkdest 100 header.linkdest h.linkdest_len;
  magic_len = refl;
  user_len = length-put_text b.user 32 header.user h.user_len;
  group_len = length-put_text b.group 32 header.group h.group_len;
  major_len = h.major_len;
  minor_len = h.minor_len;
  prefix_len = length-put_text b.prefix 155 header.prefix h.prefix_len;
  padding_len = h.padding_len;
}

pub encode_checksum-IsSized : (b : HeaderBlock) → IsSized b → IsSized (encode_checksum b)
unfolding encode_checksum
encode_checksum-IsSized b h = record {
  suffix_len = h.suffix_len;
  mode_len = h.mode_len;
  uid_len = h.uid_len;
  gid_len = h.gid_len;
  size_len = h.size_len;
  mtime_len = h.mtime_len;
  checksum_len =
      length-end_with_space _ (length-snprintf_le empty_checksum 7 _ (omega arith) (omega arith));
  linkdest_len = h.linkdest_len;
  magic_len = h.magic_len;
  user_len = h.user_len;
  group_len = h.group_len;
  major_len = h.major_len;
  minor_len = h.minor_len;
  prefix_len = h.prefix_len;
  padding_len = h.padding_len;
}

-- b_header_encode_block() keeps the size of every field.
pub encode_block-IsSized :
    (big : Bool) (b : HeaderBlock) (header : Header)
    → IsSized b
    → IsSized (encode_block big b header)
unfolding encode_block encode_fields
encode_block-IsSized big b header h =
    encode_checksum-IsSized (put_device (fields big b header) header)
      (put_device-IsSized (fields big b header) header (fields-IsSized big b header h))

length-behind :
    (a rest : Bytes) {n m : ℕ} → length a ≡ n → length rest ≡ m → length (a ++ rest) ≡ n + m
length-behind a rest h k = length-append a rest ∙ ap₂ (λ x y. x + y) h k

-- A block is 512 bytes of memory.
pub length-block_bytes : (b : HeaderBlock) → IsSized b → length (block_bytes b) ≡ 512
unfolding block_bytes
length-block_bytes b h = length-behind _ _ h.suffix_len (
    length-behind _ _ h.mode_len (
      length-behind _ _ h.uid_len (
        length-behind _ _ h.gid_len (
          length-behind _ _ h.size_len (
            length-behind _ _ h.mtime_len
              (length-behind _ _ h.checksum_len (ap suc (from_linkdest b h))))))))
  where
    from_linkdest :
        (b : HeaderBlock)
        → IsSized b
        → length (
            b.linkdest
            ++ (b.magic
                ++ (b.user ++ (b.group ++ (b.major ++ (b.minor ++ (b.prefix ++ b.padding)))))))
          ≡ 355
    from_linkdest b h = length-behind _ _ h.linkdest_len (
        length-behind _ _ h.magic_len (
          length-behind _ _ h.user_len (
            length-behind _ _ h.group_len (
              length-behind _ _ h.major_len
                (length-behind _ _ h.minor_len (length-behind _ _ h.prefix_len h.padding_len))))))

-- b_header_encode_longlink_block() keeps the size of every field.
pub encode_longlink_block-IsSized :
    (b : HeaderBlock) (path : Bytes) (type : ℕ)
    → IsSized b
    → IsSized (encode_longlink_block b path type)
unfolding encode_longlink_block
encode_longlink_block-IsSized b path type h = encode_checksum-IsSized _ (record {
  suffix_len = printed b.suffix 100 longlink_path (omega arith) h.suffix_len;
  mode_len = h.mode_len;
  uid_len = h.uid_len;
  gid_len = h.gid_len;
  size_len = printed b.size 12 _ (omega arith) h.size_len;
  mtime_len = h.mtime_len;
  checksum_len = h.checksum_len;
  linkdest_len = h.linkdest_len;
  magic_len = refl;
  user_len = h.user_len;
  group_len = h.group_len;
  major_len = h.major_len;
  minor_len = h.minor_len;
  prefix_len = h.prefix_len;
  padding_len = h.padding_len;
})
