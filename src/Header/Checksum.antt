-- ===== src/Header/Checksum.antt =====
-- The checksum of a block, and the fields of an encoded header, as a reader sees them.
use archive_tar_builder.Prelude.{
  ℕ, zero, suc, ◌+◌, ◌-◌, ◌*◌, ◌/◌, ◌%◌, ◌^◌, ◌≤◌, ◌<◌, ◌≡◌, refl, sym, ap, ap₂, ◌∙◌, Bool, some,
  [], ◌∷◌, ◌++◌, arith, ◌==◌, ◌||◌, if◌then◌else◌, Bool-cases, Bytes, NoNul, c_str,
  c_str-append_nul, c_str_self, strncpy, length, take, drop, replicate, take-append_self,
  length-append, take_all, append-nil, append_assoc, inl, inr,
}
use archive_tar_builder.Header.Number.{octal, snprintf}
use archive_tar_builder.Header.Digits.{length-octal, from_octal, from_octal-octal}
use archive_tar_builder.Header.Fields.{
  octal-NoNul, read_octal, read_octal-snprintf, read_octal-cut, read_size, read_size-size_field,
}
use archive_tar_builder.Header.Layout.{Header, HeaderBlock, block_bytes}
use archive_tar_builder.Header.Encode.{
  sum_bytes, empty_checksum, end_with_space, encode_checksum, put_text, put_device, fields,
  encode_fields, encode_block,
}

-- Bytes of memory.
abbrev pub AllBytes : Bytes → Type 0
AllBytes [] = Unit {0}
AllBytes (c ∷ s) = (c < 256) × AllBytes s

sum_bytes-le : (s : Bytes) → AllBytes s → sum_bytes s ≤ 255 * length s
unfolding sum_bytes
sum_bytes-le [] h = omega arith
sum_bytes-le (c ∷ s) h = omega (arith, sum_bytes-le s h.1)

-- The sum that a reader takes, with spaces for the checksum.
unfoldable pub checksum_of : HeaderBlock → ℕ
checksum_of b = sum_bytes (block_bytes (record b { checksum = empty_checksum }))

checksum_text :
    (n : ℕ)
    → n < 8 ^ 6
    → end_with_space (snprintf empty_checksum 7 (octal 6 n)) ≡ octal 6 n ++ 0 ∷ 32 ∷ []
unfolding end_with_space snprintf
checksum_text n h =
    let l : length (octal 6 n) ≡ 6 = length-octal 6 n h in
    ap (λ t. take 7 (t ++ (0 ∷ drop (length t + 1) empty_checksum)) ++ 32 ∷ [])
      (take_all 6 (octal 6 n) (omega arith))
    ∙ ap (λ k. take 7 (octal 6 n ++ (0 ∷ drop (k + 1) empty_checksum)) ++ 32 ∷ []) l
    ∙ ap (λ t. take 7 t ++ 32 ∷ []) (sym (append_assoc (octal 6 n) (0 ∷ []) (32 ∷ [])))
    ∙ ap (λ k. take k ((octal 6 n ++ 0 ∷ []) ++ 32 ∷ []) ++ 32 ∷ []) {x = 7}
        {y = length (octal 6 n ++ 0 ∷ [])} (omega (arith, length-append (octal 6 n) (0 ∷ [])))
    ∙ ap (λ t. t ++ 32 ∷ []) (take-append_self (octal 6 n ++ 0 ∷ []) (32 ∷ []))
    ∙ append_assoc (octal 6 n) (0 ∷ []) (32 ∷ [])

-- The checksum that is stored in a block, if it has 512 bytes, each below 256, is read back as the sum
-- that a reader takes of the block with spaces in the checksum's place.
pub encode_checksum-checked :
    (b : HeaderBlock)
    → let s = block_bytes (record b { checksum = empty_checksum }) in
      AllBytes s
      → length s ≡ 512
      → read_octal (encode_checksum b).checksum ≡ checksum_of (encode_checksum b)
unfolding encode_checksum checksum_of
encode_checksum-checked b h l =
    let sum = sum_bytes (block_bytes (record b { checksum = empty_checksum })) in
    let small : sum < 8 ^ 6 =
      omega (arith, sum_bytes-le (block_bytes (record b { checksum = empty_checksum })) h) in
    ap read_octal (checksum_text sum small)
    ∙ ap (from_octal 0) (c_str-append_nul (octal 6 sum) (32 ∷ []) (octal-NoNul 6 sum))
    ∙ from_octal-octal 6 sum (omega arith)

strncpy-nil : (n : ℕ) → 0 ∷ strncpy n [] ≡ replicate (suc n) 0
unfolding strncpy
strncpy-nil zero = refl
strncpy-nil (suc n) = ap (λ t. 0 ∷ t) (strncpy-nil n)

-- A text that fits its field is read back from it.
strncpy-fits :
    (n : ℕ) (s : Bytes) → NoNul s → length s ≤ n → strncpy n s ≡ s ++ replicate (n - length s) 0
unfolding strncpy
strncpy-fits zero [] h k = refl
strncpy-fits zero (c ∷ s) h k = absurd (omega arith)
strncpy-fits (suc n) [] h k =
    strncpy-nil n ∙ ap (λ j. replicate j 0) {x = suc n} {y = suc n - 0} (omega arith)
strncpy-fits (suc n) (c ∷ s) h k = ground (arith, strncpy-fits n s h.1 (omega arith))

c_str-append_zeros : (s : Bytes) (k : ℕ) → NoNul s → c_str (s ++ replicate k 0) ≡ s
unfolding c_str
c_str-append_zeros s zero h = ap c_str (append-nil s) ∙ c_str_self s h
c_str-append_zeros s (suc k) h = c_str-append_nul s (replicate k 0) h

-- A text without a terminator that fits its field is what a reader finds in the field, up to a
-- terminator.
pub put_text-read :
    (field : Bytes) (n : ℕ) (s : Bytes)
    → NoNul s
    → length s ≤ n
    → c_str (put_text field n (some s)) ≡ s
unfolding put_text
put_text-read field n s h k =
    ap c_str (strncpy-fits n s h k) ∙ c_str-append_zeros s (n - length s) h

-- What a reader finds in the block of a header.
pub record Reads (b : HeaderBlock) (header : Header) : Type 0 where
  pub mode : read_octal b.mode ≡ header.mode % 512
  pub uid : read_octal b.uid ≡ header.uid
  pub gid : read_octal b.gid ≡ header.gid
  pub size : read_size b.size ≡ header.size
  pub mtime : read_octal b.mtime ≡ header.mtime
  pub linktype : b.linktype ≡ header.linktype

put_device-keeps :
    (b : HeaderBlock) (header : Header)
    → ((put_device b header).mode ≡ b.mode)
      × ((put_device b header).uid ≡ b.uid)
      × ((put_device b header).gid ≡ b.gid)
      × ((put_device b header).size ≡ b.size)
      × ((put_device b header).mtime ≡ b.mtime)
      × ((put_device b header).linktype ≡ b.linktype)
unfolding put_device
put_device-keeps b header = ground arith

-- The permissions, an owner and a group of at most seven octal digits, a size of 64 bits, a time of 32
-- bits and the type are read back from an encoded header, if the first four bytes of the block's size
-- field were zero before.
pub encode_block-Reads :
    (big : Bool) (block : HeaderBlock) (header : Header)
    → header.uid < 8 ^ 7
    → header.gid < 8 ^ 7
    → header.size < 2 ^ 64
    → header.mtime < 2 ^ 32
    → take 4 block.size ≡ 0 ∷ 0 ∷ 0 ∷ 0 ∷ []
    → Reads (encode_block big block header) header
unfolding encode_block encode_checksum encode_fields
encode_block-Reads big block header u g s t z =
    let kept = put_device-keeps (fields big block header) header in
    record {
      mode =
          ap read_octal kept.0
          ∙ read_octal-snprintf block.mode 7 (header.mode % 512) (omega arith) (omega arith);
      uid = ap read_octal kept.1 ∙ read_octal-snprintf block.uid 7 header.uid u (omega arith);
      gid = ap read_octal kept.2 ∙ read_octal-snprintf block.gid 7 header.gid g (omega arith);
      size = ap read_size kept.3 ∙ (read_size-size_field big block.size header.size s z).0;
      mtime =
          ap read_octal kept.4
          ∙ read_octal-snprintf block.mtime 11 (header.mtime % 2 ^ 32) (omega arith) (omega arith)
          ∙ omega arith;
      linktype = kept.5;
    }

-- An owner of eight octal digits is read back without its last digit: as another owner.
pub encode_block-uid_cut :
    (big : Bool) (block : HeaderBlock) (header : Header)
    → 8 ^ 7 ≤ header.uid
    → header.uid < 8 ^ 8
    → read_octal (encode_block big block header).uid ≡ header.uid / 8
unfolding encode_block encode_checksum encode_fields
encode_block-uid_cut big block header h k =
    ap read_octal (put_device-keeps (fields big block header) header).1
    ∙ read_octal-cut block.uid header.uid h k

-- The device that a reader finds in a block: its major and its minor number
unfoldable pub read_device : HeaderBlock → ℕ × ℕ
read_device b = (read_octal b.major, read_octal b.minor)

-- Device numbers of at most seven octal digits are read back from an encoded header if neither of them is
-- 0; otherwise a reader finds the two numbers that stood in the block before, so that a device with just
-- one of them 0 loses the other.
pub encode_block-read_device :
    (big : Bool) (block : HeaderBlock) (header : Header)
    → header.major < 8 ^ 7
    → header.minor < 8 ^ 7
    → read_device (encode_block big block header) ≡ (
        if header.major == 0 || header.minor == 0
        then read_device block
        else (header.major, header.minor))
unfolding encode_block encode_checksum encode_fields put_device read_device fields
encode_block-read_device big block header h k = elim (Bool-cases (header.major == 0)) [
  | inl e ↦ rw e refl
  | inr e ↦ elim (Bool-cases (header.minor == 0)) [
    | inl f ↦ rw (e, f) refl
    | inr f ↦
        rw (e, f)
          (ap₂ (λ m n. (m, n)) (read_octal-snprintf block.major 7 header.major h (omega arith))
            (read_octal-snprintf block.minor 7 header.minor k (omega arith)))
  ]
]
