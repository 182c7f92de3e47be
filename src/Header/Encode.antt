-- ===== src/Header/Encode.antt =====
-- b_header.c: encoding a header, and a GNU longlink header, into a block.
use archive_tar_builder.Prelude.{
  ℕ, ◌+◌, ◌%◌, ◌^◌, Bool, not, ◌&&◌, Option, none, some, [], ◌∷◌, ◌++◌, ◌==◌, if◌then◌else◌, Bytes,
  strncpy, length, take, codes,
}
use archive_tar_builder.Header.Number.{octal, snprintf, size_field}
use archive_tar_builder.Header.Layout.{Header, HeaderBlock, block_bytes}

-- checksum(): each byte counts as unsigned.
unfoldable pub sum_bytes : Bytes → ℕ
sum_bytes [] = 0
sum_bytes (c ∷ s) = c + sum_bytes s

-- B_HEADER_EMPTY_CHECKSUM
abbrev pub empty_checksum : Bytes
empty_checksum = 32 ∷ 32 ∷ 32 ∷ 32 ∷ 32 ∷ 32 ∷ 32 ∷ 32 ∷ []

-- B_HEADER_MAGIC
abbrev pub magic_bytes : Bytes
magic_bytes = b'u' ∷ b's' ∷ b't' ∷ b'a' ∷ b'r' ∷ 0 ∷ 0x30 ∷ 0x30 ∷ []

-- `field[7] = ' '`
unfoldable pub end_with_space : Bytes → Bytes
end_with_space field = take 7 field ++ 32 ∷ []

-- encode_checksum(): the sum is taken with spaces in the checksum's place.
unfoldable pub encode_checksum : HeaderBlock → HeaderBlock
encode_checksum block =
    let sum = sum_bytes (block_bytes (record block { checksum = empty_checksum })) in
    record block { checksum = end_with_space (snprintf empty_checksum 7 (octal 6 sum)) }

-- `if (s) strncpy(field, s->str, n);`
unfoldable pub put_text : Bytes → ℕ → Option Bytes → Bytes
put_text field n none = field
put_text field n (some s) = strncpy n s

abbrev pub s_iperm : ℕ
s_iperm = 0x1ff

unfoldable pub put_device : HeaderBlock → Header → HeaderBlock
put_device block header =
    if not (header.major == 0) && not (header.minor == 0)
    then record block {
      major = snprintf block.major 8 (octal 7 header.major);
      minor = snprintf block.minor 8 (octal 7 header.minor);
    }
    else block

-- What b_header_encode_block() writes into the fields, but for the devices and the checksum. The
-- modification time goes through "%o", which prints its lower 32 bits.
unfoldable pub fields : Bool → HeaderBlock → Header → HeaderBlock
fields big block header = record block {
  suffix = put_text block.suffix 100 header.suffix;
  mode = snprintf block.mode 8 (octal 7 (header.mode % (s_iperm + 1)));
  uid = snprintf block.uid 8 (octal 7 header.uid);
  gid = snprintf block.gid 8 (octal 7 header.gid);
  size = size_field big block.size header.size;
  mtime = snprintf block.mtime 12 (octal 11 (header.mtime % 2 ^ 32));
  linktype = header.linktype;
  linkdest = put_text block.linkdest 100 header.linkdest;
  magic = magic_bytes;
  user = put_text block.user 32 header.user;
  group = put_text block.group 32 header.group;
  prefix = put_text block.prefix 155 header.prefix;
}

unfoldable pub encode_fields : Bool → HeaderBlock → Header → HeaderBlock
unfolding fields
encode_fields big block header = put_device (fields big block header) header

-- b_header_encode_block(); `big` is is_big_endian().
unfoldable pub encode_block : Bool → HeaderBlock → Header → HeaderBlock
encode_block big block header = encode_checksum (encode_fields big block header)

-- B_HEADER_LONGLINK_PATH
abbrev pub longlink_path : Bytes
longlink_path = codes "././@LongLink"

-- b_header_encode_longlink_block(): the length goes through "%o" as well.
unfoldable pub encode_longlink_block : HeaderBlock → Bytes → ℕ → HeaderBlock
encode_longlink_block block path type = encode_checksum (record block {
  magic = magic_bytes;
  suffix = snprintf block.suffix 100 longlink_path;
  size = snprintf block.size 12 (octal 11 (length path % 2 ^ 32));
  linktype = type;
})

-- b_header_set_usernames()
unfoldable pub set_usernames : Header → Option Bytes → Option Bytes → Header
set_usernames header user group = record header { user = user; group = group }
