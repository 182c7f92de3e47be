-- ===== src/Tests/Headers.antt =====
-- Headers at concrete inputs.
use archive_tar_builder.Prelude.{
  ◌<◌, ◌^◌, ℕ, zero, suc, ◌/◌, ◌≡◌, refl, true, false, none, some, [], ◌∷◌, ◌++◌, arith, Bytes,
  length, replicate, c_str,
}
use archive_tar_builder.Header.Number.{size_field}
use archive_tar_builder.Header.Digits.{from_octal}
use archive_tar_builder.Header.Fields.{read_octal, read_size, is_base256, read_size-size_field}
use archive_tar_builder.Header.Layout.{Header, HeaderBlock, block_bytes}
use archive_tar_builder.Header.Encode.{empty_checksum, encode_checksum, encode_block}
use archive_tar_builder.Header.Readback.{IsSized}
use archive_tar_builder.Header.Checksum.{
  AllBytes, checksum_of, encode_checksum-checked, Reads, encode_block-Reads, encode_block-uid_cut,
  encode_block-read_device, read_device,
}
use archive_tar_builder.Pax.{
  compute_pax_length, pax_rounds, pax_line, int_text, decimal, decimal_digits,
}
use archive_tar_builder.Pax.Blocks.{pax_records, pax_record, link_record}

-- A block of zeros.
abbrev zero_block : HeaderBlock
zero_block = record {
  suffix = replicate 100 0;
  mode = replicate 8 0;
  uid = replicate 8 0;
  gid = replicate 8 0;
  size = replicate 12 0;
  mtime = replicate 12 0;
  checksum = replicate 8 0;
  linktype = 0;
  linkdest = replicate 100 0;
  magic = replicate 8 0;
  user = replicate 32 0;
  group = replicate 32 0;
  major = replicate 8 0;
  minor = replicate 8 0;
  prefix = replicate 155 0;
  padding = replicate 12 0;
}

zero-IsSized : IsSized zero_block
zero-IsSized = record {
  suffix_len = refl;
  mode_len = refl;
  uid_len = refl;
  gid_len = refl;
  size_len = refl;
  mtime_len = refl;
  checksum_len = refl;
  linkdest_len = refl;
  magic_len = refl;
  user_len = refl;
  group_len = refl;
  major_len = refl;
  minor_len = refl;
  prefix_len = refl;
  padding_len = refl;
}

-- A file of 9 GB, with the given owner and device.
abbrev large_file : ℕ → ℕ → Header
large_file uid minor = record {
  suffix = some (b'a' ∷ []);
  mode = 0x81a4;
  uid = uid;
  gid = 100;
  size = 9000000000;
  mtime = 1400000000;
  linktype = b'0';
  linkdest = none;
  user = none;
  group = none;
  major = 8;
  minor = minor;
  prefix = none;
  truncated = false;
  truncated_link = false;
}

encode_block-Reads_example :
    Reads (encode_block false zero_block (large_file 1000 1)) (large_file 1000 1)
encode_block-Reads_example =
    encode_block-Reads false zero_block (large_file 1000 1) (omega arith) (omega arith)
      (omega arith) (omega arith) refl

encode_block-uid_cut_example :
    read_octal (encode_block false zero_block (large_file 2097160 1)).uid ≡ 2097160 / 8
encode_block-uid_cut_example =
    encode_block-uid_cut false zero_block (large_file 2097160 1) (omega arith) (omega arith)

encode_block-read_device_example :
    read_device (encode_block false zero_block (large_file 1000 0)) ≡ (0, 0)
unfolding read_device from_octal c_str
encode_block-read_device_example =
    encode_block-read_device false zero_block (large_file 1000 0) (omega arith) (omega arith)

AllBytes-append : (a b : Bytes) → AllBytes a → AllBytes b → AllBytes (a ++ b)
AllBytes-append [] b h k = k
AllBytes-append (c ∷ a) b h k = (h.0, AllBytes-append a b h.1 k)

AllBytes-zeros : (n : ℕ) → AllBytes (replicate n 0)
AllBytes-zeros zero = tt
AllBytes-zeros (suc n) = (omega arith, AllBytes-zeros n)

zero-AllBytes : AllBytes (block_bytes (record zero_block { checksum = empty_checksum }))
unfolding block_bytes
zero-AllBytes =
    AllBytes-append (replicate 148 0) (empty_checksum ++ replicate 356 0) (AllBytes-zeros 148)
      (AllBytes-append empty_checksum (replicate 356 0) (ground arith) (AllBytes-zeros 356))

zero-length : length (block_bytes (record zero_block { checksum = empty_checksum })) ≡ 512
unfolding block_bytes
zero-length = refl

encode_checksum-checked_example :
    read_octal (encode_checksum zero_block).checksum ≡ checksum_of (encode_checksum zero_block)
encode_checksum-checked_example = encode_checksum-checked zero_block zero-AllBytes zero-length

read_size-size_field_example :
    (read_size (size_field true (replicate 12 0) 9000000000) ≡ 9000000000)
    × (is_base256 (size_field true (replicate 12 0) 9000000000) ≡ true)
read_size-size_field_example =
    read_size-size_field true (replicate 12 0) 9000000000 (omega arith) refl

record_fits : length (pax_records (b'a' ∷ b'b' ∷ []) none) < 8 ^ 11
unfolding pax_record link_record compute_pax_length pax_rounds pax_line int_text decimal
    decimal_digits
record_fits = omega arith
