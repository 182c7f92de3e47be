-- ===== src/Pax.antt =====
-- The pax headers of b_header.c and b_file.c, for names and links that do not fit a header.
-- String objects are their texts, without a terminator inside; malloc() is granted, and snprintf(3)
-- returns the length of the whole text.
pub mod Length
pub mod Sized
pub mod Blocks
use archive_tar_builder.Prelude.{
  ℕ, zero, suc, ◌+◌, ◌-◌, ◌/◌, ◌%◌, ◌^◌, Bool, true, false, Option, none, some, [], ◌∷◌, ◌++◌, ◌==◌,
  ltb, if◌then◌else◌, Bytes, length, take, drop, replicate, codes,
}
use archive_tar_builder.Buffer.{Channel, Result}
use archive_tar_builder.PathBlocks.{write_path_blocks}
use archive_tar_builder.Header.Number.{octal, snprintf}
use archive_tar_builder.Header.Layout.{Header, HeaderBlock}
use archive_tar_builder.Header.Encode.{encode_block, encode_checksum}

-- The digits of a number of at most `f` digits; none for 0.
unfoldable pub decimal_digits : ℕ → ℕ → Bytes
decimal_digits zero n = []
decimal_digits (suc f) n =
    let rest = decimal_digits f (n / 10) in if n == 0 then [] else rest ++ (b'0' + n % 10) ∷ []

unfoldable pub decimal : ℕ → Bytes
decimal n = if n == 0 then b'0' ∷ [] else decimal_digits 10 n

-- "%d" reads the lower 32 bits of its argument as an `int`.
unfoldable pub int_text : ℕ → Bytes
int_text n = let v = n % 2 ^ 32 in if ltb v (2 ^ 31) then decimal v else b'-' ∷ decimal (2 ^ 32 - v)

-- "%d %s=%s\n"
unfoldable pub pax_line : ℕ → Bytes → Bytes → Bytes
pax_line len name path = int_text len ++ (b' ' ∷ (name ++ (b'=' ∷ (path ++ 10 ∷ []))))

-- The loop of b_header_compute_pax_length(), with `n` rounds to go.
unfoldable pub pax_rounds : ℕ → ℕ → Bytes → Bytes → ℕ
pax_rounds zero len name path = len
pax_rounds (suc n) len name path = pax_rounds n (length (pax_line len name path)) name path

unfoldable pub compute_pax_length : Bytes → Bytes → ℕ
compute_pax_length path name = pax_rounds 3 (length path) name path

abbrev pub path_name : Bytes
path_name = codes "path"

abbrev pub linkpath_name : Bytes
linkpath_name = codes "linkpath"

-- The length for a link, if there is one.
unfoldable pub link_length : Option Bytes → ℕ
link_length none = 0
link_length (some linkdest) = compute_pax_length linkdest linkpath_name

-- `snprintf(buffer + offset, size, ...)`
unfoldable pub print_at : Bytes → ℕ → ℕ → Bytes → Bytes
print_at buffer offset size text = take offset buffer ++ snprintf (drop offset buffer) size text

unfoldable pub print_link : Bytes → ℕ → Option Bytes → Bytes
print_link buffer full_len none = buffer
print_link buffer full_len (some linkdest) =
    let link_full_len = compute_pax_length linkdest linkpath_name in
    print_at buffer full_len (link_full_len + 1) (pax_line link_full_len linkpath_name linkdest)

-- The buffer of b_file_write_pax_path_blocks(), without its last terminator.
unfoldable pub pax_buffer : Bytes → Option Bytes → Bytes
pax_buffer path linkdest =
    let full_len = compute_pax_length path path_name in
    let total_len = full_len + link_length linkdest in
    let buffer =
      print_at (replicate (total_len + 1) 0) 0 (total_len + 1) (pax_line full_len path_name path) in
    take total_len (print_link buffer full_len linkdest)

unfoldable pub write_pax_path_blocks : Channel → Bytes → Option Bytes → Result ℕ × Channel
write_pax_path_blocks ch path linkdest = write_path_blocks ch (pax_buffer path linkdest)

-- b_header_encode_pax_block(); `pid` is what getpid(2) answers.
unfoldable pub encode_pax_block : Bool → HeaderBlock → Header → Bytes → ℕ → HeaderBlock
encode_pax_block big block header path pid =
    let pax_len = compute_pax_length path path_name + link_length header.linkdest in
    let b = encode_block big block header in
    encode_checksum (record b {
      size = snprintf b.size 12 (octal 11 pax_len);
      prefix = snprintf (replicate 155 0) 155 (codes "./PaxHeaders." ++ int_text pid);
      linktype = b'x';
    })
