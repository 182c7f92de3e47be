-- ===== src/Pax/Blocks.antt =====
-- The pax records that are written, and the header that announces them.
use archive_tar_builder.Prelude.{
  ℕ, ◌+◌, ◌-◌, ◌*◌, ◌^◌, ◌<◌, ◌≡◌, refl, sym, ap, ap₂, ◌∙◌, Bool, Option, none, some, [], ◌∷◌, ◌++◌,
  append-nil, append_assoc, Bytes, length, length-append, take, drop, replicate, take_all,
  take-append_self, drop-append_self, arith,
}
use archive_tar_builder.Buffer.{block_size, ok, Channel}
use archive_tar_builder.Buffer.Stream.{Streams, pad_to}
use archive_tar_builder.PathBlocks.{rounds, write_path_blocks, write_path_blocks-Streams}
use archive_tar_builder.Header.Number.{octal, snprintf}
use archive_tar_builder.Header.Fields.{read_octal, read_octal-snprintf}
use archive_tar_builder.Header.Layout.{Header, HeaderBlock}
use archive_tar_builder.Header.Encode.{encode_checksum, encode_block}
use archive_tar_builder.Pax.{
  pax_line, compute_pax_length, path_name, linkpath_name, link_length, print_at, print_link,
  pax_buffer, write_pax_path_blocks, encode_pax_block,
}
use archive_tar_builder.Pax.Length.{compute_pax_length-pax_line}

-- A pax record: its own length, the name, and the value.
unfoldable pub pax_record : Bytes → Bytes → Bytes
pax_record name path = pax_line (compute_pax_length path name) name path

unfoldable pub link_record : Option Bytes → Bytes
unfolding pax_record
link_record none = []
link_record (some linkdest) = pax_record linkpath_name linkdest

-- The record of a path, and that of a link.
abbrev pub pax_records : Bytes → Option Bytes → Bytes
pax_records path linkdest = pax_record path_name path ++ link_record linkdest

-- A text of less than 1 GB; so is that of a link, if there is one.
abbrev pub IsShort : Bytes → Type 0
IsShort path = length path < 2 ^ 30

abbrev pub IsShortLink : Option Bytes → Type 0
IsShortLink none = Unit {0}
IsShortLink (some linkdest) = IsShort linkdest

length-pax_record :
    (name path : Bytes)
    → length name < 100
    → IsShort path
    → length (pax_record name path) ≡ compute_pax_length path name
unfolding pax_record
length-pax_record name path h k = compute_pax_length-pax_line path name (omega arith)

length-link_record :
    (linkdest : Option Bytes)
    → IsShortLink linkdest
    → length (link_record linkdest) ≡ link_length linkdest
unfolding link_record link_length
length-link_record none h = refl
length-link_record (some linkdest) h = length-pax_record linkpath_name linkdest (omega arith) h

length-pax_records :
    (path : Bytes) (linkdest : Option Bytes)
    → IsShort path
    → IsShortLink linkdest
    → length (pax_records path linkdest) ≡ compute_pax_length path path_name + link_length linkdest
length-pax_records path linkdest h k =
    length-append (pax_record path_name path) (link_record linkdest)
    ∙ ap₂ (λ a b. a + b) (length-pax_record path_name path (omega arith) h)
        (length-link_record linkdest k)

snprintf-fits :
    (field : Bytes) (size : ℕ) (text : Bytes)
    → length text < size
    → snprintf field size text ≡ text ++ (0 ∷ drop (length text + 1) field)
unfolding snprintf
snprintf-fits field size text h =
    ap (λ t. t ++ (0 ∷ drop (length t + 1) field)) (take_all (size - 1) text (omega arith))

print_at-fits :
    (a rest : Bytes) (size : ℕ) (text : Bytes)
    → length text < size
    → print_at (a ++ rest) (length a) size text ≡ a ++ (text ++ (0 ∷ drop (length text + 1) rest))
unfolding print_at
print_at-fits a rest size text h =
    ap₂ (λ x y. x ++ snprintf y size text) (take-append_self a rest) (drop-append_self a rest)
    ∙ ap (λ t. a ++ t) (snprintf-fits rest size text h)

-- Printing the link's record behind that of the path.
print_link-fits :
    (a rest : Bytes) (linkdest : Option Bytes)
    → IsShortLink linkdest
    → take (length a + link_length linkdest) (print_link (a ++ rest) (length a) linkdest)
      ≡ a ++ link_record linkdest
unfolding print_link link_length link_record pax_record
print_link-fits a rest none h =
    ap (λ n. take n (a ++ rest)) {x = length a + 0} {y = length a} (omega arith)
    ∙ take-append_self a rest
    ∙ sym (append-nil a)
print_link-fits a rest (some linkdest) h =
    let n = compute_pax_length linkdest linkpath_name in
    let text = pax_line n linkpath_name linkdest in
    let l : length text ≡ n = length-pax_record linkpath_name linkdest (omega arith) h in
    ap (take (length a + n)) (print_at-fits a rest (n + 1) text (omega arith))
    ∙ ap₂ take {x = length a + n} {y = length (a ++ text)} (omega (arith, length-append a text))
        (sym (append_assoc a text (0 ∷ drop (length text + 1) rest)))
    ∙ take-append_self (a ++ text) (0 ∷ drop (length text + 1) rest)

-- The buffer holds the records and nothing else.
pax_buffer-records :
    (path : Bytes) (linkdest : Option Bytes)
    → IsShort path
    → IsShortLink linkdest
    → pax_buffer path linkdest ≡ pax_records path linkdest
unfolding pax_buffer pax_record
pax_buffer-records path linkdest h k =
    let n = compute_pax_length path path_name in
    let total = n + link_length linkdest in
    let text = pax_line n path_name path in
    let l : length text ≡ n = length-pax_record path_name path (omega arith) h in
    let rest : Bytes = 0 ∷ drop (length text + 1) (replicate (total + 1) 0) in
    ap (λ b. take total (print_link b n linkdest))
      (print_at-fits [] (replicate (total + 1) 0) (total + 1) text (omega arith))
    ∙ ap (λ m. take (m + link_length linkdest) (print_link (text ++ rest) m linkdest)) (sym l)
    ∙ print_link-fits text rest linkdest k

-- On a channel whose stream is `s`, the record of the path and that of the link, if there is one, are
-- sent, padded with zeros to whole blocks, and the number returned is the padded length; the path and
-- the link have less than 1 GB.
pub write_pax_path_blocks-Streams :
    {ch : Channel} {s : Bytes} (path : Bytes) (linkdest : Option Bytes)
    → Streams ch s
    → IsShort path
    → IsShortLink linkdest
    → let padded = rounds (length (pax_records path linkdest)) * block_size in
      (ch' : Channel) × (write_pax_path_blocks ch path linkdest ≡ (ok padded, ch'))
      × Streams ch' (s ++ pad_to padded (pax_records path linkdest))
unfolding write_pax_path_blocks
write_pax_path_blocks-Streams {ch} {s} path linkdest h short short_link =
    let (ch', e, h') = write_path_blocks-Streams (pax_records path linkdest) h in
    (ch', ap (write_path_blocks ch) (pax_buffer-records path linkdest short short_link) ∙ e, h')

-- The size that is read back from a pax header is the length of the records for the path and for the
-- header's link, if these have less than 1 GB each, and their records less than 8 GB.
pub encode_pax_block-size :
    (big : Bool) (block : HeaderBlock) (header : Header) (path : Bytes) (pid : ℕ)
    → IsShort path
    → IsShortLink header.linkdest
    → length (pax_records path header.linkdest) < 8 ^ 11
    → read_octal (encode_pax_block big block header path pid).size
      ≡ length (pax_records path header.linkdest)
unfolding encode_pax_block encode_checksum
encode_pax_block-size big block header path pid h k small =
    let field = (encode_block big block header).size in
    ap (λ n. read_octal (snprintf field 12 (octal 11 n)))
      (sym (length-pax_records path header.linkdest h k))
    ∙ read_octal-snprintf field 11 (length (pax_records path header.linkdest)) small (omega arith)
