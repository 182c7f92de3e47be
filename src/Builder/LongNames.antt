-- ===== src/Builder/LongNames.antt =====
-- b_builder_write_file() on a stream: the headers for long names.
use archive_tar_builder.Prelude.{
  ℕ, ◌*◌, ◌^◌, ◌<◌, ◌≡◌, refl, sym, ap, ◌∙◌, subst, true, false, ◌||◌, some, [], ◌++◌, arith, Bytes,
  length, length-append, append-nil, append_assoc, add64,
}
use archive_tar_builder.Buffer.{block_size, Result, ok, Channel, get_block}
use archive_tar_builder.Buffer.Stream.{Streams, pad_to, length-pad_to}
use archive_tar_builder.Header.Layout.{Header, HeaderBlock, block_bytes}
use archive_tar_builder.Header.Encode.{encode_longlink_block}
use archive_tar_builder.Header.Sized.{encode_longlink_block-IsSized, length-block_bytes}
use archive_tar_builder.Pax.Sized.{encode_pax_block-IsSized}
use archive_tar_builder.Member.{Stat}
use archive_tar_builder.PathBlocks.{
  rounds, write_path_blocks, write_path_blocks-Streams, blocks_loop-can_splice,
}
use archive_tar_builder.Pax.{encode_pax_block, pax_buffer, write_pax_path_blocks}
use archive_tar_builder.Pax.Blocks.{
  IsShort, IsShortLink, pax_records, write_pax_path_blocks-Streams,
}
use archive_tar_builder.Builder.{
  Builder, System, gnu_extensions, pax_extensions, has_option, encode_at,
}
use archive_tar_builder.Builder.Long.{
  Outcome, go_on, give_up, and_then, after_path, encode_longlink, encode_longdest, longlink_type,
  longdest_type, gnu_headers, pax_headers, longlink_path, after_long_block, long_headers,
}
use archive_tar_builder.Builder.Stream.{
  zero_block, zero_block-IsSized, encode_at-Streams, GoesOn, long_headers-short,
}

-- A text in whole blocks.
abbrev pub in_blocks : Bytes → Bytes
in_blocks text = pad_to (rounds (length text) * block_size) text

length-in_blocks : (text : Bytes) → length (in_blocks text) ≡ rounds (length text) * block_size
unfolding rounds
length-in_blocks text = length-pad_to (rounds (length text) * block_size) text (omega arith)

-- A GNU header for a long name, and the name behind it.
unfoldable pub longlink_bytes : Bytes → ℕ → Bytes
longlink_bytes path type =
    block_bytes (encode_longlink_block zero_block path type) ++ in_blocks path

-- A pax header, and the records behind it.
unfoldable pub pax_bytes : System → Header → Bytes → Bytes
pax_bytes sys header path =
    block_bytes (encode_pax_block sys.big_endian zero_block header path sys.pid)
    ++ in_blocks (pax_records path header.linkdest)

-- What is written in front of a member's own header, under the options given, where its name is `path`:
-- nothing; a GNU header for the name or for the link; or a pax header. With GNU headers a name
-- and a link that are both too long are left out, as the second header overwrites the first.
pub data LongNames (sys : System) (options : ℕ) (header : Header) (path : Bytes)
    : Bytes → Type 0 where
  names_fit :
      header.truncated ≡ false
      → header.truncated_link ≡ false
      → LongNames sys options header path []
  gnu_path :
      has_option options gnu_extensions ≡ true
      → header.truncated ≡ true
      → header.truncated_link ≡ false
      → LongNames sys options header path (longlink_bytes path longlink_type)
  gnu_link :
      (linkdest : Bytes)
      → has_option options gnu_extensions ≡ true
      → header.truncated ≡ false
      → header.truncated_link ≡ true
      → header.linkdest ≡ some linkdest
      → LongNames sys options header path (longlink_bytes linkdest longdest_type)
  pax_names :
      has_option options gnu_extensions ≡ false
      → has_option options pax_extensions ≡ true
      → (header.truncated || header.truncated_link) ≡ true
      → IsShort path
      → IsShortLink header.linkdest
      → LongNames sys options header path (pax_bytes sys header path)

-- The end of a header whose block was sent, and whose text goes into the blocks behind it.
after_path-GoesOn :
    (b : Builder) (sent ch : Channel) (name s blk text : Bytes) (result : Result ℕ × Channel)
    (given : ℕ)
    → result ≡ (ok (rounds (length text) * block_size), ch)
    → Streams ch ((s ++ blk) ++ in_blocks text)
    → given ≡ length blk
    → ch.buf.can_splice ≡ b.ch.buf.can_splice
    → GoesOn
        (after_path (record b { ch = sent; total = add64 b.total given }) name result)
        b
        s
        (blk ++ in_blocks text)
unfolding after_path
after_path-GoesOn b sent ch name s blk text result given e streams sized splice = record {
  ch = ch;
  wrlen = rounds (length text) * block_size;
  go_on_eq =
      ap (after_path (record b { ch = sent; total = add64 b.total given }) name) e
      ∙ ap (λ n. go_on (record b { ch = ch; total = n }) (rounds (length text) * block_size))
          {x = add64 (add64 b.total given) (rounds (length text) * block_size)}
          {y = add64 b.total (length (blk ++ in_blocks text))}
          (omega (arith, length-append blk (in_blocks text), length-in_blocks text, sized));
  streams = subst (Streams ch) (append_assoc s blk (in_blocks text)) streams;
  splice_eq = splice;
}

encode_longlink-GoesOn :
    (b : Builder) {s : Bytes} (path : Bytes) (type offset given : ℕ) (ch : Channel)
    → given ≡ block_size
    → Streams
        (encode_at ch offset (λ block. encode_longlink_block block path type))
        (s ++ block_bytes (encode_longlink_block zero_block path type))
    → (encode_at ch offset (λ block. encode_longlink_block block path type)).buf.can_splice
      ≡ b.ch.buf.can_splice
    → GoesOn
        (encode_longlink offset path type (record b { ch = ch }) given)
        b
        s
        (longlink_bytes path type)
unfolding encode_longlink longlink_bytes write_path_blocks
encode_longlink-GoesOn b {s} path type offset given ch e streams splice =
    let sent = encode_at ch offset (λ block. encode_longlink_block block path type) in
    let blk = block_bytes (encode_longlink_block zero_block path type) in
    let (ch', looped, streams') = write_path_blocks-Streams path streams in
    let sized =
      length-block_bytes (encode_longlink_block zero_block path type)
        (encode_longlink_block-IsSized zero_block path type zero_block-IsSized) in
    let kept : ch'.buf.can_splice ≡ sent.buf.can_splice =
      sym (ap (λ r. r.1.buf.can_splice) looped)
      ∙ blocks_loop-can_splice (rounds (length path)) sent path 0 in
    after_path-GoesOn b sent ch' path s blk path (write_path_blocks sent path) given looped streams'
      (e ∙ sym sized) (kept ∙ splice)

pax_headers-GoesOn :
    (sys : System) (header : Header) (name path : Bytes) (offset given : ℕ) (b : Builder)
    {s : Bytes} (ch : Channel)
    → given ≡ block_size
    → IsShort path
    → IsShortLink header.linkdest
    → Streams
        (encode_at ch offset (λ block. encode_pax_block sys.big_endian block header path sys.pid))
        (s ++ block_bytes (encode_pax_block sys.big_endian zero_block header path sys.pid))
    → (encode_at ch offset
        (λ block. encode_pax_block sys.big_endian block header path sys.pid)).buf.can_splice
      ≡ b.ch.buf.can_splice
    → GoesOn
        (pax_headers sys header name path offset (record b { ch = ch }) given)
        b
        s
        (pax_bytes sys header path)
unfolding pax_headers pax_bytes write_pax_path_blocks write_path_blocks
pax_headers-GoesOn sys header name path offset given b {s} ch e short short_link streams splice =
    let encode : HeaderBlock → HeaderBlock =
      λ block. encode_pax_block sys.big_endian block header path sys.pid in
    let sent = encode_at ch offset encode in
    let blk = block_bytes (encode zero_block) in
    let text = pax_records path header.linkdest in
    let (ch', looped, streams') =
      write_pax_path_blocks-Streams path header.linkdest streams short short_link in
    let sized =
      length-block_bytes (encode zero_block) (
        encode_pax_block-IsSized sys.big_endian zero_block header path sys.pid
          zero_block-IsSized) in
    let buffer = pax_buffer path header.linkdest in
    let kept : ch'.buf.can_splice ≡ sent.buf.can_splice =
      sym (ap (λ r. r.1.buf.can_splice) looped)
      ∙ blocks_loop-can_splice (rounds (length buffer)) sent buffer 0 in
    after_path-GoesOn b sent ch' name s blk text (write_pax_path_blocks sent path header.linkdest)
      given looped streams' (e ∙ sym sized) (kept ∙ splice)

long_headers-block :
    (sys : System) (header : Header) (name : Bytes) (st : Stat) (b : Builder)
    → (header.truncated || header.truncated_link) ≡ true
    → (has_option b.options gnu_extensions || has_option b.options pax_extensions) ≡ true
    → long_headers sys header name st b
      ≡ after_long_block sys header name st b (get_block b.ch block_size)
unfolding long_headers
long_headers-block sys header name st b e f = rw (e, f) refl

and_then-go_on : (outcome : Outcome) → and_then outcome go_on ≡ outcome
unfolding and_then
and_then-go_on (go_on b wrlen) = refl
and_then-go_on (give_up b) = refl

gnu_headers-path :
    (header : Header) (path : Bytes) (offset : ℕ) (b : Builder) (wrlen : ℕ)
    → header.truncated ≡ true
    → header.truncated_link ≡ false
    → gnu_headers header path offset b wrlen ≡ encode_longlink offset path longlink_type b wrlen
unfolding gnu_headers
gnu_headers-path header path offset b wrlen e f =
    rw (e, f) (and_then-go_on (encode_longlink offset path longlink_type b wrlen))

gnu_headers-link :
    (header : Header) (path linkdest : Bytes) (offset : ℕ) (b : Builder) (wrlen : ℕ)
    → header.truncated ≡ false
    → header.truncated_link ≡ true
    → header.linkdest ≡ some linkdest
    → gnu_headers header path offset b wrlen ≡ encode_longlink offset linkdest longdest_type b wrlen
unfolding gnu_headers and_then encode_longdest
gnu_headers-link header path linkdest offset b wrlen e f g = rw (e, f, g) refl

-- A GNU header that is the only one is written as it should be.
gnu-GoesOn :
    (sys : System) (header : Header) (name : Bytes) (st : Stat) (b : Builder) (text : Bytes)
    (type : ℕ) {s : Bytes}
    → Streams b.ch s
    → has_option b.options gnu_extensions ≡ true
    → (header.truncated || header.truncated_link) ≡ true
    → ((offset : ℕ) (b : Builder) (wrlen : ℕ)
        → gnu_headers header (longlink_path name st) offset b wrlen
          ≡ encode_longlink offset text type b wrlen)
    → GoesOn (long_headers sys header name st b) b s (longlink_bytes text type)
unfolding after_long_block
gnu-GoesOn sys header name st b text type {s} h gnu long only =
    let encode : HeaderBlock → HeaderBlock = λ block. encode_longlink_block block text type in
    let sized =
      length-block_bytes (encode zero_block)
        (encode_longlink_block-IsSized zero_block text type zero_block-IsSized) in
    let (block, ch', got, given, streams, splice) = encode_at-Streams encode h sized in
    let done =
      encode_longlink-GoesOn b text type block.offset block.given ch' given streams splice in
    let allowed : (has_option b.options gnu_extensions || has_option b.options pax_extensions)
        ≡ true =
      rw gnu refl in
    rw
      (
        long_headers-block sys header name st b long allowed,
        got,
        gnu,
        only block.offset (record b { ch = ch' }) block.given,
      )
      done

-- The headers in front of a member's own are written as they should be.
pub long_headers-GoesOn :
    (sys : System) (header : Header) (name : Bytes) (st : Stat) (b : Builder) {s v : Bytes}
    → Streams b.ch s
    → b.total < 2 ^ 64
    → LongNames sys b.options header (longlink_path name st) v
    → GoesOn (long_headers sys header name st b) b s v
unfolding after_long_block
long_headers-GoesOn sys header name st b {s} h small (names_fit e f) = record {
  ch = b.ch;
  wrlen = 0;
  go_on_eq =
      long_headers-short sys header name st b e f
      ∙ ap (λ n. go_on (record b { total = n }) 0) {x = b.total} {y = add64 b.total 0}
          (omega arith);
  streams = subst (Streams b.ch) (sym (append-nil s)) h;
  splice_eq = refl;
}
long_headers-GoesOn sys header name st b {s} h small (gnu_path gnu e f) =
    gnu-GoesOn sys header name st b (longlink_path name st) longlink_type h gnu (rw e refl)
      (λ offset b wrlen. gnu_headers-path header (longlink_path name st) offset b wrlen e f)
long_headers-GoesOn sys header name st b {s} h small (gnu_link linkdest gnu e f g) =
    gnu-GoesOn sys header name st b linkdest longdest_type h gnu (rw (e, f) refl) (λ offset b wrlen.
      gnu_headers-link header (longlink_path name st) linkdest offset b wrlen e f g)
long_headers-GoesOn sys header name st b {s} h small (pax_names gnu pax e short short_link) =
    let path = longlink_path name st in
    let encode : HeaderBlock → HeaderBlock =
      λ block. encode_pax_block sys.big_endian block header path sys.pid in
    let sized =
      length-block_bytes (encode zero_block) (
        encode_pax_block-IsSized sys.big_endian zero_block header path sys.pid
          zero_block-IsSized) in
    let (block, ch', got, given, streams, splice) = encode_at-Streams encode h sized in
    let done =
      pax_headers-GoesOn sys header name path block.offset block.given b ch' given short short_link
        streams splice in
    let allowed : (has_option b.options gnu_extensions || has_option b.options pax_extensions)
        ≡ true =
      rw (gnu, pax) refl in
    rw (long_headers-block sys header name st b e allowed, got, gnu, pax) done
