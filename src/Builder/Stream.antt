-- ===== src/Builder/Stream.antt =====
-- b_builder_write_file() on a stream: a header block, and the padded contents.
use archive_tar_builder.Prelude.{
  ℕ, ◌-◌, ◌^◌, ◌≤◌, ◌<◌, ◌≡◌, refl, sym, ap, ◌∙◌, subst, false, Bool-cases, inl, inr, Option, none,
  some, [], ◌++◌, arith, ◌==◌, if◌then◌else◌, Bytes, length, take, drop, replicate, length-take,
  length-append, append-nil, append_assoc, add64,
}
use archive_tar_builder.Buffer.{block_size, ok, Block, Channel, padded_size, get_block, fill}
use archive_tar_builder.Buffer.Stream.{Streams, pad_to, length-pad_to, fill-Streams}
use archive_tar_builder.Buffer.Room.{get_block-room_made, Streams-zeros}
use archive_tar_builder.Header.Layout.{Header, HeaderBlock, block_bytes, block_of}
use archive_tar_builder.Header.Encode.{encode_block}
use archive_tar_builder.Header.Readback.{IsSized}
use archive_tar_builder.Header.Sized.{encode_block-IsSized, length-block_bytes}
use archive_tar_builder.Member.{Stat}
use archive_tar_builder.Contents.{File, returned, write_contents}
use archive_tar_builder.Contents.Chunk.{IsWhole}
use archive_tar_builder.Contents.Stream.{write_contents-Streams}
use archive_tar_builder.Builder.{Builder, System, encode_at}
use archive_tar_builder.Builder.Long.{Outcome, go_on, long_headers}
use archive_tar_builder.Builder.Write.{
  Written, written, after_contents, contents, after_block, after_long,
}

-- A header block before anything is written to it.
abbrev pub zero_block : HeaderBlock
zero_block = block_of (replicate block_size 0)

pub zero_block-IsSized : IsSized zero_block
unfolding block_of
zero_block-IsSized = record {
  suffix_len = refl;
  mode_len = refl;
  uid_len = refl;
  gid_len = refl;
  size_len = refl;
  mtime_len = refl;
  checksum_len = refl;
  linkdest_len = refl;
  magic_len = refl;
  user_len = refl;
  group_len = refl;
  major_len = refl;
  minor_len = refl;
  prefix_len = refl;
  padding_len = refl;
}

-- A header block that is taken and encoded is sent as it was encoded.
pub encode_at-Streams :
    {ch : Channel} {s : Bytes} (encode : HeaderBlock → HeaderBlock)
    → Streams ch s
    → length (block_bytes (encode zero_block)) ≡ block_size
    → (block : Block) × (ch' : Channel) × (get_block ch block_size ≡ (ok (some block), ch'))
      × (block.given ≡ block_size)
      × Streams (encode_at ch' block.offset encode) (s ++ block_bytes (encode zero_block))
      × ((encode_at ch' block.offset encode).buf.can_splice ≡ ch.buf.can_splice)
unfolding encode_at fill
encode_at-Streams {ch} {s} encode h sized =
    let (ch', got, streams, room, splice) = get_block-room_made h in
    let offset = ch'.buf.size - ch'.buf.unused in
    let taken : Channel = record ch' {
      buf = record ch'.buf { unused = ch'.buf.unused - block_size };
    } in
    let v = block_bytes (encode zero_block) in
    let memory : block_of (take block_size (drop offset ch'.buf.bytes)) ≡ zero_block =
      ap block_of (Streams-zeros block_size streams room) in
    let sent = fill-Streams v block_size streams (omega (arith, sized)) room refl in
    (
      record { offset = offset; given = block_size },
      taken,
      got,
      refl,
      subst (λ m. Streams (fill taken offset (block_bytes (encode m))) (s ++ v)) (sym memory)
          (subst (λ x. Streams (fill taken offset v) (s ++ x))
            (ap (λ n. v ++ replicate n 0) {x = block_size - length v} {y = 0} (omega (arith, sized))
              ∙ append-nil v)
            sent),
      splice,
    )

-- Without long names nothing stands in front of a member's header.
pub long_headers-short :
    (sys : System) (header : Header) (member_name : Bytes) (st : Stat) (b : Builder)
    → header.truncated ≡ false
    → header.truncated_link ≡ false
    → long_headers sys header member_name st b ≡ go_on b 0
unfolding long_headers
long_headers-short sys header member_name st b e f = rw (e, f) refl

-- What stands behind a member's header block: the padded contents of a regular file that is open.
unfoldable pub member_contents : Header → Option File → Bytes
member_contents header none = []
member_contents header (some file) =
    if header.linktype == b'0'
    then pad_to (padded_size header.size) (take header.size file.content)
    else []

-- The file can be read whole, as far as the header says that it goes.
unfoldable pub IsReadable : Header → Option File → Type 0
IsReadable header none = Unit
IsReadable header (some file) =
    IsWhole file.reads × (header.size < 2 ^ 62) × (header.size ≤ length file.content)

-- What stands behind the header block is as long as the number that b_file_write_contents() returns.
length-contents :
    (size : ℕ) (content : Bytes)
    → size < 2 ^ 62
    → size ≤ length content
    → length (pad_to (padded_size size) (take size content)) ≡ padded_size size
unfolding padded_size
length-contents size content small have =
    length-pad_to (padded_size size) (take size content)
      (let l = length-take size content in ground arith)

-- The member was written: with a builder whose channel streams `s` and `bytes`, whose total has grown
-- by the bytes, and which is otherwise the builder `b`. The descriptor takes no splice, as before.
pub record Wrote (ending : Written) (b : Builder) (s bytes : Bytes) : Type 0 where
  pub ch : Channel
  pub file : Option File
  pub written_eq :
      ending ≡ written (record b { ch = ch; total = add64 b.total (length bytes) }) file
  pub streams : Streams ch (s ++ bytes)
  pub kept : ch.buf.can_splice ≡ false

contents-none :
    (path : Bytes) (header : Header) (file : Option File) (b : Builder) {s : Bytes}
    → contents path header file b ≡ written b file
    → member_contents header file ≡ []
    → Streams b.ch s
    → b.ch.buf.can_splice ≡ false
    → b.total < 2 ^ 64
    → Wrote (contents path header file b) b s (member_contents header file)
contents-none path header file b {s} e nothing h no_splice small = rw nothing record {
  ch = b.ch;
  file = file;
  written_eq =
      e
      ∙ ap (λ n. written (record b { total = n }) file) {x = b.total} {y = add64 b.total 0}
          (omega arith);
  streams = subst (Streams b.ch) (sym (append-nil s)) h;
  kept = no_splice;
}

after_contents-ok :
    (path : Bytes) (header : Header) (file : File) (b : Builder) (n : ℕ) (ch : Channel)
    (file' : File)
    → header.linktype ≡ b'0'
    → write_contents b.ch file header.size ≡ returned (ok n) ch file'
    → contents path header (some file) b
      ≡ written (record b { ch = ch; total = add64 b.total n }) (some file')
unfolding contents after_contents
after_contents-ok path header file b n ch file' regular e =
    rw regular (ap (after_contents path b) e)

contents-Wrote :
    (path : Bytes) (header : Header) (file : Option File) (b : Builder) {s : Bytes}
    → Streams b.ch s
    → b.ch.buf.can_splice ≡ false
    → IsReadable header file
    → b.total < 2 ^ 64
    → Wrote (contents path header file b) b s (member_contents header file)
unfolding contents member_contents IsReadable
contents-Wrote path header none b {s} h no_splice readable small =
    contents-none path header none b refl refl h no_splice small
contents-Wrote path header (some file) b {s} h no_splice (whole, less, have) small =
    elim (Bool-cases (header.linktype == b'0')) [
      | inl e ↦
          let (ch, file', eq, sent, rest, kept) =
            write_contents-Streams file header.size h no_splice whole less have in
          let regular : header.linktype ≡ b'0' = ground arith in
          let v = pad_to (padded_size header.size) (take header.size file.content) in
          let same : member_contents header (some file) ≡ v = rw e refl in
          rw same record {
            ch = ch;
            file = some file';
            written_eq =
                after_contents-ok path header file b (padded_size header.size) ch file' regular eq
                ∙ ap (λ n. written (record b { ch = ch; total = add64 b.total n }) (some file'))
                    (sym (length-contents header.size file.content less have));
            streams = sent;
            kept = kept;
          }
      | inr e ↦ contents-none path header (some file) b (rw e refl) (rw e refl) h no_splice small
    ]

-- A member, its header block first.
unfoldable pub member_bytes : System → Header → Option File → Bytes
unfolding member_contents
member_bytes sys header file =
    block_bytes (encode_block sys.big_endian zero_block header) ++ member_contents header file

-- What is written behind a builder with more bytes sent.
pub Wrote-behind :
    {ending : Written} {b : Builder} {s : Bytes} (v w : Bytes) (ch : Channel) (n : ℕ)
    → n ≡ length v
    → Wrote ending (record b { ch = ch; total = add64 b.total n }) (s ++ v) w
    → Wrote ending b s (v ++ w)
Wrote-behind {ending} {b} {s} v w ch n e h = record {
  ch = h.ch;
  file = h.file;
  written_eq =
      h.written_eq
      ∙ ap (λ t. written (record b { ch = h.ch; total = t }) h.file)
          {x = add64 (add64 b.total n) (length w)} {y = add64 b.total (length (v ++ w))}
          (omega (arith, length-append v w, e));
  streams = subst (Streams h.ch) (append_assoc s v w) h.streams;
  kept = h.kept;
}

after_block-Wrote :
    (sys : System) (path : Bytes) (header : Header) (file : Option File) (b : Builder) {s : Bytes}
    → Streams b.ch s
    → b.ch.buf.can_splice ≡ false
    → IsReadable header file
    → Wrote
        (after_block sys path header file b (get_block b.ch block_size))
        b
        s
        (member_bytes sys header file)
unfolding after_block member_bytes
after_block-Wrote sys path header file b h no_splice readable =
    let encode : HeaderBlock → HeaderBlock = λ block. encode_block sys.big_endian block header in
    let sized =
      length-block_bytes (encode zero_block)
        (encode_block-IsSized sys.big_endian zero_block header zero_block-IsSized) in
    let (block, ch', got, given, streams, splice) = encode_at-Streams encode h sized in
    let sent = encode_at ch' block.offset encode in
    let done =
      contents-Wrote path header file (record b { ch = sent; total = add64 b.total block.given })
        streams (splice ∙ no_splice) readable (omega arith) in
    rw got (
      Wrote-behind (block_bytes (encode zero_block)) (member_contents header file) sent block.given
        (given ∙ sym sized) done)

-- The headers in front of a member's own were written: `bytes` were sent behind `s`.
pub record GoesOn (outcome : Outcome) (b : Builder) (s bytes : Bytes) : Type 0 where
  pub ch : Channel
  pub wrlen : ℕ
  pub go_on_eq : outcome ≡ go_on (record b { ch = ch; total = add64 b.total (length bytes) }) wrlen
  pub streams : Streams ch (s ++ bytes)
  pub splice_eq : ch.buf.can_splice ≡ b.ch.buf.can_splice

pub after_long-Wrote :
    (sys : System) (path : Bytes) (header : Header) (file : Option File) (b : Builder) {s v : Bytes}
    (outcome : Outcome)
    → GoesOn outcome b s v
    → b.ch.buf.can_splice ≡ false
    → IsReadable header file
    → Wrote (after_long sys path header file outcome) b s (v ++ member_bytes sys header file)
unfolding after_long
after_long-Wrote sys path header file b {s} {v} outcome h no_splice readable = rw h.go_on_eq (
    Wrote-behind v (member_bytes sys header file) h.ch (length v) refl (
      after_block-Wrote sys path header file
        (record b { ch = h.ch; total = add64 b.total (length v) }) h.streams
        (h.splice_eq ∙ no_splice) readable))
