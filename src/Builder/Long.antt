-- ===== src/Builder/Long.antt =====
-- b_builder.c: the headers in front of a member's own, for a name or a link that does not fit it.
use archive_tar_builder.Prelude.{
  ℕ, not, ◌||◌, Option, none, some, [], ◌∷◌, ◌++◌, ◌==◌, if◌then◌else◌, Bytes, codes, add64,
}
use archive_tar_builder.Buffer.{block_size, Result, ok, err, Block, Channel, get_block}
use archive_tar_builder.Errors.{pos, warn_type, fatal_type}
use archive_tar_builder.Header.Layout.{Header}
use archive_tar_builder.Header.Encode.{encode_longlink_block}
use archive_tar_builder.Member.{Stat, file_type, ifdir}
use archive_tar_builder.FilePath.{slash}
use archive_tar_builder.PathBlocks.{write_path_blocks}
use archive_tar_builder.Pax.{encode_pax_block, write_pax_path_blocks}
use archive_tar_builder.Builder.{
  Builder, System, gnu_extensions, pax_extensions, has_option, errno_number, report, encode_at,
}

-- How a part of b_builder_write_file() ends: the rest goes on with the builder and `wrlen`, or -1 is
-- returned.
pub data Outcome : Type 0 where
  go_on : Builder → ℕ → Outcome
  give_up : Builder → Outcome

unfoldable pub and_then : Outcome → (Builder → ℕ → Outcome) → Outcome
and_then (go_on b wrlen) rest = rest b wrlen
and_then (give_up b) rest = give_up b

-- The end of encode_longlink() and of the branch for pax headers: what was written is counted.
unfoldable pub after_path : Builder → Bytes → Result ℕ × Channel → Outcome
unfolding report
after_path b path (ok wrlen, ch) = go_on (record b { ch = ch; total = add64 b.total wrlen }) wrlen
after_path b path (err e, ch) = give_up (
    report (record b { ch = ch }) fatal_type (errno_number e)
      (codes "Cannot write long filename header") path)

-- encode_longlink(), for the block at `offset`
unfoldable pub encode_longlink : ℕ → Bytes → ℕ → Builder → ℕ → Outcome
unfolding encode_at after_path
encode_longlink offset path type b wrlen =
    let ch = encode_at b.ch offset (λ block. encode_longlink_block block path type) in
    after_path (record b { ch = ch; total = add64 b.total wrlen }) path (write_path_blocks ch path)

-- B_HEADER_LONGLINK_TYPE, B_HEADER_LONGDEST_TYPE
abbrev pub longlink_type : ℕ
longlink_type = b'L'

abbrev pub longdest_type : ℕ
longdest_type = b'K'

-- `path == NULL` in encode_longlink()
unfoldable pub encode_longdest : ℕ → Option Bytes → Builder → ℕ → Outcome
unfolding encode_longlink
encode_longdest offset none b wrlen = go_on b wrlen
encode_longdest offset (some path) b wrlen = encode_longlink offset path longdest_type b wrlen

-- The branch for GNU extensions. Both headers are encoded at the same place.
unfoldable pub gnu_headers : Header → Bytes → ℕ → Builder → ℕ → Outcome
unfolding encode_longlink encode_longdest and_then
gnu_headers header longlink_path offset b wrlen =
    and_then
      (if header.truncated
        then encode_longlink offset longlink_path longlink_type b wrlen
        else go_on b wrlen)
      (λ b wrlen.
        if header.truncated_link
        then encode_longdest offset header.linkdest b wrlen
        else go_on b wrlen)

-- The branch for pax extensions. An error names the member, not the path that was being written.
unfoldable pub pax_headers : System → Header → Bytes → Bytes → ℕ → Builder → ℕ → Outcome
unfolding encode_at after_path
pax_headers sys header member_name longlink_path offset b wrlen =
    let ch =
      encode_at b.ch offset
        (λ block. encode_pax_block sys.big_endian block header longlink_path sys.pid) in
    after_path (record b { ch = ch; total = add64 b.total wrlen }) member_name
      (write_pax_path_blocks ch longlink_path header.linkdest)

-- The member's name, with a slash behind a directory's.
unfoldable pub longlink_path : Bytes → Stat → Bytes
longlink_path member_name st =
    if file_type st == ifdir then member_name ++ slash ∷ [] else member_name

-- The branch behind the block for the first header. A block that cannot be had is no reported error.
unfoldable pub after_long_block :
    System → Header → Bytes → Stat → Builder → Result (Option Block) × Channel → Outcome
unfolding gnu_headers pax_headers longlink_path has_option
after_long_block sys header member_name st b (err e, ch) = give_up (record b { ch = ch })
after_long_block sys header member_name st b (ok none, ch) = give_up (record b { ch = ch })
after_long_block sys header member_name st b (ok (some block), ch) =
    let b' = record b { ch = ch } in
    let path = longlink_path member_name st in
    if has_option b.options gnu_extensions
    then gnu_headers header path block.offset b' block.given
    else if has_option b.options pax_extensions
    then pax_headers sys header member_name path block.offset b' block.given
    else go_on b' block.given

-- Long names and long links. ENAMETOOLONG is 36.
unfoldable pub long_headers : System → Header → Bytes → Stat → Builder → Outcome
unfolding after_long_block has_option report
long_headers sys header member_name st b =
    if not (header.truncated || header.truncated_link)
    then go_on b 0
    else if not (has_option b.options gnu_extensions || has_option b.options pax_extensions)
    then give_up (report b warn_type (pos 36) (codes "File name too long") member_name)
    else after_long_block sys header member_name st b (get_block b.ch block_size)
