-- ===== src/Builder/Write.antt =====
-- b_builder.c, b_builder_write_file(): the blocks of one member.
use archive_tar_builder.Prelude.{Option, none, some, ◌==◌, if◌then◌else◌, Bytes, codes, add64}
use archive_tar_builder.Buffer.{block_size, Result, ok, err, Block, Channel, get_block}
use archive_tar_builder.Errors.{ℤ, pos, ErrorType, warn_type, fatal_type, Error}
use archive_tar_builder.Errors
use archive_tar_builder.Header.Layout.{Header}
use archive_tar_builder.Header.Encode.{encode_block, set_usernames}
use archive_tar_builder.Member.{Stat, HardlinkLookup, header_for_file}
use archive_tar_builder.Contents.{File, Ending, returned, out_of_fuel, write_contents}
use archive_tar_builder.Builder.{Builder, System, errno_number, report, encode_at}
use archive_tar_builder.Builder.Long.{Outcome, go_on, give_up, long_headers}

-- The user and group names, if there is a service.
unfoldable pub look_up : System → Bytes → Stat → Builder → Header → Option Header × Builder
unfolding report
look_up sys path st b header = elim b.user_lookup [
  | none ↦ (some header, b)
  | some service ↦ elim (service st.uid st.gid) [
    | some (user, group) ↦ (some (set_usernames header user group), b)
    | none ↦ (
      none,
      report b warn_type (pos sys.lookup_errno) (codes "Cannot lookup user and group for file")
          path,
    )
  ]
]

-- How b_builder_write_file() ends: it returns 1 or -1, with the builder and what is left of the file.
-- `unfinished` belongs to the model only: the fuel of b_file_write_contents() ran out.
pub data Written : Type 0 where
  written : Builder → Option File → Written
  refused : Builder → Option File → Written
  unfinished : Written

-- The end, behind b_file_write_contents()
unfoldable pub after_contents : Bytes → Builder → Ending → Written
unfolding report
after_contents path b out_of_fuel = unfinished
after_contents path b (returned (ok wrlen) ch file) =
    written (record b { ch = ch; total = add64 b.total wrlen }) (some file)
after_contents path b (returned (err e) ch file) =
    refused
      (report (record b { ch = ch }) warn_type (errno_number e)
        (codes "Cannot write file to archive") path)
      (some file)

-- The contents, of a regular file that is open: `none` is an `fd` of 0.
unfoldable pub contents : Bytes → Header → Option File → Builder → Written
unfolding after_contents
contents path header none b = written b none
contents path header (some file) b =
    if header.linktype == b'0'
    then after_contents path b (write_contents b.ch file header.size)
    else written b (some file)

-- The header block of the member, and the contents
unfoldable pub after_block :
    System → Bytes → Header → Option File → Builder → Result (Option Block) × Channel → Written
unfolding contents encode_at
after_block sys path header file b (err e, ch) = refused (record b { ch = ch }) file
after_block sys path header file b (ok none, ch) = refused (record b { ch = ch }) file
after_block sys path header file b (ok (some block), ch) =
    let ch' = encode_at ch block.offset (λ b. encode_block sys.big_endian b header) in
    contents path header file (record b { ch = ch'; total = add64 b.total block.given })

unfoldable pub after_long : System → Bytes → Header → Option File → Outcome → Written
unfolding after_block
after_long sys path header file (give_up b) = refused b file
after_long sys path header file (go_on b wrlen) =
    after_block sys path header file b (get_block b.ch block_size)

-- Behind the lookup
unfoldable pub after_lookup :
    System → Bytes → Bytes → Stat → Option File → Option Header × Builder → Written
unfolding long_headers after_long
after_lookup sys path member_name st file (none, b) = refused b file
after_lookup sys path member_name st file (some header, b) =
    after_long sys path header file (long_headers sys header member_name st b)

-- Behind header_for_file()
unfoldable pub after_header :
    System → Bytes → Bytes → Stat → Option File → Builder → Option Header → Written
unfolding look_up after_lookup report
after_header sys path member_name st file b none =
    refused (report b fatal_type (pos sys.header_errno) (codes "Cannot build header for file") path)
      file
after_header sys path member_name st file b (some header) =
    after_lookup sys path member_name st file (look_up sys path st b header)

-- The service for hard links, asked about this member.
unfoldable pub lookup_for : Builder → Bytes → Option HardlinkLookup
lookup_for b member_name = elim b.hardlink_lookup [
  | none ↦ none
  | some service ↦ some (service member_name)
]

-- b_builder_write_file()
unfoldable pub write_file : System → Builder → Bytes → Bytes → Stat → Option File → Written
unfolding after_header lookup_for
write_file sys b path member_name st file =
    after_header sys path member_name st file (record b { err = Errors.clear b.err })
      (header_for_file sys.device_major sys.device_minor (lookup_for b member_name) sys.link
        member_name st)
