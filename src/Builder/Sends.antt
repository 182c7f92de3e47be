-- ===== src/Builder/Sends.antt =====
-- b_builder_write_file() on a stream: a member, from its name to its last block.
use archive_tar_builder.Prelude.{◌^◌, ◌<◌, ◌≡◌, refl, false, Option, none, some, ◌++◌, Bytes}
use archive_tar_builder.Buffer.Stream.{Streams}
use archive_tar_builder.Errors.{pos, warn_type}
use archive_tar_builder.Errors
use archive_tar_builder.Header.Layout.{Header}
use archive_tar_builder.Header.Encode.{set_usernames}
use archive_tar_builder.Member.{Stat, header_for_file}
use archive_tar_builder.Contents.{File}
use archive_tar_builder.Builder.{UserLookup, Builder, System}
use archive_tar_builder.Builder.Long.{longlink_path, long_headers}
use archive_tar_builder.Builder.Write.{look_up, after_lookup, after_header, lookup_for, write_file}
use archive_tar_builder.Builder.Stream.{IsReadable, Wrote, member_bytes, after_long-Wrote}
use archive_tar_builder.Builder.LongNames.{LongNames, long_headers-GoesOn}

-- The header with the names of the owner and of the group: as it was where there is no service, and
-- with the names that the service knows.
pub data Named (service : Option UserLookup) (st : Stat) (header : Header) : Header → Type 0 where
  no_service : service ≡ none → Named service st header header
  answered :
      (lookup : UserLookup) (user group : Option Bytes)
      → service ≡ some lookup
      → lookup st.uid st.gid ≡ some (user, group)
      → Named service st header (set_usernames header user group)

look_up-Named :
    (sys : System) (path : Bytes) (st : Stat) (b : Builder) (header named : Header)
    → Named b.user_lookup st header named
    → look_up sys path st b header ≡ (some named, b)
unfolding look_up
look_up-Named sys path st b header named (no_service e) = rw e refl
look_up-Named sys path st b header named (answered lookup user group e f) = rw (e, f) refl

-- b_builder_write_file() on a channel whose stream is `s`, and without splice, with a total below 2^64:
-- suppose that a header can be had for the member, the service for users, if there is one, answers, the
-- file can be read, and that the name and the link fit the header; or, with GNU extensions, exactly one of
-- them does not fit; or, with pax extensions and without GNU's, some does not fit, and the name and the
-- link are short enough for pax records. Then it returns 1; what is sent behind `s` are the headers for
-- long names in these cases, the header block, and the padded contents of a regular file; the builder's
-- total has grown by the number of these bytes, modulo 2^64, and the builder's error is cleared.
pub write_file-Wrote :
    (sys : System) (b : Builder) (path member_name : Bytes) (st : Stat) (file : Option File)
    (header named : Header) {s v : Bytes}
    → Streams b.ch s
    → b.ch.buf.can_splice ≡ false
    → b.total < 2 ^ 64
    → header_for_file sys.device_major sys.device_minor
        (lookup_for b member_name)
        sys.link
        member_name
        st
      ≡ some header
    → Named b.user_lookup st header named
    → IsReadable named file
    → LongNames sys b.options named (longlink_path member_name st) v
    → Wrote
        (write_file sys b path member_name st file)
        (record b { err = Errors.clear b.err })
        s
        (v ++ member_bytes sys named file)
unfolding write_file after_header after_lookup
write_file-Wrote sys b path member_name st file header named {s} {v} h no_splice small e users
      readable names =
    let b' : Builder = record b { err = Errors.clear b.err } in
    rw (e, look_up-Named sys path st b' header named users)
      (after_long-Wrote sys path named file b' (long_headers sys named member_name st b')
        (long_headers-GoesOn sys named member_name st b' h small names) no_splice readable)
