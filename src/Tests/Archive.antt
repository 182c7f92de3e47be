-- ===== src/Tests/Archive.antt =====
-- Files and members at concrete inputs.
use archive_tar_builder.Prelude.{
  Bytes, ℕ, ◌≡◌, refl, Bool, true, false, none, some, [], ◌∷◌, ◌++◌, arith, replicate, c_str,
  str_eq,
}
use archive_tar_builder.Util.Texts.{join_bytes}
use archive_tar_builder.FilePath
use archive_tar_builder.FilePath.{tokens, tokens_from, flush, add_items, add_item, is_absolute}
use archive_tar_builder.Buffer.{block_size, err, ok, Channel}
use archive_tar_builder.Buffer.Stream.{Streams, pad_to}
use archive_tar_builder.Buffer.{block_size, padded_size}
use archive_tar_builder.Errors.{pos}
use archive_tar_builder.Errors
use archive_tar_builder.Header.Layout.{Header}
use archive_tar_builder.Header.Encode.{set_usernames}
use archive_tar_builder.Member.{
  inode_linktype, is_hardlink, hard_link, is_long, leaves_suffix, grow, Stat, file_type, path_split,
  strip_leading, plain_header, add_link, mark_long, header_for_file, split_items, split_item,
  assemble,
}
use archive_tar_builder.Contents.{File, read_interrupted, returned, write_contents}
use archive_tar_builder.Contents.Stream.{write_contents-Streams}
use archive_tar_builder.Builder.{Builder, System, gnu_extensions, has_option}
use archive_tar_builder.Builder.Long.{longlink_path}
use archive_tar_builder.Builder.Write.{write_file, lookup_for}
use archive_tar_builder.Builder.Stream.{IsReadable, Wrote, member_bytes}
use archive_tar_builder.Builder.LongNames.{gnu_path, longlink_bytes}
use archive_tar_builder.Builder.Sends.{answered, write_file-Wrote}
use archive_tar_builder.Tests.Blocks.{partial_writes, full_channel, full-Streams}
use archive_tar_builder.Tests.Members.{fresh_error}

-- Three bytes, where the first read is interrupted
abbrev pub small_file : File
small_file = record {
  content = 1 ∷ 2 ∷ 3 ∷ [];
  reads = read_interrupted ∷ [];
  splices = [];
  errno = none;
}

write_contents-Streams_example :
    (ch' : Channel) × (file' : File) × (write_contents (full_channel partial_writes) small_file 2
      ≡ returned (ok (padded_size 2)) ch' file')
    × Streams ch' ((1 ∷ replicate 512 7) ++ pad_to (padded_size 2) (1 ∷ 2 ∷ []))
    × (file'.content ≡ 3 ∷ [])
    × (ch'.buf.can_splice ≡ false)
write_contents-Streams_example =
    write_contents-Streams small_file 2 full-Streams refl tt (omega arith) (omega arith)

abbrev pub builder : ℕ → Builder
builder options = record {
  ch = full_channel partial_writes;
  err = fresh_error;
  total = 0;
  matching = none;
  options = options;
  user_lookup = some (λ uid gid. some (some (b'u' ∷ []), none));
  hardlink_lookup = none;
  caller_data = 0;
}

abbrev pub sys : System
sys = record {
  device_major = λ dev. 8;
  device_minor = λ dev. 1;
  big_endian = false;
  pid = 7;
  link = none;
  header_errno = 12;
  lookup_errno = 2;
}

abbrev pub regular : Stat
regular = record {
  mode = 0x81a4;
  nlink = 1;
  uid = 0;
  gid = 0;
  size = 2;
  mtime = 1400000000;
  dev = 2049;
  ino = 12;
}

-- The header of a file with the suffix given, and with the names of its user and group set.
abbrev pub regular_header : Bytes → Bool → Header
regular_header suffix truncated = record {
  suffix = some suffix;
  mode = 0x81a4;
  uid = 0;
  gid = 0;
  size = 2;
  mtime = 1400000000;
  linktype = b'0';
  linkdest = none;
  user = none;
  group = none;
  major = 8;
  minor = 1;
  prefix = some [];
  truncated = truncated;
  truncated_link = false;
}

-- A name of 101 bytes
abbrev long_name : Bytes
long_name = replicate 101 b'x'

long_header_lem :
    header_for_file sys.device_major sys.device_minor
      (lookup_for (builder gnu_extensions) long_name)
      sys.link
      long_name
      regular
    ≡ some (regular_header long_name true)
unfolding lookup_for header_for_file path_split strip_leading split_items split_item assemble
    add_link plain_header mark_long FilePath.new tokens tokens_from flush add_items add_item
    is_absolute c_str str_eq file_type inode_linktype is_hardlink hard_link is_long leaves_suffix
    grow join_bytes
long_header_lem = refl

abbrev named_header : Header
named_header = record (regular_header long_name true) { user = some (b'u' ∷ []) }

write_file-Wrote_example :
    Wrote
      (write_file sys (builder gnu_extensions) long_name long_name regular (some small_file))
      (record (builder gnu_extensions) { err = Errors.clear fresh_error })
      (1 ∷ replicate 512 7)
      (longlink_bytes long_name b'L' ++ member_bytes sys named_header (some small_file))
unfolding longlink_path file_type has_option IsReadable set_usernames
write_file-Wrote_example =
    write_file-Wrote sys (builder gnu_extensions) long_name long_name regular (some small_file)
      (regular_header long_name true) named_header full-Streams refl (omega arith) long_header_lem
      (answered (λ uid gid. some (some (b'u' ∷ []), none)) (some (b'u' ∷ [])) none refl refl)
      (tt, omega arith, omega arith) (gnu_path refl refl refl)
