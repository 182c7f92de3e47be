-- ===== src/Tests/Members.antt =====
-- Errors and members at concrete inputs.
use archive_tar_builder.Prelude.{
  ◌≡◌, ◌≢◌, refl, true, false, none, some, List, [], ◌∷◌, ◌++◌, ◌==◌, arith, Bytes, replicate,
  c_str, str_eq,
}
use archive_tar_builder.FilePath
use archive_tar_builder.Util.Texts.{join_bytes}
use archive_tar_builder.FilePath.{tokens, tokens_from, flush, add_items, add_item, is_absolute}
use archive_tar_builder.Header.Layout.{Header, HeaderBlock}
use archive_tar_builder.Header.Encode.{encode_block}
use archive_tar_builder.Errors.{pos, ok_type, warn_type, fatal_type, null, Error, status}
use archive_tar_builder.Errors.Status.{
  Event, was_set, was_cleared, run, fatal_since, failed_if, status-run, IsSound, run-IsSound,
}
use archive_tar_builder.Member.{
  inode_linktype, is_hardlink, hard_link, is_long, leaves_suffix, grow, Stat, file_type, ifdir,
  PathData, path_split, strip_leading, plain_header, add_link, mark_long, header_for_file,
  split_items, split_item, assemble,
}
use archive_tar_builder.Member.Parts.{IsSplit, path_split-IsSplit}
use archive_tar_builder.Member.Fits.{Names, header_for_file-Names}

abbrev pub fresh_error : Error
fresh_error = record {
  type = ok_type;
  status = pos 0;
  errno = pos 0;
  message = null;
  path = null;
  callback = false;
}

-- A warning, a fatal error whose path cannot be copied, a warning, and a clear
abbrev some_events : List Event
some_events =
    was_set true true warn_type (pos 2) (b'w' ∷ []) (b'a' ∷ [])
    ∷ was_set true false fatal_type (pos 5) (b'f' ∷ []) (b'b' ∷ [])
    ∷ was_set true true warn_type (pos 2) (b'w' ∷ []) (b'c' ∷ [])
    ∷ was_cleared
    ∷ []

status-run_example :
    status (some (run fresh_error some_events)) ≡ failed_if (fatal_since false some_events)
status-run_example = status-run fresh_error false some_events refl

run-IsSound_example : IsSound (run fresh_error some_events)
run-IsSound_example =
    run-IsSound fresh_error some_events (refl, (refl, (refl, tt))) (ground arith, ground arith)

-- "/a/./b"
abbrev member_name : Bytes
member_name = b'/' ∷ b'a' ∷ b'/' ∷ b'.' ∷ b'/' ∷ b'b' ∷ []

abbrev pub directory : Stat
directory = record {
  mode = 0x41ed;
  nlink = 2;
  uid = 0;
  gid = 0;
  size = 4096;
  mtime = 1400000000;
  dev = 2049;
  ino = 12;
}

name_has_parts : FilePath.new member_name ≢ []
unfolding FilePath.new tokens tokens_from flush add_items add_item is_absolute c_str str_eq
name_has_parts = ground arith

path_split-IsSplit_example :
    (d : PathData) × (p : List Bytes) × (q : List Bytes) × (path_split member_name directory
      ≡ some d)
    × (p ++ q ≡ strip_leading (FilePath.new member_name))
    × IsSplit (file_type directory == ifdir) d p q
path_split-IsSplit_example = path_split-IsSplit member_name directory name_has_parts

abbrev directory_header : Header
directory_header = record {
  suffix = some (b'a' ∷ b'/' ∷ b'b' ∷ b'/' ∷ []);
  mode = 0x41ed;
  uid = 0;
  gid = 0;
  size = 0;
  mtime = 1400000000;
  linktype = b'5';
  linkdest = none;
  user = none;
  group = none;
  major = 8;
  minor = 1;
  prefix = some [];
  truncated = false;
  truncated_link = false;
}

directory_header_lem :
    header_for_file (λ dev. 8) (λ dev. 1) none none member_name directory ≡ some directory_header
unfolding header_for_file path_split strip_leading split_items split_item assemble add_link
    plain_header mark_long FilePath.new tokens tokens_from flush add_items add_item is_absolute
    c_str str_eq file_type inode_linktype is_hardlink hard_link is_long leaves_suffix grow
    join_bytes
directory_header_lem = refl

abbrev empty_block : HeaderBlock
empty_block = record {
  suffix = replicate 100 0;
  mode = replicate 8 0;
  uid = replicate 8 0;
  gid = replicate 8 0;
  size = replicate 12 0;
  mtime = replicate 12 0;
  checksum = replicate 8 0;
  linktype = 0;
  linkdest = replicate 100 0;
  magic = replicate 8 0;
  user = replicate 32 0;
  group = replicate 32 0;
  major = replicate 8 0;
  minor = replicate 8 0;
  prefix = replicate 155 0;
  padding = replicate 12 0;
}

header_for_file-Names_example :
    Names
      (encode_block false empty_block directory_header)
      (file_type directory == ifdir)
      member_name
header_for_file-Names_example =
    header_for_file-Names (λ dev. 8) (λ dev. 1) none none member_name directory false empty_block
      directory_header_lem refl name_has_parts
