-- ===== src/Tests/Trees.antt =====
-- The archive of a small tree.
use archive_tar_builder.Prelude.{
  ◌≡◌, refl, true, false, none, some, [], ◌∷◌, ◌++◌, arith, Bytes, codes, str_eq, if◌then◌else◌,
  replicate, length, c_str, add64,
}
use archive_tar_builder.Util.Texts.{join_bytes}
use archive_tar_builder.Buffer.Stream.{Streams}
use archive_tar_builder.Errors.{pos}
use archive_tar_builder.FilePath
use archive_tar_builder.FilePath.{tokens, tokens_from, flush, add_items, add_item, is_absolute}
use archive_tar_builder.Matching.Lafe.{lafe}
use archive_tar_builder.Header.Layout.{Header}
use archive_tar_builder.Header.Encode.{set_usernames}
use archive_tar_builder.Member.{
  inode_linktype, is_hardlink, hard_link, is_long, leaves_suffix, grow, file_type, path_split,
  strip_leading, plain_header, add_link, mark_long, header_for_file, split_items, split_item,
  assemble,
}
use archive_tar_builder.Builder.Write.{lookup_for}
use archive_tar_builder.Builder.Stream.{IsReadable, member_bytes}
use archive_tar_builder.Builder.LongNames.{names_fit}
use archive_tar_builder.Builder.Sends.{answered}
use archive_tar_builder.Find.{
  opened, stated, entries, opendir_failed, FileSystem, Walker, Search, returned, is_dot, item_path,
  no_follow, subst_member_name, name_or_path,
}
use archive_tar_builder.Find.Loop.{find_loop}
use archive_tar_builder.Find.Walk.{
  leaf, Forest, nil, cons, names, Unless, HasForest, HasTree, forest_rounds, tree_rounds,
}
use archive_tar_builder.Find.Order.{Calls, call_for, no_entries, file_entry, by_open}
use archive_tar_builder.Archive.{
  write_member, file_at, AreMembers, no_members, member, find_loop-Streams,
}
use archive_tar_builder.Tests.Blocks.{full-Streams}
use archive_tar_builder.Tests.Archive.{builder, regular, sys, regular_header, small_file}

-- "d" has the file "b".
abbrev one_file : Forest
one_file = cons (codes "b") (leaf 20) nil

abbrev fs : FileSystem
fs = record {
  open_file = λ no_follow path. opened 5;
  stat = λ path. stated regular;
  lstat = λ path. stated regular;
  fstat = λ path. stated regular;
  opendir = λ path. if str_eq path (codes "d") then entries (codes "b" ∷ []) else opendir_failed 20;
  fcntl = λ fd. true;
}

abbrev q : Search Unit
q = record {
  matcher = lafe true;
  fs = fs;
  callback = write_member (λ path. sys) (λ path. small_file);
  flags = 0;
  path = codes "d";
  member_name = codes "m";
}

abbrev start : Walker Unit
start = record { builder = builder 0; own = tt }

one_file-Calls : Calls q (codes "d") one_file (call_for q (codes "d/b") regular (pos 5) ∷ [])
unfolding is_dot item_path str_eq file_type no_follow
one_file-Calls = file_entry refl (by_open 5 refl refl refl) refl no_entries

one_file-HasForest : HasForest fs (codes "d") one_file
unfolding HasForest HasTree Unless is_dot item_path str_eq
one_file-HasForest = (refl, tt)

abbrev b_header : Header
b_header = regular_header (codes "m/b") false

b_header_lem :
    header_for_file sys.device_major sys.device_minor
      (lookup_for (builder 0) (codes "m/b"))
      sys.link
      (codes "m/b")
      regular
    ≡ some b_header
unfolding lookup_for header_for_file path_split strip_leading split_items split_item assemble
    add_link plain_header mark_long FilePath.new tokens tokens_from flush add_items add_item
    is_absolute c_str str_eq file_type inode_linktype is_hardlink hard_link is_long leaves_suffix
    grow join_bytes
b_header_lem = refl

abbrev b_bytes : Bytes
b_bytes = member_bytes sys (set_usernames b_header (some (b'u' ∷ [])) none) (some small_file)

b-AreMembers :
    AreMembers
      (λ path. sys)
      (λ path. small_file)
      (builder 0)
      (call_for q (codes "d/b") regular (pos 5) ∷ [])
      (b_bytes ++ [])
unfolding name_or_path subst_member_name str_eq file_at IsReadable set_usernames
b-AreMembers =
    member
      (record {
        header = b_header;
        named = set_usernames b_header (some (b'u' ∷ [])) none;
        front = [];
        header_eq = b_header_lem;
        users =
            answered (λ uid gid. some (some (b'u' ∷ []), none)) (some (b'u' ∷ [])) none refl refl;
        readable = (tt, omega arith, omega arith);
        long_names = names_fit refl refl;
        bytes_eq = refl;
      })
      no_members

find_loop-Streams_example :
    (w' : Walker Unit) × (find_loop q 3 start
        (record { path = codes "d"; names = names one_file } ∷ [])
      ≡ returned (pos 0) w')
    × Streams w'.builder.ch ((1 ∷ replicate 512 7) ++ (b_bytes ++ []))
    × (w'.builder.total ≡ add64 0 (length (b_bytes ++ [])))
unfolding forest_rounds tree_rounds
find_loop-Streams_example =
    find_loop-Streams (λ path. sys) (λ path. small_file) q one_file
      (call_for q (codes "d/b") regular (pos 5) ∷ []) 3 start (codes "d") refl one_file-Calls
      one_file-HasForest (omega arith) refl b-AreMembers full-Streams refl (omega arith)
