-- ===== src/Tests/Walks.antt =====
-- Walks over a tree of directories at concrete inputs.
use archive_tar_builder.Prelude.{
  ◌≡◌, refl, true, List, [], ◌∷◌, ◌++◌, arith, Bytes, codes, str_eq, if◌then◌else◌, subst, sym,
  c_str,
}
use archive_tar_builder.Util.Texts.{join_bytes}
use archive_tar_builder.Errors.{ℤ, pos, negsuc}
use archive_tar_builder.FilePath
use archive_tar_builder.FilePath.{
  tokens, tokens_from, flush, add_items, add_item, is_absolute, clean,
}
use archive_tar_builder.Matching.Lafe.{lafe}
use archive_tar_builder.Member.{Stat, file_type}
use archive_tar_builder.Find.{
  opened, open_failed, stated, entries, opendir_failed, FileSystem, Walker, Callback, Search,
  returned, is_dot, item_path, no_follow, follow_symlinks, subst_member_name, name_or_path,
}
use archive_tar_builder.Find.Loop.{find_loop, find}
use archive_tar_builder.Find.Walk.{
  leaf, dir, Forest, nil, cons, names, Unless, HasForest, HasTree, forest_rounds, tree_rounds,
  walk_forest,
}
use archive_tar_builder.Find.Ends.{ended, find_loop-ended, find-returned}
use archive_tar_builder.Find.Order.{
  subst_member_name-beneath, Calls, call_for, no_entries, dot_entry, file_entry, dir_entry, by_open,
  by_lstat, no_calls, call, find_loop-Calls,
}
use archive_tar_builder.Tests.Members.{directory}
use archive_tar_builder.Tests.Archive.{builder, regular}

abbrev a_link : Stat
a_link = record regular { mode = 0xa1ff }

-- "d" has the link "l" and the directory "s", which has the file "b".
abbrev d_forest : Forest
d_forest = cons (codes ".") (leaf 0) (
    cons (codes "l") (leaf 20)
      (cons (codes "s") (dir (cons (codes "..") (leaf 0) (cons (codes "b") (leaf 20) nil))) nil))

abbrev fs : FileSystem
fs = record {
  open_file = λ no_follow path. if str_eq path (codes "d/l") then open_failed 40 else opened 5;
  stat = λ path. stated regular;
  lstat = λ path. if str_eq path (codes "d") then stated directory else stated a_link;
  fstat = λ path. if str_eq path (codes "d/s") then stated directory else stated regular;
  opendir = λ path.
      if str_eq path (codes "d")
      then entries (names d_forest)
      else if str_eq path (codes "d/s")
      then entries (codes ".." ∷ codes "b" ∷ [])
      else opendir_failed 20;
  fcntl = λ fd. true;
}

-- A callback that wants all, and keeps the member names
abbrev record_names : Callback (List Bytes)
record_names w path name st fd = (pos 1, record w { own = w.own ++ name ∷ [] })

abbrev q : Search (List Bytes)
q = record {
  matcher = lafe true;
  fs = fs;
  callback = record_names;
  flags = 0;
  path = codes "d";
  member_name = codes "m";
}

abbrev start : Walker (List Bytes)
start = record { builder = builder 0; own = [] }

d_forest-HasForest : HasForest fs (codes "d") d_forest
unfolding HasForest HasTree Unless is_dot item_path names str_eq
d_forest-HasForest = (tt, (refl, ((refl, (tt, (refl, tt))), tt)))

d_forest-Calls : Calls q (codes "d") d_forest (
    call_for q (codes "d/l") a_link (negsuc 0)
    ∷ call_for q (codes "d/s") directory (pos 5)
    ∷ call_for q (codes "d/s/b") regular (pos 5)
    ∷ [])
unfolding is_dot item_path str_eq file_type no_follow
d_forest-Calls = dot_entry refl (
    file_entry refl (by_lstat 40 refl refl refl) refl (
      dir_entry refl (by_open 5 refl refl refl) refl
        (dot_entry refl (file_entry refl (by_open 5 refl refl refl) refl no_entries)) no_entries))

find_loop-Calls_example :
    find_loop q 9 start (record { path = codes "d"; names = names d_forest } ∷ [])
    ≡ returned (pos 0) (record start { own = codes "m/l" ∷ codes "m/s" ∷ codes "m/s/b" ∷ [] })
unfolding forest_rounds tree_rounds name_or_path subst_member_name str_eq
find_loop-Calls_example =
    find_loop-Calls q d_forest _ 9 start _ (codes "d") d_forest-Calls d_forest-HasForest
      (omega arith) refl (call 0 refl refl (call 0 refl refl (call 0 refl refl no_calls)))

find_loop-ended_example :
    find_loop q 9 start (record { path = codes "d"; names = names d_forest } ∷ [])
    ≡ ended (walk_forest q start (codes "d") d_forest)
unfolding forest_rounds tree_rounds
find_loop-ended_example =
    find_loop-ended q d_forest 9 start (codes "d") d_forest-HasForest (omega arith)

d-clean : clean (codes "d/") ≡ codes "d"
unfolding clean FilePath.new tokens tokens_from flush add_items add_item is_absolute c_str str_eq
    join_bytes
d-clean = refl

find-returned_example :
    (n : ℤ) × (w' : Walker (List Bytes)) × (find
        (lafe true)
        fs
        record_names
        follow_symlinks
        9
        start
        (codes "d/")
        (codes "m")
      ≡ returned n w')
unfolding HasTree tree_rounds forest_rounds str_eq
find-returned_example =
    find-returned (lafe true) fs record_names follow_symlinks 9 start (codes "d/") (codes "m")
      (dir d_forest)
      (subst (λ p. HasTree fs p (dir d_forest)) (sym d-clean) (refl, d_forest-HasForest))
      (omega arith)

-- The path "/" and the member name "m": the slash between the two is lost.
subst_member_name-beneath_example :
    name_or_path (subst_member_name (codes "/") (codes "m") (codes "/etc")) (codes "/etc")
    ≡ codes "metc"
subst_member_name-beneath_example = subst_member_name-beneath (codes "/") (codes "m") (codes "etc")
