-- ===== src/Find/Loop.antt =====
-- b_find.c: the loop over the stack of open directories, and b_find() around it.
use archive_tar_builder.Prelude.{ℕ, zero, suc, List, [], ◌∷◌, ◌==◌, if◌then◌else◌, Bytes, codes}
use archive_tar_builder.Errors.{ℤ, pos, negsuc}
use archive_tar_builder.FilePath.{clean}
use archive_tar_builder.Matching.{Matcher}
use archive_tar_builder.Member.{Stat, file_type, ifdir, ifreg}
use archive_tar_builder.Builder.{has_option}
use archive_tar_builder.Find.{
  follow_symlinks, OpenAnswer, opened, open_failed, StatAnswer, stated, stat_failed, DirAnswer,
  entries, opendir_failed, FileSystem, Walker, Callback, Search, Dir, Next, skip, enter, abort,
  Progress, again, finished, aborted, Found, returned, out_of_fuel, warn_at, no_follow, visit,
}

-- What an item does to the stack, whose top is the directory that it was read from.
unfoldable pub proceed : {S : Type 0} → List Dir → Next S → Progress S
proceed dirs (skip w) = again w dirs
proceed dirs (enter w dir) = again w (dir ∷ dirs)
proceed dirs (abort w) = aborted w

module _ {S : Type 0} (q : Search S) where
  -- The directory that is open, with the names to come, and those beneath it on the stack. At the end
  -- of its entries it is popped.
  unfoldable pub read_dir : Walker S → Bytes → List Bytes → List Dir → Progress S
  unfolding proceed
  read_dir w path [] dirs = again w dirs
  read_dir w path (name ∷ names) dirs =
      proceed (record { path = path; names = names } ∷ dirs) (visit q w path name)

  -- The body of the loop
  unfoldable pub step : Walker S → List Dir → Progress S
  unfolding read_dir
  step w [] = finished w
  step w (dir ∷ dirs) = read_dir w dir.path dir.names dirs

  unfoldable pub find_loop : ℕ → Walker S → List Dir → Found S
  find_loop zero w dirs = out_of_fuel
  find_loop (suc fuel) w dirs = elim (step w dirs) [
    | again w' dirs' ↦ find_loop fuel w' dirs'
    | finished w' ↦ returned (pos 0) w'
    | aborted w' ↦ returned (negsuc 0) w'
  ]

  -- Behind b_dir_open() for the path that is searched
  unfoldable pub from_root : ℕ → Walker S → DirAnswer → Found S
  unfolding find_loop warn_at
  from_root fuel w (entries names) = find_loop fuel w (record { path = q.path; names = names } ∷ [])
  from_root fuel w (opendir_failed e) =
      returned (negsuc 0) (warn_at w e (codes "Unable to open directory") q.path)

  -- Behind the callback for the path that is searched
  unfoldable pub after_root : ℕ → Stat → ℤ × Walker S → Found S
  unfolding from_root
  after_root fuel st (negsuc n, w) = returned (negsuc 0) w
  after_root fuel st (pos zero, w) = returned (pos 0) w
  after_root fuel st (pos (suc n), w) =
      if file_type st == ifdir then from_root fuel w (q.fs.opendir q.path) else returned (pos 0) w

  unfoldable pub call_root : ℕ → Walker S → Stat → ℕ → Found S
  unfolding after_root
  call_root fuel w st fd = after_root fuel st (q.callback w q.path q.member_name st (pos fd))

  -- Behind open(2) for a regular file
  unfoldable pub root_file : ℕ → Walker S → Stat → OpenAnswer → Found S
  unfolding call_root
  root_file fuel w st (open_failed e) = returned (negsuc 0) w
  root_file fuel w st (opened fd) =
      if q.fs.fcntl fd then call_root fuel w st fd else returned (negsuc 0) w

  -- Behind b_stat()
  unfoldable pub after_stat : ℕ → Walker S → StatAnswer → Found S
  unfolding root_file call_root no_follow has_option
  after_stat fuel w (stat_failed e) = returned (negsuc 0) w
  after_stat fuel w (stated st) =
      if file_type st == ifreg
      then root_file fuel w st (q.fs.open_file (no_follow q.flags) q.path)
      else call_root fuel w st 0

  -- b_stat()
  unfoldable pub root_stat : StatAnswer
  unfolding has_option
  root_stat = if has_option q.flags follow_symlinks then q.fs.stat q.path else q.fs.lstat q.path

-- b_find(), with `fuel` rounds of the loop
unfoldable pub find :
    {S : Type 0} → Matcher → FileSystem → Callback S → ℕ → ℕ → Walker S → Bytes → Bytes → Found S
unfolding after_stat root_stat
find {S} matcher fs callback flags fuel w path member_name =
    let q : Search S = record {
      matcher = matcher;
      fs = fs;
      callback = callback;
      flags = flags;
      path = clean path;
      member_name = clean member_name;
    } in
    after_stat q fuel w (root_stat q)
