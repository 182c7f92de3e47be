-- ===== src/Find.antt =====
-- b_find.c: the walk over a tree of directories, with a callback for each member.
-- Allocations are granted, and b_error_set() leaves `errno` alone. What the system answers about a path
-- does not change while the walk runs. The stack of open directories is a list, its top first.
pub mod Loop
pub mod Walk
pub mod Enters
pub mod Carries
pub mod Ends
pub mod Order
use archive_tar_builder.Prelude.{
  ℕ, zero, suc, Bool, true, false, not, ◌&&◌, ◌||◌, Option, none, some, List, [], ◌∷◌, ◌++◌, ◌==◌,
  if◌then◌else◌, Bytes, length, drop, codes, str_eq,
}
use archive_tar_builder.Errors.{ℤ, pos, negsuc, warn_type}
use archive_tar_builder.Errors
use archive_tar_builder.FilePath.{slash, dot, clean}
use archive_tar_builder.Matching.{Matcher}
use archive_tar_builder.Member.{Stat, file_type, ifdir, ifreg}
use archive_tar_builder.Builder.{Builder, has_option, report}
use archive_tar_builder.Builder.Options.{is_excluded}

-- B_FIND_FOLLOW_SYMLINKS, B_FIND_IGNORE_SOCKETS
abbrev pub follow_symlinks : ℕ
follow_symlinks = 1

abbrev pub ignore_sockets : ℕ
ignore_sockets = 2

-- What open(2), stat(2) with its kin, and opendir(3) with readdir(3) answer. A failure has its `errno`;
-- a directory has its entries, in the order in which they are read, to the first NULL.
pub data OpenAnswer : Type 0 where
  opened : ℕ → OpenAnswer
  open_failed : ℕ → OpenAnswer

pub data StatAnswer : Type 0 where
  stated : Stat → StatAnswer
  stat_failed : ℕ → StatAnswer

pub data DirAnswer : Type 0 where
  entries : List Bytes → DirAnswer
  opendir_failed : ℕ → DirAnswer

-- The system. `open_file` is told whether O_NOFOLLOW is set, and `fcntl` says whether F_SETFL succeeds.
pub record FileSystem : Type 0 where
  pub open_file : Bool → Bytes → OpenAnswer
  pub stat : Bytes → StatAnswer
  pub lstat : Bytes → StatAnswer
  pub fstat : Bytes → StatAnswer
  pub opendir : Bytes → DirAnswer
  pub fcntl : ℕ → Bool

-- What the callback can change: the builder, and its own data.
pub record Walker (S : Type 0) : Type 0 where
  pub builder : Builder
  pub own : S

-- b_find_callback: the path, the member name, what is known of the file, and its descriptor.
abbrev pub Callback : Type 0 → Type 0
Callback S = Walker S → Bytes → Bytes → Stat → ℤ → ℤ × Walker S

-- What stays as it is during a walk: the system, the callback, the flags, and the cleaned names.
pub record Search (S : Type 0) : Type 0 where
  pub matcher : Matcher
  pub fs : FileSystem
  pub callback : Callback S
  pub flags : ℕ
  pub path : Bytes
  pub member_name : Bytes

-- b_dir: its path, and the entries that are still to be read.
pub record Dir : Type 0 where
  pub path : Bytes
  pub names : List Bytes

-- The path of an entry, from b_dir_read()
unfoldable pub item_path : Bytes → Bytes → Bytes
item_path dir name = (if str_eq dir (slash ∷ []) then dir else dir ++ slash ∷ []) ++ name

-- `none` is NULL: the path is the member name.
unfoldable pub subst_member_name : Bytes → Bytes → Bytes → Option Bytes
subst_member_name path member_name current =
    if str_eq path member_name then none else some (member_name ++ drop (length path) current)

-- `new_member_name? new_member_name: item->path`
unfoldable pub name_or_path : Option Bytes → Bytes → Bytes
name_or_path none path = path
name_or_path (some name) path = name

-- How an item ends: the directory that is open is read on, the item is a directory to be read first, or
-- the walk fails.
pub data Next (S : Type 0) : Type 0 where
  skip : Walker S → Next S
  enter : Walker S → Dir → Next S
  abort : Walker S → Next S

-- A round of the loop: another one with these directories, the end, or a failure.
pub data Progress (S : Type 0) : Type 0 where
  again : Walker S → List Dir → Progress S
  finished : Walker S → Progress S
  aborted : Walker S → Progress S

-- What b_find() returns; `out_of_fuel` belongs to the model only.
pub data Found (S : Type 0) : Type 0 where
  returned : ℤ → Walker S → Found S
  out_of_fuel : Found S

-- EACCES, EMLINK, ELOOP, which EFTYPE is here too; and S_IFSOCK
abbrev pub eacces : ℕ
eacces = 13

abbrev pub emlink : ℕ
emlink = 31

abbrev pub eloop : ℕ
eloop = 40

abbrev pub ifsock : ℕ
ifsock = 12

-- A warning about a path
unfoldable pub warn_at : {S : Type 0} → Walker S → ℕ → Bytes → Bytes → Walker S
unfolding report
warn_at w e message path = record w { builder = report w.builder warn_type (pos e) message path }

-- `oflags & O_NOFOLLOW`
unfoldable pub no_follow : ℕ → Bool
unfolding has_option
no_follow flags = not (has_option flags follow_symlinks)

-- The entries that each directory has
unfoldable pub is_dot : Bytes → Bool
is_dot name = str_eq name dot || str_eq name (codes "..")

module _ {S : Type 0} (q : Search S) where
  -- b_dir_open() for the item that the callback wants
  unfoldable pub open_item : Walker S → Bytes → DirAnswer → Next S
  unfolding warn_at
  open_item w path (entries names) = enter w (record { path = path; names = names })
  open_item w path (opendir_failed e) =
      let w' = warn_at w e (codes "Unable to open directory") path in
      if e == eacces then skip w' else abort w'

  -- Behind the callback
  unfoldable pub after_callback : Bytes → Stat → ℤ × Walker S → Next S
  unfolding open_item
  after_callback path st (negsuc n, w) =
      if Errors.fatal (some w.builder.err) then abort w else skip w
  after_callback path st (pos zero, w) = skip w
  after_callback path st (pos (suc n), w) =
      if file_type st == ifdir then open_item w path (q.fs.opendir path) else skip w

  unfoldable pub call_back : Walker S → Bytes → Stat → ℤ → Next S
  unfolding after_callback subst_member_name name_or_path
  call_back w path st fd =
      after_callback path st
        (q.callback w path (name_or_path (subst_member_name q.path q.member_name path) path) st fd)

  -- Behind fstat(2), and behind lstat(2), where the descriptor is -1.
  unfoldable pub after_fstat : Walker S → Bytes → ℕ → StatAnswer → Next S
  unfolding call_back warn_at
  after_fstat w path fd (stated st) = call_back w path st (pos fd)
  after_fstat w path fd (stat_failed e) =
      skip (warn_at w e (codes "Cannot fstat() file descriptor") path)

  unfoldable pub after_lstat : Walker S → Bytes → StatAnswer → Next S
  unfolding call_back warn_at
  after_lstat w path (stated st) = call_back w path st (negsuc 0)
  after_lstat w path (stat_failed e) = skip (warn_at w e (codes "Cannot lstat() file") path)

  -- A file that cannot be opened, where sockets are ignored
  unfoldable pub unless_socket : Walker S → Bytes → ℕ → StatAnswer → Walker S
  unfolding warn_at
  unless_socket w path e (stated st) =
      if file_type st == ifsock then w else warn_at w e (codes "Cannot open file") path
  unless_socket w path e (stat_failed e') = warn_at w e' (codes "Cannot stat() file") path

  -- Behind open(2). The descriptor whose flags are set is `fd`, which is 0 here, not that of the item.
  unfoldable pub after_open : Walker S → Bytes → OpenAnswer → Next S
  unfolding after_fstat after_lstat unless_socket warn_at no_follow has_option
  after_open w path (opened fd) =
      if q.fs.fcntl 0 then after_fstat w path fd (q.fs.fstat path) else skip w
  after_open w path (open_failed e) =
      if no_follow q.flags && (e == eloop || e == emlink)
      then after_lstat w path (q.fs.lstat path)
      else if has_option q.flags ignore_sockets
      then skip (unless_socket w path e (q.fs.stat path))
      else skip (warn_at w e (codes "Cannot open file") path)

  -- Behind the patterns; without any, nothing is excluded.
  unfoldable pub after_excluded : Walker S → Bytes → Bool × Builder → Next S
  unfolding after_open no_follow
  after_excluded w path (true, b) = skip (record w { builder = b })
  after_excluded w path (false, b) =
      after_open (record w { builder = b }) path (q.fs.open_file (no_follow q.flags) path)

  -- The body of the loop, for an item that was read
  unfoldable pub visit : Walker S → Bytes → Bytes → Next S
  unfolding after_excluded item_path is_excluded is_dot
  visit w dir name =
      if is_dot name
      then skip w
      else after_excluded w (item_path dir name)
          (is_excluded q.matcher w.builder (item_path dir name))
