-- ===== src/Find/Enters.antt =====
-- An item that is entered is a directory that could be opened.
use archive_tar_builder.Prelude.{
  ℕ, zero, suc, ◌≡◌, refl, Bool, true, false, ◌&&◌, ◌||◌, inl, inr, some, ◌==◌, Bytes, Bool-cases,
}
use archive_tar_builder.Errors.{ℤ, pos, negsuc}
use archive_tar_builder.Errors
use archive_tar_builder.Member.{Stat, file_type, ifdir}
use archive_tar_builder.Builder.{Builder, has_option}
use archive_tar_builder.Builder.Options.{is_excluded}
use archive_tar_builder.Find.{
  OpenAnswer, opened, open_failed, StatAnswer, stated, stat_failed, DirAnswer, entries,
  opendir_failed, Walker, Search, Dir, Next, skip, enter, abort, is_dot, item_path, no_follow,
  open_item, after_callback, call_back, after_fstat, after_lstat, after_open, after_excluded, visit,
  eloop, emlink, eacces, ignore_sockets,
}
use archive_tar_builder.Find.Walk.{names}

-- A directory that is entered is the item's, and has been opened.
abbrev pub Enters : {S : Type 0} → Search S → Bytes → Next S → Type 0
Enters q path (skip w) = Unit {0}
Enters q path (enter w d) = (d.path ≡ path) × (q.fs.opendir path ≡ entries d.names)
Enters q path (abort w) = Unit {0}

module _ {S : Type 0} (q : Search S) (path : Bytes) where
  open_item-Enters :
      (w : Walker S) (a : DirAnswer) → q.fs.opendir path ≡ a → Enters q path (open_item q w path a)
  unfolding open_item
  open_item-Enters w (entries names) e = (refl, e)
  open_item-Enters w (opendir_failed n) e = elim (Bool-cases (n == eacces)) [
    | inl f ↦ rw f tt
    | inr f ↦ rw f tt
  ]

  after_callback-Enters :
      (st : Stat) (r : ℤ × Walker S) → Enters q path (after_callback q path st r)
  unfolding after_callback
  after_callback-Enters st (negsuc n, w) = elim (Bool-cases (Errors.fatal (some w.builder.err))) [
    | inl f ↦ rw f tt
    | inr f ↦ rw f tt
  ]
  after_callback-Enters st (pos zero, w) = tt
  after_callback-Enters st (pos (suc n), w) = elim (Bool-cases (file_type st == ifdir)) [
    | inl f ↦ rw f (open_item-Enters w (q.fs.opendir path) refl)
    | inr f ↦ rw f tt
  ]

  call_back-Enters : (w : Walker S) (st : Stat) (fd : ℤ) → Enters q path (call_back q w path st fd)
  unfolding call_back
  call_back-Enters w st fd = after_callback-Enters st _

  after_fstat-Enters :
      (w : Walker S) (fd : ℕ) (a : StatAnswer) → Enters q path (after_fstat q w path fd a)
  unfolding after_fstat
  after_fstat-Enters w fd (stated st) = call_back-Enters w st (pos fd)
  after_fstat-Enters w fd (stat_failed e) = tt

  after_lstat-Enters : (w : Walker S) (a : StatAnswer) → Enters q path (after_lstat q w path a)
  unfolding after_lstat
  after_lstat-Enters w (stated st) = call_back-Enters w st (negsuc 0)
  after_lstat-Enters w (stat_failed e) = tt

  after_open-Enters : (w : Walker S) (a : OpenAnswer) → Enters q path (after_open q w path a)
  unfolding after_open
  after_open-Enters w (opened fd) = elim (Bool-cases (q.fs.fcntl 0)) [
    | inl f ↦ rw f (after_fstat-Enters w fd (q.fs.fstat path))
    | inr f ↦ rw f tt
  ]
  after_open-Enters w (open_failed e) =
      elim (Bool-cases (no_follow q.flags && (e == eloop || e == emlink))) [
        | inl f ↦ rw f (after_lstat-Enters w (q.fs.lstat path))
        | inr f ↦ elim (Bool-cases (has_option q.flags ignore_sockets)) [
          | inl g ↦ rw (f, g) tt
          | inr g ↦ rw (f, g) tt
        ]
      ]

  after_excluded-Enters :
      (w : Walker S) (r : Bool × Builder) → Enters q path (after_excluded q w path r)
  unfolding after_excluded
  after_excluded-Enters w (true, b) = tt
  after_excluded-Enters w (false, b) = after_open-Enters (record w { builder = b }) _

pub visit-Enters :
    {S : Type 0} (q : Search S) (w : Walker S) (path name : Bytes)
    → Enters q (item_path path name) (visit q w path name)
unfolding visit
visit-Enters q w path name = elim (Bool-cases (is_dot name)) [
  | inl e ↦ rw e tt
  | inr e ↦ rw e (
      after_excluded-Enters q (item_path path name) w
        (is_excluded q.matcher w.builder (item_path path name)))
]

pub visit-is_dot :
    {S : Type 0} (q : Search S) (w : Walker S) (path name : Bytes)
    → is_dot name ≡ true
    → visit q w path name ≡ skip w
unfolding visit
visit-is_dot q w path name e = rw e refl

-- The three ways in which an item ends.
pub data Case {S : Type 0} (x : Next S) : Type 0 where
  skips : (w : Walker S) → x ≡ skip w → Case x
  enters : (w : Walker S) (d : Dir) → x ≡ enter w d → Case x
  aborts : (w : Walker S) → x ≡ abort w → Case x

pub case : {S : Type 0} (x : Next S) → Case x
case (skip w) = skips w refl
case (enter w d) = enters w d refl
case (abort w) = aborts w refl
