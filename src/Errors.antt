-- ===== src/Errors.antt =====
-- b_error.c: what went wrong last, and whether anything did.
-- Strings are their texts. An operation has an error to work on; the functions that read it take NULL.
pub mod Status
use archive_tar_builder.Prelude.{
  ℕ, Bool, true, false, Option, none, some, if◌then◌else◌, Bytes, c_str,
}

-- An `int`
pub data ℤ : Type 0 where
  pos : ℕ → ℤ
  negsuc : ℕ → ℤ

-- enum b_error_type
pub data ErrorType : Type 0 where
  ok_type warn_type fatal_type : ErrorType

unfoldable pub is_warn : ErrorType → Bool
is_warn ok_type = false
is_warn warn_type = true
is_warn fatal_type = false

unfoldable pub is_fatal : ErrorType → Bool
is_fatal ok_type = false
is_fatal warn_type = false
is_fatal fatal_type = true

-- A `b_string *`: `dangling` is one that was freed and is still there.
pub data StringRef : Type 0 where
  null : StringRef
  live : Bytes → StringRef
  dangling : StringRef

-- The pointer behind b_string_free()
unfoldable pub freed : StringRef → StringRef
freed null = null
freed (live _) = dangling
freed dangling = dangling

-- `callback` says whether one is set.
pub record Error : Type 0 where
  pub type : ErrorType
  pub status : ℤ
  pub errno : ℤ
  pub message : StringRef
  pub path : StringRef
  pub callback : Bool

-- b_error_new(); `granted` answers malloc().
unfoldable pub new : Bool → Option Error
new granted =
    if granted
    then some (record {
      type = ok_type;
      status = pos 0;
      errno = pos 0;
      message = null;
      path = null;
      callback = false;
    })
    else none

unfoldable pub set_callback : Error → Bool → Error
set_callback err callback = record err { callback = callback }

-- b_error_set(): the error, and whether the callback is called. The first two arguments answer the
-- allocations of the two copies.
unfoldable pub set : Bool → Bool → Error → ErrorType → ℤ → Bytes → Bytes → Error × Bool
unfolding is_fatal freed c_str
set granted_message granted_path err type errno message path =
    let err' = record err {
      type = type;
      errno = errno;
      status = if is_fatal type then negsuc 0 else err.status;
    } in
    if granted_message
    then (if granted_path
        then (record err' { message = live (c_str message); path = live path }, err.callback)
        else (record err' { message = null; path = null }, false))
    else (record err' { message = null; path = freed err.path }, false)

unfoldable pub clear : Error → Error
clear err = record err { type = ok_type; errno = pos 0; message = null; path = null }

unfoldable pub warn : Option Error → Bool
unfolding is_warn
warn none = false
warn (some err) = is_warn err.type

unfoldable pub fatal : Option Error → Bool
unfolding is_fatal
fatal none = false
fatal (some err) = is_fatal err.type

unfoldable pub status : Option Error → ℤ
status none = negsuc 0
status (some err) = err.status

unfoldable pub errno : Option Error → ℤ
errno none = negsuc 0
errno (some err) = err.errno

unfoldable pub message : Option Error → StringRef
message none = null
message (some err) = err.message

unfoldable pub path : Option Error → StringRef
path none = null
path (some err) = err.path

unfoldable pub reset : Error → Error
reset err = record err { message = null; path = null; status = pos 0; errno = pos 0 }
