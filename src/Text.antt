-- ===== src/Text.antt =====
-- b_string.c: a counted string in a buffer with room for its terminator.
-- `granted` is what the allocation of an operation answers; `none` is the NULL of the source.
pub mod Refine
use archive_tar_builder.Prelude.{
  ℕ, ◌+◌, Bool, Option, none, some, [], ◌∷◌, ◌++◌, ◌==◌, if◌then◌else◌, Bytes, strncpy, strlen,
  take, add64,
}

-- `str` holds the bytes of the buffer, the terminator too.
pub record BString : Type 0 where
  pub str : Bytes
  pub len : ℕ

unfoldable pub new_len : Bool → Bytes → ℕ → Option BString
new_len granted str len =
    if granted then some (record { str = strncpy len str ++ 0 ∷ []; len = len }) else none

unfoldable pub new : Bool → Bytes → Option BString
unfolding new_len
new granted str = new_len granted str (strlen str)

unfoldable pub dup : Bool → BString → Option BString
unfolding new_len
dup granted string = new_len granted string.str string.len

unfoldable pub append : Bool → BString → BString → Option BString
append granted string add =
    if add.len == 0
    then some string
    else if granted
    then some (record {
      str = take string.len string.str ++ (strncpy add.len add.str ++ 0 ∷ []);
      len = add64 string.len add.len;
    })
    else none

unfoldable pub append_str : Bool → BString → Bytes → Option BString
append_str granted string add_str =
    if strlen add_str == 0
    then some string
    else if granted
    then some (record {
      str = take string.len string.str ++ (strncpy (strlen add_str) add_str ++ 0 ∷ []);
      len = add64 string.len (strlen add_str);
    })
    else none

unfoldable pub len_of : BString → ℕ
len_of string = string.len
