-- ===== src/FilePath.antt =====
-- b_path.c: a path as the stack of its components, and its clean form.
-- Stacks are the lists that they hold (Stack/Refine) and string objects their texts (Text/Refine);
-- every allocation is granted.
pub mod Clean
use archive_tar_builder.Prelude.{
  ℕ, Bool, true, false, List, [], ◌∷◌, ◌++◌, ◌==◌, ◌&&◌, if◌then◌else◌, Bytes, c_str, str_eq, ltb,
  length, not,
}
use archive_tar_builder.Util.Texts.{join_bytes}

abbrev pub slash : ℕ
slash = b'/'

abbrev pub dot : Bytes
dot = b'.' ∷ []

-- strtok_r(3) with the delimiter "/" until it answers NULL: `token` is what is read of a token.
unfoldable pub flush : Bytes → List Bytes → List Bytes
flush [] rest = rest
flush (c ∷ token) rest = (c ∷ token) ∷ rest

unfoldable pub tokens_from : Bytes → Bytes → List Bytes
unfolding flush
tokens_from token [] = flush token []
tokens_from token (c ∷ s) = elim (c == slash) [
  | true ↦ flush token (tokens_from [] s)
  | false ↦ tokens_from (token ++ c ∷ []) s
]

unfoldable pub tokens : Bytes → List Bytes
unfolding tokens_from
tokens s = tokens_from [] s

-- `string->str[0] == '/'`
unfoldable pub is_absolute : Bytes → Bool
is_absolute [] = false
is_absolute (c ∷ s) = c == slash

-- The body of the loop: `parts` is the stack `ret`.
unfoldable pub add_item : Bool → List Bytes → Bytes → List Bytes
add_item absolute parts item =
    if ltb 0 (length parts) && str_eq item dot
    then parts
    else (if length parts == 0 && absolute then [] ∷ [] else parts) ++ item ∷ []

unfoldable pub add_items : Bool → List Bytes → List Bytes → List Bytes
unfolding add_item
add_items absolute parts [] = parts
add_items absolute parts (item ∷ items) = add_items absolute (add_item absolute parts item) items

-- b_path_new()
unfoldable pub new : Bytes → List Bytes
unfolding tokens add_items is_absolute c_str
new string =
    let parts = add_items (is_absolute string) [] (tokens (c_str string)) in
    if length parts == 0 && is_absolute string then (slash ∷ []) ∷ [] else parts

-- b_path_clean()
unfoldable pub clean : Bytes → Bytes
clean string = join_bytes (slash ∷ []) (new string)

-- b_path_clean_str()
unfoldable pub clean_str : Bytes → Bytes
clean_str str = clean (c_str str)
