-- ===== src/Tests/Containers.antt =====
-- Stacks, strings and paths at concrete inputs.
use archive_tar_builder.Prelude.{
  ℕ, ◌^◌, ◌≡◌, ◌<◌, refl, true, false, none, some, [], ◌∷◌, arith, Bytes, c_str, length, str_eq,
}
use archive_tar_builder.Stack.{Stack, push, pop, shift, reverse}
use archive_tar_builder.Stack.Refine.{Holds, push-Holds, pop-Holds}
use archive_tar_builder.Stack.Order.{shift-Holds, reverse-Holds}
use archive_tar_builder.Text.{BString}
use archive_tar_builder.Text.Refine.{IsText}
use archive_tar_builder.Util.{join}
use archive_tar_builder.Util.Texts.{join_bytes}
use archive_tar_builder.Util.Join.{join-IsText}
use archive_tar_builder.FilePath.{
  new, clean, is_absolute, tokens, tokens_from, flush, add_item, add_items,
}
use archive_tar_builder.FilePath.Clean.{new-clean}

-- A stack that is full, and one with room.
abbrev full_stack : Stack ℕ
full_stack = record {
  size = 2;
  count = 2;
  growth_factor = 2;
  items = some 7 ∷ some 8 ∷ [];
  destructor = false;
}

full_stack-Holds : Holds full_stack (7 ∷ 8 ∷ [])
full_stack-Holds = record {
  rest = [];
  layout = refl;
  count_eq = refl;
  size_eq = refl;
  growth_pos = omega arith;
  growth_small = omega arith;
  size_small = omega arith;
}

push-Holds_example :
    ((push true full_stack 9).0 ≡ some 9) × Holds (push true full_stack 9).1 (7 ∷ 8 ∷ 9 ∷ [])
push-Holds_example = push-Holds 9 full_stack-Holds (omega arith)

shift-Holds_example :
    ((shift true full_stack).0 ≡ some 7) × Holds (shift true full_stack).1 (8 ∷ [])
shift-Holds_example = shift-Holds 7 full_stack-Holds

pop-Holds_example : ((pop true full_stack).0 ≡ some 8) × Holds (pop true full_stack).1 (7 ∷ [])
pop-Holds_example = pop-Holds {xs = 7 ∷ []} 8 full_stack-Holds

reverse-Holds_example : Holds (reverse full_stack) (8 ∷ 7 ∷ [])
reverse-Holds_example = reverse-Holds full_stack-Holds

abbrev usr : BString
usr = record { str = b'u' ∷ b's' ∷ b'r' ∷ 0 ∷ []; len = 3 }

abbrev bin : BString
bin = record { str = b'b' ∷ b'i' ∷ b'n' ∷ 0 ∷ []; len = 3 }

usr-IsText : IsText usr (b'u' ∷ b's' ∷ b'r' ∷ [])
usr-IsText = record { buffer = refl; len_eq = refl; no_nul = ground arith }

bin-IsText : IsText bin (b'b' ∷ b'i' ∷ b'n' ∷ [])
bin-IsText = record { buffer = refl; len_eq = refl; no_nul = ground arith }

abbrev two_texts : Stack BString
two_texts = record {
  size = 3;
  count = 2;
  growth_factor = 3;
  items = some usr ∷ some bin ∷ none ∷ [];
  destructor = true;
}

two_texts-Holds : Holds two_texts (usr ∷ bin ∷ [])
two_texts-Holds = record {
  rest = none ∷ [];
  layout = refl;
  count_eq = refl;
  size_eq = refl;
  growth_pos = omega arith;
  growth_small = omega arith;
  size_small = omega arith;
}

abbrev joined : Bytes
joined = join_bytes (b'/' ∷ []) ((b'u' ∷ b's' ∷ b'r' ∷ []) ∷ (b'b' ∷ b'i' ∷ b'n' ∷ []) ∷ [])

joined_fits : length joined < 2 ^ 64
unfolding join_bytes
joined_fits = omega arith

join-IsText_example :
    (r : BString) × (join true true (b'/' ∷ []) two_texts ≡ some r) × IsText r joined
join-IsText_example =
    join-IsText (b'/' ∷ []) ((b'u' ∷ b's' ∷ b'r' ∷ []) ∷ (b'b' ∷ b'i' ∷ b'n' ∷ []) ∷ [])
      (ground arith) two_texts-Holds (usr-IsText, (bin-IsText, tt)) joined_fits

-- "/a/./b"
abbrev dotted : Bytes
dotted = b'/' ∷ b'a' ∷ b'/' ∷ b'.' ∷ b'/' ∷ b'b' ∷ []

new-clean_example : new (clean dotted) ≡ new dotted
new-clean_example = new-clean dotted

-- "/a/b"
clean-dotted : clean dotted ≡ b'/' ∷ b'a' ∷ b'/' ∷ b'b' ∷ []
unfolding clean new tokens tokens_from flush add_items add_item is_absolute c_str str_eq join_bytes
clean-dotted = refl
