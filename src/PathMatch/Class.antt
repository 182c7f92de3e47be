-- ===== src/PathMatch/Class.antt =====
-- pm_list(): whether a byte is in the class that is written between two brackets.
use archive_tar_builder.Prelude.{
  ℕ, zero, suc, ◌+◌, ◌%◌, Bool, true, false, not, [], ◌∷◌, ◌==◌, leb, ◌&&◌, ◌||◌, if◌then◌else◌,
  Bytes, length,
}

abbrev pub backslash : ℕ
backslash = 92

-- The order of `char`, which is signed: bytes from 128 on are negative.
unfoldable pub char_le : ℕ → ℕ → Bool
char_le a b = leb ((a + 128) % 256) ((b + 128) % 256)

abbrev pub is_nil : Bytes → Bool
is_nil [] = true
is_nil (_ ∷ _) = false

-- `*p`, where `p` points into the class: behind its last byte stands the closing bracket.
abbrev pub at : Bytes → ℕ
at [] = b']'
at (x ∷ _) = x

abbrev pub behind : Bytes → Bytes
behind [] = []
behind (_ ∷ p) = p

-- The loop of pm_list(), from `p` to the end of the class. `accept` is `match`, and `nomatch` is its
-- opposite; `range_start` is 0 where no range can start. Each round drops a byte: as many rounds as
-- there are bytes reach the end.
unfoldable pub scan : ℕ → Bool → ℕ → ℕ → Bytes → Bool
unfolding char_le
scan zero accept c range_start p = not accept
scan (suc f) accept c range_start [] = not accept
scan (suc f) accept c range_start (x ∷ p) =
    let dash = if x == c then accept else scan f accept c 0 p in
    let last = if at p == backslash then behind p else p in
    let range =
      if char_le range_start c && char_le c (at last)
      then accept
      else scan f accept c 0 (behind last) in
    let here = if x == backslash then p else x ∷ p in
    let single = if at here == c then accept else scan f accept c (at here) (behind here) in
    if x == b'-' then (if range_start == 0 || is_nil p then dash else range) else single

-- The first byte of a class may negate it.
abbrev pub negates : ℕ → Bool
negates x = x == b'!' || x == b'^'

unfoldable pub pm_list : Bytes → ℕ → Bool
unfolding scan
pm_list [] c = false
pm_list (x ∷ p) c =
    if negates x then scan (length p) false c 0 p else scan (suc (length p)) true c 0 (x ∷ p)
