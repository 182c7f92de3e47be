-- ===== src/Util/Texts.antt =====
-- The texts that b_string_join() puts together: lists of texts with a separator between them.
use archive_tar_builder.Prelude.{
  ℕ, zero, suc, ◌+◌, ◌*◌, ◌≡◌, refl, ap, ◌∙◌, List, [], ◌∷◌, ◌++◌, arith, Bytes, length,
  append_assoc, append-nil, length-append,
}
use archive_tar_builder.Text.{BString}
use archive_tar_builder.Text.Refine.{IsText}

-- The texts one after the other, with the separator between them.
unfoldable pub join_bytes : Bytes → List Bytes → Bytes
join_bytes sep [] = []
join_bytes sep (x ∷ []) = x
join_bytes sep (x ∷ y ∷ ys) = x ++ (sep ++ join_bytes sep (y ∷ ys))

-- Each object holds the text at its place.
abbrev pub AreTexts : List BString → List Bytes → Type 0
AreTexts [] [] = Unit {0}
AreTexts (s ∷ ss) (x ∷ xs) = IsText s x × AreTexts ss xs
AreTexts _ _ = ⊥

-- The separator, before all but the first.
unfoldable pub lead : Bytes → ℕ → Bytes
lead sep zero = []
lead sep (suc i) = sep

-- What the texts from the `i`-th on add to the result.
unfoldable pub tail_bytes : Bytes → ℕ → List Bytes → Bytes
unfolding lead
tail_bytes sep i [] = []
tail_bytes sep i (x ∷ xs) = (lead sep i ++ x) ++ tail_bytes sep (suc i) xs

pub tail_bytes_from :
    (sep : Bytes) (i : ℕ) (x : Bytes) (xs : List Bytes)
    → tail_bytes sep (suc i) (x ∷ xs) ≡ sep ++ join_bytes sep (x ∷ xs)
unfolding tail_bytes join_bytes
tail_bytes_from sep i x [] = append-nil (sep ++ x)
tail_bytes_from sep i x (y ∷ ys) =
    ap (λ t. (sep ++ x) ++ t) (tail_bytes_from sep (suc i) y ys)
    ∙ append_assoc sep x (sep ++ join_bytes sep (y ∷ ys))

pub tail_bytes-eq : (sep : Bytes) (xs : List Bytes) → tail_bytes sep 0 xs ≡ join_bytes sep xs
unfolding tail_bytes join_bytes
tail_bytes-eq sep [] = refl
tail_bytes-eq sep (x ∷ []) = append-nil x
tail_bytes-eq sep (x ∷ y ∷ ys) = ap (λ t. x ++ t) (tail_bytes_from sep 0 y ys)

unfoldable pub total : List Bytes → ℕ
total [] = 0
total (x ∷ xs) = length x + total xs

pub length-tail_bytes :
    (sep : Bytes) (i : ℕ) (xs : List Bytes)
    → length (tail_bytes sep (suc i) xs) ≡ length sep * length xs + total xs
unfolding tail_bytes total
length-tail_bytes sep i [] = omega arith
length-tail_bytes sep i (x ∷ xs) = omega (
  arith,
  length-append (sep ++ x) (tail_bytes sep (suc (suc i)) xs),
  length-append sep x,
  length-tail_bytes sep (suc i) xs,
)
