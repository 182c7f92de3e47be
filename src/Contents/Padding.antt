-- ===== src/Contents/Padding.antt =====
-- Sizes that are padded to whole blocks, and what is sent in chunks of whole blocks.
use archive_tar_builder.Prelude.{
  ℕ, zero, suc, ◌+◌, ◌-◌, ◌%◌, ◌^◌, ◌≤◌, ◌<◌, ◌≡◌, ◌⊎◌, refl, sym, ap, ap₂, ◌∙◌, min, [], ◌∷◌, ◌++◌,
  arith, ltb, Bytes, length, take, drop, replicate, length-take, length-drop, append-nil,
  append_assoc, Bool-cases, inl, inr,
}
use archive_tar_builder.Buffer.{block_size, padded_size}
use archive_tar_builder.Buffer.Stream.{pad_to}
use archive_tar_builder.Contents.{max_chunk_size}

pub padded_size-bounds :
    (k u : ℕ)
    → k ≤ u
    → u % block_size ≡ 0
    → u < 2 ^ 62
    → (k ≤ padded_size k) × (padded_size k ≤ u) × (padded_size k % block_size ≡ 0)
unfolding padded_size
padded_size-bounds k u fits blocks small = ground arith

take-take : (k j : ℕ) (c : Bytes) → take k c ++ take j (drop k c) ≡ take (k + j) c
take-take zero j c = ap (λ n. take n c) {x = j} {y = zero + j} (omega arith)
take-take (suc k) j [] = take-nil j ∙ sym (take-nil (suc k + j))
  where
    take-nil : (n : ℕ) → take {A = ℕ} n [] ≡ []
    take-nil zero = refl
    take-nil (suc n) = refl
take-take (suc k) j (x ∷ c) =
    ap (λ t. x ∷ t) (take-take k j c)
    ∙ ap (λ n. take n (x ∷ c)) {x = suc (k + j)} {y = suc k + j} (omega arith)

pub padded_size-blocks : (k : ℕ) → k % block_size ≡ 0 → padded_size k ≡ k
unfolding padded_size
padded_size-blocks k blocks = ground arith

padded_size-chunk :
    (k left : ℕ)
    → k % block_size ≡ 0
    → k ≤ left
    → left < 2 ^ 62
    → padded_size left ≡ k + padded_size (left - k)
unfolding padded_size
padded_size-chunk k left blocks le small = ground arith

pub padded_size-split :
    (k left : ℕ)
    → (k % block_size ≡ 0) ⊎ (k ≡ left)
    → k ≤ left
    → left < 2 ^ 62
    → padded_size k + padded_size (left - k) ≡ padded_size left
padded_size-split k left (inl blocks) le small =
    omega (arith, padded_size-blocks k blocks, padded_size-chunk k left blocks le small)
padded_size-split k left (inr same) le small = omega (
  arith,
  padded_size-blocks 0 refl,
  ap padded_size same,
  ap padded_size {x = left - k} {y = 0} (omega arith),
)

-- A chunk, and what is sent behind it.
pub pad_to-chunk :
    (k left : ℕ) (c : Bytes)
    → (k % block_size ≡ 0) ⊎ (k ≡ left)
    → k ≤ left
    → left ≤ length c
    → left < 2 ^ 62
    → pad_to (padded_size k) (take k c)
        ++ pad_to (padded_size (left - k)) (take (left - k) (drop k c))
      ≡ pad_to (padded_size left) (take left c)
pad_to-chunk k left c (inl blocks) le enough small =
    let x = take (left - k) (drop k c) in
    let e = padded_size-blocks k blocks in
    let e' = padded_size-chunk k left blocks le small in
    let l : length (take k c) ≡ k = omega (arith, length-take k c) in
    let l' : length x ≡ left - k =
      omega (arith, length-take (left - k) (drop k c), length-drop k c) in
    let l'' : length (take left c) ≡ left = omega (arith, length-take left c) in
    let rest = pad_to (padded_size (left - k)) x in
    ap (λ n. (take k c ++ replicate n 0) ++ rest) {x = padded_size k - length (take k c)} {y = 0}
      (omega arith)
    ∙ ap (λ t. t ++ rest) (append-nil (take k c))
    ∙ sym (append_assoc (take k c) x (replicate (padded_size (left - k) - length x) 0))
    ∙ ap₂ (λ a n. a ++ replicate n 0)
        (take-take k (left - k) c
          ∙ ap (λ n. take n c) {x = k + (left - k)} {y = left} (omega arith))
        (omega arith)
pad_to-chunk k left c (inr same) le enough small =
    let none_left : left - k ≡ 0 = omega arith in
    ap (λ n. pad_to (padded_size k) (take k c) ++ pad_to (padded_size n) (take n (drop k c)))
      none_left
    ∙ ap (λ n. pad_to (padded_size k) (take k c) ++ replicate n 0)
        (ap (λ n. n - 0) (padded_size-blocks 0 refl))
    ∙ append-nil (pad_to (padded_size k) (take k c))
    ∙ ap (λ n. pad_to (padded_size n) (take n c)) same

pub chunk_blocks :
    (left u : ℕ)
    → u % block_size ≡ 0
    → (min (min max_chunk_size left) u % block_size ≡ 0) ⊎ (min (min max_chunk_size left) u ≡ left)
chunk_blocks left u blocks = elim (Bool-cases (ltb left (min max_chunk_size u))) [
  | inl e ↦ inr (ground arith)
  | inr e ↦ inl (ground arith)
]
