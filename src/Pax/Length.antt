-- ===== src/Pax/Length.antt =====
-- b_header_compute_pax_length(): three rounds are enough for the length to count its own digits.
use archive_tar_builder.Prelude.{
  ℕ, zero, suc, ◌+◌, ◌/◌, ◌%◌, ◌^◌, ◌≤◌, ◌<◌, ◌≡◌, refl, ap, ◌∙◌, true, false, ltb, [], ◌∷◌, ◌++◌,
  ◌==◌, if◌then◌else◌, Bytes, length, length-append, arith, Bool-cases, inl, inr,
}
use archive_tar_builder.Pax.{
  decimal_digits, decimal, int_text, pax_line, pax_rounds, compute_pax_length,
}

length-decimal_digits :
    (f n : ℕ)
    → length (decimal_digits (suc f) n)
      ≡ (if n == 0 then 0 else length (decimal_digits f (n / 10)) + 1)
unfolding decimal_digits
length-decimal_digits f n = elim (Bool-cases (n == 0)) [
  | inl e ↦ rw e refl
  | inr e ↦ rw e (length-append (decimal_digits f (n / 10)) ((b'0' + n % 10) ∷ []))
]

-- How many digits a number has: at most so many, more for larger numbers, and at most one more for a
-- number that is larger by at most 9.
length-decimal_digits_le : (f n : ℕ) → length (decimal_digits f n) ≤ f
unfolding decimal_digits
length-decimal_digits_le zero n = omega arith
length-decimal_digits_le (suc f) n =
    ground (arith, length-decimal_digits f n, length-decimal_digits_le f (n / 10))

length-decimal_digits_mono :
    (f n m : ℕ) → n ≤ m → length (decimal_digits f n) ≤ length (decimal_digits f m)
unfolding decimal_digits
length-decimal_digits_mono zero n m h = omega arith
length-decimal_digits_mono (suc f) n m h = ground (
  arith,
  length-decimal_digits f n,
  length-decimal_digits f m,
  length-decimal_digits_mono f (n / 10) (m / 10) (omega arith),
)

length-decimal_digits_one : (f m : ℕ) → m ≤ 1 → length (decimal_digits f m) ≤ 1
unfolding decimal_digits
length-decimal_digits_one zero m h = omega arith
length-decimal_digits_one (suc zero) m h = length-decimal_digits_le 1 m
length-decimal_digits_one (suc (suc f)) m h =
    ground (arith, length-decimal_digits (suc f) m, length-decimal_digits f (m / 10))

length-decimal_digits_step :
    (f n m : ℕ) → 0 < n → m ≤ n + 9 → length (decimal_digits f m) ≤ length (decimal_digits f n) + 1
unfolding decimal_digits
length-decimal_digits_step zero n m h k = omega arith
length-decimal_digits_step (suc f) n m h k = elim (Bool-cases (n / 10 == 0)) [
  | inl e ↦
      let small : m / 10 ≤ 1 = ground arith in
      ground (
        arith,
        length-decimal_digits f n,
        length-decimal_digits f m,
        length-decimal_digits_one f (m / 10) small,
      )
  | inr e ↦
      let pos : 0 < n / 10 = ground arith in
      ground (
        arith,
        length-decimal_digits f n,
        length-decimal_digits f m,
        length-decimal_digits_step f (n / 10) (m / 10) pos (omega arith),
      )
]

length-decimal_pos : (n : ℕ) → 0 < length (decimal n)
unfolding decimal
length-decimal_pos n = ground (arith, length-decimal_digits 9 n)

length-decimal_le : (n : ℕ) → length (decimal n) ≤ 10
unfolding decimal
length-decimal_le n = ground (arith, length-decimal_digits_le 10 n)

length-decimal_zero : (n : ℕ) → (n == 0) ≡ true → length (decimal n) ≡ 1
unfolding decimal
length-decimal_zero n e = rw e refl

length-decimal_digits_of :
    (n : ℕ) → (n == 0) ≡ false → length (decimal n) ≡ length (decimal_digits 10 n)
unfolding decimal
length-decimal_digits_of n e = rw e refl

length-decimal_mono : (n m : ℕ) → n ≤ m → length (decimal n) ≤ length (decimal m)
length-decimal_mono n m h = elim (Bool-cases (n == 0)) [
  | inl e ↦ omega (arith, length-decimal_zero n e, length-decimal_pos m)
  | inr e ↦ omega (
    arith,
    length-decimal_digits_of n e,
    length-decimal_digits_of m (ground arith),
    length-decimal_digits_mono 10 n m h,
  )
]

length-decimal_step : (n m : ℕ) → 0 < n → m ≤ n + 9 → length (decimal m) ≤ length (decimal n) + 1
length-decimal_step n m h k = elim (Bool-cases (m == 0)) [
  | inl e ↦ omega (arith, length-decimal_zero m e)
  | inr e ↦ omega (
    arith,
    length-decimal_digits_of m e,
    length-decimal_digits_of n (ground arith),
    length-decimal_digits_step 10 n m h k,
  )
]

int_text-decimal : (n : ℕ) → n < 2 ^ 31 → int_text n ≡ decimal n
unfolding int_text
int_text-decimal n h =
    let same : n % 2 ^ 32 ≡ n = omega arith in
    let small : ltb n (2 ^ 31) ≡ true = ground arith in rw (same, small) refl

length-pax_line :
    (n : ℕ) (name path : Bytes)
    → n < 2 ^ 31
    → length (pax_line n name path) ≡ length (decimal n) + (length name + length path + 3)
unfolding pax_line
length-pax_line n name path h =
    length-append (int_text n) (b' ' ∷ (name ++ (b'=' ∷ (path ++ 10 ∷ []))))
    ∙ ap (λ t. length t + length (b' ' ∷ (name ++ (b'=' ∷ (path ++ 10 ∷ [])))))
        (int_text-decimal n h)
    ∙ omega (arith, length-append name (b'=' ∷ (path ++ 10 ∷ [])), length-append path (10 ∷ []))

-- The length that b_header_compute_pax_length() computes is the length of the record with this number
-- in front, for a name and a path that make less than 2 GB.
pub compute_pax_length-pax_line :
    (path name : Bytes)
    → length name + length path + 13 < 2 ^ 31
    → length (pax_line (compute_pax_length path name) name path) ≡ compute_pax_length path name
unfolding compute_pax_length pax_rounds
compute_pax_length-pax_line path name h =
    let l1 = length (pax_line (length path) name path) in
    let l2 = length (pax_line l1 name path) in
    let l3 = length (pax_line l2 name path) in
    let e1 = length-pax_line (length path) name path (omega arith) in
    let d0 = length-decimal_le (length path) in
    let e2 = length-pax_line l1 name path (omega arith) in
    let d1 = length-decimal_le l1 in
    let e3 = length-pax_line l2 name path (omega arith) in
    let d2 = length-decimal_le l2 in
    let e4 = length-pax_line l3 name path (omega arith) in
    let p0 = length-decimal_pos (length path) in
    let m1 = length-decimal_mono (length path) l1 (omega arith) in
    let m2 = length-decimal_mono l1 l2 (omega arith) in
    let m3 = length-decimal_mono l2 l3 (omega arith) in
    let d3 = length-decimal_le l3 in
    let step = length-decimal_step l1 l3 (omega arith) (omega arith) in
    elim (Bool-cases (length (decimal l1) == length (decimal l2))) [
      | inl e ↦
          let same : l2 ≡ l3 = ground arith in omega (arith, ap (λ n. length (decimal n)) same)
      | inr e ↦ ground arith
    ]
