-- ===== src/Header/Digits.antt =====
-- What a reader makes of the numeric fields.
use native.Mathlib.Nat.{pow-suc, pow-zero}
use archive_tar_builder.Prelude.{
  ℕ, zero, suc, ◌+◌, ◌-◌, ◌*◌, ◌/◌, ◌%◌, ◌^◌, ◌≤◌, ◌<◌, ◌≡◌, refl, ap, ◌∙◌, true, [], ◌∷◌, ◌++◌,
  arith, ◌==◌, Bytes, length, replicate, length-append, length-replicate, Bool-cases, inl, inr,
}
use archive_tar_builder.Header.Number.{octal_digits, octal}

-- A reader's value of a run of octal digits, behind digits of value `acc`.
unfoldable pub from_octal : ℕ → Bytes → ℕ
from_octal acc [] = acc
from_octal acc (c ∷ s) = from_octal (acc * 8 + (c - b'0')) s

from_octal-append :
    (acc : ℕ) (s t : Bytes) → from_octal acc (s ++ t) ≡ from_octal (from_octal acc s) t
unfolding from_octal
from_octal-append acc [] t = refl
from_octal-append acc (c ∷ s) t = from_octal-append (acc * 8 + (c - b'0')) s t

from_octal-zeros : (k : ℕ) → from_octal 0 (replicate k b'0') ≡ 0
unfolding from_octal
from_octal-zeros zero = refl
from_octal-zeros (suc k) = from_octal-zeros k

pub from_octal-digits : (f n : ℕ) → n < 8 ^ f → from_octal 0 (octal_digits f n) ≡ n
unfolding octal_digits from_octal
from_octal-digits zero n h = omega (arith, pow-zero 8)
from_octal-digits (suc f) n h = elim (Bool-cases (n == 0)) [
  | inl e ↦ rw e (ground arith)
  | inr e ↦ rw e (
      from_octal-append 0 (octal_digits f (n / 8)) ((b'0' + n % 8) ∷ [])
      ∙ omega (arith, from_octal-digits f (n / 8) (omega (arith, pow-suc 8 f))))
]

pub length-octal_digits-le : (f p n : ℕ) → n < 8 ^ p → length (octal_digits f n) ≤ p
unfolding octal_digits
length-octal_digits-le zero p n h = omega arith
length-octal_digits-le (suc f) zero n h =
    let e : (n == 0) ≡ true = ground (arith, pow-zero 8) in rw e (omega arith)
length-octal_digits-le (suc f) (suc p) n h = elim (Bool-cases (n == 0)) [
  | inl e ↦ rw e (omega arith)
  | inr e ↦ rw e (
      omega (
        arith,
        length-append (octal_digits f (n / 8)) ((b'0' + n % 8) ∷ []),
        length-octal_digits-le f p (n / 8) (omega (arith, pow-suc 8 p)),
      ))
]

-- A number below 8^precision has that many digits, and they are read back.
pub from_octal-octal : (p n : ℕ) → n < 2 ^ 64 → from_octal 0 (octal p n) ≡ n
unfolding octal
from_octal-octal p n h =
    from_octal-append 0 (replicate (p - length (octal_digits 22 n)) b'0') (octal_digits 22 n)
    ∙ ap (λ a. from_octal a (octal_digits 22 n)) (from_octal-zeros (p - length (octal_digits 22 n)))
    ∙ from_octal-digits 22 n (omega arith)

pub length-octal : (p n : ℕ) → n < 8 ^ p → length (octal p n) ≡ p
unfolding octal
length-octal p n h = omega (
  arith,
  length-append (replicate (p - length (octal_digits 22 n)) b'0') (octal_digits 22 n),
  length-replicate {A = ℕ} (p - length (octal_digits 22 n)) b'0',
  length-octal_digits-le 22 p n h,
)
