-- ===== src/Header/Fields.antt =====
-- The numeric fields read back: sizes of every magnitude, and ids that are too large for their field.
use native.Mathlib.Nat.{pow-suc, pow-zero}
use archive_tar_builder.Prelude.{
  ℕ, zero, suc, ◌+◌, ◌-◌, ◌*◌, ◌/◌, ◌%◌, ◌^◌, ◌≤◌, ◌<◌, ◌≡◌, ◌≢◌, refl, sym, ap, ◌∙◌, Bool, true,
  false, [], ◌∷◌, ◌++◌, arith, ◌==◌, leb, if◌then◌else◌, Bytes, NoNul, NoNul-append, c_str,
  c_str-append_nul, length, take, drop, replicate, length-append, take_all, take-append_self,
  Bool-cases, inl, inr, length-take, length-drop,
}
use archive_tar_builder.Header.Number.{
  octal_digits, octal, snprintf, encode_base256_value, max_file_size, size_field,
}
use archive_tar_builder.Header.Digits.{
  from_octal, from_octal-digits, from_octal-octal, length-octal, length-octal_digits-le,
}

octal_digits-NoNul : (f n : ℕ) → NoNul (octal_digits f n)
unfolding octal_digits
octal_digits-NoNul zero n = tt
octal_digits-NoNul (suc f) n = elim (Bool-cases (n == 0)) [
  | inl e ↦ rw e tt
  | inr e ↦ rw e (
      NoNul-append (octal_digits f (n / 8)) ((b'0' + n % 8) ∷ []) (octal_digits-NoNul f (n / 8))
        (ground arith))
]

zeros-NoNul : (k : ℕ) → NoNul (replicate k b'0')
zeros-NoNul zero = tt
zeros-NoNul (suc k) = (ground arith, zeros-NoNul k)

pub octal-NoNul : (p n : ℕ) → NoNul (octal p n)
unfolding octal
octal-NoNul p n =
    NoNul-append (replicate (p - length (octal_digits 22 n)) b'0') (octal_digits 22 n)
      (zeros-NoNul (p - length (octal_digits 22 n))) (octal_digits-NoNul 22 n)

-- A reader's value of an octal field.
abbrev pub read_octal : Bytes → ℕ
read_octal field = from_octal 0 (c_str field)

-- A number of at most `p` digits is read back from a field of `p + 1` bytes.
pub read_octal-snprintf :
    (field : Bytes) (p n : ℕ)
    → n < 8 ^ p
    → n < 2 ^ 64
    → read_octal (snprintf field (suc p) (octal p n)) ≡ n
unfolding snprintf
read_octal-snprintf field p n h k =
    let all : take (suc p - 1) (octal p n) ≡ octal p n =
      take_all (suc p - 1) (octal p n) (omega (arith, length-octal p n h)) in
    ap (λ t. from_octal 0 (c_str (t ++ (0 ∷ drop (length t + 1) field)))) all
    ∙ ap (from_octal 0)
        (c_str-append_nul (octal p n) (drop (length (octal p n) + 1) field) (octal-NoNul p n))
    ∙ from_octal-octal p n k

pub length-snprintf :
    (field : Bytes) (p n : ℕ)
    → n < 8 ^ p
    → length field ≡ suc p
    → length (snprintf field (suc p) (octal p n)) ≡ suc p
unfolding snprintf
length-snprintf field p n h k =
    let l : length (octal p n) ≡ p = length-octal p n h in
    let t = take (suc p - 1) (octal p n) in
    omega (
      arith,
      length-append t (0 ∷ drop (length t + 1) field),
      length-take (suc p - 1) (octal p n),
      length-drop (length t + 1) field,
    )

pow_pos : (p : ℕ) → 0 < 8 ^ p
pow_pos zero = omega (arith, pow-zero 8)
pow_pos (suc p) = omega (arith, pow-suc 8 p, pow_pos p)

length-octal_digits-ge : (f p n : ℕ) → n < 8 ^ f → 8 ^ p ≤ n → suc p ≤ length (octal_digits f n)
unfolding octal_digits
length-octal_digits-ge zero p n h k = absurd (omega (arith, pow-zero 8, pow_pos p))
length-octal_digits-ge (suc f) zero n h k =
    let e : (n == 0) ≡ false = ground (arith, pow-zero 8) in
    rw e (omega (arith, length-append (octal_digits f (n / 8)) ((b'0' + n % 8) ∷ [])))
length-octal_digits-ge (suc f) (suc p) n h k =
    let e : (n == 0) ≡ false = ground (arith, pow-suc 8 p, pow_pos p) in
    rw e (
      omega (
        arith,
        length-append (octal_digits f (n / 8)) ((b'0' + n % 8) ∷ []),
        length-octal_digits-ge f p (n / 8) (omega (arith, pow-suc 8 f))
            (omega (arith, pow-suc 8 p)),
      ))

octal_digits-step :
    (f n : ℕ) → n ≢ 0 → octal_digits (suc f) n ≡ octal_digits f (n / 8) ++ (b'0' + n % 8) ∷ []
unfolding octal_digits
octal_digits-step f n h = ground arith

octal-split :
    (n : ℕ)
    → n ≢ 0
    → 7 ≤ length (octal_digits 21 (n / 8))
    → octal 7 n ≡ octal_digits 21 (n / 8) ++ (b'0' + n % 8) ∷ []
unfolding octal
octal-split n h l =
    let e : octal_digits 22 n ≡ octal_digits 21 (n / 8) ++ (b'0' + n % 8) ∷ [] =
      octal_digits-step 21 n h in
    ap (λ d. replicate (7 - length d) b'0' ++ d) e
    ∙ ap (λ j. replicate j b'0' ++ (octal_digits 21 (n / 8) ++ (b'0' + n % 8) ∷ []))
        {x = 7 - length (octal_digits 21 (n / 8) ++ (b'0' + n % 8) ∷ [])} {y = 0}
        (omega (arith, length-append (octal_digits 21 (n / 8)) ((b'0' + n % 8) ∷ [])))

-- An id of eight octal digits loses its last digit in the field of eight bytes: another id is read.
pub read_octal-cut :
    (field : Bytes) (n : ℕ)
    → 8 ^ 7 ≤ n
    → n < 8 ^ 8
    → read_octal (snprintf field 8 (octal 7 n)) ≡ n / 8
unfolding snprintf
read_octal-cut field n h k =
    let high = octal_digits 21 (n / 8) in
    let l : length high ≡ 7 = omega (
      arith,
      length-octal_digits-le 21 7 (n / 8) (omega arith),
      length-octal_digits-ge 21 6 (n / 8) (omega arith) (omega arith),
    ) in
    ap (λ t. from_octal 0 (c_str (take 7 t ++ (0 ∷ drop (length (take 7 t) + 1) field))))
      (octal-split n (omega arith) (omega (arith, l)))
    ∙ ap (λ t. from_octal 0 (c_str (t ++ (0 ∷ drop (length t + 1) field))))
        (ap (λ j. take j (high ++ (b'0' + n % 8) ∷ [])) (sym l)
          ∙ take-append_self high ((b'0' + n % 8) ∷ []))
    ∙ ap (from_octal 0)
        (c_str-append_nul high (drop (length high + 1) field) (octal_digits-NoNul 21 (n / 8)))
    ∙ from_octal-digits 21 (n / 8) (omega arith)

-- A reader's value of a size field: base 256 if the first byte is marked, octal if not.
unfoldable pub from_base256 : ℕ → Bytes → ℕ
from_base256 acc [] = acc
from_base256 acc (b ∷ s) = from_base256 (acc * 256 + b) s

unfoldable pub read_size : Bytes → ℕ
unfolding from_base256
read_size [] = 0
read_size (b ∷ field) = if leb 128 b then from_base256 (b - 128) field else read_octal (b ∷ field)

read_size-base256 :
    (big : Bool) (field : Bytes) (n : ℕ)
    → n < 2 ^ 64
    → take 4 field ≡ 0 ∷ 0 ∷ 0 ∷ 0 ∷ []
    → read_size (encode_base256_value big field 12 n) ≡ n
unfolding read_size encode_base256_value
read_size-base256 true field n h z = rw z (omega arith)
read_size-base256 false field n h z = rw z (omega arith)

-- No byte is marked as the start of a base-256 number.
abbrev Unmarked : Bytes → Type 0
Unmarked [] = Unit {0}
Unmarked (c ∷ s) = (c < 128) × Unmarked s

Unmarked-append : (s t : Bytes) → Unmarked s → Unmarked t → Unmarked (s ++ t)
Unmarked-append [] t h k = k
Unmarked-append (c ∷ s) t h k = (h.0, Unmarked-append s t h.1 k)

octal_digits-Unmarked : (f n : ℕ) → Unmarked (octal_digits f n)
unfolding octal_digits
octal_digits-Unmarked zero n = tt
octal_digits-Unmarked (suc f) n = elim (Bool-cases (n == 0)) [
  | inl e ↦ rw e tt
  | inr e ↦ rw e (
      Unmarked-append (octal_digits f (n / 8)) ((b'0' + n % 8) ∷ [])
        (octal_digits-Unmarked f (n / 8)) (omega arith))
]

zeros-Unmarked : (k : ℕ) → Unmarked (replicate k b'0')
zeros-Unmarked zero = tt
zeros-Unmarked (suc k) = (omega arith, zeros-Unmarked k)

octal-Unmarked : (p n : ℕ) → Unmarked (octal p n)
unfolding octal
octal-Unmarked p n =
    Unmarked-append (replicate (p - length (octal_digits 22 n)) b'0') (octal_digits 22 n)
      (zeros-Unmarked (p - length (octal_digits 22 n))) (octal_digits-Unmarked 22 n)

read_size-Unmarked :
    (s rest : Bytes) → 0 < length s → Unmarked s → read_size (s ++ rest) ≡ read_octal (s ++ rest)
unfolding read_size
read_size-Unmarked [] rest h k = absurd (omega arith)
read_size-Unmarked (c ∷ s) rest h k = ground arith

read_size-octal :
    (field : Bytes) (n : ℕ) → n < 8 ^ 11 → read_size (snprintf field 12 (octal 11 n)) ≡ n
unfolding snprintf
read_size-octal field n h =
    let all : take 11 (octal 11 n) ≡ octal 11 n =
      take_all 11 (octal 11 n) (omega (arith, length-octal 11 n h)) in
    ap (λ t. read_size (t ++ (0 ∷ drop (length t + 1) field))) all
    ∙ read_size-Unmarked (octal 11 n) (0 ∷ drop (length (octal 11 n) + 1) field)
        (omega (arith, length-octal 11 n h)) (octal-Unmarked 11 n)
    ∙ ap (λ t. read_octal (t ++ (0 ∷ drop (length t + 1) field))) (sym all)
    ∙ read_octal-snprintf field 11 n h (omega arith)

-- The reader's test for base 256: the mark is the highest bit of the first byte.
unfoldable pub is_base256 : Bytes → Bool
is_base256 [] = false
is_base256 (b ∷ field) = leb 128 b

is_base256-encoded :
    (big : Bool) (field : Bytes) (n : ℕ)
    → take 4 field ≡ 0 ∷ 0 ∷ 0 ∷ 0 ∷ []
    → is_base256 (encode_base256_value big field 12 n) ≡ true
unfolding is_base256 encode_base256_value
is_base256-encoded big field n z = rw z refl

is_base256-Unmarked : (s rest : Bytes) → 0 < length s → Unmarked s → is_base256 (s ++ rest) ≡ false
unfolding is_base256
is_base256-Unmarked [] rest h k = absurd (omega arith)
is_base256-Unmarked (c ∷ s) rest h k = ground arith

is_base256-octal :
    (field : Bytes) (n : ℕ) → n < 8 ^ 11 → is_base256 (snprintf field 12 (octal 11 n)) ≡ false
unfolding is_base256 snprintf
is_base256-octal field n h =
    let all : take 11 (octal 11 n) ≡ octal 11 n =
      take_all 11 (octal 11 n) (omega (arith, length-octal 11 n h)) in
    ap (λ t. is_base256 (t ++ (0 ∷ drop (length t + 1) field))) all
    ∙ is_base256-Unmarked (octal 11 n) (0 ∷ drop (length (octal 11 n) + 1) field)
        (omega (arith, length-octal 11 n h)) (octal-Unmarked 11 n)

-- A size of 64 bits is read back from its field, whose first four bytes were zero before, on a machine of
-- either byte order; the field is marked as base 256 exactly for sizes from 8^11, which is 8 GB, on.
pub read_size-size_field :
    (big : Bool) (field : Bytes) (n : ℕ)
    → n < 2 ^ 64
    → take 4 field ≡ 0 ∷ 0 ∷ 0 ∷ 0 ∷ []
    → (read_size (size_field big field n) ≡ n)
      × (is_base256 (size_field big field n) ≡ leb (8 ^ 11) n)
unfolding size_field
read_size-size_field big field n h z = elim (Bool-cases (leb max_file_size n)) [
  | inl e ↦
      rw (e, size_field)
        (read_size-base256 big field n h z, is_base256-encoded big field n z ∙ sym (ground arith))
  | inr e ↦
      rw (e, size_field)
        (
          read_size-octal field n (ground arith),
          is_base256-octal field n (ground arith) ∙ sym (ground arith),
        )
]
