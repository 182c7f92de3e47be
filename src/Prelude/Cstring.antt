-- ===== src/Prelude/Cstring.antt =====
-- The string functions of libc that the program calls, on lists of bytes.
use Prim.Native.Nat.{ℕ, zero, suc, ◌+◌}
use mathlib.Core.Path.{◌≡◌, refl, ap, ap₂}
use mathlib.Core.Logic.{◌≢◌}
use mathlib.Core.List.{[], ◌∷◌, ◌++◌}
use native.Mathlib.Omega.{arith}
use archive_tar_builder.Prelude.Tests.{Bytes, ◌==◌, if◌then◌else◌, and-true, ==_iff}
use mathlib.Core.Bool.{Bool, true, false}
use archive_tar_builder.Prelude.Lists.{length, take, drop, replicate, length-replicate}
use archive_tar_builder.Prelude.Lists.{take-append_self, drop-append_add}

-- The bytes up to the first NUL, which are all that the str functions see.
unfoldable pub c_str : Bytes → Bytes
c_str [] = []
c_str (c ∷ s) = if c == 0 then [] else c ∷ c_str s

abbrev pub strlen : Bytes → ℕ
strlen s = length (c_str s)

-- strncpy(3): the `n` bytes that it writes; a short source is padded with NULs.
unfoldable pub strncpy : ℕ → Bytes → Bytes
strncpy zero s = []
strncpy (suc n) [] = 0 ∷ strncpy n []
strncpy (suc n) (c ∷ s) = if c == 0 then replicate (suc n) 0 else c ∷ strncpy n s

-- memcpy(3): the buffer `buf` after the first `n` bytes of `src` are copied to offset `off`.
unfoldable pub memcpy : Bytes → ℕ → Bytes → ℕ → Bytes
memcpy buf off src n = take off buf ++ (take n src ++ drop (off + n) buf)

abbrev pub NoNul : Bytes → Type 0
NoNul [] = Unit {0}
NoNul (c ∷ s) = (c ≢ 0) × NoNul s

pub c_str-append_nul : (s rest : Bytes) → NoNul s → c_str (s ++ 0 ∷ rest) ≡ s
unfolding c_str
c_str-append_nul [] rest h = refl
c_str-append_nul (c ∷ s) rest h = ground (arith, c_str-append_nul s rest h.1)

pub c_str-NoNul : (s : Bytes) → NoNul (c_str s)
unfolding c_str
c_str-NoNul [] = tt
c_str-NoNul (c ∷ s) = ground (arith, c_str-NoNul s)

pub c_str_self : (s : Bytes) → NoNul s → c_str s ≡ s
unfolding c_str
c_str_self [] h = refl
c_str_self (c ∷ s) h = ground (arith, c_str_self s h.1)

pub NoNul-append : (s t : Bytes) → NoNul s → NoNul t → NoNul (s ++ t)
NoNul-append [] t h k = k
NoNul-append (c ∷ s) t h k = (h.0, NoNul-append s t h.1 k)

pub length-strncpy : (n : ℕ) (s : Bytes) → length (strncpy n s) ≡ n
unfolding strncpy
length-strncpy zero s = refl
length-strncpy (suc n) [] = ap suc (length-strncpy n [])
length-strncpy (suc n) (c ∷ s) = ground (arith, length-replicate {A = ℕ} n 0, length-strncpy n s)

-- As many bytes as a string has are copied as they are.
pub strncpy_all : (s rest : Bytes) → NoNul s → strncpy (length s) (s ++ rest) ≡ s
unfolding strncpy
strncpy_all [] rest h = refl
strncpy_all (c ∷ s) rest h = ground (arith, strncpy_all s rest h.1)

pub strncpy-c_str : (s : Bytes) → strncpy (length (c_str s)) s ≡ c_str s
unfolding strncpy c_str
strncpy-c_str [] = refl
strncpy-c_str (c ∷ s) = ground (arith, strncpy-c_str s)

-- Copying just past what a buffer holds.
pub memcpy-append :
    (done t src : Bytes) (n : ℕ)
    → memcpy (done ++ t) (length done) src n ≡ done ++ (take n src ++ drop n t)
unfolding memcpy
memcpy-append done t src n =
    ap₂ (λ a b. a ++ (take n src ++ b)) (take-append_self done t) (drop-append_add done t n)

-- strcmp(3) == 0, on texts without their terminators.
unfoldable pub str_eq : Bytes → Bytes → Bool
str_eq [] [] = true
str_eq [] (d ∷ t) = false
str_eq (c ∷ s) [] = false
str_eq (c ∷ s) (d ∷ t) = if c == d then str_eq s t else false

pub str_eq→eq : (s t : Bytes) → str_eq s t ≡ true → s ≡ t
unfolding str_eq
str_eq→eq [] [] h = refl
str_eq→eq [] (d ∷ t) h = cc
str_eq→eq (c ∷ s) [] h = cc
str_eq→eq (c ∷ s) (d ∷ t) h =
    let (hc, hs) = and-true (c == d) (str_eq s t) h in
    ap₂ ◌∷◌ ((==_iff c d).0 hc) (str_eq→eq s t hs)

pub str_eq_refl : (s : Bytes) → str_eq s s ≡ true
unfolding str_eq
str_eq_refl [] = refl
str_eq_refl (c ∷ s) = ground (arith, str_eq_refl s)
