-- ===== src/Header/Number.antt =====
-- The numeric fields: octal digits by snprintf(3), and the base-256 form of large sizes.
use Prim.Native.Nat.{bit_or}
use archive_tar_builder.Prelude.{
  ℕ, zero, suc, ◌+◌, ◌-◌, ◌/◌, ◌%◌, Bool, [], ◌∷◌, ◌++◌, ◌==◌, leb, if◌then◌else◌, Bytes, length,
  take, drop, replicate, get_or,
}

-- The digits of a number in octal, of which a 64-bit number has 22 at most; none for 0.
unfoldable pub octal_digits : ℕ → ℕ → Bytes
octal_digits zero n = []
octal_digits (suc f) n =
    let rest = octal_digits f (n / 8) in if n == 0 then [] else rest ++ (b'0' + n % 8) ∷ []

-- `%.<precision>o`
unfoldable pub octal : ℕ → ℕ → Bytes
octal precision n =
    let digits = octal_digits 22 n in replicate (precision - length digits) b'0' ++ digits

-- snprintf(3) of a text into a field of `size` bytes: what does not fit is cut off, and a terminator
-- follows.
unfoldable pub snprintf : Bytes → ℕ → Bytes → Bytes
snprintf field size text =
    let written = take (size - 1) text in written ++ (0 ∷ drop (length written + 1) field)

-- The bytes of a 64-bit value, the lowest first.
unfoldable pub low_bytes : ℕ → ℕ → Bytes
low_bytes zero value = []
low_bytes (suc n) value = (value % 256) ∷ low_bytes n (value / 256)

-- `((uint8_t *)&value)[i]`, on a machine of either byte order
unfoldable pub memory_byte : Bool → ℕ → ℕ → ℕ
unfolding low_bytes
memory_byte big value i =
    if big then get_or (low_bytes 8 value) (7 - i) 0 else get_or (low_bytes 8 value) i 0

-- The loop of encode_base256_value(), from index `i` with `n` rounds to go: the bytes that it writes.
unfoldable pub base256_bytes : Bool → ℕ → ℕ → ℕ → Bytes
unfolding memory_byte
base256_bytes big value zero i = []
base256_bytes big value (suc n) i =
    memory_byte big value (if big then i else 8 - i - 1) ∷ base256_bytes big value n (suc i)

-- `field[0] |= 0x80`
unfoldable pub mark_base256 : Bytes → Bytes
mark_base256 [] = []
mark_base256 (b ∷ field) = bit_or b 0x80 ∷ field

-- encode_base256_value(), for a field of `len` bytes, at least 8
unfoldable pub encode_base256_value : Bool → Bytes → ℕ → ℕ → Bytes
unfolding base256_bytes mark_base256
encode_base256_value big field len value =
    mark_base256 (take (len - 8) field ++ base256_bytes big value 8 0)

abbrev pub max_file_size : ℕ
max_file_size = 8589934592

-- The size field: octal up to 8 GB, base 256 from there on.
unfoldable pub size_field : Bool → Bytes → ℕ → Bytes
size_field big field size =
    if leb max_file_size size
    then encode_base256_value big field 12 size
    else snprintf field 12 (octal 11 size)
