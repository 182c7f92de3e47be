-- ===== src/Util.antt =====
-- b_util.c: joining the strings of a stack, and reading a symbolic link.
pub mod Texts
pub mod Join
use archive_tar_builder.Prelude.{
  ℕ, zero, suc, ◌+◌, ◌-◌, Bool, false, Option, none, some, [], ◌∷◌, ◌++◌, ◌==◌, ltb, ◌&&◌,
  if◌then◌else◌, ◌>>=◌, ◌>>◌, allocate, Bytes, memcpy, strlen, set, replicate, add64, mul64, take,
}
use archive_tar_builder.Text.{BString}
use archive_tar_builder.Stack.{Stack, item_at}

-- The first loop: `n` rounds from index `i` add up the lengths. `none` is error_item_at_len.
unfoldable pub join_len : ℕ → ℕ → Stack BString → ℕ → Option ℕ
join_len zero i items len = some len
join_len (suc n) i items len = do
  item ← item_at items i
  join_len n (suc i) items (add64 len item.len)

-- A copy of `n` bytes at the offset, if there are any, and the offset behind them. The offset stays
-- within the length of the result, so it cannot wrap.
unfoldable pub put_bytes : ℕ → Bytes → Bytes → ℕ → ℕ × Bytes
put_bytes off buf src n = if ltb 0 n then (off + n, memcpy buf off src n) else (off, buf)

-- One round of the second loop: the separator before all but the first item, and the item.
unfoldable pub copy_item : Bytes → ℕ → BString → ℕ → Bytes → ℕ × Bytes
copy_item sep i item off buf =
    let (off', buf') = if ltb 0 i then put_bytes off buf sep (strlen sep) else (off, buf) in
    put_bytes off' buf' item.str item.len

-- The second loop. `none` is error_item_at.
unfoldable pub join_copy : ℕ → ℕ → Stack BString → Bytes → ℕ → Bytes → Option Bytes
unfolding copy_item put_bytes
join_copy zero i items sep off buf = some buf
join_copy (suc n) i items sep off buf = do
  item ← item_at items i
  let (off', buf') = copy_item sep i item off buf
  join_copy n (suc i) items sep off' buf'

-- `fresh` and `granted` answer the two allocations; the bytes of a new buffer are shown as zeros.
unfoldable pub join : Bool → Bool → Bytes → Stack BString → Option BString
unfolding join_len join_copy
join fresh granted sep items = do
  let count = items.count
  allocate fresh
  len ← join_len count 0 items (if count == 0 then 0 else mul64 (strlen sep) (count - 1))
  allocate granted
  buf ← join_copy count 0 items sep 0 (replicate (len + 1) 0)
  some (record { str = set buf len 0; len = len })

-- What readlink(2) answers: an error, or the whole target, of which the call copies what fits.
abbrev pub Readlink : Type 0
Readlink = Option Bytes

-- `size` is the size that lstat() reported for the link. A shorter target leaves the buffer's other
-- bytes indeterminate, here zeros; `granted` and `fresh` answer the two allocations.
unfoldable pub readlink : Bool → Bool → Readlink → ℕ → Option BString
readlink granted fresh none size = none
readlink granted fresh (some target) size =
    if granted
    then (if fresh
        then some (record {
          str = set (memcpy (replicate (size + 1) 0) 0 target size) size 0;
          len = size;
        })
        else none)
    else none
