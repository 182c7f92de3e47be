-- ===== src/Buffer.antt =====
-- b_buffer.c: the block buffer between the archiver and its file descriptor.
-- The buffer exists and has its data: the NULL guards of the source are not part of the model.
pub mod Flush
pub mod Stream
pub mod Room
pub mod Splice
use archive_tar_builder.Prelude.{
  ℕ, zero, suc, ◌+◌, ◌-◌, ◌*◌, ◌%◌, min, Bool, true, false, Option, none, some, List, [], ◌∷◌, ◌++◌,
  ◌==◌, ltb, ◌||◌, ◌&&◌, not, if◌then◌else◌, Bytes, memcpy, length, take, drop, replicate, add64,
  sub64,
}

abbrev pub block_size : ℕ
block_size = 512

abbrev pub default_factor : ℕ
default_factor = 20

-- `errno`: the values that the program sets itself, and those of the system.
pub data Errno : Type 0 where
  einval ebadf efbig : Errno
  system : ℕ → Errno

pub data Result {ℓ} (A : Type ℓ) : Type ℓ where
  ok : A → Result A
  err : Errno → Result A

-- `bytes` is the memory behind `data`.
pub record Buffer : Type 0 where
  pub fd : ℕ
  pub can_splice : Bool
  pub size : ℕ
  pub unused : ℕ
  pub bytes : Bytes

-- What write(2) answers next: it takes some bytes, is interrupted by a signal, or fails.
pub data Answer : Type 0 where
  wrote : ℕ → Answer
  interrupted : Answer
  failed : ℕ → Answer

-- A buffer, what was written to its descriptor, and what write(2) will answer. Behind the last
-- answer it takes all that it is given.
pub record Channel : Type 0 where
  pub buf : Buffer
  pub output : Bytes
  pub answers : List Answer

-- The size of a new buffer
unfoldable pub factor_size : ℕ → ℕ
factor_size factor = if ltb 0 factor then factor * block_size else default_factor * block_size

-- b_buffer_new(); `granted` answers both allocations.
unfoldable pub new : Bool → ℕ → Option Buffer
new granted factor =
    let size = factor_size factor in
    if granted
    then some (record {
      fd = 0;
      can_splice = false;
      size = size;
      unused = size;
      bytes = replicate size 0;
    })
    else none

-- What fstat(2) and uname(2) say of a descriptor: whether it is a pipe, and the three numbers of the
-- kernel's release, if it has three.
pub record FdInfo : Type 0 where
  pub is_fifo : Bool
  pub release : Option (ℕ × ℕ × ℕ)

unfoldable pub new_enough : Option (ℕ × ℕ × ℕ) → Bool
new_enough none = false
new_enough (some (kernel, major, minor)) =
    ltb 2 kernel || (kernel == 2 && major == 6 && ltb 30 minor)

-- b_buffer_set_fd() on Linux; `none`: fstat(2) failed.
unfoldable pub set_fd : Buffer → ℕ → Option FdInfo → Buffer
unfolding new_enough
set_fd buf fd none = record buf { fd = fd; can_splice = false }
set_fd buf fd (some info) = record buf {
  fd = fd;
  can_splice = info.is_fifo && new_enough info.release;
}

unfoldable pub full : Buffer → Bool
full buf = buf.unused == 0

unfoldable pub padded_size : ℕ → ℕ
padded_size size =
    if size % block_size == 0 then size else add64 size (block_size - size % block_size)

-- b_buffer_reclaim(): the amount is an `off_t`, here its 64 bits.
unfoldable pub reclaim : Buffer → ℕ → ℕ → Result ℕ × Buffer
unfolding padded_size
reclaim buf used given =
    let amount = sub64 given (padded_size used) in
    if given == 0 || not (given % block_size == 0)
    then (err einval, buf)
    else (ok amount, record buf { unused = add64 buf.unused amount })

-- How the loop of b_buffer_flush() ends: `ret` is what write(2) returned last.
pub data Written : Type 0 where
  all_done : ℕ → Bytes → List Answer → Written
  gave_up : ℕ → Bytes → List Answer → Written

-- The loop, over what write(2) answers. `intr` says that it was interrupted last.
unfoldable pub write_loop : List Answer → Bytes → ℕ → ℕ → ℕ → Bool → Bytes → Written
write_loop [] bytes size off ret intr output =
    if ltb off size || intr
    then all_done (size - off) (output ++ drop off bytes) []
    else all_done ret output []
write_loop (wrote n ∷ answers) bytes size off ret intr output =
    let k = min n (size - off) in
    let rest =
      write_loop answers bytes size (off + k) k false (output ++ take k (drop off bytes)) in
    if ltb off size || intr
    then (if k == 0 then all_done 0 output answers else rest)
    else all_done ret output (wrote n ∷ answers)
write_loop (interrupted ∷ answers) bytes size off ret intr output =
    let rest = write_loop answers bytes size off ret true output in
    if ltb off size || intr then rest else all_done ret output (interrupted ∷ answers)
write_loop (failed e ∷ answers) bytes size off ret intr output =
    if ltb off size || intr
    then gave_up e output answers
    else all_done ret output (failed e ∷ answers)

-- b_buffer_flush(): all of the buffer is written, its unused part too.
unfoldable pub flushed : Channel → Written → Result ℕ × Channel
flushed ch (all_done ret output answers) = (
  ok ret,
  record {
    buf = record ch.buf { bytes = replicate ch.buf.size 0; unused = ch.buf.size };
    output = output;
    answers = answers;
  },
)
flushed ch (gave_up e output answers) =
    (err (system e), record ch { output = output; answers = answers })

unfoldable pub flush : Channel → Result ℕ × Channel
flush ch =
    let buf = ch.buf in
    if buf.fd == 0
    then (err ebadf, ch)
    else if buf.size == 0 || buf.unused == buf.size
    then (ok 0, ch)
    else flushed ch (write_loop ch.answers buf.bytes buf.size 0 0 false ch.output)

-- A block of the buffer: where it starts, and how much was given.
pub record Block : Type 0 where
  pub offset : ℕ
  pub given : ℕ

-- The part of b_buffer_get_block() behind the flush.
unfoldable pub take_block : Channel → ℕ → Result (Option Block) × Channel
take_block ch padded_len =
    let buf = ch.buf in
    if ltb buf.unused padded_len then (err efbig, ch) else (
      ok (some (record { offset = buf.size - buf.unused; given = padded_len })),
      record ch { buf = record buf { unused = buf.unused - padded_len } },
    )

-- b_buffer_get_block(): `ok none` is the NULL for a length of 0, which leaves `errno` alone; on an
-- error the given length is -1.
unfoldable pub get_block : Channel → ℕ → Result (Option Block) × Channel
get_block ch len =
    if len == 0
    then (ok none, ch)
    else if ch.buf.fd == 0
    then (err ebadf, ch)
    else if full ch.buf
    then (let (flushed, ch') = flush ch in
        elim flushed [ err e ↦ (err e, ch') | ok _ ↦ take_block ch' (padded_size len) ])
    else take_block ch (padded_size len)

-- A copy into a block that was given.
unfoldable pub fill : Channel → ℕ → Bytes → Channel
fill ch offset src = record ch {
  buf = record ch.buf { bytes = memcpy ch.buf.bytes offset src (length src) };
}

-- b_buffer_reset()
unfoldable pub reset : Buffer → Buffer
reset buf = record buf { fd = 0; unused = buf.size; bytes = replicate buf.size 0 }
