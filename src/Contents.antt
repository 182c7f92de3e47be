-- ===== src/Contents.antt =====
-- b_file.c, b_file_write_contents(): the contents of a file, read into the buffer, or spliced to its
-- descriptor where that is a pipe and the buffer has been flushed once.
pub mod Padding
pub mod Chunk
pub mod Stream
pub mod Short
use archive_tar_builder.Prelude.{
  ℕ, zero, suc, ◌+◌, ◌-◌, ◌*◌, ◌%◌, ◌^◌, min, Bool, true, false, not, ◌&&◌, Option, none, some,
  List, [], ◌∷◌, ◌++◌, ◌==◌, ltb, if◌then◌else◌, Bytes, length, take, drop,
}
use archive_tar_builder.Buffer.{
  block_size, Errno, einval, system, Result, ok, err, Answer, wrote, interrupted, failed, Block,
  Buffer, Channel, full, flush, get_block, fill, reclaim,
}

-- MAX_CHUNK_SIZE
abbrev pub max_chunk_size : ℕ
max_chunk_size = 16 * 1024 * 1024

-- What read(2) answers next: at most so many bytes, an interruption by a signal, or an error.
pub data ReadAnswer : Type 0 where
  got : ℕ → ReadAnswer
  read_interrupted : ReadAnswer
  read_failed : ℕ → ReadAnswer

-- What splice(2) answers next: it moves at most so many bytes, or fails.
pub data SpliceAnswer : Type 0 where
  moved : ℕ → SpliceAnswer
  splice_failed : ℕ → SpliceAnswer

-- An open file: the bytes from its offset on, and what the calls will answer; behind the last answer
-- each call gives all that it is asked for, as far as there is. `errno` goes along with it: `none` is 0;
-- a call that fails sets it, also one that is repeated, and a call that succeeds leaves it alone.
pub record File : Type 0 where
  pub content : Bytes
  pub reads : List ReadAnswer
  pub splices : List SpliceAnswer
  pub errno : Option Errno

-- EINTR
abbrev pub eintr : Errno
eintr = system 4

-- `errno` behind calls of write(2) with these answers
unfoldable pub last_errno : Option Errno → List Answer → Option Errno
last_errno errno [] = errno
last_errno errno (wrote n ∷ answers) = last_errno errno answers
last_errno errno (interrupted ∷ answers) = last_errno (some eintr) answers
last_errno errno (failed e ∷ answers) = last_errno (some (system e)) answers

-- The answers that were there before, and those that are left: the others were given.
unfoldable pub errno_after : Option Errno → List Answer → List Answer → Option Errno
unfolding last_errno
errno_after errno before left = last_errno errno (take (length before - length left) before)

-- read(2), repeated while it is interrupted: how much it gives, or its error, the answers that are left,
-- and `errno`.
pub data Read : Type 0 where
  read_some : ℕ → List ReadAnswer → Option Errno → Read
  read_error : ℕ → List ReadAnswer → Read

-- `want` is how much is asked for.
unfoldable pub read_retry : Option Errno → List ReadAnswer → ℕ → Read
read_retry errno [] want = read_some want [] errno
read_retry errno (got n ∷ reads) want = read_some (min n want) reads errno
read_retry errno (read_interrupted ∷ reads) want = read_retry (some eintr) reads want
read_retry errno (read_failed e ∷ reads) want = read_error e reads

-- The variables of the loop
pub record Transfer : Type 0 where
  pub ch : Channel
  pub file : File
  pub emptied_buffer : Bool
  pub splice_total : ℕ
  pub total : ℕ
  pub real_total : ℕ

-- The channel behind calls of the buffer, and `errno` as they leave it
unfoldable pub with_channel : Transfer → Channel → Transfer
unfolding errno_after
with_channel t ch = record t {
  ch = ch;
  file = record t.file { errno = errno_after t.file.errno t.ch.answers ch.answers };
}

-- How a round of the loop ends: with another one, behind the loop, or at `error_io`, with what `errno`
-- is there.
pub data Round : Type 0 where
  again : Transfer → Round
  stop : Transfer → Round
  error_io : Option Errno → Transfer → Round

-- `while (rlen > 0)`
unfoldable pub end_round : ℕ → Transfer → Round
end_round rlen t =
    let t' = record t { real_total = t.real_total + rlen } in
    if ltb 0 rlen then again t' else stop t'

-- `total -= b_buffer_reclaim(...)`, where an error is -1. All of this stays within the file's size and
-- that of the buffer and cannot wrap.
unfoldable pub apply_reclaim : Transfer → Result ℕ × Buffer → Transfer
apply_reclaim t (ok amount, buf) = record t {
  ch = record t.ch { buf = buf };
  total = t.total - amount;
}
apply_reclaim t (err e, buf) = record t {
  ch = record t.ch { buf = buf };
  file = record t.file { errno = some e };
  total = t.total + 1;
}

unfoldable pub reclaim_rest : Transfer → ℕ → ℕ → Transfer
unfolding apply_reclaim
reclaim_rest t rlen given =
    if given - rlen == 0 then t else apply_reclaim t (reclaim t.ch.buf rlen given)

-- What is done with the answer of read(2). What was read stands in the block, also where it is too
-- little.
unfoldable pub after_read : Transfer → Block → ℕ → Read → Round
unfolding reclaim_rest end_round
after_read t b want (read_error e reads) =
    error_io (some (system e)) (record t { file = record t.file { reads = reads } })
after_read t b want (read_some n reads errno) =
    let bytes = take n t.file.content in
    let rlen = length bytes in
    let file' = record t.file { content = drop n t.file.content; reads = reads; errno = errno } in
    let t' = record t { ch = fill t.ch b.offset bytes; file = file' } in
    if ltb rlen want
    then error_io errno t'
    else end_round rlen (reclaim_rest (record t' { total = t.total + b.given }) rlen b.given)

-- What is done with the answer of b_buffer_get_block()
unfoldable pub after_block : Transfer → ℕ → Result (Option Block) × Channel → Round
unfolding after_read read_retry with_channel
after_block t max_read (err e, ch) = error_io (some e) (record t { ch = ch })
after_block t max_read (ok none, ch) = let t' = with_channel t ch in error_io t'.file.errno t'
after_block t max_read (ok (some b), ch) =
    let t' = with_channel t ch in
    let want = if ltb b.given max_read then b.given else max_read in
    after_read t' b want (read_retry t'.file.errno t.file.reads want)

-- The branch that goes through the buffer
unfoldable pub through_buffer : Transfer → ℕ → Round
unfolding after_block
through_buffer t max_read = after_block t max_read (get_block t.ch t.ch.buf.unused)

-- splice(2) moves `n` bytes to the descriptor of the buffer. `splice_total` is an `int`.
unfoldable pub spliced : Transfer → ℕ → List SpliceAnswer → Round
unfolding end_round
spliced t n splices =
    let bytes = take n t.file.content in
    let rlen = length bytes in
    let file' = record t.file { content = drop n t.file.content; splices = splices } in
    end_round rlen (record t {
      ch = record t.ch { output = t.ch.output ++ bytes };
      file = file';
      splice_total = (t.splice_total + rlen) % 2 ^ 32;
      total = t.total + rlen;
    })

-- Where splice(2) fails, the buffer is used from here on.
unfoldable pub try_splice : Transfer → ℕ → Round
unfolding spliced through_buffer
try_splice t max_read = elim t.file.splices [
  | [] ↦ spliced t max_read []
  | moved n ∷ splices ↦ spliced t (min n max_read) splices
  | splice_failed e ∷ splices ↦
      through_buffer
        (record t {
          ch = record t.ch { buf = record t.ch.buf { can_splice = false } };
          file = record t.file { splices = splices; errno = some (system e) };
        })
        max_read
]

unfoldable pub transfer_chunk : Transfer → ℕ → Round
unfolding try_splice through_buffer
transfer_chunk t max_read =
    if t.emptied_buffer && t.ch.buf.can_splice
    then try_splice t max_read
    else through_buffer t max_read

-- The choice of `max_read`
unfoldable pub choose_chunk : Transfer → ℕ → Round
choose_chunk t file_size =
    let left = file_size - t.real_total in
    if ltb max_chunk_size left
    then transfer_chunk t max_chunk_size
    else if left == 0
    then stop t
    else transfer_chunk t left

-- What is done with the answer of b_buffer_flush()
unfoldable pub after_flush : Transfer → ℕ → Result ℕ × Channel → Round
unfolding with_channel
after_flush t file_size (err e, ch) = error_io (some e) (record t { ch = ch })
after_flush t file_size (ok _, ch) =
    choose_chunk (record (with_channel t ch) { emptied_buffer = true }) file_size

-- The body of the loop
unfoldable pub round : Transfer → ℕ → Round
unfolding after_flush
round t file_size =
    if full t.ch.buf then after_flush t file_size (flush t.ch) else choose_chunk t file_size

-- How b_file_write_contents() ends; `out_of_fuel` belongs to the model only.
pub data Ending : Type 0 where
  returned : Result ℕ → Channel → File → Ending
  out_of_fuel : Ending

-- `if (!errno) errno = EINVAL;`
abbrev pub io_errno : Option Errno → Errno
io_errno none = einval
io_errno (some e) = e

-- The zeros that complete the last block where splice(2) was used: one call of write(2), which is not
-- repeated.
unfoldable pub write_padding : Transfer → ℕ → Ending
write_padding t n = elim t.ch.answers [
  | [] ↦
      returned (ok t.total) (record t.ch { output = t.ch.output ++ take n t.ch.buf.bytes }) t.file
  | wrote k ∷ answers ↦
      returned (ok t.total)
        (record t.ch { output = t.ch.output ++ take (min k n) t.ch.buf.bytes; answers = answers })
        t.file
  | interrupted ∷ answers ↦ returned (err (system 4)) (record t.ch { answers = answers }) t.file
  | failed e ∷ answers ↦ returned (err (system e)) (record t.ch { answers = answers }) t.file
]

unfoldable pub after_loop : Transfer → Ending
unfolding write_padding
after_loop t =
    if not (t.splice_total == 0) && (t.ch.buf.can_splice && not (t.total % block_size == 0))
    then write_padding t (block_size - t.total % block_size)
    else returned (ok t.total) t.ch t.file

unfoldable pub rounds_loop : ℕ → Transfer → ℕ → Ending
unfolding after_loop
rounds_loop zero t file_size = out_of_fuel
rounds_loop (suc fuel) t file_size = elim (round t file_size) [
  | again t' ↦ rounds_loop fuel t' file_size
  | stop t' ↦ after_loop t'
  | error_io e t' ↦ returned (err (io_errno e)) t'.ch t'.file
]

-- b_file_write_contents(). A round transfers at least a byte: one for each byte and one for the end are
-- enough.
unfoldable pub write_contents : Channel → File → ℕ → Ending
write_contents ch file file_size =
    rounds_loop (suc file_size)
      (record {
        ch = ch;
        file = file;
        emptied_buffer = false;
        splice_total = 0;
        total = 0;
        real_total = 0;
      })
      file_size
