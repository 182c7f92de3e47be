-- ===== src/Contents/Stream.antt =====
-- b_file_write_contents() on a descriptor that takes no splice: the contents arrive as they are.
use archive_tar_builder.Prelude.{
  Option, none, some, List, [], ◌∷◌, ℕ, zero, suc, ◌+◌, ◌-◌, ◌%◌, ◌^◌, ◌≤◌, ◌<◌, ◌≡◌, ◌≢◌, ◌⊎◌,
  refl, sym, ap, ◌∙◌, subst, min, true, false, ◌++◌, arith, ◌==◌, ltb, Bytes, length, take, drop,
  length-take, length-drop, drop-drop, append-nil, append_assoc, Bool-cases, inl, inr,
}
use archive_tar_builder.Buffer.{
  Errno, Answer, wrote, interrupted, failed, block_size, ok, Channel, full, padded_size, fill,
}
use archive_tar_builder.Buffer.Stream.{Streams, pad_to, fill-Streams, flush-Streams}
use archive_tar_builder.Buffer.Flush.{IsReliable, emptied}
use archive_tar_builder.Contents.{
  eintr, last_errno, errno_after, with_channel, max_chunk_size, File, Transfer, again, stop,
  through_buffer, after_flush, transfer_chunk, choose_chunk, round, Ending, returned, after_loop,
  rounds_loop, write_contents,
}
use archive_tar_builder.Contents.Padding.{
  padded_size-bounds, padded_size-split, pad_to-chunk, chunk_blocks,
}
use archive_tar_builder.Contents.Chunk.{
  Kept, Kept-trans, IsWhole, after_chunk, through_buffer-IsWhole,
}

-- The transfer when a chunk is chosen: the buffer is not full.
pub record IsReady (t t' : Transfer) (s : Bytes) (file_size : ℕ) : Type 0 where
  pub round_eq : round t file_size ≡ choose_chunk t' file_size
  pub streams : Streams t'.ch s
  pub room : t'.ch.buf.unused ≢ 0
  pub no_splice : t'.ch.buf.can_splice ≡ false
  pub file_eq : record t'.file { errno = none } ≡ record t.file { errno = none }
  pub kept : Kept t.file.errno t'.file.errno
  pub total_eq : t'.total ≡ t.total
  pub real_total_eq : t'.real_total ≡ t.real_total

-- What `errno` can be behind a flush that succeeds
last_errno-Kept :
    (errno : Option Errno) (answers : List Answer) (n : ℕ)
    → IsReliable answers
    → Kept errno (last_errno errno (take n answers))
unfolding last_errno
last_errno-Kept errno answers zero h = inl refl
last_errno-Kept errno [] (suc n) h = inl refl
last_errno-Kept errno (wrote m ∷ answers) (suc n) h = last_errno-Kept errno answers n h.1
last_errno-Kept errno (interrupted ∷ answers) (suc n) h =
    Kept-trans (inr refl) (last_errno-Kept (some eintr) answers n h)
last_errno-Kept errno (failed e ∷ answers) (suc n) h = absurd h

pub ready :
    (t : Transfer) (s : Bytes) (file_size : ℕ)
    → Streams t.ch s
    → t.ch.buf.can_splice ≡ false
    → (t' : Transfer) × IsReady t t' s file_size
unfolding round full after_flush with_channel errno_after
ready t s file_size h no_splice = elim (Bool-cases (t.ch.buf.unused == 0)) [
  | inl e ↦
      let (ret, answers, f, streams) = flush-Streams h (ground arith) in
      (
        record (with_channel t (emptied t.ch answers)) { emptied_buffer = true },
        record {
          round_eq = rw e (ap (after_flush t file_size) f);
          streams = streams;
          room = omega (arith, h.size_pos);
          no_splice = no_splice;
          file_eq = refl;
          kept =
              last_errno-Kept t.file.errno t.ch.answers (length t.ch.answers - length answers)
                h.reliable;
          total_eq = refl;
          real_total_eq = refl;
        },
      )
  | inr e ↦ (
    t,
    record {
      round_eq = rw e refl;
      streams = h;
      room = ground arith;
      no_splice = no_splice;
      file_eq = refl;
      kept = inl refl;
      total_eq = refl;
      real_total_eq = refl;
    },
  )
]

transfer_chunk-no_splice :
    (t : Transfer) (max_read : ℕ)
    → t.ch.buf.can_splice ≡ false
    → transfer_chunk t max_read ≡ through_buffer t max_read
unfolding transfer_chunk
transfer_chunk-no_splice t max_read no_splice = elim (Bool-cases t.emptied_buffer) [
  | inl e ↦ rw (e, no_splice) refl
  | inr e ↦ rw e refl
]

pub choose_chunk-more :
    (t : Transfer) (file_size left : ℕ)
    → t.ch.buf.can_splice ≡ false
    → file_size - t.real_total ≡ left
    → 0 < left
    → choose_chunk t file_size ≡ through_buffer t (min max_chunk_size left)
unfolding choose_chunk
choose_chunk-more t file_size left no_splice sum more =
    let some_left : (left == 0) ≡ false = ground arith in
    elim (Bool-cases (ltb max_chunk_size left)) [
      | inl e ↦
          let chunk : max_chunk_size ≡ min max_chunk_size left = ground arith in
          rw (sum, e)
            (transfer_chunk-no_splice t max_chunk_size no_splice ∙ ap (through_buffer t) chunk)
      | inr e ↦
          let chunk : left ≡ min max_chunk_size left = ground arith in
          rw (sum, e, some_left)
            (transfer_chunk-no_splice t left no_splice ∙ ap (through_buffer t) chunk)
    ]

choose_chunk-done :
    (t : Transfer) (file_size : ℕ) → t.real_total ≡ file_size → choose_chunk t file_size ≡ stop t
unfolding choose_chunk
choose_chunk-done t file_size sum = ground arith

after_loop-no_splice :
    (t : Transfer) → t.ch.buf.can_splice ≡ false → after_loop t ≡ returned (ok t.total) t.ch t.file
unfolding after_loop
after_loop-no_splice t no_splice = ground arith

pub rounds_loop-again :
    (fuel : ℕ) (t t' : Transfer) (file_size : ℕ)
    → round t file_size ≡ again t'
    → rounds_loop (suc fuel) t file_size ≡ rounds_loop fuel t' file_size
unfolding rounds_loop
rounds_loop-again fuel t t' file_size e = rw (e, rounds_loop) refl

rounds_loop-stop :
    (fuel : ℕ) (t t' : Transfer) (file_size : ℕ)
    → round t file_size ≡ stop t'
    → rounds_loop (suc fuel) t file_size ≡ after_loop t'
unfolding rounds_loop
rounds_loop-stop fuel t t' file_size e = rw (e, rounds_loop) refl

-- The transfer ends with `left` more bytes of the file sent behind the stream `s`.
record Sends (ending : Ending) (t : Transfer) (s : Bytes) (left : ℕ) : Type 0 where
  ch : Channel
  file : File
  returned_eq : ending ≡ returned (ok (t.total + padded_size left)) ch file
  streams : Streams ch (s ++ pad_to (padded_size left) (take left t.file.content))
  rest_eq : file.content ≡ drop left t.file.content
  kept : ch.buf.can_splice ≡ false

module _ (file_size : ℕ) (small : file_size < 2 ^ 62) where
  -- A round that reads a chunk, and the rounds behind it.
  after_ready :
      (fuel : ℕ) (t t' : Transfer) (s : Bytes) (left : ℕ)
      → IsReady t t' s file_size
      → IsWhole t.file.reads
      → t.real_total + left ≡ file_size
      → left ≤ length t.file.content
      → (0 < left) × (left ≤ fuel)
      → ((t : Transfer) (s : Bytes) (left : ℕ)
          → Streams t.ch s
          → t.ch.buf.can_splice ≡ false
          → IsWhole t.file.reads
          → t.real_total + left ≡ file_size
          → left < fuel
          → left ≤ length t.file.content
          → Sends (rounds_loop fuel t file_size) t s left)
      → Sends (rounds_loop (suc fuel) t file_size) t s left
  unfolding fill
  after_ready fuel t t' s left r whole sum have bounds rest =
      let u = t'.ch.buf.unused in
      let c = t'.file.content in
      let same : c ≡ t.file.content = ap (λ f. f.content) r.file_eq in
      let k : ℕ = min (min max_chunk_size left) u in
      let h = r.streams in
      let blocks : (k % block_size ≡ 0) ⊎ (k ≡ left) = chunk_blocks left u h.unused_blocks in
      let have' : left ≤ length c = omega (arith, ap length same) in
      let small_u : u < 2 ^ 62 = omega (arith, h.size_small, h.size_eq) in
      let x =
        through_buffer-IsWhole t' (min max_chunk_size left) h.open_fd r.room h.unused_blocks small_u
          (subst (λ f. IsWhole f.reads) (sym r.file_eq) whole) (omega arith) (omega arith)
          (omega arith) in
      let bounds_k = padded_size-bounds k u (omega arith) h.unused_blocks small_u in
      let sent =
        fill-Streams (take k c) (padded_size k) h (omega (arith, length-take k c, bounds_k.0))
          bounds_k.1 bounds_k.2 in
      let next =
        rest (after_chunk t' k x.reads x.errno) (s ++ pad_to (padded_size k) (take k c)) (left - k)
          sent r.no_splice x.whole (omega (arith, r.real_total_eq)) (omega (arith, r.room))
          (omega (arith, length-drop k c)) in
      record {
        ch = next.ch;
        file = next.file;
        returned_eq =
            rounds_loop-again fuel t (after_chunk t' k x.reads x.errno) file_size (
              r.round_eq
              ∙ choose_chunk-more t' file_size left r.no_splice (omega (arith, r.real_total_eq))
                  bounds.0
              ∙ x.round_eq)
            ∙ next.returned_eq
            ∙ ap (λ n. returned (ok n) next.ch next.file)
                (omega
                  (arith, r.total_eq, padded_size-split k left blocks (omega arith) (omega arith)));
        streams =
            subst (Streams next.ch)
              (append_assoc s (pad_to (padded_size k) (take k c))
                  (pad_to (padded_size (left - k)) (take (left - k) (drop k c)))
                ∙ ap (λ x. s ++ x) (pad_to-chunk k left c blocks (omega arith) have' (omega arith))
                ∙ ap (λ x. s ++ pad_to (padded_size left) (take left x)) same)
              next.streams;
        rest_eq =
            next.rest_eq
            ∙ drop-drop k (left - k) c
            ∙ ap (λ n. drop n c) {x = k + (left - k)} {y = left} (omega arith)
            ∙ ap (drop left) same;
        kept = next.kept;
      }

  rounds_loop-Sends :
      (fuel : ℕ) (t : Transfer) (s : Bytes) (left : ℕ)
      → Streams t.ch s
      → t.ch.buf.can_splice ≡ false
      → IsWhole t.file.reads
      → t.real_total + left ≡ file_size
      → left < fuel
      → left ≤ length t.file.content
      → Sends (rounds_loop fuel t file_size) t s left
  unfolding padded_size
  rounds_loop-Sends zero t s left h no_splice whole sum enough have = absurd (omega arith)
  rounds_loop-Sends (suc fuel) t s zero h no_splice whole sum enough have =
      let (t', r) = ready t s file_size h no_splice in
      record {
        ch = t'.ch;
        file = t'.file;
        returned_eq =
            rounds_loop-stop fuel t t' file_size
              (r.round_eq ∙ choose_chunk-done t' file_size (omega (arith, r.real_total_eq)))
            ∙ after_loop-no_splice t' r.no_splice
            ∙ ap (λ n. returned (ok n) t'.ch t'.file) (omega (arith, r.total_eq));
        streams = subst (Streams t'.ch) (sym (append-nil s)) r.streams;
        rest_eq = ap (λ f. f.content) r.file_eq;
        kept = r.no_splice;
      }
  rounds_loop-Sends (suc fuel) t s (suc left) h no_splice whole sum enough have =
      let (t', r) = ready t s file_size h no_splice in
      after_ready fuel t t' s (suc left) r whole sum have (omega arith) (rounds_loop-Sends fuel)

-- On a channel whose stream is `s`, whose descriptor takes no splice, and for a file of less than 2^62
-- bytes that read(2) gives whole, perhaps after interruptions, b_file_write_contents() returns with the
-- file's bytes sent, padded with zeros to whole blocks; the number returned is the padded size, and
-- the file's offset is behind what was sent. The descriptor still takes no splice.
pub write_contents-Streams :
    {ch : Channel} {s : Bytes} (file : File) (file_size : ℕ)
    → Streams ch s
    → ch.buf.can_splice ≡ false
    → IsWhole file.reads
    → file_size < 2 ^ 62
    → file_size ≤ length file.content
    → (ch' : Channel) × (file' : File) × (write_contents ch file file_size
        ≡ returned (ok (padded_size file_size)) ch' file')
      × Streams ch' (s ++ pad_to (padded_size file_size) (take file_size file.content))
      × (file'.content ≡ drop file_size file.content)
      × (ch'.buf.can_splice ≡ false)
unfolding write_contents
write_contents-Streams {ch} {s} file file_size h no_splice whole small have =
    let t : Transfer = record {
      ch = ch;
      file = file;
      emptied_buffer = false;
      splice_total = 0;
      total = 0;
      real_total = 0;
    } in
    let sends =
      rounds_loop-Sends file_size small (suc file_size) t s file_size h no_splice whole
        (omega arith) (omega arith) have in
    (
      sends.ch,
      sends.file,
      sends.returned_eq ∙ ap (λ n. returned (ok n) sends.ch sends.file) (omega arith),
      sends.streams,
      sends.rest_eq,
      sends.kept,
    )
