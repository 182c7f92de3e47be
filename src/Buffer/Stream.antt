-- ===== src/Buffer/Stream.antt =====
-- A channel as the stream of bytes that is sent through it: what was written, and what waits in the
-- buffer. A block that is taken and filled is that much more of the stream.
use archive_tar_builder.Prelude.{
  ℕ, zero, suc, ◌+◌, ◌-◌, ◌%◌, ◌^◌, ◌≤◌, ◌<◌, ◌≡◌, ◌≢◌, refl, sym, ap, ap₂, ◌∙◌, true, some, List,
  [], ◌∷◌, ◌++◌, arith, Bytes, length, drop, replicate, append-nil, append_assoc, length-append,
  length-replicate, memcpy, memcpy-append, take_all,
}
use native.Mathlib.Decide.{ℕ_discrete}
use archive_tar_builder.Buffer.{
  block_size, ok, Buffer, Answer, Channel, new, factor_size, full, padded_size, flush, Block,
  take_block, get_block, fill,
}
use archive_tar_builder.Buffer.Flush.{IsReliable, emptied, flush-IsReliable}

-- The stream of an open channel is `s`: it ends in the pending bytes of the buffer, behind which the
-- buffer is zero; whole blocks are free; the descriptor is reliable.
pub record Streams (ch : Channel) (s : Bytes) : Type 0 where
  pub pending : Bytes
  pub stream_eq : s ≡ ch.output ++ pending
  pub layout : ch.buf.bytes ≡ pending ++ replicate ch.buf.unused 0
  pub size_eq : ch.buf.size ≡ length pending + ch.buf.unused
  pub open_fd : ch.buf.fd ≢ 0
  pub size_pos : 0 < ch.buf.size
  pub size_small : ch.buf.size < 2 ^ 62
  pub size_blocks : ch.buf.size % block_size ≡ 0
  pub unused_blocks : ch.buf.unused % block_size ≡ 0
  pub reliable : IsReliable ch.answers

pub replicate-add : (a b : ℕ) → replicate {A = ℕ} (a + b) 0 ≡ replicate a 0 ++ replicate b 0
replicate-add zero b = ap (λ n. replicate {A = ℕ} n 0) (omega arith)
replicate-add (suc a) b =
    ap (λ n. replicate {A = ℕ} n 0) {x = suc a + b} {y = suc (a + b)} (omega arith)
    ∙ ap (λ t. 0 ∷ t) (replicate-add a b)

drop-replicate : (n a : ℕ) → drop n (replicate {A = ℕ} a 0) ≡ replicate (a - n) 0
drop-replicate zero a = ap (λ k. replicate {A = ℕ} k 0) (omega arith)
drop-replicate (suc n) zero = ap (λ k. replicate {A = ℕ} k 0) {x = 0} {y = 0 - suc n} (omega arith)
drop-replicate (suc n) (suc a) =
    drop-replicate n a
    ∙ ap (λ k. replicate {A = ℕ} k 0) {x = a - n} {y = suc a - suc n} (omega arith)

-- `v` with zeros behind it, up to `n` bytes.
abbrev pub pad_to : ℕ → Bytes → Bytes
pad_to n v = v ++ replicate (n - length v) 0

pub length-pad_to : (n : ℕ) (v : Bytes) → length v ≤ n → length (pad_to n v) ≡ n
length-pad_to n v h =
    omega (
      arith,
      length-append v (replicate (n - length v) 0),
      length-replicate {A = ℕ} (n - length v) 0,
    )

-- Writing into free space.
fill-free :
    (pending v : Bytes) (n u : ℕ)
    → length v ≤ n
    → n ≤ u
    → memcpy (pending ++ replicate u 0) (length pending) v (length v)
      ≡ (pending ++ pad_to n v) ++ replicate (u - n) 0
fill-free pending v n u h k =
    memcpy-append pending (replicate u 0) v (length v)
    ∙ ap₂ (λ a b. pending ++ (a ++ b)) (take_all (length v) v (omega arith)) zeros
    ∙ ap (λ t. pending ++ t)
        (sym (append_assoc v (replicate (n - length v) 0) (replicate (u - n) 0)))
    ∙ sym (append_assoc pending (pad_to n v) (replicate (u - n) 0))
  where
    zeros :
        drop (length v) (replicate {A = ℕ} u 0) ≡ replicate (n - length v) 0 ++ replicate (u - n) 0
    zeros =
        drop-replicate (length v) u
        ∙ ap (λ a. replicate {A = ℕ} a 0) {x = u - length v} {y = (n - length v) + (u - n)}
            (omega arith)
        ∙ replicate-add (n - length v) (u - n)

-- The bytes put behind the pending ones, with free bytes up to a whole number of blocks.
pub fill-Streams :
    {ch : Channel} {s : Bytes} (v : Bytes) (n : ℕ)
    → Streams ch s
    → length v ≤ n
    → n ≤ ch.buf.unused
    → n % block_size ≡ 0
    → Streams
        (fill
          (record ch { buf = record ch.buf { unused = ch.buf.unused - n } })
          (ch.buf.size - ch.buf.unused)
          v)
        (s ++ pad_to n v)
unfolding fill
fill-Streams {ch} {s} v n h fits room blocks = record {
  pending = h.pending ++ pad_to n v;
  stream_eq = ap (λ t. t ++ pad_to n v) h.stream_eq ∙ append_assoc ch.output h.pending (pad_to n v);
  layout =
      ap₂ (λ b o. memcpy b o v (length v)) h.layout (omega (arith, h.size_eq))
      ∙ fill-free h.pending v n ch.buf.unused fits room;
  size_eq = omega (arith, h.size_eq, length-append h.pending (pad_to n v), length-pad_to n v fits);
  open_fd = h.open_fd;
  size_pos = h.size_pos;
  size_small = h.size_small;
  size_blocks = h.size_blocks;
  unused_blocks = omega (arith, h.unused_blocks);
  reliable = h.reliable;
}

-- Taking a block that fits gives the place behind the pending bytes, and filling it sends the bytes
-- and the block's padding.
pub take_block-Streams :
    {ch : Channel} {s : Bytes} (v : Bytes) (n : ℕ)
    → Streams ch s
    → length v ≤ n
    → n ≤ ch.buf.unused
    → n % block_size ≡ 0
    → (b : Block) × (ch' : Channel) × (take_block ch n ≡ (ok (some b), ch'))
      × (b.given ≡ n)
      × Streams (fill ch' b.offset v) (s ++ pad_to n v)
unfolding take_block
take_block-Streams {ch} {s} v n h fits room blocks = (
  record { offset = ch.buf.size - ch.buf.unused; given = n },
  record ch { buf = record ch.buf { unused = ch.buf.unused - n } },
  ground arith,
  refl,
  fill-Streams v n h fits room blocks,
)

-- A flush of a full buffer leaves the stream as it was.
emptied-Streams :
    {ch : Channel} {s : Bytes} (answers : List Answer)
    → Streams ch s
    → ch.buf.unused ≡ 0
    → IsReliable answers
    → Streams (emptied ch answers) s
emptied-Streams {ch} {s} answers h e reliable = record {
  pending = [];
  stream_eq =
      h.stream_eq
      ∙ ap (λ t. ch.output ++ t)
          (sym (h.layout ∙ ap (λ u. h.pending ++ replicate u 0) e ∙ append-nil h.pending))
      ∙ sym (append-nil (ch.output ++ ch.buf.bytes));
  layout = refl;
  size_eq = omega arith;
  open_fd = h.open_fd;
  size_pos = h.size_pos;
  size_small = h.size_small;
  size_blocks = h.size_blocks;
  unused_blocks = h.size_blocks;
  reliable = reliable;
}

-- So it does in the code: a full buffer on a reliable descriptor is flushed, and the stream stays.
pub flush-Streams :
    {ch : Channel} {s : Bytes}
    → Streams ch s
    → ch.buf.unused ≡ 0
    → (ret : ℕ) × (answers : List Answer) × (flush ch ≡ (ok ret, emptied ch answers))
      × Streams (emptied ch answers) s
flush-Streams {ch} h e =
    let bytes_len : length ch.buf.bytes ≡ ch.buf.size =
      ap length h.layout
      ∙ omega (
        arith,
        h.size_eq,
        length-append h.pending (replicate ch.buf.unused 0),
        length-replicate {A = ℕ} ch.buf.unused 0,
      ) in
    let (ret, answers, f, r) =
      flush-IsReliable ch h.open_fd (omega (arith, h.size_pos)) (sym bytes_len) h.reliable in
    (ret, answers, f, emptied-Streams answers h e r)

pub get_block-full :
    (ch ch' : Channel) (ret : ℕ)
    → ch.buf.fd ≢ 0
    → ch.buf.unused ≡ 0
    → flush ch ≡ (ok ret, ch')
    → get_block ch block_size ≡ take_block ch' block_size
unfolding get_block full padded_size
get_block-full ch ch' ret open_fd e f = ground arith

pub get_block-room :
    (ch : Channel)
    → ch.buf.fd ≢ 0
    → ch.buf.unused ≢ 0
    → get_block ch block_size ≡ take_block ch block_size
unfolding get_block full padded_size
get_block-room ch open_fd e = ground arith

-- On a channel whose stream is `s`, a block of 512 bytes is given, by a flush if the buffer is full, and
-- filling it with at most 512 bytes sends these, padded with zeros to the block.
pub get_block-Streams :
    {ch : Channel} {s : Bytes} (v : Bytes)
    → Streams ch s
    → length v ≤ block_size
    → (b : Block) × (ch' : Channel) × (get_block ch block_size ≡ (ok (some b), ch'))
      × (b.given ≡ block_size)
      × Streams (fill ch' b.offset v) (s ++ pad_to block_size v)
get_block-Streams {ch} {s} v h fits = elim (ℕ_discrete ch.buf.unused 0) [
  | yes e ↦
      let (ret, answers, f, streams) = flush-Streams h e in
      let (b, ch', t, g, k) =
        take_block-Streams {ch = emptied ch answers} v block_size streams fits
          (omega (arith, h.size_pos, h.size_blocks)) refl in
      (b, ch', get_block-full ch (emptied ch answers) ret h.open_fd e f ∙ t, g, k)
  | no e ↦
      let (b, ch', t, g, k) =
        take_block-Streams v block_size h fits (omega (arith, h.unused_blocks)) refl in
      (b, ch', get_block-room ch h.open_fd e ∙ t, g, k)
]

factor_size_lem :
    (factor : ℕ)
    → factor < 2 ^ 50
    → (0 < factor_size factor)
      × (factor_size factor < 2 ^ 62)
      × (factor_size factor % block_size ≡ 0)
unfolding factor_size
factor_size_lem factor h = ground arith

-- A new buffer of a factor below 2^50, with an open and reliable descriptor, starts an empty stream.
pub new-Streams :
    (factor fd : ℕ) (answers : List Answer)
    → fd ≢ 0
    → factor < 2 ^ 50
    → IsReliable answers
    → (buf : Buffer) × (new true factor ≡ some buf)
      × Streams (record { buf = record buf { fd = fd }; output = []; answers = answers }) []
unfolding new
new-Streams factor fd answers open_fd small reliable =
    let (pos, max, blocks) = factor_size_lem factor small in
    (
      _,
      refl,
      record {
        pending = [];
        stream_eq = refl;
        layout = refl;
        size_eq = omega arith;
        open_fd = open_fd;
        size_pos = pos;
        size_small = max;
        size_blocks = blocks;
        unused_blocks = blocks;
        reliable = reliable;
      },
    )
