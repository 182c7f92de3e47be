-- ===== src/Buffer/Room.antt =====
-- A block of the buffer, with what stands in it when it is given.
use archive_tar_builder.Prelude.{
  ltb, take, false, ℕ, zero, suc, ◌-◌, ◌≤◌, ◌≡◌, refl, ap, ap₂, ◌∙◌, some, ◌∷◌, arith, Bytes, drop,
  replicate, drop-append_self,
}
use native.Mathlib.Decide.{ℕ_discrete}
use archive_tar_builder.Buffer.{block_size, ok, Channel, take_block, get_block}
use archive_tar_builder.Buffer.Flush.{emptied}
use archive_tar_builder.Buffer.Stream.{Streams, flush-Streams, get_block-full, get_block-room}

-- The channel from which a block of 512 bytes is given: its buffer has room for it, and is not full.
pub get_block-room_made :
    {ch : Channel} {s : Bytes}
    → Streams ch s
    → (ch' : Channel) × (get_block ch block_size ≡ (
      ok (some (record { offset = ch'.buf.size - ch'.buf.unused; given = block_size })),
      record ch' { buf = record ch'.buf { unused = ch'.buf.unused - block_size } },
    ))
      × Streams ch' s
      × (block_size ≤ ch'.buf.unused)
      × (ch'.buf.can_splice ≡ ch.buf.can_splice)
unfolding take_block
get_block-room_made {ch} {s} h = elim (ℕ_discrete ch.buf.unused 0) [
  | yes e ↦
      let (ret, answers, f, streams) = flush-Streams h e in
      let room : block_size ≤ ch.buf.size = omega (arith, h.size_pos, h.size_blocks) in
      let fits : ltb ch.buf.size block_size ≡ false = ground arith in
      (
        emptied ch answers,
        get_block-full ch (emptied ch answers) ret h.open_fd e f ∙ rw fits refl,
        streams,
        room,
        refl,
      )
  | no e ↦
      let room : block_size ≤ ch.buf.unused = omega (arith, h.unused_blocks) in
      let fits : ltb ch.buf.unused block_size ≡ false = ground arith in
      (ch, get_block-room ch h.open_fd e ∙ rw fits refl, h, room, refl)
]

take-replicate : (n m : ℕ) → n ≤ m → take n (replicate {A = ℕ} m 0) ≡ replicate n 0
take-replicate zero m h = refl
take-replicate (suc n) zero h = absurd (omega arith)
take-replicate (suc n) (suc m) h = ap (λ t. 0 ∷ t) (take-replicate n m (omega arith))

-- A block that is given is zero.
pub Streams-zeros :
    {ch : Channel} {s : Bytes} (n : ℕ)
    → Streams ch s
    → n ≤ ch.buf.unused
    → take n (drop (ch.buf.size - ch.buf.unused) ch.buf.bytes) ≡ replicate n 0
Streams-zeros {ch} n h fits =
    ap₂ (λ o b. take n (drop o b)) {x = ch.buf.size - ch.buf.unused} (omega (arith, h.size_eq))
      h.layout
    ∙ ap (take n) (drop-append_self h.pending (replicate ch.buf.unused 0))
    ∙ take-replicate n ch.buf.unused fits
