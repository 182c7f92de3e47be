-- ===== src/Tests/Blocks.antt =====
-- Channels at concrete inputs.
use archive_tar_builder.Prelude.{
  Bytes, length, ℕ, ◌*◌, ◌≡◌, refl, false, some, List, [], ◌∷◌, ◌++◌, arith, replicate,
}
use archive_tar_builder.Buffer.{
  block_size, ok, Answer, wrote, interrupted, Channel, Block, flush, get_block, fill,
}
use archive_tar_builder.Buffer.Flush.{IsReliable, emptied, flush-IsReliable, flush-lost}
use archive_tar_builder.Buffer.Stream.{Streams, pad_to, get_block-Streams}
use archive_tar_builder.PathBlocks.{rounds, write_path_blocks, write_path_blocks-Streams}
use archive_tar_builder.Pax.{
  write_pax_path_blocks, compute_pax_length, pax_rounds, pax_line, int_text, decimal,
  decimal_digits, path_name,
}
use archive_tar_builder.Pax.Blocks.{pax_records, write_pax_path_blocks-Streams}

-- A buffer of one block, which is full, on descriptor 3.
abbrev pub full_channel : List Answer → Channel
full_channel answers = record {
  buf = record { fd = 3; can_splice = false; size = 512; unused = 0; bytes = replicate 512 7 };
  output = 1 ∷ [];
  answers = answers;
}

-- 100 bytes, a signal, and then the rest
abbrev pub partial_writes : List Answer
partial_writes = wrote 100 ∷ interrupted ∷ []

partial_writes-IsReliable : IsReliable partial_writes
partial_writes-IsReliable = (omega arith, tt)

flush-IsReliable_example :
    (ret : ℕ) × (answers : List Answer) × (flush (full_channel partial_writes)
      ≡ (ok ret, emptied (full_channel partial_writes) answers))
    × IsReliable answers
flush-IsReliable_example =
    flush-IsReliable (full_channel partial_writes) (omega arith) (omega arith) refl
      partial_writes-IsReliable

-- Of 512 bytes, 100 are taken before write(2) takes nothing.
flush-lost_example : flush (full_channel (wrote 100 ∷ interrupted ∷ wrote 0 ∷ [])) ≡ (
  ok 0,
  record {
    buf = record (full_channel []).buf { bytes = replicate 512 0; unused = 512 };
    output = 1 ∷ replicate 100 7;
    answers = [];
  },
)
flush-lost_example =
    flush-lost (full_channel (wrote 100 ∷ interrupted ∷ wrote 0 ∷ [])) partial_writes []
      (omega arith) (omega arith) partial_writes-IsReliable (omega arith) refl

pub full-Streams : Streams (full_channel partial_writes) (1 ∷ replicate 512 7)
full-Streams = record {
  pending = replicate 512 7;
  stream_eq = refl;
  layout = refl;
  size_eq = refl;
  open_fd = omega arith;
  size_pos = omega arith;
  size_small = omega arith;
  size_blocks = refl;
  unused_blocks = refl;
  reliable = partial_writes-IsReliable;
}

get_block-Streams_example :
    (b : Block) × (ch' : Channel) × (get_block (full_channel partial_writes) block_size
      ≡ (ok (some b), ch'))
    × (b.given ≡ block_size)
    × Streams (fill ch' b.offset (5 ∷ [])) ((1 ∷ replicate 512 7) ++ pad_to block_size (5 ∷ []))
get_block-Streams_example = get_block-Streams (5 ∷ []) full-Streams (omega arith)

write_path_blocks-Streams_example :
    (ch' : Channel) × (write_path_blocks (full_channel partial_writes) (4 ∷ 5 ∷ [])
      ≡ (ok (rounds 2 * block_size), ch'))
    × Streams ch' ((1 ∷ replicate 512 7) ++ pad_to (rounds 2 * block_size) (4 ∷ 5 ∷ []))
write_path_blocks-Streams_example = write_path_blocks-Streams (4 ∷ 5 ∷ []) full-Streams

-- The records for "ab" with a link to "c"
abbrev two_records : Bytes
two_records = pax_records (b'a' ∷ b'b' ∷ []) (some (b'c' ∷ []))

write_pax_path_blocks-Streams_example :
    (ch' : Channel) × (write_pax_path_blocks
        (full_channel partial_writes)
        (b'a' ∷ b'b' ∷ [])
        (some (b'c' ∷ []))
      ≡ (ok (rounds (length two_records) * block_size), ch'))
    × Streams ch'
        ((1 ∷ replicate 512 7) ++ pad_to (rounds (length two_records) * block_size) two_records)
write_pax_path_blocks-Streams_example =
    write_pax_path_blocks-Streams (b'a' ∷ b'b' ∷ []) (some (b'c' ∷ [])) full-Streams (omega arith)
      (omega arith)

-- "11 path=ab" is ten bytes and a line feed.
compute_pax_length_ab : compute_pax_length (b'a' ∷ b'b' ∷ []) path_name ≡ 11
unfolding compute_pax_length pax_rounds pax_line int_text decimal decimal_digits
compute_pax_length_ab = refl
