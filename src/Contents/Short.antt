-- ===== src/Contents/Short.antt =====
-- b_file_write_contents() for a file that is shorter than its size.
use archive_tar_builder.Prelude.{Option, ℕ, ◌+◌, ◌%◌, ◌≡◌, ◌++◌, [], Bytes, length, replicate}
use archive_tar_builder.Buffer.{block_size, Errno, err, Channel}
use archive_tar_builder.Buffer.Stream.{Streams}
use archive_tar_builder.Contents.{io_errno, File, Ending, returned}
use archive_tar_builder.Contents.Chunk.{Kept}

-- The transfer fails: `errno` is what it was before, or EINTR, and `sent` is behind the stream `s`, with
-- zeros to whole blocks.
record Fails (ending : Ending) (s sent : Bytes) (before : Option Errno) : Type 0 where
  ch : Channel
  file : File
  zeros : ℕ
  returned_eq : ending ≡ returned (err (io_errno file.errno)) ch file
  kept : Kept before file.errno
  streams : Streams ch (s ++ (sent ++ replicate zeros 0))
  content_eq : file.content ≡ []
  blocks : (length sent + zeros) % block_size ≡ 0
