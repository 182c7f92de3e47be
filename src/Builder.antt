-- ===== src/Builder.antt =====
-- b_builder.c: the builder, and what b_builder_write_file() works with.
-- Allocations are granted. The services for users and hard links keep what they like behind their
-- context; the builder sees what they answer for the member at hand.
pub mod Long
pub mod Write
pub mod Options
pub mod Stream
pub mod LongNames
pub mod Sends
use archive_tar_builder.Prelude.{
  ℕ, zero, suc, ◌+◌, ◌/◌, ◌%◌, Bool, true, false, not, ◌&&◌, ◌||◌, Option, none, some, List, [],
  ◌∷◌, ◌++◌, ◌==◌, if◌then◌else◌, ◌>>=◌, ◌>>◌, allocate, Bytes, length, take, drop, codes, add64,
}
use archive_tar_builder.Buffer.{
  block_size, default_factor, Errno, einval, ebadf, efbig, system, Result, ok, err, Buffer, Block,
  Channel, Answer, get_block, fill,
}
use archive_tar_builder.Buffer
use archive_tar_builder.Errors.{ℤ, pos, ErrorType, warn_type, fatal_type, Error}
use archive_tar_builder.Errors
use archive_tar_builder.Matching.{LafeMatching}
use archive_tar_builder.Header.Layout.{Header, HeaderBlock, block_bytes, block_of}
use archive_tar_builder.Header.Encode.{encode_block, encode_longlink_block, set_usernames}
use archive_tar_builder.Member.{Stat, file_type, ifdir, HardlinkLookup, header_for_file}
use archive_tar_builder.FilePath.{slash}
use archive_tar_builder.PathBlocks.{write_path_blocks}
use archive_tar_builder.Pax.{encode_pax_block, write_pax_path_blocks}
use archive_tar_builder.Contents.{File, Ending, returned, out_of_fuel, write_contents}

-- b_user_lookup: the names of an owner and of a group; `none` is an error.
abbrev pub UserLookup : Type 0
UserLookup = ℕ → ℕ → Option (Option Bytes × Option Bytes)

-- The buffer with its descriptor is the channel. `caller_data` is a pointer of the caller.
pub record Builder : Type 0 where
  pub ch : Channel
  pub err : Error
  pub total : ℕ
  pub matching : Option LafeMatching
  pub options : ℕ
  pub user_lookup : Option UserLookup
  pub hardlink_lookup : Option (Bytes → HardlinkLookup)
  pub caller_data : ℕ

-- enum b_builder_options
abbrev pub no_options : ℕ
no_options = 0

abbrev pub gnu_extensions : ℕ
gnu_extensions = 16

abbrev pub pax_extensions : ℕ
pax_extensions = 32

-- `options & flag`, for a flag of one bit
unfoldable pub has_option : ℕ → ℕ → Bool
has_option options flag = (options / flag) % 2 == 1

-- What the system says while a member is written: the macros for device numbers, the byte order,
-- getpid(2), what b_readlink() returns, and `errno` where the header or the users cannot be had.
pub record System : Type 0 where
  pub device_major : ℕ → ℕ
  pub device_minor : ℕ → ℕ
  pub big_endian : Bool
  pub pid : ℕ
  pub link : Option Bytes
  pub header_errno : ℕ
  pub lookup_errno : ℕ

-- b_builder_new(); the arguments answer the allocations of the builder, the buffer and the error. What
-- will happen at the descriptor stands in `answers`.
unfoldable pub new : Bool → Bool → Bool → ℕ → List Answer → Option Builder
new granted granted_buffer granted_error block_factor answers = do
  allocate granted
  buf ← Buffer.new granted_buffer (if block_factor == 0 then default_factor else block_factor)
  error ← Errors.new granted_error
  some (record {
    ch = record { buf = buf; output = []; answers = answers };
    err = error;
    total = 0;
    matching = none;
    options = no_options;
    user_lookup = none;
    hardlink_lookup = none;
    caller_data = 0;
  })

-- The number of an `errno`
unfoldable pub errno_number : Errno → ℤ
errno_number einval = pos 22
errno_number ebadf = pos 9
errno_number efbig = pos 27
errno_number (system e) = pos e

-- b_error_set() on the builder's error
unfoldable pub report : Builder → ErrorType → ℤ → Bytes → Bytes → Builder
report b type errno message path = record b {
  err = (Errors.set true true b.err type errno message path).0;
}

-- A header block that is encoded where it stands in the buffer
unfoldable pub encode_at : Channel → ℕ → (HeaderBlock → HeaderBlock) → Channel
encode_at ch offset encode =
    fill ch offset (block_bytes (encode (block_of (take block_size (drop offset ch.buf.bytes)))))
