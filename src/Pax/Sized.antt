-- ===== src/Pax/Sized.antt =====
-- The block of a pax header keeps its 512 bytes.
use archive_tar_builder.Prelude.{ℕ, refl, Bool, arith, Bytes, replicate}
use archive_tar_builder.Header.Layout.{Header, HeaderBlock}
use archive_tar_builder.Header.Encode.{encode_block}
use archive_tar_builder.Header.Readback.{IsSized}
use archive_tar_builder.Header.Sized.{printed, encode_checksum-IsSized, encode_block-IsSized}
use archive_tar_builder.Pax.{encode_pax_block}

-- b_header_encode_pax_block() keeps the size of every field.
pub encode_pax_block-IsSized :
    (big : Bool) (b : HeaderBlock) (header : Header) (path : Bytes) (pid : ℕ)
    → IsSized b
    → IsSized (encode_pax_block big b header path pid)
unfolding encode_pax_block
encode_pax_block-IsSized big block header path pid sized =
    let b = encode_block big block header in
    let h = encode_block-IsSized big block header sized in
    encode_checksum-IsSized _ (record {
      suffix_len = h.suffix_len;
      mode_len = h.mode_len;
      uid_len = h.uid_len;
      gid_len = h.gid_len;
      size_len = printed b.size 12 _ (omega arith) h.size_len;
      mtime_len = h.mtime_len;
      checksum_len = h.checksum_len;
      linkdest_len = h.linkdest_len;
      magic_len = h.magic_len;
      user_len = h.user_len;
      group_len = h.group_len;
      major_len = h.major_len;
      minor_len = h.minor_len;
      prefix_len = printed (replicate 155 0) 155 _ (omega arith) refl;
      padding_len = h.padding_len;
    })
