-- ===== src/Header/Layout.antt =====
-- b_header.h: the header of a member, and the header block as it lies in memory.
use archive_tar_builder.Prelude.{ℕ, Bool, Option, [], ◌∷◌, ◌++◌, Bytes, take, drop}

pub record Header : Type 0 where
  pub suffix : Option Bytes
  pub mode : ℕ
  pub uid : ℕ
  pub gid : ℕ
  pub size : ℕ
  pub mtime : ℕ
  pub linktype : ℕ
  pub linkdest : Option Bytes
  pub user : Option Bytes
  pub group : Option Bytes
  pub major : ℕ
  pub minor : ℕ
  pub prefix : Option Bytes
  pub truncated : Bool
  pub truncated_link : Bool

pub record HeaderBlock : Type 0 where
  pub suffix : Bytes
  pub mode : Bytes
  pub uid : Bytes
  pub gid : Bytes
  pub size : Bytes
  pub mtime : Bytes
  pub checksum : Bytes
  pub linktype : ℕ
  pub linkdest : Bytes
  pub magic : Bytes
  pub user : Bytes
  pub group : Bytes
  pub major : Bytes
  pub minor : Bytes
  pub prefix : Bytes
  pub padding : Bytes

-- The block's fields behind one another.
unfoldable pub block_bytes : HeaderBlock → Bytes
block_bytes b =
    b.suffix
    ++ (b.mode
        ++ (b.uid
            ++ (b.gid
                ++ (b.size
                    ++ (b.mtime
                        ++ (b.checksum
                            ++ (b.linktype
                                ∷ (b.linkdest
                                    ++ (b.magic
                                        ++ (b.user
                                            ++ (b.group
                                                ++ (b.major
                                                    ++ (b.minor
                                                        ++ (b.prefix ++ b.padding))))))))))))))

-- The first byte of the rest of a block
abbrev pub byte_at : Bytes → ℕ
byte_at [] = 0
byte_at (c ∷ s) = c

-- 512 bytes of memory as a block: each field is cut off what is left.
unfoldable pub block_of : Bytes → HeaderBlock
block_of s =
    let s1 = drop 100 s in
    let s2 = drop 8 s1 in
    let s3 = drop 8 s2 in
    let s4 = drop 8 s3 in
    let s5 = drop 12 s4 in
    let s6 = drop 12 s5 in
    let s7 = drop 8 s6 in
    let s8 = drop 1 s7 in
    let s9 = drop 100 s8 in
    let s10 = drop 8 s9 in
    let s11 = drop 32 s10 in
    let s12 = drop 32 s11 in
    let s13 = drop 8 s12 in
    let s14 = drop 8 s13 in
    let s15 = drop 155 s14 in
    record {
      suffix = take 100 s;
      mode = take 8 s1;
      uid = take 8 s2;
      gid = take 8 s3;
      size = take 12 s4;
      mtime = take 12 s5;
      checksum = take 8 s6;
      linktype = byte_at s7;
      linkdest = take 100 s8;
      magic = take 8 s9;
      user = take 32 s10;
      group = take 32 s11;
      major = take 8 s12;
      minor = take 8 s13;
      prefix = take 155 s14;
      padding = take 12 s15;
    }
