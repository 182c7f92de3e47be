-- ===== src/Header/Readback.antt =====
-- A block read back from its bytes, and the checksum that a reader verifies.
use archive_tar_builder.Prelude.{
  ℕ, ◌≡◌, sym, ap, ◌∙◌, ◌∷◌, ◌++◌, arith, Bytes, length, take, drop, take-append_self,
  drop-append_self, take_all,
}
use archive_tar_builder.Header.Layout.{HeaderBlock, block_bytes, block_of, byte_at}

-- Every field has the length that b_header.h gives it.
pub record IsSized (b : HeaderBlock) : Type 0 where
  pub suffix_len : length b.suffix ≡ 100
  pub mode_len : length b.mode ≡ 8
  pub uid_len : length b.uid ≡ 8
  pub gid_len : length b.gid ≡ 8
  pub size_len : length b.size ≡ 12
  pub mtime_len : length b.mtime ≡ 12
  pub checksum_len : length b.checksum ≡ 8
  pub linkdest_len : length b.linkdest ≡ 100
  pub magic_len : length b.magic ≡ 8
  pub user_len : length b.user ≡ 32
  pub group_len : length b.group ≡ 32
  pub major_len : length b.major ≡ 8
  pub minor_len : length b.minor ≡ 8
  pub prefix_len : length b.prefix ≡ 155
  pub padding_len : length b.padding ≡ 12

take-field : {a : Bytes} {n : ℕ} (b : Bytes) → length a ≡ n → take n (a ++ b) ≡ a
take-field {a} b e = ap (λ k. take k (a ++ b)) (sym e) ∙ take-append_self a b

drop-field : (a : Bytes) {n : ℕ} (b : Bytes) → length a ≡ n → drop n (a ++ b) ≡ b
drop-field a b e = ap (λ k. drop k (a ++ b)) (sym e) ∙ drop-append_self a b

-- If each field has its size, cutting the bytes of a block at the fields' offsets gives the block.
pub block_of-block_bytes : (b : HeaderBlock) → IsSized b → block_of (block_bytes b) ≡ b
unfolding block_of block_bytes
block_of-block_bytes b h =
    let r15 = b.padding in
    let r14 = b.prefix ++ r15 in
    let r13 = b.minor ++ r14 in
    let r12 = b.major ++ r13 in
    let r11 = b.group ++ r12 in
    let r10 = b.user ++ r11 in
    let r9 = b.magic ++ r10 in
    let r8 = b.linkdest ++ r9 in
    let r7 = b.linktype ∷ r8 in
    let r6 = b.checksum ++ r7 in
    let r5 = b.mtime ++ r6 in
    let r4 = b.size ++ r5 in
    let r3 = b.gid ++ r4 in
    let r2 = b.uid ++ r3 in
    let r1 = b.mode ++ r2 in
    let d1 : drop 100 (b.suffix ++ r1) ≡ r1 = drop-field b.suffix r1 h.suffix_len in
    let d2 = ap (drop 8) d1 ∙ drop-field b.mode r2 h.mode_len in
    let d3 = ap (drop 8) d2 ∙ drop-field b.uid r3 h.uid_len in
    let d4 = ap (drop 8) d3 ∙ drop-field b.gid r4 h.gid_len in
    let d5 = ap (drop 12) d4 ∙ drop-field b.size r5 h.size_len in
    let d6 = ap (drop 12) d5 ∙ drop-field b.mtime r6 h.mtime_len in
    let d7 = ap (drop 8) d6 ∙ drop-field b.checksum r7 h.checksum_len in
    let d8 = ap (drop 1) d7 in
    let d9 = ap (drop 100) d8 ∙ drop-field b.linkdest r9 h.linkdest_len in
    let d10 = ap (drop 8) d9 ∙ drop-field b.magic r10 h.magic_len in
    let d11 = ap (drop 32) d10 ∙ drop-field b.user r11 h.user_len in
    let d12 = ap (drop 32) d11 ∙ drop-field b.group r12 h.group_len in
    let d13 = ap (drop 8) d12 ∙ drop-field b.major r13 h.major_len in
    let d14 = ap (drop 8) d13 ∙ drop-field b.minor r14 h.minor_len in
    let d15 = ap (drop 155) d14 ∙ drop-field b.prefix r15 h.prefix_len in
    λ i. record {
      suffix = take-field r1 h.suffix_len i;
      mode = (ap (take 8) d1 ∙ take-field r2 h.mode_len) i;
      uid = (ap (take 8) d2 ∙ take-field r3 h.uid_len) i;
      gid = (ap (take 8) d3 ∙ take-field r4 h.gid_len) i;
      size = (ap (take 12) d4 ∙ take-field r5 h.size_len) i;
      mtime = (ap (take 12) d5 ∙ take-field r6 h.mtime_len) i;
      checksum = (ap (take 8) d6 ∙ take-field r7 h.checksum_len) i;
      linktype = byte_at (d7 i);
      linkdest = (ap (take 100) d8 ∙ take-field r9 h.linkdest_len) i;
      magic = (ap (take 8) d9 ∙ take-field r10 h.magic_len) i;
      user = (ap (take 32) d10 ∙ take-field r11 h.user_len) i;
      group = (ap (take 32) d11 ∙ take-field r12 h.group_len) i;
      major = (ap (take 8) d12 ∙ take-field r13 h.major_len) i;
      minor = (ap (take 8) d13 ∙ take-field r14 h.minor_len) i;
      prefix = (ap (take 155) d14 ∙ take-field r15 h.prefix_len) i;
      padding = (ap (take 12) d15 ∙ take_all 12 b.padding (omega (arith, h.padding_len))) i;
    }
