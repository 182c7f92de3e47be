-- ===== src/Member.antt =====
-- b_builder.c: the header of a member, from its path and what lstat(2) says of it.
-- Stacks are the lists that they hold, the top last, and string objects their texts; every allocation
-- is granted. The sizes stay below the length of the path and cannot wrap.
pub mod Parts
pub mod Fits
use archive_tar_builder.Prelude.{
  ℕ, zero, suc, ◌+◌, ◌/◌, ◌%◌, Bool, true, false, Option, none, some, List, [], ◌∷◌, ◌++◌, reverse,
  ltb, leb, ◌==◌, ◌&&◌, ◌||◌, if◌then◌else◌, ◌>>=◌, Bytes, length,
}
use archive_tar_builder.Util.Texts.{join_bytes}
use archive_tar_builder.FilePath.{slash}
use archive_tar_builder.FilePath
use archive_tar_builder.Header.Layout.{Header}

-- What the source reads of a `struct stat`.
pub record Stat : Type 0 where
  pub mode : ℕ
  pub nlink : ℕ
  pub uid : ℕ
  pub gid : ℕ
  pub size : ℕ
  pub mtime : ℕ
  pub dev : ℕ
  pub ino : ℕ

-- `mode & S_IFMT`
unfoldable pub file_type : Stat → ℕ
file_type st = (st.mode / 0x1000) % 16

abbrev pub ififo : ℕ
ififo = 1

abbrev pub ifchr : ℕ
ifchr = 2

abbrev pub ifdir : ℕ
ifdir = 4

abbrev pub ifblk : ℕ
ifblk = 6

abbrev pub ifreg : ℕ
ifreg = 8

abbrev pub iflnk : ℕ
iflnk = 10

unfoldable pub inode_linktype : Stat → ℕ
unfolding file_type
inode_linktype st =
    let t = file_type st in
    if t == ifreg
    then b'0'
    else if t == ifdir
    then b'5'
    else if t == iflnk
    then b'2'
    else if t == ififo
    then b'6'
    else if t == ifchr
    then b'3'
    else if t == ifblk
    then b'4'
    else b'0'

-- The variables of path_split()
pub record Split : Type 0 where
  pub prefix_items : List Bytes
  pub suffix_items : List Bytes
  pub prefix_size : ℕ
  pub suffix_size : ℕ
  pub add_to_prefix : Bool

-- `if (size) size++; size += len;`
unfoldable pub grow : ℕ → ℕ → ℕ
grow size len = (if size == 0 then size else size + 1) + len

-- The two tests that send an item, and all before it, to the prefix.
unfoldable pub leaves_suffix : Bool → Split → Bytes → Bool
leaves_suffix is_dir s item =
    s.add_to_prefix
    || (ltb 0 s.suffix_size && leb 100 (s.suffix_size + length item))
    || (is_dir && leb 100 (s.suffix_size + length item + 1))

-- The body of the loop
unfoldable pub split_item : Bool → Split → Bytes → Split
unfolding leaves_suffix grow
split_item is_dir s item =
    if leaves_suffix is_dir s item
    then record s {
      prefix_items = s.prefix_items ++ item ∷ [];
      prefix_size = grow s.prefix_size (length item);
      add_to_prefix = true;
    }
    else record s {
      suffix_items = s.suffix_items ++ item ∷ [];
      suffix_size = grow s.suffix_size (length item);
      add_to_prefix = false;
    }

-- The loop, over the parts in the order in which they are popped.
unfoldable pub split_items : Bool → Split → List Bytes → Split
unfolding split_item
split_items is_dir s [] = s
split_items is_dir s (item ∷ items) = split_items is_dir (split_item is_dir s item) items

abbrev pub no_split : Split
no_split = record {
  prefix_items = [];
  suffix_items = [];
  prefix_size = 0;
  suffix_size = 0;
  add_to_prefix = false;
}

-- struct path_data
pub record PathData : Type 0 where
  pub prefix : Bytes
  pub suffix : Bytes
  pub truncated : Bool

-- The leading empty part of an absolute path is shifted off.
unfoldable pub strip_leading : List Bytes → List Bytes
strip_leading [] = []
strip_leading (p ∷ parts) = if length p == 0 then parts else p ∷ parts

-- path_split() behind its loop
unfoldable pub assemble : Bool → Split → PathData
assemble is_dir s = record {
  prefix = join_bytes (slash ∷ []) (reverse s.prefix_items);
  suffix = join_bytes (slash ∷ []) (reverse s.suffix_items) ++ (if is_dir then slash ∷ [] else []);
  truncated = ltb 100 (s.suffix_size + (if is_dir then 1 else 0)) || ltb 155 s.prefix_size;
}

unfoldable pub path_split : Bytes → Stat → Option PathData
unfolding file_type strip_leading split_items assemble
path_split path st =
    let parts = FilePath.new path in
    let is_dir = file_type st == ifdir in
    if length parts == 0
    then none
    else some (assemble is_dir (split_items is_dir no_split (reverse (strip_leading parts))))

unfoldable pub is_hardlink : Stat → Bool
unfolding file_type
is_hardlink st = file_type st == ifreg && ltb 1 st.nlink

-- b_string_len(ret->linkdest) > B_HEADER_LINKDEST_SIZE
unfoldable pub is_long : Option Bytes → Bool
is_long none = false
is_long (some linkdest) = ltb 100 (length linkdest)

-- The header before its link: `device_major` and `device_minor` are the macros of the system.
unfoldable pub plain_header : (ℕ → ℕ) → (ℕ → ℕ) → PathData → Stat → Header
unfolding file_type inode_linktype
plain_header device_major device_minor path_data st = record {
  suffix = some path_data.suffix;
  mode = st.mode;
  uid = st.uid;
  gid = st.gid;
  size = if file_type st == ifreg then st.size else 0;
  mtime = st.mtime;
  linktype = inode_linktype st;
  linkdest = none;
  user = none;
  group = none;
  major = device_major st.dev;
  minor = device_minor st.dev;
  prefix = some path_data.prefix;
  truncated = path_data.truncated;
  truncated_link = false;
}

-- The builder's service for hard links: asked about a device and an inode, for the member at hand.
abbrev pub HardlinkLookup : Type 0
HardlinkLookup = ℕ → ℕ → Option Bytes

unfoldable pub hard_link : Header → Stat → Option HardlinkLookup → Header
hard_link header st none = header
hard_link header st (some lookup) = elim (lookup st.dev st.ino) [
  | none ↦ header
  | some linkdest ↦ record header { linktype = b'1'; linkdest = some linkdest }
]

-- The link of a header: `link` is what b_readlink() returns, and NULL is an error.
unfoldable pub add_link : Header → Stat → Option Bytes → Option HardlinkLookup → Option Header
unfolding file_type is_hardlink hard_link
add_link header st link lookup =
    if file_type st == iflnk
    then (link >>= λ l. some (record header { linkdest = some l }))
    else some (if is_hardlink st then hard_link header st lookup else header)

unfoldable pub mark_long : Header → Header
unfolding is_long
mark_long header = record header { truncated_link = is_long header.linkdest }

unfoldable pub header_for_file :
    (ℕ → ℕ) → (ℕ → ℕ) → Option HardlinkLookup → Option Bytes → Bytes → Stat → Option Header
header_for_file device_major device_minor lookup link member_name st = do
  path_data ← path_split member_name st
  header ← add_link (plain_header device_major device_minor path_data st) st link lookup
  some (mark_long header)
