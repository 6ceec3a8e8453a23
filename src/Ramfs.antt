-- ===== src/Ramfs.antt =====
-- kernel/fs/ramfs.c: the state of the RAM filesystem, and its inodes and blocks. The bytes of the
-- RAM disk are a map from offsets; the inode table, which stands in its blocks 1 to 8, is a map from
-- inode numbers. The filesystem has been formatted.
pub mod Files
pub mod Dirs
pub mod Paths
pub mod Owned
pub mod Content
pub mod Chunk
pub mod Write
pub mod WriteFile
pub mod Read
pub mod ReadBack
pub mod Release
pub mod Inodes
pub mod Drop
pub mod Truncate
pub mod Create
pub mod CreateFile
pub mod Entries
pub mod Search
pub mod Listing
pub mod Edits
pub mod Directory
pub mod Names
pub mod AddName
pub mod NameMap
pub mod Format
pub mod Marks
pub mod Sound
mod Tests
use chanux.Common.{
  ℕ, zero, suc, ◌+◌, ◌-◌, ◌*◌, ◌/◌, ◌%◌, Bool, true, false, not, ◌&&◌, ◌||◌, ◌==◌, ltb, leb,
  if◌then◌else◌, Option, none, some, update, add32, sub32, add64, u64_mod,
}
use chanux.Bitmap.{Bitmap, bitmap_test, bitmap_set, bitmap_clear, find_free}
use chanux.Memory.{Mem}

abbrev pub max_files : ℕ
max_files = 256

abbrev pub block_size : ℕ
block_size = 4096

abbrev pub max_blocks : ℕ
max_blocks = 1024

abbrev pub direct_blocks : ℕ
direct_blocks = 12

abbrev pub data_start : ℕ
data_start = 9

abbrev pub root_inode : ℕ
root_inode = 0

abbrev pub type_free : ℕ
type_free = 0

abbrev pub type_file : ℕ
type_file = 1

abbrev pub type_dir : ℕ
type_dir = 2

-- `ramfs_inode_t`, less `uid`, `gid` and `indirect`, which are cleared and stay 0.
pub record Inode : Type 0 where
  pub type : ℕ
  pub permissions : ℕ
  pub size : ℕ
  pub created : ℕ
  pub modified : ℕ
  pub accessed : ℕ
  pub link_count : ℕ
  pub block_count : ℕ
  pub blocks : ℕ → ℕ
  pub parent : ℕ

-- The RAM disk, the counters and bitmaps of the superblock, the inode table, and the time that
-- `pit_get_ticks` reads.
pub record Ramfs : Type 0 where
  pub disk : Mem
  pub disk_blocks : ℕ
  pub free_blocks : ℕ
  pub free_inodes : ℕ
  pub block_bitmap : Bitmap
  pub inode_bitmap : Bitmap
  pub inodes : ℕ → Inode
  pub ticks : ℕ

-- A cleared inode.
abbrev pub no_inode : Inode
no_inode = record {
  type = 0;
  permissions = 0;
  size = 0;
  created = 0;
  modified = 0;
  accessed = 0;
  link_count = 0;
  block_count = 0;
  blocks = λ i. 0;
  parent = 0;
}

abbrev pub set_inode : Ramfs → ℕ → Inode → Ramfs
set_inode s i node = record s { inodes = update s.inodes i node }

-- `n` bytes from `src` on at an address: `memcpy` from another buffer.
unfoldable pub write_bytes : Mem → ℕ → (ℕ → ℕ) → ℕ → Mem
write_bytes disk at src n a = if leb at a && ltb a (at + n) then src (a - at) else disk a

abbrev pub clear_bytes : Mem → ℕ → ℕ → Mem
clear_bytes disk at n = write_bytes disk at (λ i. 0) n

-- Where the block begins; `NULL` beyond the disk.
abbrev pub get_block_ptr : Ramfs → ℕ → Option ℕ
get_block_ptr s b = if leb s.disk_blocks b then none else some (b * block_size)

unfoldable pub read_block : Ramfs → ℕ → Option (ℕ → ℕ)
read_block s b = if leb s.disk_blocks b then none else some (λ i. s.disk (b * block_size + i))

unfoldable pub write_block : Ramfs → ℕ → (ℕ → ℕ) → Option Ramfs
write_block s b src =
    if leb s.disk_blocks b
    then none
    else some (record s { disk = write_bytes s.disk (b * block_size) src block_size })

-- `INODE_PERM_DEFAULT_DIR` and `INODE_PERM_DEFAULT_FILE`
abbrev pub default_permissions : ℕ → ℕ
default_permissions type = if type == type_dir then 7 else 6

unfoldable pub new_inode : ℕ → ℕ → Inode
new_inode type ticks = record no_inode {
  type = type;
  permissions = default_permissions type;
  created = ticks;
  modified = ticks;
  accessed = ticks;
  link_count = 1;
}

-- `inode_num` of the new inode, if there is one. Each number below 256 has its place in the table.
unfoldable pub alloc_inode : Ramfs → ℕ → Option ℕ × Ramfs
unfolding new_inode
alloc_inode s type =
    let taken = λ (i : ℕ). record s {
      inode_bitmap = bitmap_set s.inode_bitmap i;
      free_inodes = sub32 s.free_inodes 1;
      inodes = update s.inodes i (new_inode type s.ticks);
    } in
    if s.free_inodes == 0 then (none, s) else elim (find_free s.inode_bitmap max_files 0) [
      | none ↦ (none, s)
      | some i ↦ (some i, taken i)
    ]

unfoldable pub alloc_block : Ramfs → Option ℕ × Ramfs
alloc_block s =
    let taken = λ (b : ℕ). record s {
      block_bitmap = bitmap_set s.block_bitmap b;
      free_blocks = sub32 s.free_blocks 1;
      disk = clear_bytes s.disk (b * block_size) block_size;
    } in
    if s.free_blocks == 0
    then (none, s)
    else elim (find_free s.block_bitmap (s.disk_blocks - data_start) data_start) [
      | none ↦ (none, s)
      | some b ↦ (some b, taken b)
    ]

unfoldable pub free_block : Ramfs → ℕ → Ramfs
free_block s b =
    if ltb b data_start || leb s.disk_blocks b
    then s
    else if not (bitmap_test s.block_bitmap b)
    then s
    else record s {
      block_bitmap = bitmap_clear s.block_bitmap b;
      free_blocks = add32 s.free_blocks 1;
    }

-- The loop of `ramfs_free_inode` over `n` block pointers from `i` on.
unfoldable pub free_blocks_from : Ramfs → (ℕ → ℕ) → ℕ → ℕ → Ramfs
free_blocks_from s blocks zero i = s
free_blocks_from s blocks (suc n) i =
    let s' = if blocks i == 0 then s else free_block s (blocks i) in
    free_blocks_from s' blocks n (i + 1)

unfoldable pub free_inode : Ramfs → ℕ → Ramfs
free_inode s i =
    let s' = free_blocks_from s (s.inodes i).blocks direct_blocks 0 in
    if leb max_files i
    then s
    else if i == root_inode
    then s
    else if (s.inodes i).type == type_free
    then s
    else record s' {
      inodes = update s'.inodes i no_inode;
      inode_bitmap = bitmap_clear s'.inode_bitmap i;
      free_inodes = add32 s'.free_inodes 1;
    }

-- The bits of the first `n` blocks from `i` on, set.
unfoldable pub mark_used : Bitmap → ℕ → ℕ → Bitmap
mark_used bm zero i = bm
mark_used bm (suc n) i = mark_used (bitmap_set bm i) n (i + 1)

-- `ramfs_format` on a RAM disk of at least 9 blocks, with a clear superblock. The constants and times
-- that it also puts into the superblock are never read.
unfoldable pub format : Mem → ℕ → (ℕ → Inode) → ℕ → Ramfs
unfolding new_inode mark_used
format disk disk_blocks inodes ticks =
    let root = record (new_inode type_dir ticks) { link_count = 2; parent = root_inode } in
    record {
      disk = disk;
      disk_blocks = disk_blocks;
      free_blocks = disk_blocks - data_start;
      free_inodes = max_files - 1;
      block_bitmap = mark_used (λ i. 0) data_start 0;
      inode_bitmap = bitmap_set (λ i. 0) root_inode;
      inodes = update inodes root_inode root;
      ticks = ticks;
    }
