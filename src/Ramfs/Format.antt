-- ===== src/Ramfs/Format.antt =====
-- `ramfs_format` of kernel/fs/ramfs.c leaves a filesystem that keeps its invariant.
use chanux.Common.{ℕ, zero, suc, ◌+◌, ◌%◌, ◌≤◌, ◌≡◌, refl, false, arith}
use chanux.Bitmap.{Bitmap, IsBytes, bitmap_test, bitmap_set, count_free}
use chanux.Bitmap.Bytes.{bit_test-empty}
use chanux.Bitmap.Laws.{test-set, bitmap_set-IsBytes}
use chanux.Bitmap.Count.{count_free-set}
use chanux.Memory.{Mem}
use chanux.Ramfs.{
  format, mark_used, no_inode, new_inode, data_start, max_blocks, max_files, root_inode,
}
use chanux.Ramfs.Owned.{IsFs, pointer}

abbrev empty : Bitmap
empty k = 0

empty_test : (i : ℕ) → bitmap_test empty i ≡ false
unfolding bitmap_test
empty_test i = bit_test-empty (i % 8) (omega arith)

empty_count : (n : ℕ) → count_free empty n ≡ n
unfolding count_free
empty_count zero = refl
empty_count (suc n) = ground (arith, empty_count n, empty_test n)

-- Marking `n` clear bits below `top`.
mark_used_lem :
    (n : ℕ) (bm : Bitmap) (i top : ℕ)
    → IsBytes bm
    → i + n ≤ top
    → ((j : ℕ) → i ≤ j → bitmap_test bm j ≡ false)
    → IsBytes (mark_used bm n i) × (count_free (mark_used bm n i) top + n ≡ count_free bm top)
unfolding mark_used
mark_used_lem zero bm i top v le clear = (v, omega arith)
mark_used_lem (suc n) bm i top v le clear =
    let ih =
      mark_used_lem n (bitmap_set bm i) (i + 1) top (bitmap_set-IsBytes bm v i) (omega arith)
        (λ j lt. ground (arith, test-set bm v i j, clear j)) in
    (ih.0, omega (arith, ih.1, count_free-set bm v i top (omega arith) (clear i (omega arith))))

-- format, on a disk of 9 blocks at least and 1024 at most with a clear inode table, leaves a
-- filesystem in which the counters count the clear bits and no block has two pointers.
pub format-IsFs :
    (disk : Mem) (disk_blocks ticks : ℕ)
    → data_start ≤ disk_blocks
    → disk_blocks ≤ max_blocks
    → IsFs (format disk disk_blocks (λ i. no_inode) ticks)
unfolding format new_inode
format-IsFs disk disk_blocks ticks least most =
    let bytes : IsBytes empty = λ k. omega arith in
    let blocks = mark_used_lem data_start empty 0 disk_blocks bytes least (λ j le. empty_test j) in
    let clear : (i k : ℕ) → pointer (format disk disk_blocks (λ i. no_inode) ticks) i k ≡ 0 =
      λ i k. ground arith in
    record {
      counted = record {
        block_bytes = blocks.0;
        inode_bytes = bitmap_set-IsBytes empty bytes root_inode;
        blocks = omega (arith, blocks.1, empty_count disk_blocks);
        inodes = omega (
          arith,
          count_free-set empty bytes root_inode max_files (omega arith) (empty_test root_inode),
          empty_count max_files,
        );
        least = least;
        most = most;
        root = test-set empty bytes root_inode 0;
      };
      used = λ i k live ne. absurd (ne (clear i k));
      once = λ i k j l live live' ne e. absurd (ne (clear i k));
    }
