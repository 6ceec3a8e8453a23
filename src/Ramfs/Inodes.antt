-- ===== src/Ramfs/Inodes.antt =====
-- `ramfs_free_inode` and `ramfs_alloc_inode` of kernel/fs/ramfs.c keep the invariant of the blocks.
use chanux.Common.{
  ℕ, zero, suc, ◌+◌, ◌<◌, ◌≡◌, ◌≢◌, ◌∙◌, refl, sym, ap, subst, true, false, ◌==◌, leb, Option, none,
  some, update, add32, sub32, arith, Bool-cases, Option-cases, inl, inr, ==→eq, eq→==, ne→==,
}
use chanux.Bitmap.{bitmap_test, bitmap_set, bitmap_clear, find_free}
use chanux.Bitmap.Laws.{test-set, test-clear, bitmap_set-IsBytes, bitmap_clear-IsBytes}
use chanux.Bitmap.Count.{count_free-set, count_free-clear, count_free-le}
use chanux.Bitmap.Search.{find_free-some}
use chanux.Ramfs.{
  Inode, Ramfs, free_blocks_from, free_inode, alloc_inode, new_inode, no_inode, max_files,
  root_inode, type_free, direct_blocks,
}
use chanux.Ramfs.Owned.{IsFs, IsOwned, IsCounted, pointer, inode_here, inode_there}
use chanux.Ramfs.Release.{IsOwned-fewer, free_block-disk, except, drop, drop-IsOwned}

pub drop-bitmap : (s : Ramfs) (b : ℕ) → (drop s b).inode_bitmap ≡ s.inode_bitmap
drop-bitmap s b = elim (Bool-cases (b == 0)) [
  | inl none_there ↦ rw none_there refl
  | inr there ↦ rw there (free_block-disk s b).1
]

free_blocks_from-IsOwned :
    (n : ℕ) (s : Ramfs) (i k : ℕ) (blocks : ℕ → ℕ)
    → blocks ≡ (s.inodes i).blocks
    → IsOwned s (except i k)
    → (let s' = free_blocks_from s blocks n k in
        IsOwned s' (except i (k + n)) × (s'.inodes ≡ s.inodes) × (s'.inode_bitmap ≡ s.inode_bitmap))
unfolding free_blocks_from
free_blocks_from-IsOwned zero s i k blocks e v =
    (subst (λ x. IsOwned s (except i x)) {x = k} (omega arith) v, refl, refl)
free_blocks_from-IsOwned (suc n) s i k blocks e v =
    let s1 = drop s (blocks k) in
    let at : blocks k ≡ pointer s i k = ap (λ f. f k) e in
    let d : IsOwned s1 (except i (k + 1)) × (s1.inodes ≡ s.inodes) =
      subst (λ b. IsOwned (drop s b) (except i (k + 1)) × ((drop s b).inodes ≡ s.inodes)) (sym at)
        (drop-IsOwned s i k v) in
    let ih =
      free_blocks_from-IsOwned n s1 i (k + 1) blocks (e ∙ sym (ap (λ f. (f i).blocks) d.1)) d.0 in
    (
      subst (λ x. IsOwned (free_blocks_from s1 blocks n (k + 1)) (except i x)) {x = k + 1 + n}
          (omega arith) ih.0,
      ih.1 ∙ d.1,
      ih.2 ∙ drop-bitmap s (blocks k),
    )

-- The inode `i` replaced by one without blocks; the bitmaps and counters as given.
clear-IsFs :
    (s t : Ramfs) (i : ℕ) (node : Inode)
    → node.blocks ≡ (λ k. 0)
    → t.inodes ≡ update s.inodes i node
    → t.block_bitmap ≡ s.block_bitmap
    → t.disk_blocks ≡ s.disk_blocks
    → IsCounted t
    → IsOwned s (except i direct_blocks)
    → IsFs t
clear-IsFs s t i node no_blocks inodes bitmap size counted v = record {
  counted = counted;
  used = λ j l live ne.
      let differ = other j l ne in
      let e = kept j l differ in
      let u = v.used j l (ground (arith, differ)) (λ z. ne (e ∙ z)) in
      record { low = rw e u.low; high = rw (e, size) u.high; marked = rw (e, bitmap) u.marked };
  once = λ j l m n live live' ne e.
      let differ = other j l ne in
      let differ' = other m n (λ z. ne (e ∙ z)) in
      v.once j l m n (ground (arith, differ)) (ground (arith, differ'))
        (λ z. ne (kept j l differ ∙ z)) (sym (kept j l differ) ∙ e ∙ kept m n differ');
}
  where
    kept : (j l : ℕ) → (i == j) ≡ false → pointer t j l ≡ pointer s j l
    kept j l differ =
        ap (λ f. (f j).blocks l) inodes ∙ ap (λ x. x.blocks l) (inode_there s i j node differ)

    other : (j l : ℕ) → pointer t j l ≢ 0 → (i == j) ≡ false
    other j l ne = elim (Bool-cases (i == j)) [
      | inr differ ↦ differ
      | inl same ↦
          let here : pointer t i l ≡ 0 =
            ap (λ f. (f i).blocks l) inodes
            ∙ ap (λ x. x.blocks l) (inode_here s i node)
            ∙ ap (λ f. f l) no_blocks in
          absurd (ne (subst (λ x. pointer t x l ≡ 0) (==→eq i j same) here))
    ]

-- The bit of an inode, cleared and counted.
cleared-IsCounted :
    (s t : Ramfs) (i : ℕ)
    → IsCounted s
    → i < max_files
    → i ≢ 0
    → bitmap_test s.inode_bitmap i ≡ true
    → t.inode_bitmap ≡ bitmap_clear s.inode_bitmap i
    → t.free_inodes ≡ add32 s.free_inodes 1
    → t.block_bitmap ≡ s.block_bitmap
    → t.free_blocks ≡ s.free_blocks
    → t.disk_blocks ≡ s.disk_blocks
    → IsCounted t
cleared-IsCounted s t i v lt ne marked ib fi bb fb db = record {
  block_bytes = rw bb v.block_bytes;
  inode_bytes = rw ib (bitmap_clear-IsBytes s.inode_bitmap v.inode_bytes i);
  blocks = rw (fb, bb, db) v.blocks;
  inodes =
      let e = v.inodes in
      rw ib (
        omega (
          arith,
          fi,
          count_free-clear s.inode_bitmap v.inode_bytes i max_files lt marked,
          count_free-le (bitmap_clear s.inode_bitmap i) max_files,
        ));
  least = rw db v.least;
  most = rw db v.most;
  root = rw ib (test-clear s.inode_bitmap v.inode_bytes i 0 ∙ rw (ne→== i 0 ne) v.root);
}

-- What `ramfs_free_inode` leaves once the blocks are free.
abbrev gone : Ramfs → ℕ → Ramfs
gone s i = record s {
  inodes = update s.inodes i no_inode;
  inode_bitmap = bitmap_clear s.inode_bitmap i;
  free_inodes = add32 s.free_inodes 1;
}

-- free_inode, on a marked inode of the table that has a type and is not the root, keeps the
-- invariants of the blocks and the counters; the inode has no type then, and every other inode is
-- as before.
pub free_inode-IsFs :
    (s : Ramfs) (i : ℕ)
    → IsFs s
    → i < max_files
    → i ≢ root_inode
    → (s.inodes i).type ≢ type_free
    → bitmap_test s.inode_bitmap i ≡ true
    → IsFs (free_inode s i)
      × (((free_inode s i).inodes i).type ≡ type_free)
      × ((j : ℕ) → i ≢ j → (free_inode s i).inodes j ≡ s.inodes j)
unfolding free_inode
free_inode-IsFs s i v lt ne typed marked =
    let blocks = (s.inodes i).blocks in
    let s' = free_blocks_from s blocks direct_blocks 0 in
    let (own, inodes, bitmap) =
      free_blocks_from-IsOwned direct_blocks s i 0 blocks refl
        (IsOwned-fewer s (λ j l. true) (except i 0) (λ j l h. refl) v) in
    let in_table : leb max_files i ≡ false = ground arith in
    let same : free_inode s i ≡ gone s' i =
      rw (in_table, ne→== i root_inode ne, ne→== (s.inodes i).type type_free typed) refl in
    let counted =
      cleared-IsCounted s' (gone s' i) i own.counted lt ne (rw bitmap marked) refl refl refl refl
        refl in
    subst
      (λ t. IsFs t × ((t.inodes i).type ≡ type_free) × ((j : ℕ) → i ≢ j → t.inodes j ≡ s.inodes j))
      (sym same)
      (
        clear-IsFs s' (gone s' i) i no_inode refl refl refl refl counted own,
        ap (λ x. x.type) (inode_here s' i no_inode),
        λ j differ. inode_there s' i j no_inode (ne→== i j differ) ∙ ap (λ f. f j) inodes,
      )

-- What `ramfs_alloc_inode` does with the inode that it finds.
abbrev given : Ramfs → ℕ → ℕ → Ramfs
given s type i = record s {
  inode_bitmap = bitmap_set s.inode_bitmap i;
  free_inodes = sub32 s.free_inodes 1;
  inodes = update s.inodes i (new_inode type s.ticks);
}

given-IsCounted :
    (s : Ramfs) (type i : ℕ)
    → IsCounted s
    → i < max_files
    → bitmap_test s.inode_bitmap i ≡ false
    → IsCounted (given s type i)
given-IsCounted s type i v lt unmarked = record {
  block_bytes = v.block_bytes;
  inode_bytes = bitmap_set-IsBytes s.inode_bitmap v.inode_bytes i;
  blocks = v.blocks;
  inodes =
      let e = v.inodes in
      omega (
        arith,
        count_free-set s.inode_bitmap v.inode_bytes i max_files lt unmarked,
        count_free-le s.inode_bitmap max_files,
      );
  least = v.least;
  most = v.most;
  root = ground (arith, v.root, test-set s.inode_bitmap v.inode_bytes i 0);
}

-- What `alloc_inode` returns: an unmarked inode of the table, new and marked, or none.
abbrev pub NewInode : Ramfs → ℕ → Option ℕ × Ramfs → Type 0
NewInode s type (none, s') = s' ≡ s
NewInode s type (some i, s') =
    IsFs s'
    × (i < max_files)
    × (i ≢ root_inode)
    × (bitmap_test s.inode_bitmap i ≡ false)
    × (bitmap_test s'.inode_bitmap i ≡ true)
    × ((s'.inodes i).type ≡ type)
    × ((j : ℕ) → i ≢ j → s'.inodes j ≡ s.inodes j)

given-NewInode :
    (s : Ramfs) (type i : ℕ)
    → IsFs s
    → i < max_files
    → bitmap_test s.inode_bitmap i ≡ false
    → NewInode s type (some i, given s type i)
unfolding new_inode
given-NewInode s type i v lt unmarked =
    let node = new_inode type s.ticks in
    let fewer = IsOwned-fewer s (λ j l. true) (except i direct_blocks) (λ j l h. refl) v in
    (
      clear-IsFs s (given s type i) i node refl refl refl refl
          (given-IsCounted s type i v.counted lt unmarked) fewer,
      lt,
      λ z. absurd (ground (arith, v.counted.root, ap (bitmap_test s.inode_bitmap) z, unmarked)),
      unmarked,
      test-set s.inode_bitmap v.counted.inode_bytes i i ∙ rw (eq→== i i refl) refl,
      ap (λ x. x.type) (inode_here s i node),
      λ j differ. inode_there s i j node (ne→== i j differ),
    )

-- alloc_inode keeps the invariants of the blocks and the counters. If it returns an inode, that is
-- one of the table that was free and is not the root; it is marked as used and has the type, and
-- every other inode is as before. If it returns none, nothing changes.
pub alloc_inode-NewInode : (s : Ramfs) (type : ℕ) → IsFs s → NewInode s type (alloc_inode s type)
unfolding alloc_inode
alloc_inode-NewInode s type v = elim (Bool-cases (s.free_inodes == 0)) [
  | inl full ↦ rw full refl
  | inr room ↦ elim (Option-cases (find_free s.inode_bitmap max_files 0)) [
    | inl none_free ↦ rw (room, none_free) refl
    | inr one ↦
        let f = find_free-some s.inode_bitmap max_files 0 one.0 one.1 in
        rw (room, one.1) (given-NewInode s type one.0 v f.before f.free)
  ]
]
