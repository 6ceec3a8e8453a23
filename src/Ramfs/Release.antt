-- ===== src/Ramfs/Release.antt =====
-- `ramfs_free_block` of kernel/fs/ramfs.c keeps the invariant of the blocks, once the pointer to the
-- block no longer counts.
use chanux.Common.{
  ℕ, ◌+◌, ◌≡◌, ◌≢◌, ◌∙◌, refl, sym, ap, subst, true, false, not, ◌&&◌, ◌||◌, ◌==◌, ltb, leb,
  if◌then◌else◌, add32, arith, Bool-cases, inl, inr, ==→eq, eq→==,
}
use chanux.Bitmap.{bitmap_test, bitmap_clear}
use chanux.Bitmap.Laws.{test-clear, bitmap_clear-IsBytes}
use chanux.Bitmap.Count.{count_free-clear, count_free-le}
use chanux.Ramfs.{Ramfs, free_block, data_start}
use chanux.Ramfs.Owned.{IsOwned, IsCounted, IsUsed, Live, pointer, without}

-- Fewer pointers count.
pub IsOwned-fewer :
    (s : Ramfs) (live live' : Live)
    → ((j l : ℕ) → live' j l ≡ true → live j l ≡ true)
    → IsOwned s live
    → IsOwned s live'
IsOwned-fewer s live live' sub v = record {
  counted = v.counted;
  used = λ j l h. v.used j l (sub j l h);
  once = λ j l m n h h'. v.once j l m n (sub j l h) (sub m n h');
}

-- A block in use, freed.
abbrev freed : Ramfs → ℕ → Ramfs
freed s b = record s {
  block_bitmap = bitmap_clear s.block_bitmap b;
  free_blocks = add32 s.free_blocks 1;
}

free_block_used : (s : Ramfs) (b : ℕ) → IsUsed s b → free_block s b ≡ freed s b
unfolding free_block
free_block_used s b u =
    let low = u.low in
    let high = u.high in
    let inside : (ltb b data_start || leb s.disk_blocks b) ≡ false = ground arith in
    rw (inside, u.marked) refl

-- Freeing a block clears its bit and no other.
pub free_block-marks :
    (s : Ramfs) (b : ℕ)
    → IsCounted s
    → IsUsed s b
    → (c : ℕ)
    → bitmap_test (free_block s b).block_bitmap c ≡ (bitmap_test s.block_bitmap c && not (b == c))
free_block-marks s b v u c =
    ap (λ t. bitmap_test t.block_bitmap c) (free_block_used s b u)
    ∙ test-clear s.block_bitmap v.block_bytes b c
    ∙ ground arith

freed-IsCounted : (s : Ramfs) (b : ℕ) → IsCounted s → IsUsed s b → IsCounted (freed s b)
freed-IsCounted s b v u = record {
  block_bytes = bitmap_clear-IsBytes s.block_bitmap v.block_bytes b;
  inode_bytes = v.inode_bytes;
  blocks =
      let e = v.blocks in
      let most = v.most in
      omega (
        arith,
        count_free-clear s.block_bitmap v.block_bytes b s.disk_blocks u.high u.marked,
        count_free-le (bitmap_clear s.block_bitmap b) s.disk_blocks,
      );
  inodes = v.inodes;
  least = v.least;
  most = v.most;
  root = v.root;
}

module _ (s : Ramfs) (live : Live) (i k : ℕ) (v : IsOwned s live) (alive : live i k ≡ true)
    (there : pointer s i k ≢ 0) where
  abbrev b : ℕ
  b = pointer s i k

  b-IsUsed : IsUsed s b
  b-IsUsed = v.used i k alive there

  -- Another pointer names another block.
  other : (j l : ℕ) → without live i k j l ≡ true → pointer s j l ≢ 0 → (b == pointer s j l) ≡ false
  other j l h ne = elim (Bool-cases (b == pointer s j l)) [
    | inr differ ↦ differ
    | inl same ↦
        let own = v.once i k j l alive (ground (arith, h)) there (==→eq b (pointer s j l) same) in
        absurd (ground (arith, h, eq→== i j own.0, eq→== k l own.1))
  ]

  pub free_block-IsOwned : IsOwned (free_block s b) (without live i k)
  free_block-IsOwned =
      subst (λ t. IsOwned t (without live i k)) (sym (free_block_used s b b-IsUsed))
        (record {
          counted = freed-IsCounted s b v.counted b-IsUsed;
          used = λ j l h ne.
              let u = v.used j l (ground (arith, h)) ne in
              record {
                low = u.low;
                high = u.high;
                marked =
                    test-clear s.block_bitmap v.counted.block_bytes b (pointer s j l)
                    ∙ rw (other j l h ne) u.marked;
              };
          once = λ j l m n h h'. v.once j l m n (ground (arith, h)) (ground (arith, h'));
        })

pub free_block-inodes : (s : Ramfs) (b : ℕ) → (free_block s b).inodes ≡ s.inodes
unfolding free_block
free_block-inodes s b = elim (Bool-cases (ltb b data_start || leb s.disk_blocks b)) [
  | inl out ↦ rw out refl
  | inr inside ↦ elim (Bool-cases (bitmap_test s.block_bitmap b)) [
    | inl used ↦ rw (inside, used) refl
    | inr unused ↦ rw (inside, unused) refl
  ]
]

pub free_block-disk :
    (s : Ramfs) (b : ℕ)
    → ((free_block s b).disk ≡ s.disk)
      × ((free_block s b).inode_bitmap ≡ s.inode_bitmap)
      × ((free_block s b).free_inodes ≡ s.free_inodes)
unfolding free_block
free_block-disk s b = elim (Bool-cases (ltb b data_start || leb s.disk_blocks b)) [
  | inl out ↦ rw out (refl, refl, refl)
  | inr inside ↦ elim (Bool-cases (bitmap_test s.block_bitmap b)) [
    | inl used ↦ rw (inside, used) (refl, refl, refl)
    | inr unused ↦ rw (inside, unused) (refl, refl, refl)
  ]
]

-- The pointers but those of inode `i` below `k`.
abbrev pub except : ℕ → ℕ → Live
except i k j l = not (i == j && ltb l k)

-- What one round of `ramfs_free_inode` does.
abbrev pub drop : Ramfs → ℕ → Ramfs
drop s b = if b == 0 then s else free_block s b

pub drop-IsOwned :
    (s : Ramfs) (i k : ℕ)
    → IsOwned s (except i k)
    → IsOwned (drop s (pointer s i k)) (except i (k + 1))
      × ((drop s (pointer s i k)).inodes ≡ s.inodes)
drop-IsOwned s i k v = elim (Bool-cases (pointer s i k == 0)) [
  | inl none_there ↦
      rw none_there
        (IsOwned-fewer s (except i k) (except i (k + 1)) (λ j l h. ground (arith, h)) v, refl)
  | inr there ↦
      let own =
        free_block-IsOwned s (except i k) i k v (ground arith)
          (λ z. absurd (ground (arith, there, z))) in
      rw there (
        IsOwned-fewer (free_block s (pointer s i k)) (without (except i k) i k) (except i (k + 1))
            (λ j l h. ground (arith, h)) own,
        free_block-inodes s (pointer s i k),
      )
]
