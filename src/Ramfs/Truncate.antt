-- ===== src/Ramfs/Truncate.antt =====
-- `ramfs_truncate` of kernel/fs/ramfs.c.
use chanux.Common.{
  ℕ, ◌+◌, ◌-◌, ◌/◌, ◌≤◌, ◌<◌, ◌≡◌, ◌∙◌, refl, sym, ap, subst, Bool, true, false, not, ◌&&◌, ◌==◌,
  ltb, leb, if◌then◌else◌, arith, Bool-cases, inl, inr,
}
use chanux.Bitmap.{bitmap_test}
use chanux.Ramfs.{Ramfs, set_inode, block_size, direct_blocks, type_file}
use chanux.Ramfs.Files.{drop_blocks, ramfs_truncate, max_size}
use chanux.Ramfs.Owned.{IsFs, inode_here}
use chanux.Ramfs.Content.{content}
use chanux.Ramfs.WriteFile.{set_inode-IsFs, content-set_inode}
use chanux.Ramfs.Drop.{among, drop_blocks-Dropped}

-- The first block that a file of a size does not need.
abbrev pub first_unused : ℕ → ℕ
first_unused size = (size + block_size - 1) / block_size

abbrev pub new_length : ℕ → ℕ
new_length size = if ltb max_size size then max_size else size

-- `b` is a block of inode `i` that the file has no use for once it shrinks to a size.
abbrev pub unneeded : Ramfs → ℕ → ℕ → ℕ → Bool
unneeded s i size b =
    ltb size (s.inodes i).size
    && among (s.inodes i).blocks (direct_blocks - first_unused size) (first_unused size) b

-- What `ramfs_truncate` leaves.
pub record Truncated (s : Ramfs) (i new_size : ℕ) (s' : Ramfs) : Type 0 where
  pub valid : IsFs s'
  pub type : (s'.inodes i).type ≡ type_file
  pub size : (s'.inodes i).size ≡ new_length new_size
  pub bytes :
      (j p : ℕ)
      → p < max_size
      → content s' j p ≡ (
          if i == j
            && (ltb (new_length new_size) (s.inodes i).size
                && leb (first_unused (new_length new_size)) (p / block_size))
          then 0
          else content s j p)
  pub freed :
      (b : ℕ)
      → bitmap_test s'.block_bitmap b
        ≡ (bitmap_test s.block_bitmap b && not (unneeded s i (new_length new_size) b))

-- What is left before the size is set.
abbrev Shrunk : Ramfs → ℕ → ℕ → Ramfs → Type 0
Shrunk s i new_size t =
    IsFs t
    × ((t.inodes i).type ≡ type_file)
    × ((j p : ℕ)
        → p < max_size
        → content t j p ≡ (
            if i == j
              && (ltb (new_length new_size) (s.inodes i).size
                  && leb (first_unused (new_length new_size)) (p / block_size))
            then 0
            else content s j p))
    × ((b : ℕ)
        → bitmap_test t.block_bitmap b
          ≡ (bitmap_test s.block_bitmap b && not (unneeded s i (new_length new_size) b)))

abbrev shrunk : Ramfs → ℕ → ℕ → Ramfs
shrunk s i new_size =
    let size = new_length new_size in
    let first = first_unused size in
    if ltb size (s.inodes i).size then drop_blocks s i (direct_blocks - first) first else s

shrunk-Shrunk :
    (s : Ramfs) (i new_size : ℕ)
    → IsFs s
    → (s.inodes i).type ≡ type_file
    → Shrunk s i new_size (shrunk s i new_size)
shrunk-Shrunk s i new_size v file =
    let size = new_length new_size in
    let first = first_unused size in
    elim (Bool-cases (ltb size (s.inodes i).size)) [
      | inr grows ↦
          let same : shrunk s i new_size ≡ s = rw grows refl in
          subst (Shrunk s i new_size) (sym same)
            (v, file, λ j p lt. rw grows (ground arith), λ b. rw grows (ground arith))
      | inl shrinks ↦
          let t = drop_blocks s i (direct_blocks - first) first in
          let same : shrunk s i new_size ≡ t = rw shrinks refl in
          let d = drop_blocks-Dropped (direct_blocks - first) s i first v in
          let few : first ≤ direct_blocks = ground arith in
          subst (Shrunk s i new_size) (sym same) (
            d.valid,
            d.type ∙ file,
            λ j p lt.
                let up : ltb (p / block_size) (first + (direct_blocks - first)) ≡ true =
                  ground arith in
                d.bytes j p ∙ rw (up, shrinks) (ground arith),
            λ b. d.marks b ∙ rw shrinks refl,
          )
    ]

last-Truncated :
    (s t : Ramfs) (i new_size : ℕ)
    → Shrunk s i new_size t
    → Truncated s i new_size
        (set_inode t i (record (t.inodes i) { size = new_length new_size; modified = s.ticks }))
last-Truncated s t i new_size (v, type, bytes, marks) =
    let last = record (t.inodes i) { size = new_length new_size; modified = s.ticks } in
    record {
      valid = set_inode-IsFs t i last refl v;
      type = ap (λ x. x.type) (inode_here t i last) ∙ type;
      size = ap (λ x. x.size) (inode_here t i last);
      bytes = λ j p lt. content-set_inode t i last refl j p ∙ bytes j p lt;
      freed = marks;
    }

-- ramfs_truncate, on a file, succeeds: the size of the file is the new one, at most the largest,
-- and the invariants of the blocks and of the count of free blocks hold. If the file shrinks, the
-- blocks that it no longer needs are marked free and read as zeros, and the mark of every other
-- block is as before; all other bytes of this file, those behind the new end in its last block
-- among them, and those of every other file are as before.
pub ramfs_truncate-Truncated :
    (s : Ramfs) (i new_size : ℕ)
    → IsFs s
    → (s.inodes i).type ≡ type_file
    → ((ramfs_truncate s i new_size).0 ≡ true)
      × Truncated s i new_size (ramfs_truncate s i new_size).1
unfolding ramfs_truncate
ramfs_truncate-Truncated s i new_size v file =
    let is_file : not ((s.inodes i).type == type_file) ≡ false = ground (arith, file) in
    let t = shrunk s i new_size in
    let last = record (t.inodes i) { size = new_length new_size; modified = s.ticks } in
    let same : ramfs_truncate s i new_size ≡ (true, set_inode t i last) = rw is_file refl in
    (
      ap (λ r. r.0) same,
      subst (λ r. Truncated s i new_size r) (sym (ap (λ r. r.1) same))
          (last-Truncated s t i new_size (shrunk-Shrunk s i new_size v file)),
    )
