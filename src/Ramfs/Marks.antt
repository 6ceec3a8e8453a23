-- ===== src/Ramfs/Marks.antt =====
-- The marks of the inode bitmap of kernel/fs/ramfs.c: each inode that has a type is marked.
use chanux.Common.{
  ℕ, zero, suc, ◌+◌, ◌<◌, ◌≡◌, ◌≢◌, ◌∙◌, refl, sym, ap, subst, true, false, ◌==◌, leb, Option, none,
  some, arith, Bool-cases, Option-cases, inl, inr, ==→eq, ne→==,
}
use chanux.Bitmap.{bitmap_test, bitmap_clear, find_free}
use chanux.Bitmap.Laws.{test-set, test-clear}
use chanux.Ramfs.{
  Ramfs, free_blocks_from, free_inode, alloc_inode, max_files, root_inode, type_free, direct_blocks,
}
use chanux.Ramfs.Owned.{IsFs}
use chanux.Ramfs.Release.{drop}
use chanux.Ramfs.Inodes.{drop-bitmap, free_inode-IsFs, alloc_inode-NewInode, NewInode}
use chanux.Ramfs.Create.{Keeps}

-- The invariants of the blocks and the counters, and the marks of the inodes.
pub record IsSound (s : Ramfs) : Type 0 where
  pub valid : IsFs s
  pub marked :
      (i : ℕ) → i < max_files → (s.inodes i).type ≢ type_free → bitmap_test s.inode_bitmap i ≡ true

pub Keeps-IsSound : (s t : Ramfs) → IsSound s → Keeps s t → IsSound t
Keeps-IsSound s t v k = record {
  valid = k.valid;
  marked = λ i lt typed. rw k.marks (v.marked i lt (λ z. typed (k.type i ∙ z)));
}

free_blocks_from-bitmap :
    (n : ℕ) (s : Ramfs) (blocks : ℕ → ℕ) (k : ℕ)
    → (free_blocks_from s blocks n k).inode_bitmap ≡ s.inode_bitmap
unfolding free_blocks_from
free_blocks_from-bitmap zero s blocks k = refl
free_blocks_from-bitmap (suc n) s blocks k =
    free_blocks_from-bitmap n (drop s (blocks k)) blocks (k + 1) ∙ drop-bitmap s (blocks k)

free_inode-bitmap :
    (s : Ramfs) (i : ℕ)
    → i < max_files
    → i ≢ root_inode
    → (s.inodes i).type ≢ type_free
    → (free_inode s i).inode_bitmap ≡ bitmap_clear s.inode_bitmap i
unfolding free_inode
free_inode-bitmap s i lt ne typed =
    let in_table : leb max_files i ≡ false = ground arith in
    rw (in_table, ne→== i root_inode ne, ne→== (s.inodes i).type type_free typed)
      (ap (λ b. bitmap_clear b i) (free_blocks_from-bitmap direct_blocks s (s.inodes i).blocks 0))

freed-IsSound :
    (s : Ramfs) (i : ℕ)
    → IsSound s
    → i < max_files
    → i ≢ root_inode
    → (s.inodes i).type ≢ type_free
    → IsSound (free_inode s i)
freed-IsSound s i v lt ne typed =
    let (valid, gone, others) = free_inode-IsFs s i v.valid lt ne typed (v.marked i lt typed) in
    record {
      valid = valid;
      marked = λ j in_table there. elim (Bool-cases (i == j)) [
        | inl same ↦
            absurd
              (there (ap (λ x. ((free_inode s i).inodes x).type) (sym (==→eq i j same)) ∙ gone))
        | inr other ↦
            let e = others j (λ z. absurd (ground (arith, other, z))) in
            rw (free_inode-bitmap s i lt ne typed) (
              test-clear s.inode_bitmap v.valid.counted.inode_bytes i j
              ∙ rw other (v.marked j in_table (λ z. there (ap (λ x. x.type) e ∙ z))))
      ];
    }

pub free_inode-IsSound : (s : Ramfs) (i : ℕ) → IsSound s → i < max_files → IsSound (free_inode s i)
unfolding free_inode
free_inode-IsSound s i v lt =
    let in_table : leb max_files i ≡ false = ground arith in
    elim (Bool-cases (i == root_inode)) [
      | inl root ↦
          let same : free_inode s i ≡ s = rw (in_table, root) refl in subst IsSound (sym same) v
      | inr other ↦ elim (Bool-cases ((s.inodes i).type == type_free)) [
        | inl free ↦
            let same : free_inode s i ≡ s = rw (in_table, other, free) refl in
            subst IsSound (sym same) v
        | inr typed ↦
            freed-IsSound s i v lt (λ z. absurd (ground (arith, other, z)))
              (λ z. absurd (ground (arith, typed, z)))
      ]
    ]

alloc_inode-marks :
    (s : Ramfs) (type j : ℕ)
    → IsFs s
    → bitmap_test s.inode_bitmap j ≡ true
    → bitmap_test (alloc_inode s type).1.inode_bitmap j ≡ true
unfolding alloc_inode
alloc_inode-marks s type j v e = elim (Bool-cases (s.free_inodes == 0)) [
  | inl full ↦ rw full e
  | inr room ↦ elim (Option-cases (find_free s.inode_bitmap max_files 0)) [
    | inl none_free ↦ rw (room, none_free) e
    | inr one ↦
        rw (room, one.1)
          (test-set s.inode_bitmap v.counted.inode_bytes one.0 j ∙ rw e (ground arith))
  ]
]

-- A new inode, in a sound filesystem.
abbrev pub SoundNew : Option ℕ × Ramfs → Type 0
SoundNew (none, s) = IsSound s
SoundNew (some i, s) = IsSound s × (i < max_files)

new-SoundNew :
    (s : Ramfs) (type : ℕ) (r : Option ℕ × Ramfs)
    → IsSound s
    → NewInode s type r
    → ((j : ℕ) → bitmap_test s.inode_bitmap j ≡ true → bitmap_test r.1.inode_bitmap j ≡ true)
    → SoundNew r
new-SoundNew s type (none, t) v n more = subst IsSound (sym n) v
new-SoundNew s type (some i, t) v n more = (
  record {
    valid = n.0;
    marked = λ j in_table typed. elim (Bool-cases (i == j)) [
      | inl same ↦ subst (λ x. bitmap_test t.inode_bitmap x ≡ true) (==→eq i j same) n.4
      | inr other ↦
          let e = n.6 j (λ z. absurd (ground (arith, other, z))) in
          more j (v.marked j in_table (λ z. typed (ap (λ x. x.type) e ∙ z)))
    ];
  },
  n.1,
)

pub alloc_inode-SoundNew : (s : Ramfs) (type : ℕ) → IsSound s → SoundNew (alloc_inode s type)
alloc_inode-SoundNew s type v =
    new-SoundNew s type (alloc_inode s type) v (alloc_inode-NewInode s type v.valid)
      (λ j e. alloc_inode-marks s type j v.valid e)
