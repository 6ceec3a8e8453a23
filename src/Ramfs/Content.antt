-- ===== src/Ramfs/Content.antt =====
-- The contents of the files of kernel/fs/ramfs.c, and what the allocation of a block and the writing
-- of a chunk do to them.
use chanux.Common.{
  ℕ, ◌+◌, ◌*◌, ◌/◌, ◌%◌, ◌≡◌, ◌≢◌, ◌∙◌, refl, sym, ap, subst, true, false, ◌&&◌, ◌==◌, ltb, leb,
  if◌then◌else◌, Option, none, some, update, add32, arith, Bool-cases, inl, inr, ==→eq, eq→==,
}
use chanux.Memory.{Mem}
use chanux.Ramfs.{Inode, Ramfs, alloc_block, clear_bytes, write_bytes, block_size}
use chanux.Ramfs.Files.{ensure_block, set_block, use_block}
use chanux.Ramfs.Owned.{
  IsFs, IsFree, pointer, hit, hit-eq, taken, alloc_block_lem, AllocBlock, set_block-IsFs,
  pointer-set_block, used-ne-free, inode_field, IsFull,
}

-- The byte at a position of a file: zero where the file has no block.
unfoldable pub byte_of : Mem → ℕ → ℕ → ℕ
byte_of disk b pos = if b == 0 then 0 else disk (b * block_size + pos % block_size)

unfoldable pub content : Ramfs → ℕ → ℕ → ℕ
unfolding byte_of
content s i pos = byte_of s.disk (pointer s i (pos / block_size)) pos

in_block :
    (b c pos : ℕ)
    → (leb (b * block_size) (c * block_size + pos % block_size)
        && ltb (c * block_size + pos % block_size) (b * block_size + block_size))
      ≡ (c == b)
in_block b c pos = ground arith

byte_of_hole : (disk : Mem) (pos : ℕ) → byte_of disk 0 pos ≡ 0
unfolding byte_of
byte_of_hole disk pos = refl

-- A cleared block reads as no block does.
clear_block :
    (disk : Mem) (b c pos : ℕ)
    → byte_of (clear_bytes disk (b * block_size) block_size) c pos
      ≡ (if c == b then 0 else byte_of disk c pos)
unfolding byte_of write_bytes
clear_block disk b c pos = ground (arith, in_block b c pos)

-- A state in which every file has the type, the size and the bytes that it has in another.
pub record SameFiles (s s' : Ramfs) : Type 0 where
  pub type : (j : ℕ) → (s'.inodes j).type ≡ (s.inodes j).type
  pub size : (j : ℕ) → (s'.inodes j).size ≡ (s.inodes j).size
  pub bytes : (j pos : ℕ) → content s' j pos ≡ content s j pos
  pub disk_blocks : s'.disk_blocks ≡ s.disk_blocks

pub SameFiles-refl : (s : Ramfs) → SameFiles s s
SameFiles-refl s = record {
  type = λ j. refl;
  size = λ j. refl;
  bytes = λ j pos. refl;
  disk_blocks = refl;
}

-- The result of `ensure_block`, if it has one.
abbrev pub Ensured : Ramfs → ℕ → ℕ → Option Ramfs → Type 0
Ensured s i index none = IsFull s
Ensured s i index (some s') = IsFs s' × SameFiles s s' × (pointer s' i index ≢ 0)

module _ (s : Ramfs) (i index b : ℕ) (v : IsFs s) (f : IsFree s b)
    (clear : pointer s i index ≡ 0) where
  abbrev after : Ramfs
  after = set_block (taken s b) i index b

  content-hit :
      (j pos : ℕ) → hit i index j (pos / block_size) ≡ true → content after j pos ≡ content s j pos
  unfolding content set_block
  content-hit j pos here =
      let h = hit-eq i index j (pos / block_size) here in
      let new : pointer after j (pos / block_size) ≡ b =
        pointer-set_block (taken s b) i index b j (pos / block_size) ∙ rw here refl in
      let old : pointer s j (pos / block_size) ≡ 0 = rw (← h.0, ← h.1) clear in
      ap (λ x. byte_of after.disk x pos) new
      ∙ clear_block s.disk b b pos
      ∙ rw (eq→== b b refl) refl
      ∙ sym (ap (λ x. byte_of s.disk x pos) old ∙ byte_of_hole s.disk pos)

  content_miss :
      (j pos : ℕ) → hit i index j (pos / block_size) ≡ false → content after j pos ≡ content s j pos
  unfolding content set_block
  content_miss j pos there =
      let same : pointer after j (pos / block_size) ≡ pointer s j (pos / block_size) =
        pointer-set_block (taken s b) i index b j (pos / block_size) ∙ rw there refl in
      let c = pointer s j (pos / block_size) in
      let other : (c == b) ≡ false = elim (Bool-cases (c == b)) [
        | inr other ↦ other
        | inl taken_twice ↦
            let e = ==→eq c b taken_twice in
            let low = f.low in
            absurd (used-ne-free s b c (v.used j (pos / block_size) refl (omega arith)) f e)
      ] in
      ap (λ x. byte_of after.disk x pos) same ∙ clear_block s.disk b c pos ∙ rw other refl

  abbrev node : Inode
  node = record (s.inodes i) {
    blocks = update (s.inodes i).blocks index b;
    block_count = add32 (s.inodes i).block_count 1;
  }

  after-SameFiles : SameFiles s after
  unfolding set_block
  after-SameFiles = record {
    type = inode_field (taken s b) i node (λ x. x.type) refl;
    size = inode_field (taken s b) i node (λ x. x.size) refl;
    bytes = λ j pos. elim (Bool-cases (hit i index j (pos / block_size))) [
      | inl here ↦ content-hit j pos here
      | inr there ↦ content_miss j pos there
    ];
    disk_blocks = refl;
  }

ensured :
    (s s' : Ramfs) (i index : ℕ) (o : Option ℕ)
    → IsFs s
    → pointer s i index ≡ 0
    → AllocBlock s (o, s')
    → Ensured s i index (use_block i index (o, s'))
ensured s s' i index none v clear a = a.1
ensured s s' i index (some b) v clear (same, f) =
    subst (λ x. Ensured s i index (some (set_block x i index b))) (sym same)
      (
        set_block-IsFs s i index b v f clear,
        after-SameFiles s i index b v f clear,
        λ z.
            let e : pointer (set_block (taken s b) i index b) i index ≡ b =
              pointer-set_block (taken s b) i index b i index
              ∙ rw (eq→== i i refl, eq→== index index refl) refl in
            let low = f.low in absurd (omega (arith, e, z)),
      )

pub ensure_block-Ensured :
    (s : Ramfs) (i index : ℕ) → IsFs s → Ensured s i index (ensure_block s i index)
unfolding ensure_block
ensure_block-Ensured s i index v = elim (Bool-cases (pointer s i index == 0)) [
  | inl clear ↦ rw clear (
      ensured s (alloc_block s).1 i index (alloc_block s).0 v (==→eq (pointer s i index) 0 clear)
        (alloc_block_lem s v.counted))
  | inr there ↦ rw there (v, SameFiles-refl s, λ z. absurd (ground (arith, there, z)))
]
