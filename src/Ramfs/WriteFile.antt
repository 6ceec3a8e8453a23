-- ===== src/Ramfs/WriteFile.antt =====
-- `ramfs_write` of kernel/fs/ramfs.c as a whole.
use chanux.Common.{
  ℕ, ◌+◌, ◌-◌, ◌/◌, ◌≤◌, ◌<◌, ◌≡◌, ◌∙◌, refl, sym, ap, subst, false, ◌&&◌, ◌==◌, ltb, leb,
  if◌then◌else◌, some, add64, u64_mod, arith, Bool-cases, inl, inr, ◌⊎◌,
}
use chanux.Ramfs.{Inode, Ramfs, set_inode, block_size, type_file}
use chanux.Ramfs.Files.{write_loop, finish_write, ramfs_write, max_size, rounds}
use chanux.Ramfs.Owned.{IsFs, IsFull, pointer, IsCounted-same, inode_field, inode_here}
use chanux.Ramfs.Content.{byte_of, content}
use chanux.Ramfs.Chunk.{Written}
use chanux.Ramfs.Write.{WriteEnds, write_loop-WriteEnds}

-- A write to an inode that keeps its block pointers.
module _ (s : Ramfs) (i : ℕ) (node : Inode) (same : node.blocks ≡ (s.inodes i).blocks) where
  pub pointer-set_inode : (j k : ℕ) → pointer (set_inode s i node) j k ≡ pointer s j k
  pointer-set_inode j k = ap (λ f. f k) (inode_field s i node (λ x. x.blocks) same j)

  pub set_inode-IsFs : IsFs s → IsFs (set_inode s i node)
  set_inode-IsFs v = record {
    counted = IsCounted-same s (set_inode s i node) refl refl refl refl refl v.counted;
    used = λ j k live ne.
        let e = pointer-set_inode j k in
        let u = v.used j k refl (λ z. ne (e ∙ z)) in
        record { low = rw e u.low; high = rw e u.high; marked = rw e u.marked };
    once = λ j k l m live live' ne e.
        let p = pointer-set_inode j k in
        v.once j k l m refl refl (λ z. ne (p ∙ z)) (sym p ∙ e ∙ pointer-set_inode l m);
  }

  pub content-set_inode : (j pos : ℕ) → content (set_inode s i node) j pos ≡ content s j pos
  unfolding content
  content-set_inode j pos = ap (λ b. byte_of s.disk b pos) (pointer-set_inode j (pos / block_size))

-- What `ramfs_write` does to the filesystem when it writes `m` bytes.
pub record FileWritten (s : Ramfs) (i : ℕ) (src : ℕ → ℕ) (count offset m : ℕ) (s' : Ramfs)
    : Type 0 where
  pub valid : IsFs s'
  pub written : Written s s' i (λ p. src (p - offset)) offset (offset + m)
  pub most : m ≤ count
  pub in_file : offset + m ≤ max_size
  pub complete : (m ≡ count) ⊎ ((offset + m ≡ max_size) ⊎ IsFull s')
  pub type : (s'.inodes i).type ≡ (s.inodes i).type
  pub size :
      (s'.inodes i).size
      ≡ (if ltb (s.inodes i).size (offset + m) then offset + m else (s.inodes i).size)

-- The bytes that fit into the file.
abbrev clipped : ℕ → ℕ → ℕ
clipped count offset = if ltb max_size (add64 offset count) then max_size - offset else count

clipped_bounds :
    (count offset : ℕ)
    → offset ≤ max_size
    → offset + count < u64_mod
    → (clipped count offset ≤ count)
      × (offset + clipped count offset ≤ max_size)
      × ((clipped count offset ≡ count) ⊎ (offset + clipped count offset ≡ max_size))
clipped_bounds count offset le top =
    let e : add64 offset count ≡ offset + count = omega arith in
    elim (Bool-cases (ltb max_size (add64 offset count))) [
      | inl over ↦ rw over (ground (arith, over), omega arith, inr (omega arith))
      | inr fits ↦ rw fits (omega arith, ground (arith, fits), inl refl)
    ]

-- The inode at the end of `ramfs_write`.
abbrev final : Ramfs → ℕ → ℕ → ℕ → Inode
final s i offset m = record (s.inodes i) {
  size = if ltb (s.inodes i).size (offset + m) then offset + m else (s.inodes i).size;
  modified = s.ticks;
  accessed = s.ticks;
}

complete_of :
    (s t : Ramfs) (i offset count n m : ℕ) (node : Inode)
    → (m ≡ n) ⊎ IsFull t
    → (n ≡ count) ⊎ (offset + n ≡ max_size)
    → (m ≡ count) ⊎ ((offset + m ≡ max_size) ⊎ IsFull (set_inode t i node))
complete_of s t i offset count n m node (inl all) (inl whole) = inl (all ∙ whole)
complete_of s t i offset count n m node (inl all) (inr last) = inr (inl (omega arith))
complete_of s t i offset count n m node (inr full) whole =
    inr (inr (λ b f. full b (record { low = f.low; high = f.high; unmarked = f.unmarked })))

finish :
    (s t : Ramfs) (i : ℕ) (src : ℕ → ℕ) (count offset n m : ℕ)
    → n ≤ count
    → offset + n ≤ max_size
    → (n ≡ count) ⊎ (offset + n ≡ max_size)
    → WriteEnds s i src n offset 0 m t
    → FileWritten s i src count offset m (set_inode t i (final t i offset m))
finish s t i src count offset n m le top whole w =
    let node = final t i offset m in
    let upper = w.upper in
    record {
      valid = set_inode-IsFs t i node refl w.valid;
      written = λ j p.
          content-set_inode t i node refl j p
          ∙ subst
              (λ x. content t j p ≡ (
                if i == j && (leb x p && ltb p (offset + m))
                then src (p - offset)
                else content s j p))
              {x = offset + 0} (omega arith) (w.written j p);
      most = omega arith;
      in_file = omega arith;
      complete = complete_of s t i offset count n m (final t i offset m) w.full whole;
      type = ap (λ x. x.type) (inode_here t i node) ∙ w.type i;
      size = ap (λ x. x.size) (inode_here t i node) ∙ rw (w.size i) refl;
    }

-- ramfs_write, on a file and at an offset within its largest size, writes as many bytes as it is
-- given, or up to the largest size, or up to where no data block is free. Those bytes of the file
-- are then the given ones, and its size is the end of the written bytes if that is larger; all
-- other bytes of this file and of every other are as before, and the invariants of the blocks hold.
pub ramfs_write-FileWritten :
    (s : Ramfs) (i : ℕ) (src : ℕ → ℕ) (count offset : ℕ)
    → IsFs s
    → (s.inodes i).type ≡ type_file
    → offset ≤ max_size
    → offset + count < u64_mod
    → (m : ℕ) × ((ramfs_write s i src count offset).0 ≡ some m)
      × FileWritten s i src count offset m (ramfs_write s i src count offset).1
unfolding ramfs_write
ramfs_write-FileWritten s i src count offset v file le top =
    let n = clipped count offset in
    let (less, inside, whole) = clipped_bounds count offset le top in
    let not_over : ltb max_size offset ≡ false = ground arith in
    let w =
      write_loop-WriteEnds rounds s i src n offset 0 v (omega arith) inside
        (omega arith, λ more. omega arith) in
    let r = write_loop rounds s i src n offset 0 in
    let same : ramfs_write s i src count offset ≡ finish_write i offset r =
      rw (file, not_over) refl in
    (
      r.0,
      ap (λ x. x.0) same,
      subst (λ x. FileWritten s i src count offset r.0 x) (sym (ap (λ x. x.1) same))
          (finish s r.1 i src count offset n r.0 less inside whole w),
    )
