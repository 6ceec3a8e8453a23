-- ===== src/Ramfs/Sound.antt =====
-- `ramfs_truncate`, `ramfs_read` and `ramfs_write` of kernel/fs/ramfs.c keep the marks of the inodes.
use chanux.Common.{
  ℕ, zero, suc, ◌+◌, ◌-◌, ◌/◌, ◌%◌, ◌≡◌, ◌∙◌, refl, sym, ap, subst, true, false, not, ◌==◌, ltb,
  leb, if◌then◌else◌, some, arith, Bool-cases, Option-cases, inl, inr, ==→eq, sub32, update, add64,
}
use chanux.Ramfs.{Ramfs, set_inode, free_block, type_file, direct_blocks, block_size}
use chanux.Ramfs.Files.{
  drop_blocks, ramfs_truncate, ramfs_read, ramfs_write, write_loop, finish_write, ensure_block,
  put_chunk, max_size, min_size, rounds,
}
use chanux.Ramfs.Owned.{IsFs, inode_field}
use chanux.Ramfs.Release.{free_block-inodes, free_block-disk}
use chanux.Ramfs.Content.{Ensured, ensure_block-Ensured}
use chanux.Ramfs.Truncate.{ramfs_truncate-Truncated}
use chanux.Ramfs.Create.{
  Keeps, Keeps-refl, Keeps-trans, set_inode-Keeps, disk-Keeps, ensure_block-marks,
}
use chanux.Ramfs.Marks.{IsSound, Keeps-IsSound}

-- The types and the marks of the inodes stay.
abbrev Same : Ramfs → Ramfs → Type 0
Same s t = ((j : ℕ) → (t.inodes j).type ≡ (s.inodes j).type) × (t.inode_bitmap ≡ s.inode_bitmap)

Same-trans : (s t u : Ramfs) → Same s t → Same t u → Same s u
Same-trans s t u k l = (λ j. l.0 j ∙ k.0 j, l.1 ∙ k.1)

hole_or_drop-Same : (s : Ramfs) (i k : ℕ) → Same s (drop_blocks s i 1 k)
unfolding drop_blocks
hole_or_drop-Same s i k =
    let freed = free_block s ((s.inodes i).blocks k) in
    let node = record (freed.inodes i) {
      blocks = update (freed.inodes i).blocks k 0;
      block_count = sub32 (freed.inodes i).block_count 1;
    } in
    elim (Bool-cases ((s.inodes i).blocks k == 0)) [
      | inl hole ↦ rw hole (λ j. refl, refl)
      | inr there ↦ rw there (
        λ j.
            inode_field freed i node (λ x. x.type) refl j
            ∙ ap (λ f. (f j).type) (free_block-inodes s ((s.inodes i).blocks k)),
        (free_block-disk s ((s.inodes i).blocks k)).1,
      )
    ]

drop_blocks-Same : (n : ℕ) (s : Ramfs) (i k : ℕ) → Same s (drop_blocks s i n k)
unfolding drop_blocks
drop_blocks-Same zero s i k = (λ j. refl, refl)
drop_blocks-Same (suc n) s i k =
    let t = drop_blocks s i 1 k in
    Same-trans s t (drop_blocks t i n (k + 1)) (hole_or_drop-Same s i k)
      (drop_blocks-Same n t i (k + 1))

-- The file is shrunk, if at all, and its inode gets another size.
truncate-Same :
    (s : Ramfs) (i new_size : ℕ)
    → (s.inodes i).type ≡ type_file
    → Same s (ramfs_truncate s i new_size).1
unfolding ramfs_truncate
truncate-Same s i new_size file =
    let is_file : not ((s.inodes i).type == type_file) ≡ false = ground (arith, file) in
    let size = if ltb max_size new_size then max_size else new_size in
    let first = (size + block_size - 1) / block_size in
    let t =
      if ltb size (s.inodes i).size then drop_blocks s i (direct_blocks - first) first else s in
    let node = record (t.inodes i) { size = size; modified = s.ticks } in
    let dropped = drop_blocks-Same (direct_blocks - first) s i first in
    let shrunk : Same s t = elim (Bool-cases (ltb size (s.inodes i).size)) [
      | inl less ↦ rw less dropped
      | inr more ↦ rw more (λ j. refl, refl)
    ] in
    let same : ramfs_truncate s i new_size ≡ (true, set_inode t i node) = rw is_file refl in
    subst (λ r. Same s r.1) (sym same)
      (λ j. inode_field t i node (λ x. x.type) refl j ∙ shrunk.0 j, shrunk.1)

pub ramfs_truncate-IsSound :
    (s : Ramfs) (i new_size : ℕ) → IsSound s → IsSound (ramfs_truncate s i new_size).1
unfolding ramfs_truncate
ramfs_truncate-IsSound s i new_size v = elim (Bool-cases ((s.inodes i).type == type_file)) [
  | inl file ↦
      let e = ==→eq (s.inodes i).type type_file file in
      let t = ramfs_truncate-Truncated s i new_size v.valid e in
      let same = truncate-Same s i new_size e in
      Keeps-IsSound s (ramfs_truncate s i new_size).1 v
        (record { valid = t.1.valid; type = same.0; marks = same.1 })
  | inr other ↦
      let same : ramfs_truncate s i new_size ≡ (false, s) = rw other refl in
      subst (λ r. IsSound r.1) (sym same) v
]

pub ramfs_read-IsSound :
    (s : Ramfs) (i : ℕ) (buf : ℕ → ℕ) (count offset : ℕ)
    → IsSound s
    → IsSound (ramfs_read s i buf count offset).1
unfolding ramfs_read
ramfs_read-IsSound s i buf count offset v = elim (Bool-cases ((s.inodes i).type == type_file)) [
  | inr other ↦ rw other v
  | inl file ↦ elim (Bool-cases (leb (s.inodes i).size offset)) [
    | inl end ↦ rw (file, end) v
    | inr inside ↦
        let node = record (s.inodes i) { accessed = s.ticks } in
        rw (file, inside)
          (Keeps-IsSound s (set_inode s i node) v (set_inode-Keeps s i node refl refl v.valid))
  ]
]

ensured-Keeps : (s t : Ramfs) (i k : ℕ) → IsFs s → ensure_block s i k ≡ some t → Keeps s t
ensured-Keeps s t i k v e =
    let (valid, same, there) = subst (Ensured s i k) e (ensure_block-Ensured s i k v) in
    record { valid = valid; type = same.type; marks = ensure_block-marks s t i k e }

write_loop-Keeps :
    (fuel : ℕ) (s : Ramfs) (i : ℕ) (src : ℕ → ℕ) (count offset done : ℕ)
    → IsFs s
    → Keeps s (write_loop fuel s i src count offset done).1
unfolding write_loop
write_loop-Keeps zero s i src count offset done v = Keeps-refl s v
write_loop-Keeps (suc fuel) s i src count offset done v =
    let pos = offset + done in
    let n = min_size (count - done) (block_size - pos % block_size) in
    elim (Bool-cases (not (ltb done count))) [
      | inl finished ↦ rw finished (Keeps-refl s v)
      | inr more ↦ elim (Bool-cases (leb direct_blocks (pos / block_size))) [
        | inl out ↦ rw (more, out) (Keeps-refl s v)
        | inr inside ↦ elim (Option-cases (ensure_block s i (pos / block_size))) [
          | inl full ↦ rw (more, inside, full) (Keeps-refl s v)
          | inr (t, e) ↦
              let k = ensured-Keeps s t i (pos / block_size) v e in
              let b = (t.inodes i).blocks (pos / block_size) in
              let put = put_chunk t b pos (λ k. src (done + k)) n in
              let k' = Keeps-trans s t put k (disk-Keeps t put.disk k.valid) in
              let rest = write_loop-Keeps fuel put i src count offset (done + n) k'.valid in
              elim (Bool-cases (leb t.disk_blocks b)) [
                | inl outside ↦ rw (more, inside, e, outside) k
                | inr on_disk ↦
                    rw (more, inside, e, on_disk)
                      (Keeps-trans s put (write_loop fuel put i src count offset (done + n)).1 k'
                        rest)
              ]
        ]
      ]
    ]

finish_write-IsSound :
    (i offset : ℕ) (r : ℕ × Ramfs) → IsSound r.1 → IsSound (finish_write i offset r).1
finish_write-IsSound i offset (done, s) v =
    let node = record (s.inodes i) {
      size = if ltb (s.inodes i).size (offset + done) then offset + done else (s.inodes i).size;
      modified = s.ticks;
      accessed = s.ticks;
    } in
    Keeps-IsSound s (set_inode s i node) v (set_inode-Keeps s i node refl refl v.valid)

pub ramfs_write-IsSound :
    (s : Ramfs) (i : ℕ) (src : ℕ → ℕ) (count offset : ℕ)
    → IsSound s
    → IsSound (ramfs_write s i src count offset).1
unfolding ramfs_write
ramfs_write-IsSound s i src count offset v =
    let count' = if ltb max_size (add64 offset count) then max_size - offset else count in
    let r = write_loop rounds s i src count' offset 0 in
    elim (Bool-cases (not ((s.inodes i).type == type_file))) [
      | inl other ↦ rw other v
      | inr file ↦ elim (Bool-cases (ltb max_size offset)) [
        | inl out ↦ rw (file, out) v
        | inr inside ↦
            rw (file, inside)
              (finish_write-IsSound i offset r
                (Keeps-IsSound s r.1 v (write_loop-Keeps rounds s i src count' offset 0 v.valid)))
      ]
    ]
