-- ===== src/Ramfs/Files.antt =====
-- `ramfs_read`, `ramfs_write` and `ramfs_truncate` of kernel/fs/ramfs.c.
use chanux.Common.{
  ℕ, zero, suc, ◌+◌, ◌-◌, ◌*◌, ◌/◌, ◌%◌, Bool, true, false, not, ◌&&◌, ◌==◌, ltb, leb,
  if◌then◌else◌, Option, none, some, update, add32, sub32, add64,
}
use chanux.Ramfs.{
  Inode, Ramfs, set_inode, write_bytes, alloc_block, free_block, block_size, direct_blocks,
  type_file,
}

abbrev pub max_size : ℕ
max_size = direct_blocks * block_size

abbrev pub min_size : ℕ → ℕ → ℕ
min_size a b = if ltb a b then a else b

-- What one round of the loop of `ramfs_read` puts into the buffer from `done` on: the bytes of one
-- block, or zeros where the file has none.
abbrev pub read_chunk : Ramfs → Inode → (ℕ → ℕ) → ℕ → ℕ → ℕ → (ℕ → ℕ)
read_chunk s node buf done pos n =
    let b = node.blocks (pos / block_size) in
    write_bytes buf done (λ k. if b == 0 then 0 else s.disk (b * block_size + pos % block_size + k))
      n

-- The loop of `ramfs_read`, on fuel: how many bytes were read, and the buffer. A round goes on to
-- the next block or is the last, so 13 rounds are enough.
unfoldable pub read_loop : ℕ → Ramfs → Inode → (ℕ → ℕ) → ℕ → ℕ → ℕ → ℕ × (ℕ → ℕ)
read_loop zero s node buf count offset done = (done, buf)
read_loop (suc fuel) s node buf count offset done =
    let pos = offset + done in
    let b = node.blocks (pos / block_size) in
    let n = min_size (count - done) (block_size - pos % block_size) in
    let rest = read_loop fuel s node (read_chunk s node buf done pos n) count offset (done + n) in
    if not (ltb done count)
    then (done, buf)
    else if leb direct_blocks (pos / block_size)
    then (done, buf)
    else if not (b == 0) && leb s.disk_blocks b
    then (done, buf)
    else rest

abbrev pub rounds : ℕ
rounds = 13

-- `none` stands for -1. The result is the number of bytes read, and the buffer.
unfoldable pub ramfs_read : Ramfs → ℕ → (ℕ → ℕ) → ℕ → ℕ → Option (ℕ × (ℕ → ℕ)) × Ramfs
ramfs_read s i buf count offset =
    let node = s.inodes i in
    let count' = if ltb node.size (add64 offset count) then node.size - offset else count in
    if not (node.type == type_file)
    then (none, s)
    else if leb node.size offset
    then (some (0, buf), s)
    else (
      some (read_loop rounds s node buf count' offset 0),
      set_inode s i (record node { accessed = s.ticks }),
    )

-- The block pointer at `index` is set.
unfoldable pub set_block : Ramfs → ℕ → ℕ → ℕ → Ramfs
set_block s i index b = set_inode s i (record (s.inodes i) {
  blocks = update (s.inodes i).blocks index b;
  block_count = add32 (s.inodes i).block_count 1;
})

abbrev pub use_block : ℕ → ℕ → Option ℕ × Ramfs → Option Ramfs
use_block i index (none, s) = none
use_block i index (some b, s) = some (set_block s i index b)

-- The block at `index` is allocated if there is none. `none` if there is no free block.
unfoldable pub ensure_block : Ramfs → ℕ → ℕ → Option Ramfs
ensure_block s i index =
    if (s.inodes i).blocks index == 0 then use_block i index (alloc_block s) else some s

abbrev pub put_chunk : Ramfs → ℕ → ℕ → (ℕ → ℕ) → ℕ → Ramfs
put_chunk s b pos src n = record s {
  disk = write_bytes s.disk (b * block_size + pos % block_size) src n;
}

-- The loop of `ramfs_write`, on fuel.
unfoldable pub write_loop : ℕ → Ramfs → ℕ → (ℕ → ℕ) → ℕ → ℕ → ℕ → ℕ × Ramfs
write_loop zero s i src count offset done = (done, s)
write_loop (suc fuel) s i src count offset done =
    let pos = offset + done in
    let n = min_size (count - done) (block_size - pos % block_size) in
    let step : ℕ × Ramfs = elim (ensure_block s i (pos / block_size)) [
      | none ↦ (done, s)
      | some s' ↦
          let b = (s'.inodes i).blocks (pos / block_size) in
          let rest =
            write_loop fuel (put_chunk s' b pos (λ k. src (done + k)) n) i src count offset
              (done + n) in
          if leb s'.disk_blocks b then (done, s') else rest
    ] in
    if not (ltb done count)
    then (done, s)
    else if leb direct_blocks (pos / block_size)
    then (done, s)
    else step

-- The end of `ramfs_write`.
abbrev pub finish_write : ℕ → ℕ → ℕ × Ramfs → Option ℕ × Ramfs
finish_write i offset (done, s) =
    let node = s.inodes i in
    (
      some done,
      set_inode s i (record node {
        size = if ltb node.size (offset + done) then offset + done else node.size;
        modified = s.ticks;
        accessed = s.ticks;
      }),
    )

unfoldable pub ramfs_write : Ramfs → ℕ → (ℕ → ℕ) → ℕ → ℕ → Option ℕ × Ramfs
ramfs_write s i src count offset =
    let count' = if ltb max_size (add64 offset count) then max_size - offset else count in
    if not ((s.inodes i).type == type_file)
    then (none, s)
    else if ltb max_size offset
    then (none, s)
    else finish_write i offset (write_loop rounds s i src count' offset 0)

-- The loop of `ramfs_truncate` over `n` block pointers from `k` on.
unfoldable pub drop_blocks : Ramfs → ℕ → ℕ → ℕ → Ramfs
drop_blocks s i zero k = s
drop_blocks s i (suc n) k =
    let node = s.inodes i in
    let freed = free_block s (node.blocks k) in
    let dropped = set_inode freed i (record (freed.inodes i) {
      blocks = update (freed.inodes i).blocks k 0;
      block_count = sub32 (freed.inodes i).block_count 1;
    }) in
    drop_blocks (if node.blocks k == 0 then s else dropped) i n (k + 1)

unfoldable pub ramfs_truncate : Ramfs → ℕ → ℕ → Bool × Ramfs
ramfs_truncate s i new_size =
    let size = if ltb max_size new_size then max_size else new_size in
    let first = (size + block_size - 1) / block_size in
    let shrunk =
      if ltb size (s.inodes i).size then drop_blocks s i (direct_blocks - first) first else s in
    if not ((s.inodes i).type == type_file)
    then (false, s)
    else (true, set_inode shrunk i (record (shrunk.inodes i) { size = size; modified = s.ticks }))
