-- ===== src/Ramfs/Read.antt =====
-- `ramfs_read` of kernel/fs/ramfs.c reads the bytes of its file.
use chanux.Common.{
  ℕ, zero, suc, ◌+◌, ◌-◌, ◌/◌, ◌%◌, ◌≤◌, ◌<◌, ◌≡◌, refl, sym, subst, true, false, not, ◌&&◌, ◌==◌,
  ltb, leb, if◌then◌else◌, Option, none, some, add64, u64_mod, arith, Bool-cases, inl, inr,
}
use chanux.Ramfs.{Ramfs, set_inode, write_bytes, block_size, direct_blocks, type_file}
use chanux.Ramfs.Files.{read_chunk, read_loop, ramfs_read, max_size, rounds, min_size}
use chanux.Ramfs.Owned.{IsFs, pointer}
use chanux.Ramfs.Content.{byte_of, content}
use chanux.Ramfs.WriteFile.{content-set_inode}

-- The places of the buffer from `from` up to `to` hold the file's bytes from `offset` on.
abbrev pub Holds : Ramfs → ℕ → ℕ → ℕ → ℕ → (ℕ → ℕ) → (ℕ → ℕ) → Type 0
Holds s i offset from to buf buf' =
    (k : ℕ) → buf' k ≡ (if leb from k && ltb k to then content s i (offset + k) else buf k)

abbrev Enough : ℕ → ℕ → ℕ → ℕ → Type 0
Enough fuel count offset done =
    (0 < fuel) × (done < count → direct_blocks < fuel + (offset + done) / block_size)

module _ (s : Ramfs) (i count offset done : ℕ) (buf : ℕ → ℕ) where
  abbrev pos : ℕ
  pos = offset + done

  abbrev size : ℕ
  size = min_size (count - done) (block_size - pos % block_size)

  abbrev b : ℕ
  b = pointer s i (pos / block_size)

  read_done :
      (fuel : ℕ)
      → count ≤ done
      → read_loop (suc fuel) s (s.inodes i) buf count offset done ≡ (done, buf)
  unfolding read_loop
  read_done fuel le = let e : ltb done count ≡ false = ground arith in rw e refl

  module _ (more : done < count) (top : offset + count ≤ max_size) (v : IsFs s) where
    size_bounds : (0 < size) × (done + size ≤ count) × (size ≤ block_size - pos % block_size)
    size_bounds = (ground arith, ground arith, ground arith)

    next-Enough :
        (fuel : ℕ) → Enough (suc fuel) count offset done → Enough fuel count offset (done + size)
    next-Enough fuel enough =
        let before = enough.1 more in
        (
          omega arith,
          λ left.
              let whole : size ≡ block_size - pos % block_size = ground arith in
              omega (arith, whole),
        )

    on_disk : (not (b == 0) && leb s.disk_blocks b) ≡ false
    on_disk = elim (Bool-cases (b == 0)) [
      | inl none_there ↦ rw none_there refl
      | inr there ↦
          let u = v.used i (pos / block_size) refl (λ z. absurd (ground (arith, there, z))) in
          let high = u.high in ground (arith, there)
    ]

    read_next :
        (fuel : ℕ)
        → read_loop (suc fuel) s (s.inodes i) buf count offset done
          ≡ read_loop fuel s
              (s.inodes i)
              (read_chunk s (s.inodes i) buf done pos size)
              count
              offset
              (done + size)
    unfolding read_loop
    read_next fuel =
        let go : ltb done count ≡ true = ground arith in
        let index_in : leb direct_blocks (pos / block_size) ≡ false = ground arith in
        rw (go, index_in, on_disk) refl

    chunk-Holds :
        Holds s i offset done (done + size) buf (read_chunk s (s.inodes i) buf done pos size)
    unfolding write_bytes content byte_of
    chunk-Holds k = elim (Bool-cases (leb done k && ltb k (done + size))) [
      | inr out ↦ rw out refl
      | inl inside ↦
          let low : done ≤ k = ground (arith, inside) in
          let high : k < done + size = ground (arith, inside) in
          let small = size_bounds.2 in
          let index : (offset + k) / block_size ≡ pos / block_size = omega arith in
          let place : pos % block_size + (k - done) ≡ (offset + k) % block_size = omega arith in
          rw (inside, index) (ground (arith, place))
    ]

Holds-join :
    (s : Ramfs) (i offset from mid to : ℕ) (b b1 b2 : ℕ → ℕ)
    → from ≤ mid
    → mid ≤ to
    → Holds s i offset from mid b b1
    → Holds s i offset mid to b1 b2
    → Holds s i offset from to b b2
Holds-join s i offset from mid to b b1 b2 le le' h h' k = ground (arith, h k, h' k)

read_loop_lem :
    (fuel : ℕ) (s : Ramfs) (i count offset done : ℕ) (buf : ℕ → ℕ)
    → IsFs s
    → done ≤ count
    → offset + count ≤ max_size
    → Enough fuel count offset done
    → (let r = read_loop fuel s (s.inodes i) buf count offset done in
        (r.0 ≡ count) × Holds s i offset done count buf r.1)
read_loop_lem zero s i count offset done buf v le top enough = absurd (omega (arith, enough.0))
read_loop_lem (suc fuel) s i count offset done buf v le top enough =
    let End : ℕ × (ℕ → ℕ) → Type 0 =
      λ (r : ℕ × (ℕ → ℕ)). (r.0 ≡ count) × Holds s i offset done count buf r.1 in
    elim (Bool-cases (ltb done count)) [
      | inr finished ↦
          let all : count ≤ done = ground arith in
          subst End (sym (read_done s i count offset done buf fuel all))
            (omega arith, λ k. ground arith)
      | inl go ↦
          let more : done < count = ground arith in
          let n = size s i count offset done buf in
          let buf' = read_chunk s (s.inodes i) buf done (offset + done) n in
          let bounds = size_bounds s i count offset done buf more top v in
          let ih =
            read_loop_lem fuel s i count offset (done + n) buf' v bounds.1 top
              (next-Enough s i count offset done buf more top v fuel enough) in
          let r = read_loop fuel s (s.inodes i) buf' count offset (done + n) in
          subst End (sym (read_next s i count offset done buf more top v fuel)) (
            ih.0,
            Holds-join s i offset done (done + n) count buf buf' r.1 (omega arith) bounds.1
                (chunk-Holds s i count offset done buf more top v) ih.1,
          )
    ]

-- How many bytes there are to read.
abbrev pub readable : ℕ → ℕ → ℕ → ℕ
readable size count offset =
    if leb size offset then 0 else if ltb size (offset + count) then size - offset else count

-- `n` bytes of file `i` from `offset` on are in the buffer.
abbrev pub IsRead : Ramfs → ℕ → ℕ → (ℕ → ℕ) → ℕ → Option (ℕ × (ℕ → ℕ)) → Type 0
IsRead s i offset buf n none = ⊥
IsRead s i offset buf n (some (m, buf')) = (m ≡ n) × Holds s i offset 0 n buf buf'

-- How many bytes there are before the end.
abbrev left : Ramfs → ℕ → ℕ → ℕ → ℕ
left s i count offset =
    if ltb (s.inodes i).size (offset + count) then (s.inodes i).size - offset else count

module _ (s : Ramfs) (i : ℕ) (buf : ℕ → ℕ) (count offset : ℕ)
    (file : (s.inodes i).type ≡ type_file) where
  is_file : not ((s.inodes i).type == type_file) ≡ false
  is_file = ground (arith, file)

  read_behind :
      leb (s.inodes i).size offset ≡ true → ramfs_read s i buf count offset ≡ (some (0, buf), s)
  unfolding ramfs_read
  read_behind behind = rw (is_file, behind) refl

  read_before :
      leb (s.inodes i).size offset ≡ false
      → offset + count < u64_mod
      → ramfs_read s i buf count offset ≡ (
        some (read_loop rounds s (s.inodes i) buf (left s i count offset) offset 0),
        set_inode s i (record (s.inodes i) { accessed = s.ticks }),
      )
  unfolding ramfs_read
  read_before before top =
      let sum : add64 offset count ≡ offset + count = omega arith in rw (is_file, before, sum) refl

-- ramfs_read, on a file no larger than the largest size, reads as many bytes as it is asked for, or
-- up to the end of the file, and none from behind the end: those places of the buffer hold the
-- bytes of the file then, zeros where the file has no block, and the rest of the buffer is as
-- before. The bytes of every file stay as they are.
pub ramfs_read-IsRead :
    (s : Ramfs) (i : ℕ) (buf : ℕ → ℕ) (count offset : ℕ)
    → IsFs s
    → (s.inodes i).type ≡ type_file
    → (s.inodes i).size ≤ max_size
    → offset + count < u64_mod
    → (let r = ramfs_read s i buf count offset in
        IsRead s i offset buf (readable (s.inodes i).size count offset) r.0
        × ((j p : ℕ) → content r.1 j p ≡ content s j p))
ramfs_read-IsRead s i buf count offset v file small top =
    elim (Bool-cases (leb (s.inodes i).size offset)) [
      | inl behind ↦
          let none_left : readable (s.inodes i).size count offset ≡ 0 = rw behind refl in
          rw (read_behind s i buf count offset file behind, none_left)
            ((refl, λ k. ground arith), λ j p. refl)
      | inr before ↦
          let n = left s i count offset in
          let fits : offset + n ≤ max_size = ground (arith, before) in
          let all : readable (s.inodes i).size count offset ≡ n = rw before refl in
          rw (read_before s i buf count offset file before top, all)
            (
              read_loop_lem rounds s i n offset 0 buf v (omega arith) fits
                  (omega arith, λ more. omega arith),
              content-set_inode s i (record (s.inodes i) { accessed = s.ticks }) refl,
            )
    ]
