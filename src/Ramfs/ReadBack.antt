-- ===== src/Ramfs/ReadBack.antt =====
-- `ramfs_write` and then `ramfs_read` of kernel/fs/ramfs.c.
use chanux.Common.{
  ℕ, ◌+◌, ◌-◌, ◌≤◌, ◌<◌, ◌≡◌, ◌∙◌, refl, subst, true, ◌&&◌, ◌==◌, ltb, leb, Option, none, some,
  u64_mod, arith, eq→==,
}
use chanux.Ramfs.{Ramfs, type_file}
use chanux.Ramfs.Files.{ramfs_read, ramfs_write, max_size}
use chanux.Ramfs.Owned.{IsFs}
use chanux.Ramfs.Read.{Holds, IsRead, readable, ramfs_read-IsRead}
use chanux.Ramfs.WriteFile.{FileWritten, ramfs_write-FileWritten}

-- The first `m` places of the buffer are those of `src`.
abbrev pub IsReadBack : (ℕ → ℕ) → ℕ → Option (ℕ × (ℕ → ℕ)) → Type 0
IsReadBack src m none = ⊥
IsReadBack src m (some (n, buf)) = (n ≡ m) × ((k : ℕ) → k < m → buf k ≡ src k)

holds_written :
    (s s' : Ramfs) (i offset m k : ℕ) (src buf buf' : ℕ → ℕ) (count : ℕ)
    → FileWritten s i src count offset m s'
    → Holds s' i offset 0 m buf buf'
    → k < m
    → buf' k ≡ src k
holds_written s s' i offset m k src buf buf' count w h lt =
    let here : (leb 0 k && ltb k m) ≡ true = ground arith in
    let there : (i == i && (leb offset (offset + k) && ltb (offset + k) (offset + m))) ≡ true =
      ground (arith, eq→== i i refl) in
    let place : offset + k - offset ≡ k = omega arith in
    h k ∙ rw here (w.written i (offset + k) ∙ rw (there, place) refl)

read_back :
    (s s' : Ramfs) (i : ℕ) (src buf : ℕ → ℕ) (count offset m : ℕ) (o : Option (ℕ × (ℕ → ℕ)))
    → FileWritten s i src count offset m s'
    → IsRead s' i offset buf m o
    → IsReadBack src m o
read_back s s' i src buf count offset m none w r = r
read_back s s' i src buf count offset m (some (n, buf')) w r =
    (r.0, λ k. holds_written s s' i offset m k src buf buf' count w r.1)

-- What ramfs_write has written to a file, ramfs_read reads back from it: as many bytes, and the
-- same. The file is no larger than the largest size, and the offset is within it.
pub ramfs_read-write :
    (s : Ramfs) (i : ℕ) (src buf : ℕ → ℕ) (count offset m : ℕ)
    → IsFs s
    → (s.inodes i).type ≡ type_file
    → (s.inodes i).size ≤ max_size
    → offset ≤ max_size
    → offset + count < u64_mod
    → (ramfs_write s i src count offset).0 ≡ some m
    → IsReadBack src m (ramfs_read (ramfs_write s i src count offset).1 i buf m offset).0
ramfs_read-write s i src buf count offset m v file small le top e =
    let (m', e', w') = ramfs_write-FileWritten s i src count offset v file le top in
    let same : m' ≡ m = ground (arith, e, e') in
    let s' = (ramfs_write s i src count offset).1 in
    let w : FileWritten s i src count offset m s' =
      subst (λ x. FileWritten s i src count offset x s') same w' in
    let inside = w.in_file in
    let grown = w.size in
    let small' : (s'.inodes i).size ≤ max_size = ground (arith, grown) in
    let all : readable (s'.inodes i).size m offset ≡ m = ground (arith, grown) in
    let r = (ramfs_read-IsRead s' i buf m offset w.valid (w.type ∙ file) small' (omega arith)).0 in
    read_back s s' i src buf count offset m (ramfs_read s' i buf m offset).0 w
      (subst (λ n. IsRead s' i offset buf n (ramfs_read s' i buf m offset).0) all r)
