-- ===== src/Vfs/ReadBack.antt =====
-- `vfs_write`, `vfs_lseek` and `vfs_read` of kernel/fs/vfs.c on one open file.
use chanux.Common.{
  ℕ, ◌≤◌, ◌<◌, ◌≡◌, ◌∙◌, refl, sym, ap, subst, true, false, ◌==◌, leb, Option, none, some, add64,
  arith, eq→==, ◌^◌,
}
use chanux.FileTable.{File, file_type_console, o_rdonly, o_wronly}
use chanux.Ramfs.{Ramfs, type_file}
use chanux.Ramfs.Files.{ramfs_read, ramfs_write, max_size}
use chanux.Ramfs.Owned.{IsFs}
use chanux.Ramfs.ReadBack.{IsReadBack, ramfs_read-write}
use chanux.Vfs.{Vfs, vnode_at, is_set, set_fs, with_fs}
use chanux.Vfs.Calls.{
  file_at, set_file, access_mode, appends, vfs_read, vfs_write, ramfs_vfs_read, ramfs_vfs_write,
  advance, finish_read, finish_vfs_write, usable_vnode, read_vnode, write_vnode, at_end,
}
use chanux.Vfs.Seek.{vfs_lseek}

-- An open file that can be read and written, with its vnode and inode.
pub record IsOpen (s : Vfs) (f v i : ℕ) : Type 0 where
  pub vnode : (file_at s f).vnode ≡ some v
  pub inode : (vnode_at s v).inode ≡ some i
  pub ops : is_set (vnode_at s v).ops ≡ true
  pub readable : (access_mode (file_at s f).flags == o_wronly) ≡ false
  pub writable : (access_mode (file_at s f).flags == o_rdonly) ≡ false
  pub in_place : appends (file_at s f).flags ≡ false
  pub on_disk : ((file_at s f).type == file_type_console) ≡ false

pub file_here : (s : Vfs) (f : ℕ) (file : File) → file_at (set_file s f file) f ≡ file
file_here s f file = rw (eq→== f f refl) refl

moved-IsOpen :
    (s : Vfs) (f v i offset : ℕ) (fs : Ramfs)
    → IsOpen s f v i
    → IsOpen (set_file (set_fs s fs) f (record (file_at s f) { offset = offset })) f v i
moved-IsOpen s f v i offset fs o =
    let file = record (file_at s f) { offset = offset } in
    let e = file_here s f file in
    record {
      vnode = ap (λ x. x.vnode) e ∙ o.vnode;
      inode = o.inode;
      ops = o.ops;
      readable = ap (λ x. access_mode x.flags == o_wronly) e ∙ o.readable;
      writable = ap (λ x. access_mode x.flags == o_rdonly) e ∙ o.writable;
      in_place = ap (λ x. appends x.flags) e ∙ o.in_place;
      on_disk = ap (λ x. x.type == file_type_console) e ∙ o.on_disk;
    }

pub usable_open : (s : Vfs) (f v i : ℕ) → IsOpen s f v i → usable_vnode s f ≡ some v
usable_open s f v i o = rw (usable_vnode, o.vnode, o.ops) refl

at_end_open : (s : Vfs) (f v i : ℕ) → IsOpen s f v i → at_end s f v ≡ s
at_end_open s f v i o = rw (at_end, o.in_place) refl

pub vfs_write_open :
    (s : Vfs) (f v i : ℕ) (src : ℕ → ℕ) (count : ℕ)
    → IsOpen s f v i
    → vfs_write s (some f) src count
      ≡ finish_vfs_write f (with_fs s (ramfs_write s.fs i src count (file_at s f).offset))
unfolding vfs_write ramfs_vfs_write
vfs_write_open s f v i src count o =
    rw (o.writable, usable_open s f v i o, write_vnode)
      (ap (λ t. finish_vfs_write f (ramfs_vfs_write t v src count (file_at t f).offset))
          (at_end_open s f v i o)
        ∙ rw (ramfs_vfs_write, o.inode) refl)

pub vfs_read_open :
    (s : Vfs) (f v i : ℕ) (buf : ℕ → ℕ) (count : ℕ)
    → IsOpen s f v i
    → vfs_read s (some f) buf count
      ≡ finish_read f (with_fs s (ramfs_read s.fs i buf count (file_at s f).offset))
unfolding vfs_read ramfs_vfs_read
vfs_read_open s f v i buf count o =
    rw (o.readable, usable_open s f v i o, read_vnode, ramfs_vfs_read, o.inode) refl

pub vfs_lseek_open :
    (s : Vfs) (f v i offset : ℕ)
    → IsOpen s f v i
    → offset < 2 ^ 63
    → vfs_lseek s (some f) offset 0
      ≡ (some offset, set_file s f (record (file_at s f) { offset = offset }))
unfolding vfs_lseek
vfs_lseek_open s f v i offset o small =
    let e : add64 0 offset ≡ offset = omega arith in
    let low : leb (2 ^ 63) offset ≡ false = ground arith in rw (o.on_disk, e, low) refl

read_back :
    (s : Vfs) (f v i offset : ℕ) (src buf : ℕ → ℕ) (m : ℕ) (r : Option ℕ × Ramfs)
    → IsOpen s f v i
    → offset < 2 ^ 63
    → (finish_vfs_write f (with_fs s r)).0 ≡ some m
    → IsReadBack src m (ramfs_read r.1 i buf m offset).0
    → IsReadBack src m
        (vfs_read
          (vfs_lseek (finish_vfs_write f (with_fs s r)).1 (some f) offset 0).1
          (some f)
          buf
          m).0
read_back s f v i offset src buf m (none, fs) o small e b = absurd (ground (arith, e))
read_back s f v i offset src buf m (some n, fs) o small e b =
    let s1 = advance (set_fs s fs) f n in
    let o1 = moved-IsOpen s f v i (add64 (file_at s f).offset n) fs o in
    let file = record (file_at s1 f) { offset = offset } in
    let s2 = set_file s1 f file in
    let o2 = moved-IsOpen s1 f v i offset fs o1 in
    let read =
      vfs_read_open s2 f v i buf m o2
      ∙ ap (λ x. finish_read f (with_fs s2 (ramfs_read fs i buf m x)))
          (ap (λ x. x.offset) (file_here s1 f file)) in
    subst (λ x. IsReadBack src m (vfs_read x.1 (some f) buf m).0)
      (sym (vfs_lseek_open s1 f v i offset o1 small))
      (subst (λ x. IsReadBack src m x.0) (sym read) (kept s2 (ramfs_read fs i buf m offset) b))
  where
    kept :
        (t : Vfs) (r : Option (ℕ × (ℕ → ℕ)) × Ramfs)
        → IsReadBack src m r.0
        → IsReadBack src m (finish_read f (with_fs t r)).0
    kept t (none, fs) h = h
    kept t (some (k, out), fs) h = h

-- What vfs_write has written to an open file of the filesystem, vfs_read reads back after vfs_lseek
-- to the old offset: as many bytes, and the same. The file is open for both, not for appending, is
-- no larger than the largest size, and has its offset within it.
pub vfs_read-write :
    (s : Vfs) (f v i : ℕ) (src buf : ℕ → ℕ) (count m : ℕ)
    → IsFs s.fs
    → IsOpen s f v i
    → (s.fs.inodes i).type ≡ type_file
    → (s.fs.inodes i).size ≤ max_size
    → (file_at s f).offset ≤ max_size
    → count < 2 ^ 63
    → (vfs_write s (some f) src count).0 ≡ some m
    → IsReadBack src m
        (vfs_read
          (vfs_lseek (vfs_write s (some f) src count).1 (some f) (file_at s f).offset 0).1
          (some f)
          buf
          m).0
vfs_read-write s f v i src buf count m fs o file small le few e =
    let offset = (file_at s f).offset in
    let r = ramfs_write s.fs i src count offset in
    let same = vfs_write_open s f v i src count o in
    let wrote : (finish_vfs_write f (with_fs s r)).0 ≡ some m = ap (λ x. x.0) (sym same) ∙ e in
    subst (λ x. IsReadBack src m (vfs_read (vfs_lseek x.1 (some f) offset 0).1 (some f) buf m).0)
      (sym same)
      (read_back s f v i offset src buf m r o (omega arith) wrote (
        ramfs_read-write s.fs i src buf count offset m fs file small le (omega arith)
          (written r wrote)))
  where
    written : (r : Option ℕ × Ramfs) → (finish_vfs_write f (with_fs s r)).0 ≡ some m → r.0 ≡ some m
    written (none, t) h = h
    written (some n, t) h = h
