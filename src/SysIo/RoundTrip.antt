-- ===== src/SysIo/RoundTrip.antt =====
-- `sys_write`, `sys_lseek` and `sys_read` on one open descriptor.
use chanux.Common.{
  ℕ, ◌+◌, ◌-◌, ◌≤◌, ◌<◌, ◌≡◌, ◌∙◌, refl, sym, ap, subst, true, false, ◌==◌, leb, Option, none, some,
  arith, ℤ, pos,
}
use chanux.Memory.{Mem}
use chanux.FileTable.{FdTable}
use chanux.Ramfs.{type_file}
use chanux.Ramfs.Files.{max_size}
use chanux.Ramfs.Owned.{IsFs}
use chanux.Ramfs.ReadBack.{IsReadBack}
use chanux.Vfs.{Vfs}
use chanux.Vfs.Calls.{file_at, vfs_read, vfs_write}
use chanux.Vfs.Seek.{vfs_lseek}
use chanux.Vfs.ReadBack.{IsOpen, vfs_read-write}
use chanux.SysFs.{SysState, Caller, entry_of, sys_lseek, seek_result}
use chanux.SysIo.{
  IoState, set_vfs, validate_user_ptr, write_result, write_file, sys_write, read_result, read_file,
  sys_read,
}
use chanux.SysIo.Bounds.{IsUser, validate-IsUser}

-- What memory a buffer in user space is accepted for.
accepted : (buf len : ℕ) → IsUser buf len → validate_user_ptr buf len ≡ true
accepted buf len u = (validate-IsUser buf len (omega (arith, u)) (omega (arith, u))).1 u

-- The descriptor is that of an open file, and not of the console.
abbrev pub IsFile : SysState → ℕ → Caller → FdTable → ℕ → Type 0
IsFile s fd p t f = (3 ≤ fd) × (entry_of s (pos fd) ≡ some (p, t, fd, f))

sys_write_file :
    (s : IoState) (mem : Mem) (p : Caller) (t : FdTable) (fd f buf len : ℕ)
    → IsFile s.sys fd p t f
    → IsUser buf len
    → sys_write s mem (pos fd) buf len
      ≡ write_result s (vfs_write s.sys.vfs (some f) (λ k. mem (buf + k)) len)
unfolding sys_write
sys_write_file s mem p t fd f buf len (high, e) u =
    let n0 : (fd == 0) ≡ false = ground arith in
    let n1 : (fd == 1) ≡ false = ground arith in
    let n2 : (fd == 2) ≡ false = ground arith in
    rw (accepted buf len u, n0, n1, n2) (ap (write_file s mem buf len) e)

sys_read_file :
    (s : IoState) (mem : Mem) (p : Caller) (t : FdTable) (fd f buf len : ℕ)
    → IsFile s.sys fd p t f
    → IsUser buf len
    → sys_read s mem (pos fd) buf len
      ≡ read_result s mem buf (vfs_read s.sys.vfs (some f) (λ k. mem (buf + k)) len)
unfolding sys_read
sys_read_file s mem p t fd f buf len (high, e) u =
    let n0 : (fd == 0) ≡ false = ground arith in
    let n1 : (fd == 1) ≡ false = ground arith in
    let n2 : (fd == 2) ≡ false = ground arith in
    rw (accepted buf len u, n0, n1, n2) (ap (read_file s mem buf len) e)

sys_lseek_file :
    (s : SysState) (p : Caller) (t : FdTable) (fd f offset whence : ℕ)
    → IsFile s fd p t f
    → sys_lseek s (pos fd) offset whence ≡ seek_result s (vfs_lseek s.vfs (some f) offset whence)
unfolding sys_lseek
sys_lseek_file s p t fd f offset whence (high, e) = rw e refl

after_write : (s : IoState) (r : Option ℕ × Vfs) → (write_result s r).1 ≡ set_vfs s r.1
after_write s (none, vfs) = refl
after_write s (some n, vfs) = refl

after_seek : (s : SysState) (r : Option ℕ × Vfs) → (seek_result s r).1 ≡ record s { vfs = r.1 }
after_seek s (none, vfs) = refl
after_seek s (some n, vfs) = refl

-- `m` bytes are the result, and are at `buf'` in the new memory what they were at `buf` in the old.
abbrev pub IsCopied : Mem → ℕ → ℕ → ℕ → ℤ × Mem × IoState → Type 0
IsCopied mem buf buf' m (r, out, s) =
    (r ≡ pos m) × ((k : ℕ) → k < m → out (buf' + k) ≡ mem (buf + k))

result-IsCopied :
    (s : IoState) (mem : Mem) (buf buf' m : ℕ) (r : Option (ℕ × (ℕ → ℕ)) × Vfs)
    → IsReadBack (λ k. mem (buf + k)) m r.0
    → IsCopied mem buf buf' m (read_result s mem buf' r)
result-IsCopied s mem buf buf' m (none, vfs) h = absurd h
result-IsCopied s mem buf buf' m (some (n, out), vfs) (e, same) = (
  ap pos e,
  λ k lt.
      let place : buf' + k - buf' ≡ k = omega arith in
      let there : leb buf' (buf' + k) ≡ true = ground arith in rw (there, place) (same k lt),
)

wrote_result :
    (s : IoState) (r : Option ℕ × Vfs) (m : ℕ) → (write_result s r).0 ≡ pos m → r.0 ≡ some m
wrote_result s (none, vfs) m e = absurd (ground (arith, e))
wrote_result s (some n, vfs) m e = ground (arith, e)

-- The three calls: the write, the seek to `offset`, and the read into `buf'`.
abbrev pub copy_through : IoState → Mem → ℕ → ℕ → ℕ → ℕ → ℕ → ℕ → ℤ × Mem × IoState
copy_through s mem fd buf len offset buf' m =
    let s1 = (sys_write s mem (pos fd) buf len).1 in
    sys_read (record s1 { sys = (sys_lseek s1.sys (pos fd) offset 0).1 }) mem (pos fd) buf' m

copy_through_lem :
    (s : IoState) (mem : Mem) (p : Caller) (t : FdTable) (fd f buf len offset buf' m : ℕ)
    → IsFile s.sys fd p t f
    → IsUser buf len
    → IsUser buf' m
    → copy_through s mem fd buf len offset buf' m
      ≡ read_result
          (set_vfs s
            (vfs_lseek
              (vfs_write s.sys.vfs (some f) (λ k. mem (buf + k)) len).1
              (some f)
              offset
              0).1)
          mem
          buf'
          (vfs_read
            (vfs_lseek
              (vfs_write s.sys.vfs (some f) (λ k. mem (buf + k)) len).1
              (some f)
              offset
              0).1
            (some f)
            (λ k. mem (buf' + k))
            m)
copy_through_lem s mem p t fd f buf len offset buf' m h u u' =
    let w = vfs_write s.sys.vfs (some f) (λ k. mem (buf + k)) len in
    let wrote : (sys_write s mem (pos fd) buf len).1 ≡ set_vfs s w.1 =
      ap (λ x. x.1) (sys_write_file s mem p t fd f buf len h u) ∙ after_write s w in
    let s1 = set_vfs s w.1 in
    let l = vfs_lseek w.1 (some f) offset 0 in
    let sought : (sys_lseek s1.sys (pos fd) offset 0).1 ≡ record s1.sys { vfs = l.1 } =
      ap (λ x. x.1) (sys_lseek_file s1.sys p t fd f offset 0 h) ∙ after_seek s1.sys l in
    ap
      (λ x. sys_read (record x { sys = (sys_lseek x.sys (pos fd) offset 0).1 }) mem (pos fd) buf' m)
      wrote
    ∙ ap (λ x. sys_read (record s1 { sys = x }) mem (pos fd) buf' m) sought
    ∙ sys_read_file (set_vfs s l.1) mem p t fd f buf' m h u'

-- What sys_write has written from user memory to an open file of the filesystem, sys_lseek to the
-- old offset and sys_read bring back: sys_read returns as many bytes as sys_write did, and they are
-- at `buf'` what they were at `buf`. Both buffers are in user space; the descriptor is 3 or more
-- and that of a file that is open for both, not for appending, is no larger than the largest size,
-- and has its offset within it.
pub sys_read-sys_write :
    (s : IoState) (mem : Mem) (p : Caller) (t : FdTable) (fd f v i buf len buf' m : ℕ)
    → IsFile s.sys fd p t f
    → IsFs s.sys.vfs.fs
    → IsOpen s.sys.vfs f v i
    → (s.sys.vfs.fs.inodes i).type ≡ type_file
    → (s.sys.vfs.fs.inodes i).size ≤ max_size
    → (file_at s.sys.vfs f).offset ≤ max_size
    → IsUser buf len
    → IsUser buf' m
    → (sys_write s mem (pos fd) buf len).0 ≡ pos m
    → IsCopied mem buf buf' m (copy_through s mem fd buf len (file_at s.sys.vfs f).offset buf' m)
sys_read-sys_write s mem p t fd f v i buf len buf' m h fs o file small le u u' e =
    let offset = (file_at s.sys.vfs f).offset in
    let src = λ (k : ℕ). mem (buf + k) in
    let w = vfs_write s.sys.vfs (some f) src len in
    let wrote =
      wrote_result s w m (ap (λ x. x.0) (sym (sys_write_file s mem p t fd f buf len h u)) ∙ e) in
    let l = vfs_lseek w.1 (some f) offset 0 in
    subst (IsCopied mem buf buf' m)
      (sym (copy_through_lem s mem p t fd f buf len offset buf' m h u u'))
      (result-IsCopied (set_vfs s l.1) mem buf buf' m
        (vfs_read l.1 (some f) (λ k. mem (buf' + k)) m)
        (vfs_read-write s.sys.vfs f v i src (λ k. mem (buf' + k)) len m fs o file small le
          (omega (arith, u)) wrote))
