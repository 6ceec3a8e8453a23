-- ===== src/SysIo/Sound.antt =====
-- `sys_write` and `sys_read` keep the invariants of the filesystem.
use chanux.Common.{ℕ, ◌==◌, ◌+◌, Option, none, some, ℤ, pos, negsuc, either}
use chanux.Memory.{Mem}
use chanux.FileTable.{FdTable}
use chanux.Keyboard.{Keyboard}
use chanux.Vfs.{Vfs}
use chanux.Vfs.Calls.{vfs_read, vfs_write}
use chanux.Vfs.Sound.{Sound}
use chanux.Vfs.Keeps.{read-Sound, write-Sound}
use chanux.SysFs.{Caller, entry_of}
use chanux.SysFs.Sound.{Kept}
use chanux.SysIo.{
  IoState, validate_user_ptr, write_result, write_file, write_fd, sys_write, read_result, read_file,
  read_fd, read_keys, keys_result, sys_read,
}

abbrev KeptWrite : ℤ × IoState → Type 0
KeptWrite r = Kept r.1.sys

abbrev KeptRead : ℤ × Mem × IoState → Type 0
KeptRead r = Kept r.2.sys

wrote-Kept : (s : IoState) (r : Option ℕ × Vfs) → Sound r.1 → KeptWrite (write_result s r)
wrote-Kept s (none, vfs) v = v
wrote-Kept s (some n, vfs) v = v

write_file-Kept :
    (s : IoState) (mem : Mem) (buf len : ℕ) (e : Option (Caller × FdTable × ℕ × ℕ))
    → Kept s.sys
    → KeptWrite (write_file s mem buf len e)
write_file-Kept s mem buf len none v = v
write_file-Kept s mem buf len (some (p, t, fd, f)) v =
    wrote-Kept s (vfs_write s.sys.vfs (some f) (λ k. mem (buf + k)) len)
      (write-Sound s.sys.vfs (some f) (λ k. mem (buf + k)) len v)

write_fd-Kept :
    (s : IoState) (mem : Mem) (fd : ℤ) (buf len : ℕ)
    → Kept s.sys
    → KeptWrite (write_fd s mem fd buf len)
write_fd-Kept s mem (negsuc n) buf len v =
    write_file-Kept s mem buf len (entry_of s.sys (negsuc n)) v
write_fd-Kept s mem (pos fd) buf len v = either KeptWrite (fd == 1) v (
    either KeptWrite (fd == 2) v
      (either KeptWrite (fd == 0) v (write_file-Kept s mem buf len (entry_of s.sys (pos fd)) v)))

pub sys_write-Kept :
    (s : IoState) (mem : Mem) (fd : ℤ) (buf len : ℕ)
    → Kept s.sys
    → Kept (sys_write s mem fd buf len).1.sys
unfolding sys_write
sys_write-Kept s mem fd buf len v =
    either KeptWrite (validate_user_ptr buf len) (write_fd-Kept s mem fd buf len v) v

keys-Kept : (s : IoState) (r : ℕ × Mem × Keyboard) → Kept s.sys → KeptRead (keys_result s r)
keys-Kept s (n, mem, k) v = v

have_read-Kept :
    (s : IoState) (mem : Mem) (buf : ℕ) (r : Option (ℕ × (ℕ → ℕ)) × Vfs)
    → Sound r.1
    → KeptRead (read_result s mem buf r)
have_read-Kept s mem buf (none, vfs) v = v
have_read-Kept s mem buf (some (n, out), vfs) v = v

read_file-Kept :
    (s : IoState) (mem : Mem) (buf len : ℕ) (e : Option (Caller × FdTable × ℕ × ℕ))
    → Kept s.sys
    → KeptRead (read_file s mem buf len e)
read_file-Kept s mem buf len none v = v
read_file-Kept s mem buf len (some (p, t, fd, f)) v =
    have_read-Kept s mem buf (vfs_read s.sys.vfs (some f) (λ k. mem (buf + k)) len)
      (read-Sound s.sys.vfs (some f) (λ k. mem (buf + k)) len v)

read_fd-Kept :
    (s : IoState) (mem : Mem) (fd : ℤ) (buf len : ℕ)
    → Kept s.sys
    → KeptRead (read_fd s mem fd buf len)
read_fd-Kept s mem (negsuc n) buf len v = read_file-Kept s mem buf len (entry_of s.sys (negsuc n)) v
read_fd-Kept s mem (pos fd) buf len v =
    either KeptRead (fd == 0) (keys-Kept s (read_keys len mem buf s.keyboard) v) (
      either KeptRead (fd == 1) v
        (either KeptRead (fd == 2) v (read_file-Kept s mem buf len (entry_of s.sys (pos fd)) v)))

pub sys_read-Kept :
    (s : IoState) (mem : Mem) (fd : ℤ) (buf len : ℕ)
    → Kept s.sys
    → Kept (sys_read s mem fd buf len).2.sys
unfolding sys_read
sys_read-Kept s mem fd buf len v =
    either KeptRead (validate_user_ptr buf len) (read_fd-Kept s mem fd buf len v) v
