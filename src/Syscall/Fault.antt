-- ===== src/Syscall/Fault.antt =====
-- The memory of the process that a system call reads and writes, of kernel/syscall/sys_io.c and
-- kernel/syscall/sys_fs.c, and the page fault, of kernel/interrupts/isr.c, if some of it is not
-- there: the checks of user pointers compare addresses only, and a page fault halts the system.
use chanux.Common.{
  ℕ, zero, suc, ◌+◌, ◌≡◌, Bool, true, false, not, ◌&&◌, ◌==◌, ltb, leb, if◌then◌else◌, Option, none,
  some, List, [], ◌∷◌, length, ℤ, pos, negsuc, ◌%◌, ◌^◌,
}
use chanux.Memory.{Mem}
use chanux.FileTable.{FdTable, o_rdonly}
use chanux.FsPath.{vfs_max_path}
use chanux.Vfs.{Vfs, vnode_at, is_set}
use chanux.Vfs.Calls.{file_at, appends, access_mode, usable_vnode}
use chanux.SysFs.{
  Caller, SysState, entry_of, user_space_end, stat_bytes, dirent_bytes, sys_open, sys_stat,
  sys_fstat, sys_readdir, sys_getcwd,
}
use chanux.SysIo.{validate_user_ptr, sys_write, sys_read}
use chanux.Syscall.{Kernel, CallResult, stopped, io_of, to_int, syscall_dispatch}
use chanux.Syscall.Structs.{blank_stat}
use chanux.Syscall.Live.{IsCalling, GoesOn, syscall_dispatch-GoesOn}

-- What the page tables let the kernel read and write.
pub record Pages : Type 0 where
  pub readable : ℕ → Bool
  pub writable : ℕ → Bool

-- The `n` bytes from an address on all are.
unfoldable pub covers : (ℕ → Bool) → ℕ → ℕ → Bool
covers ok zero addr = true
covers ok (suc n) addr = let rest = covers ok n (addr + 1) in ok addr && rest

-- How many bytes the loop of `validate_user_string` reads, at most `n` from an address on.
pub string_reads : Mem → ℕ → ℕ → ℕ
string_reads mem zero addr = 0
string_reads mem (suc n) addr =
    let rest = string_reads mem n (addr + 1) in
    if leb user_space_end addr then 0 else if mem addr == 0 then 1 else rest + 1

abbrev path_readable : Pages → Mem → ℕ → Bool
path_readable pages mem path =
    covers pages.readable (if path == 0 then 0 else string_reads mem vfs_max_path path) path

-- The bytes that a result counts, and `n` bytes if a call succeeds.
abbrev counted : ℤ → ℕ
counted (pos n) = n
counted (negsuc e) = 0

abbrev if_done : ℤ → ℕ → ℕ
if_done (pos r) n = n
if_done (negsuc e) n = 0

-- `vn->inode->size`, of a file that is open with `O_APPEND`, is read through a null pointer.
abbrev lacks_inode : Vfs → Option ℕ → Bool
lacks_inode s none = false
lacks_inode s (some v) = not (is_set (vnode_at s v).inode)

abbrev null_at_end : Vfs → Option (Caller × FdTable × ℕ × ℕ) → Bool
null_at_end s none = false
null_at_end s (some (p, t, fd, f)) =
    let flags = (file_at s f).flags in
    appends flags
    && (not (ltb fd 3) && (not (access_mode flags == o_rdonly) && lacks_inode s (usable_vnode s f)))

abbrev null_opened : ℕ → Vfs → Option (Caller × FdTable × ℕ × ℕ) → Bool
null_opened flags s none = false
null_opened flags s (some (p, t, fd, f)) = appends flags && lacks_inode s (file_at s f).vnode

abbrev null_open : ℕ → ℤ × SysState → Bool
null_open flags (r, s) = null_opened flags s.vfs (entry_of s r)

-- Whether all that a call accesses is there.
abbrev Access : Type 0
Access = Pages → Kernel → ℕ → ℕ → ℕ → Bool

abbrev no_access : Access
no_access pages k arg1 arg2 arg3 = true

abbrev write_access : Access
write_access pages k fd buf len =
    let s = io_of k in
    not (validate_user_ptr buf len && null_at_end s.sys.vfs (entry_of s.sys (to_int fd)))
    && covers pages.readable (counted (sys_write s k.memory (to_int fd) buf len).0) buf

abbrev read_access : Access
read_access pages k fd buf len =
    covers pages.writable (counted (sys_read (io_of k) k.memory (to_int fd) buf len).0) buf

abbrev open_access : Access
open_access pages k path flags arg3 =
    path_readable pages k.memory path
    && not (null_open (flags % 2 ^ 32) (sys_open (io_of k).sys k.memory path (flags % 2 ^ 32)))

abbrev stat_access : Access
stat_access pages k path buf arg3 =
    let (r, st, s) = sys_stat (io_of k).sys k.memory path buf blank_stat in
    path_readable pages k.memory path && covers pages.writable (if_done r stat_bytes) buf

-- `sys_fstat` leaves the four bytes before the size and the times.
abbrev fstat_access : Access
fstat_access pages k fd buf arg3 =
    let (r, st) = sys_fstat (io_of k).sys (to_int fd) buf blank_stat in
    covers pages.writable (if_done r 20) buf && covers pages.writable (if_done r 24) (buf + 24)

abbrev readdir_access : Access
readdir_access pages k fd entry index =
    let (r, out) =
      sys_readdir (io_of k).sys (to_int fd) entry (λ i. k.memory (entry + i)) (index % 2 ^ 32) in
    covers pages.writable (if_done r dirent_bytes) entry

abbrev cwd_writes : Option (List ℕ) → ℕ
cwd_writes none = 0
cwd_writes (some cwd) = length cwd + 1

abbrev getcwd_access : Access
getcwd_access pages k buf size arg3 =
    covers pages.writable (cwd_writes (sys_getcwd (io_of k).sys buf size).1) buf

abbrev chdir_access : Access
chdir_access pages k path arg2 arg3 = path_readable pages k.memory path

-- The calls in the order of their numbers.
abbrev access_table : List Access
access_table =
    no_access ∷ write_access ∷ read_access ∷ no_access ∷ no_access ∷ no_access ∷ open_access
    ∷ no_access ∷ no_access ∷ stat_access ∷ fstat_access ∷ readdir_access ∷ getcwd_access
    ∷ chdir_access ∷ []

unfoldable pub access_at : List Access → ℕ → Access
access_at [] num = no_access
access_at (a ∷ rest) zero = a
access_at (a ∷ rest) (suc num) = access_at rest num

unfoldable pub accessible : Pages → Kernel → ℕ → ℕ → ℕ → ℕ → Bool
accessible pages k num arg1 arg2 arg3 = access_at access_table num pages k arg1 arg2 arg3

-- A system call on the machine.
unfoldable pub syscall : Pages → Kernel → ℕ → ℕ → ℕ → ℕ → CallResult
syscall pages k num arg1 arg2 arg3 =
    if accessible pages k num arg1 arg2 arg3 then syscall_dispatch k num arg1 arg2 arg3 else stopped

-- If the scheduler keeps its invariant, neither the current nor an idle process is blocked and the
-- current process is not an idle one, and if the page tables let the kernel read and write all the
-- user memory that the call accesses and the call takes the size of no vnode without an inode, then
-- a system call, whatever its number and its arguments are, does not stop the kernel: it returns,
-- or another process runs, and the same holds of the scheduler afterwards, for some queue and some
-- current process.
pub syscall-GoesOn :
    (i : ℕ) (pages : Pages) (k : Kernel) (num arg1 arg2 arg3 : ℕ)
    → IsCalling k.system i
    → accessible pages k num arg1 arg2 arg3 ≡ true
    → GoesOn i (syscall pages k num arg1 arg2 arg3)
unfolding syscall
syscall-GoesOn i pages k num arg1 arg2 arg3 live there =
    rw there (syscall_dispatch-GoesOn i k num arg1 arg2 arg3 live)
