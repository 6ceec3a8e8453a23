-- ===== src/SysFs.antt =====
-- kernel/syscall/sys_fs.c: the system calls on files. A result is what the call returns, an error
-- code negated. The memory of the calling process is a map from addresses to bytes.
pub mod Chdir
pub mod Sound
mod Tests
use chanux.Common.{
  ℕ, zero, suc, ◌+◌, ◌-◌, ◌/◌, ◌^◌, Bool, true, false, not, ◌==◌, ltb, leb, if◌then◌else◌, Option,
  none, some, update, add64, List, [], ◌∷◌, length, ℤ, pos, negsuc,
}
use chanux.Memory.{Mem, string_at}
use chanux.FileTable.{FdTable, fd_alloc, fd_free, max_fd}
use chanux.Proc.{cwd_max}
use chanux.FsPath.{path_normalize, vfs_max_path}
use chanux.Ramfs.{block_size, type_dir}
use chanux.Vfs.{Vfs, vnode_at}
use chanux.Vfs.Calls.{vfs_open, vfs_close, inode_size, file_at}
use chanux.Vfs.Seek.{vfs_lseek}
use chanux.Vfs.Tree.{Stat, vfs_stat, vfs_readdir}

-- What these calls read and write of the control block of the process.
pub record Caller : Type 0 where
  pub fd_table : Option FdTable
  pub cwd : List ℕ

-- The filesystem, and what `process_current` returns.
pub record SysState : Type 0 where
  pub vfs : Vfs
  pub caller : Option Caller

-- The negated error codes.
abbrev pub failed : ℤ
failed = negsuc 0

abbrev pub ebadf : ℤ
ebadf = negsuc 8

abbrev pub enomem : ℤ
enomem = negsuc 11

abbrev pub efault : ℤ
efault = negsuc 13

abbrev pub enotdir : ℤ
enotdir = negsuc 19

abbrev pub einval : ℤ
einval = negsuc 21

abbrev pub emfile : ℤ
emfile = negsuc 23

abbrev pub erange : ℤ
erange = negsuc 33

abbrev pub enametoolong : ℤ
enametoolong = negsuc 35

abbrev pub user_space_end : ℕ
user_space_end = 2 ^ 47

-- `sizeof(stat_t)` and `sizeof(ramfs_dirent_t)`
abbrev pub stat_bytes : ℕ
stat_bytes = 72

abbrev pub dirent_bytes : ℕ
dirent_bytes = 64

unfoldable pub validate_user_ptr_read : ℕ → ℕ → Bool
validate_user_ptr_read addr len =
    if addr == 0
    then false
    else if len == 0
    then false
    else if leb user_space_end addr
    then false
    else if ltb (add64 addr len) addr
    then false
    else not (ltb user_space_end (add64 addr len))

abbrev pub validate_user_ptr_write : ℕ → ℕ → Bool
validate_user_ptr_write addr len = validate_user_ptr_read addr len

-- The loop of `validate_user_string` over `n` bytes from an address on.
pub find_nul : Mem → ℕ → ℕ → Bool
find_nul mem zero addr = false
find_nul mem (suc n) addr =
    let rest = find_nul mem n (addr + 1) in
    if leb user_space_end addr then false else if mem addr == 0 then true else rest

unfoldable pub validate_user_string : Mem → ℕ → ℕ → Bool
validate_user_string mem addr max_len =
    if addr == 0
    then false
    else if leb user_space_end addr
    then false
    else find_nul mem max_len addr

abbrev pub path_at : Mem → ℕ → List ℕ
path_at mem addr = string_at mem vfs_max_path addr

abbrev pub put_table : SysState → Caller → FdTable → Vfs → SysState
put_table s p t vfs = record { vfs = vfs; caller = some (record p { fd_table = some t }) }

-- The opened file in its entry, or the entry freed again.
abbrev pub install : SysState → Caller → FdTable → ℕ → Option ℕ × Vfs → ℤ × SysState
install s p t fd (none, vfs) =
    let (t', files) = fd_free t (pos fd) vfs.files in
    (failed, put_table s p t' (record vfs { files = files }))
install s p t fd (some f, vfs) =
    (pos fd, put_table s p (record t { entries = update t.entries fd (some f) }) vfs)

abbrev pub open_at : SysState → Caller → FdTable → List ℕ → ℕ → Option ℕ → ℤ × SysState
open_at s p t path flags none = (emfile, s)
open_at s p t path flags (some fd) = install s p t fd (vfs_open s.vfs (some path) flags)

abbrev pub open_path : SysState → Caller → FdTable → ℕ → Option (List ℕ) → ℤ × SysState
open_path s p t flags none = (enametoolong, s)
open_path s p t flags (some path) = open_at s p t path flags (fd_alloc (some t))

-- The process and its descriptor table, if both are set.
abbrev pub caller_table : Option Caller → Option (Caller × FdTable)
caller_table none = none
caller_table (some p) = elim p.fd_table [ none ↦ none | some t ↦ some (p, t) ]

abbrev pub open_for : SysState → List ℕ → ℕ → Option (Caller × FdTable) → ℤ × SysState
open_for s path flags none = (enomem, s)
open_for s path flags (some (p, t)) =
    open_path s p t flags (path_normalize (some path) (some p.cwd) vfs_max_path)

unfoldable pub sys_open : SysState → Mem → ℕ → ℕ → ℤ × SysState
sys_open s mem path flags =
    if validate_user_string mem path vfs_max_path
    then open_for s (path_at mem path) flags (caller_table s.caller)
    else (efault, s)

-- An open descriptor in range: the process, its table, the descriptor and the file.
abbrev pub checked_entry : Caller → FdTable → ℤ → Option (Caller × FdTable × ℕ × ℕ)
checked_entry p t (negsuc n) = none
checked_entry p t (pos fd) =
    if leb max_fd fd
    then none
    else elim (t.entries fd) [ none ↦ none | some f ↦ some (p, t, fd, f) ]

abbrev pub table_entry : ℤ → Option (Caller × FdTable) → Option (Caller × FdTable × ℕ × ℕ)
table_entry fd none = none
table_entry fd (some (p, t)) = checked_entry p t fd

abbrev pub entry_of : SysState → ℤ → Option (Caller × FdTable × ℕ × ℕ)
entry_of s fd = table_entry fd (caller_table s.caller)

abbrev result_of : Bool → ℤ
result_of ok = if ok then pos 0 else failed

abbrev pub close_entry : SysState → Option (Caller × FdTable × ℕ × ℕ) → ℤ × SysState
close_entry s none = (ebadf, s)
close_entry s (some (p, t, fd, f)) =
    let (ok, vfs) = vfs_close s.vfs (some f) in
    if ltb fd 3
    then (einval, s)
    else (result_of ok, put_table s p (record t { entries = update t.entries fd none }) vfs)

unfoldable pub sys_close : SysState → ℤ → ℤ × SysState
sys_close s fd = close_entry s (entry_of s fd)

abbrev pub seek_result : SysState → Option ℕ × Vfs → ℤ × SysState
seek_result s (none, vfs) = (failed, record s { vfs = vfs })
seek_result s (some p, vfs) = (pos p, record s { vfs = vfs })

abbrev pub seek_entry : SysState → ℕ → ℕ → Option (Caller × FdTable × ℕ × ℕ) → ℤ × SysState
seek_entry s offset whence none = (ebadf, s)
seek_entry s offset whence (some (p, t, fd, f)) =
    seek_result s (vfs_lseek s.vfs (some f) offset whence)

unfoldable pub sys_lseek : SysState → ℤ → ℕ → ℕ → ℤ × SysState
sys_lseek s fd offset whence = seek_entry s offset whence (entry_of s fd)

-- The result, the buffer and the state.
abbrev pub stat_result : SysState → Stat → Option Stat × Vfs → ℤ × Stat × SysState
stat_result s buf (none, vfs) = (failed, buf, record s { vfs = vfs })
stat_result s buf (some st, vfs) = (pos 0, st, record s { vfs = vfs })

abbrev pub stat_path : SysState → Stat → Option (List ℕ) → ℤ × Stat × SysState
stat_path s buf none = (enametoolong, buf, s)
stat_path s buf (some path) = stat_result s buf (vfs_stat s.vfs (some path))

abbrev pub stat_for : SysState → List ℕ → Stat → Option Caller → ℤ × Stat × SysState
stat_for s path buf none = (enomem, buf, s)
stat_for s path buf (some p) =
    stat_path s buf (path_normalize (some path) (some p.cwd) vfs_max_path)

unfoldable pub sys_stat : SysState → Mem → ℕ → ℕ → Stat → ℤ × Stat × SysState
sys_stat s mem path ptr buf =
    if not (validate_user_string mem path vfs_max_path)
    then (efault, buf, s)
    else if not (validate_user_ptr_write ptr stat_bytes)
    then (efault, buf, s)
    else stat_for s (path_at mem path) buf s.caller

-- The fields that `sys_fstat` fills in; the times stay.
abbrev fill_stat : Vfs → ℕ → Stat → Stat
fill_stat s v buf = record buf {
  st_mode = if (vnode_at s v).type == type_dir then 2 ^ 14 else 2 ^ 15;
  st_size = inode_size s v;
  st_ino = (vnode_at s v).inode_num;
  st_nlink = 1;
  st_uid = 0;
  st_gid = 0;
  st_blksize = block_size;
  st_blocks = add64 (inode_size s v) (block_size - 1) / block_size;
}

abbrev stat_vnode : Vfs → Stat → Option ℕ → ℤ × Stat
stat_vnode s buf none = (ebadf, buf)
stat_vnode s buf (some v) = (pos 0, fill_stat s v buf)

abbrev pub stat_entry : Vfs → Stat → Option (Caller × FdTable × ℕ × ℕ) → ℤ × Stat
stat_entry s buf none = (ebadf, buf)
stat_entry s buf (some (p, t, fd, f)) = stat_vnode s buf (file_at s f).vnode

unfoldable pub sys_fstat : SysState → ℤ → ℕ → Stat → ℤ × Stat
sys_fstat s fd ptr buf =
    if validate_user_ptr_write ptr stat_bytes
    then stat_entry s.vfs buf (entry_of s fd)
    else (efault, buf)

abbrev dirent_result : (ℕ → ℕ) → Option (ℕ → ℕ) → ℤ × (ℕ → ℕ)
dirent_result buf none = (failed, buf)
dirent_result buf (some entry) = (pos 0, entry)

abbrev pub read_entry : Vfs → (ℕ → ℕ) → ℕ → Option (Caller × FdTable × ℕ × ℕ) → ℤ × (ℕ → ℕ)
read_entry s buf index none = (ebadf, buf)
read_entry s buf index (some (p, t, fd, f)) = dirent_result buf (vfs_readdir s (some f) index)

-- The result, and the 64 bytes of the buffer.
unfoldable pub sys_readdir : SysState → ℤ → ℕ → (ℕ → ℕ) → ℕ → ℤ × (ℕ → ℕ)
sys_readdir s fd ptr buf index =
    if validate_user_ptr_write ptr dirent_bytes
    then read_entry s.vfs buf index (entry_of s fd)
    else (efault, buf)

abbrev pub cwd_result : ℕ → Option Caller → ℤ × Option (List ℕ)
cwd_result size none = (enomem, none)
cwd_result size (some p) = if leb size (length p.cwd) then (erange, none) else (pos 0, some p.cwd)

-- The result, and the string that is put into the buffer, if one is.
unfoldable pub sys_getcwd : SysState → ℕ → ℕ → ℤ × Option (List ℕ)
sys_getcwd s ptr size =
    if not (validate_user_ptr_write ptr size)
    then (efault, none)
    else if size == 0
    then (einval, none)
    else cwd_result size s.caller

-- The test of the mode, and the new directory.
abbrev pub enter_dir : SysState → Caller → List ℕ → Option Stat × Vfs → ℤ × SysState
enter_dir s p path (none, vfs) = (failed, record s { vfs = vfs })
enter_dir s p path (some st, vfs) =
    let s' = record s { vfs = vfs } in
    if not (st.st_mode == 2 ^ 14)
    then (enotdir, s')
    else if leb cwd_max (length path)
    then (enametoolong, s')
    else (pos 0, record s' { caller = some (record p { cwd = path }) })

abbrev pub chdir_path : SysState → Caller → Option (List ℕ) → ℤ × SysState
chdir_path s p none = (enametoolong, s)
chdir_path s p (some path) = enter_dir s p path (vfs_stat s.vfs (some path))

abbrev pub chdir_for : SysState → List ℕ → Option Caller → ℤ × SysState
chdir_for s path none = (enomem, s)
chdir_for s path (some p) = chdir_path s p (path_normalize (some path) (some p.cwd) vfs_max_path)

unfoldable pub sys_chdir : SysState → Mem → ℕ → ℤ × SysState
sys_chdir s mem path =
    if validate_user_string mem path vfs_max_path
    then chdir_for s (path_at mem path) s.caller
    else (efault, s)
