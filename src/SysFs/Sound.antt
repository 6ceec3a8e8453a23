-- ===== src/SysFs/Sound.antt =====
-- The calls of kernel/syscall/sys_fs.c keep the invariants of the filesystem.
use chanux.Common.{ℕ, not, ◌==◌, leb, ltb, add64, Option, none, some, List, ℤ, either, ◌^◌, length}
use chanux.Memory.{Mem}
use chanux.FileTable.{FdTable, fd_alloc}
use chanux.Proc.{cwd_max}
use chanux.FsPath.{path_normalize, vfs_max_path}
use chanux.Vfs.{Vfs, vfs_lookup}
use chanux.Vfs.Calls.{vfs_open, vfs_close, file_at}
use chanux.Vfs.Seek.{vfs_lseek, seek_to, seek_base}
use chanux.Vfs.Tree.{Stat, vfs_stat, stat_found}
use chanux.Vfs.Sound.{Sound, lookup-Sound}
use chanux.Vfs.Keeps.{open-Sound}
use chanux.FileTable.{file_type_console}
use chanux.SysFs.{
  SysState, Caller, caller_table, open_for, open_path, open_at, install, entry_of, close_entry,
  seek_result, seek_entry, stat_for, stat_path, stat_result, enter_dir, chdir_path, chdir_for,
  validate_user_string, validate_user_ptr_read, stat_bytes, path_at, sys_open, sys_close, sys_lseek,
  sys_stat, sys_chdir,
}

-- A state whose filesystem keeps its invariants.
abbrev pub Kept : SysState → Type 0
Kept s = Sound s.vfs

abbrev KeptCall : ℤ × SysState → Type 0
KeptCall r = Kept r.1

abbrev KeptStat : ℤ × Stat × SysState → Type 0
KeptStat r = Kept r.2

abbrev SoundSeek : Option ℕ × Vfs → Type 0
SoundSeek r = Sound r.1

install-Kept :
    (s : SysState) (p : Caller) (t : FdTable) (fd : ℕ) (r : Option ℕ × Vfs)
    → Sound r.1
    → Kept (install s p t fd r).1
install-Kept s p t fd (none, vfs) v = v
install-Kept s p t fd (some f, vfs) v = v

open_at-Kept :
    (s : SysState) (p : Caller) (t : FdTable) (path : List ℕ) (flags : ℕ) (fd : Option ℕ)
    → Kept s
    → Kept (open_at s p t path flags fd).1
open_at-Kept s p t path flags none v = v
open_at-Kept s p t path flags (some fd) v =
    install-Kept s p t fd (vfs_open s.vfs (some path) flags) (open-Sound s.vfs (some path) flags v)

open_path-Kept :
    (s : SysState) (p : Caller) (t : FdTable) (flags : ℕ) (path : Option (List ℕ))
    → Kept s
    → Kept (open_path s p t flags path).1
open_path-Kept s p t flags none v = v
open_path-Kept s p t flags (some path) v = open_at-Kept s p t path flags (fd_alloc (some t)) v

open_for-Kept :
    (s : SysState) (path : List ℕ) (flags : ℕ) (c : Option (Caller × FdTable))
    → Kept s
    → Kept (open_for s path flags c).1
open_for-Kept s path flags none v = v
open_for-Kept s path flags (some (p, t)) v =
    open_path-Kept s p t flags (path_normalize (some path) (some p.cwd) vfs_max_path) v

pub sys_open-Kept :
    (s : SysState) (mem : Mem) (path flags : ℕ) → Kept s → Kept (sys_open s mem path flags).1
unfolding sys_open
sys_open-Kept s mem path flags v =
    either KeptCall (validate_user_string mem path vfs_max_path)
      (open_for-Kept s (path_at mem path) flags (caller_table s.caller) v) v

close_entry-Kept :
    (s : SysState) (e : Option (Caller × FdTable × ℕ × ℕ)) → Kept s → Kept (close_entry s e).1
unfolding vfs_close
close_entry-Kept s none v = v
close_entry-Kept s (some (p, t, fd, f)) v = either KeptCall (ltb fd 3) v v

pub sys_close-Kept : (s : SysState) (fd : ℤ) → Kept s → Kept (sys_close s fd).1
unfolding sys_close
sys_close-Kept s fd v = close_entry-Kept s (entry_of s fd) v

seek_to-Sound :
    (s : Vfs) (f offset : ℕ) (base : Option ℕ) → Sound s → Sound (seek_to s f offset base).1
seek_to-Sound s f offset none v = v
seek_to-Sound s f offset (some base) v = either SoundSeek (leb (2 ^ 63) (add64 base offset)) v v

lseek-Sound :
    (s : Vfs) (f offset whence : ℕ) → Sound s → Sound (vfs_lseek s (some f) offset whence).1
unfolding vfs_lseek
lseek-Sound s f offset whence v =
    either SoundSeek ((file_at s f).type == file_type_console) v
      (seek_to-Sound s f offset (seek_base s f whence) v)

sought-Kept : (s : SysState) (r : Option ℕ × Vfs) → Sound r.1 → Kept (seek_result s r).1
sought-Kept s (none, vfs) v = v
sought-Kept s (some p, vfs) v = v

seek_entry-Kept :
    (s : SysState) (offset whence : ℕ) (e : Option (Caller × FdTable × ℕ × ℕ))
    → Kept s
    → Kept (seek_entry s offset whence e).1
seek_entry-Kept s offset whence none v = v
seek_entry-Kept s offset whence (some (p, t, fd, f)) v =
    sought-Kept s (vfs_lseek s.vfs (some f) offset whence) (lseek-Sound s.vfs f offset whence v)

pub sys_lseek-Kept :
    (s : SysState) (fd : ℤ) (offset whence : ℕ) → Kept s → Kept (sys_lseek s fd offset whence).1
unfolding sys_lseek
sys_lseek-Kept s fd offset whence v = seek_entry-Kept s offset whence (entry_of s fd) v

stat_found-Sound : (r : Option ℕ × Vfs) → Sound r.1 → Sound (stat_found r).1
stat_found-Sound (none, s) v = v
stat_found-Sound (some u, s) v = v

stat-Sound : (s : Vfs) (path : Option (List ℕ)) → Sound s → Sound (vfs_stat s path).1
unfolding vfs_stat
stat-Sound s path v = stat_found-Sound (vfs_lookup s path) (lookup-Sound s path v)

stated-Kept :
    (s : SysState) (buf : Stat) (r : Option Stat × Vfs) → Sound r.1 → Kept (stat_result s buf r).2
stated-Kept s buf (none, vfs) v = v
stated-Kept s buf (some st, vfs) v = v

stat_path-Kept :
    (s : SysState) (buf : Stat) (path : Option (List ℕ)) → Kept s → Kept (stat_path s buf path).2
stat_path-Kept s buf none v = v
stat_path-Kept s buf (some path) v =
    stated-Kept s buf (vfs_stat s.vfs (some path)) (stat-Sound s.vfs (some path) v)

stat_for-Kept :
    (s : SysState) (path : List ℕ) (buf : Stat) (c : Option Caller)
    → Kept s
    → Kept (stat_for s path buf c).2
stat_for-Kept s path buf none v = v
stat_for-Kept s path buf (some p) v =
    stat_path-Kept s buf (path_normalize (some path) (some p.cwd) vfs_max_path) v

pub sys_stat-Kept :
    (s : SysState) (mem : Mem) (path ptr : ℕ) (buf : Stat)
    → Kept s
    → Kept (sys_stat s mem path ptr buf).2
unfolding sys_stat
sys_stat-Kept s mem path ptr buf v =
    either KeptStat (not (validate_user_string mem path vfs_max_path)) v (
      either KeptStat (not (validate_user_ptr_read ptr stat_bytes)) v
        (stat_for-Kept s (path_at mem path) buf s.caller v))

enter-Kept :
    (s : SysState) (p : Caller) (path : List ℕ) (r : Option Stat × Vfs)
    → Sound r.1
    → Kept (enter_dir s p path r).1
enter-Kept s p path (none, vfs) v = v
enter-Kept s p path (some st, vfs) v =
    either KeptCall (not (st.st_mode == 2 ^ 14)) v (either KeptCall (leb cwd_max (length path)) v v)

chdir_path-Kept :
    (s : SysState) (p : Caller) (path : Option (List ℕ)) → Kept s → Kept (chdir_path s p path).1
chdir_path-Kept s p none v = v
chdir_path-Kept s p (some path) v =
    enter-Kept s p path (vfs_stat s.vfs (some path)) (stat-Sound s.vfs (some path) v)

chdir_for-Kept :
    (s : SysState) (path : List ℕ) (c : Option Caller) → Kept s → Kept (chdir_for s path c).1
chdir_for-Kept s path none v = v
chdir_for-Kept s path (some p) v =
    chdir_path-Kept s p (path_normalize (some path) (some p.cwd) vfs_max_path) v

pub sys_chdir-Kept : (s : SysState) (mem : Mem) (path : ℕ) → Kept s → Kept (sys_chdir s mem path).1
unfolding sys_chdir
sys_chdir-Kept s mem path v =
    either KeptCall (validate_user_string mem path vfs_max_path)
      (chdir_for-Kept s (path_at mem path) s.caller v) v
