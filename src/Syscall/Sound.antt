-- ===== src/Syscall/Sound.antt =====
-- `syscall_dispatch` keeps the invariants of the filesystem.
use chanux.Common.{ℕ, ◌+◌, ◌%◌, ◌^◌, Option, none, some, List, ℤ, pos, negsuc}
use chanux.Memory.{Mem}
use chanux.Proc.{System}
use chanux.Process.{process_exit}
use chanux.Ramfs.Marks.{IsSound}
use chanux.Vfs.Tree.{Stat}
use chanux.SysFs.{
  SysState, sys_open, sys_close, sys_lseek, sys_stat, sys_fstat, sys_readdir, sys_getcwd, sys_chdir,
}
use chanux.SysFs.Sound.{
  Kept, sys_open-Kept, sys_close-Kept, sys_lseek-Kept, sys_stat-Kept, sys_chdir-Kept,
}
use chanux.SysIo.{IoState, sys_read, sys_write}
use chanux.SysIo.Sound.{sys_read-Kept, sys_write-Kept}
use chanux.Syscall.{
  Kernel, CallResult, returned, gone, stopped, io_of, Handler, syscall_table, syscall_dispatch,
  put_result, put_write, put_read, put_stat, put_fstat, put_dirent, put_cwd, exited, pid_of, to_int,
  sys_exit_wrapper, sys_write_wrapper, sys_read_wrapper, sys_yield_wrapper, sys_getpid_wrapper,
  sys_sleep_wrapper, sys_open_wrapper, sys_close_wrapper, sys_lseek_wrapper, sys_stat_wrapper,
  sys_fstat_wrapper, sys_readdir_wrapper, sys_getcwd_wrapper, sys_chdir_wrapper,
}
use chanux.Syscall.Structs.{blank_stat}
use chanux.Syscall.Table.{All, end, ◌◂◌, Meets, dispatch-Meets}

-- The invariants hold of the filesystem of what a call comes to.
abbrev pub StaysSound : CallResult → Type 0
StaysSound (returned r k) = IsSound k.fs
StaysSound (gone k) = IsSound k.fs
StaysSound stopped = Unit

result-StaysSound : (k : Kernel) (r : ℤ × SysState) → Kept r.1 → StaysSound (put_result k r)
result-StaysSound k (r, s) v = v

write-StaysSound : (k : Kernel) (r : ℤ × IoState) → Kept r.1.sys → StaysSound (put_write k r)
write-StaysSound k (r, s) v = v

read-StaysSound : (k : Kernel) (r : ℤ × Mem × IoState) → Kept r.2.sys → StaysSound (put_read k r)
read-StaysSound k (r, mem, s) v = v

stat-StaysSound :
    (k : Kernel) (ptr : ℕ) (r : ℤ × Stat × SysState) → Kept r.2 → StaysSound (put_stat k ptr r)
stat-StaysSound k ptr (pos r, st, s) v = v
stat-StaysSound k ptr (negsuc r, st, s) v = v

fstat-StaysSound :
    (k : Kernel) (ptr : ℕ) (r : ℤ × Stat) → IsSound k.fs → StaysSound (put_fstat k ptr r)
fstat-StaysSound k ptr (pos r, st) v = v
fstat-StaysSound k ptr (negsuc r, st) v = v

dirent-StaysSound :
    (k : Kernel) (ptr : ℕ) (r : ℤ × (ℕ → ℕ)) → IsSound k.fs → StaysSound (put_dirent k ptr r)
dirent-StaysSound k ptr (pos r, entry) v = v
dirent-StaysSound k ptr (negsuc r, entry) v = v

cwd-StaysSound :
    (k : Kernel) (ptr : ℕ) (r : ℤ × Option (List ℕ)) → IsSound k.fs → StaysSound (put_cwd k ptr r)
cwd-StaysSound k ptr (r, none) v = v
cwd-StaysSound k ptr (r, some path) v = v

exit-StaysSound : (k : Kernel) (s : Option System) → IsSound k.fs → StaysSound (exited k s)
exit-StaysSound k none v = tt
exit-StaysSound k (some s) v = v

pid-StaysSound : (k : Kernel) (p : Option ℕ) → IsSound k.fs → StaysSound (pid_of k p)
pid-StaysSound k none v = tt
pid-StaysSound k (some p) v = v

abbrev HasSound : Kernel → ℕ → ℕ → ℕ → Type 0
HasSound k arg1 arg2 arg3 = IsSound k.fs

abbrev SoundHandler : Handler → Type 0
SoundHandler = Meets HasSound (λ k. StaysSound)

exit-Sound : SoundHandler sys_exit_wrapper
exit-Sound k code arg2 arg3 v = exit-StaysSound k (process_exit k.system (code % 2 ^ 32)) v

write-Sound : SoundHandler sys_write_wrapper
write-Sound k fd buf len v =
    write-StaysSound k (sys_write (io_of k) k.memory (to_int fd) buf len)
      (sys_write-Kept (io_of k) k.memory (to_int fd) buf len v)

read-Sound : SoundHandler sys_read_wrapper
read-Sound k fd buf len v =
    read-StaysSound k (sys_read (io_of k) k.memory (to_int fd) buf len)
      (sys_read-Kept (io_of k) k.memory (to_int fd) buf len v)

yield-Sound : SoundHandler sys_yield_wrapper
yield-Sound k arg1 arg2 arg3 v = v

pid-Sound : SoundHandler sys_getpid_wrapper
pid-Sound k arg1 arg2 arg3 v = pid-StaysSound k k.system.current v

sleep-Sound : SoundHandler sys_sleep_wrapper
sleep-Sound k ms arg2 arg3 v = v

open-Sound : SoundHandler sys_open_wrapper
open-Sound k path flags arg3 v =
    let s = (io_of k).sys in
    result-StaysSound k (sys_open s k.memory path (flags % 2 ^ 32))
      (sys_open-Kept s k.memory path (flags % 2 ^ 32) v)

close-Sound : SoundHandler sys_close_wrapper
close-Sound k fd arg2 arg3 v =
    let s = (io_of k).sys in
    result-StaysSound k (sys_close s (to_int fd)) (sys_close-Kept s (to_int fd) v)

lseek-Sound : SoundHandler sys_lseek_wrapper
lseek-Sound k fd offset whence v =
    let s = (io_of k).sys in
    result-StaysSound k (sys_lseek s (to_int fd) offset (whence % 2 ^ 32))
      (sys_lseek-Kept s (to_int fd) offset (whence % 2 ^ 32) v)

stat-Sound : SoundHandler sys_stat_wrapper
stat-Sound k path ptr arg3 v =
    let s = (io_of k).sys in
    stat-StaysSound k ptr (sys_stat s k.memory path ptr blank_stat)
      (sys_stat-Kept s k.memory path ptr blank_stat v)

fstat-Sound : SoundHandler sys_fstat_wrapper
fstat-Sound k fd ptr arg3 v =
    fstat-StaysSound k ptr (sys_fstat (io_of k).sys (to_int fd) ptr blank_stat) v

readdir-Sound : SoundHandler sys_readdir_wrapper
readdir-Sound k fd ptr index v =
    dirent-StaysSound k ptr
      (sys_readdir (io_of k).sys (to_int fd) ptr (λ i. k.memory (ptr + i)) (index % 2 ^ 32)) v

getcwd-Sound : SoundHandler sys_getcwd_wrapper
getcwd-Sound k ptr size arg3 v = cwd-StaysSound k ptr (sys_getcwd (io_of k).sys ptr size) v

chdir-Sound : SoundHandler sys_chdir_wrapper
chdir-Sound k path arg2 arg3 v =
    let s = (io_of k).sys in
    result-StaysSound k (sys_chdir s k.memory path) (sys_chdir-Kept s k.memory path v)

table-Sound : All SoundHandler syscall_table
table-Sound =
    exit-Sound ◂ write-Sound ◂ read-Sound ◂ yield-Sound ◂ pid-Sound ◂ sleep-Sound ◂ open-Sound
    ◂ close-Sound ◂ lseek-Sound ◂ stat-Sound ◂ fstat-Sound ◂ readdir-Sound ◂ getcwd-Sound
    ◂ chdir-Sound ◂ end

-- Every system call, whatever its number and its arguments are and whether or not it succeeds,
-- keeps the invariants of the filesystem: the counters count the clear bits, each block has one
-- pointer at most and is marked, and each inode with a type is marked.
pub syscall_dispatch-StaysSound :
    (k : Kernel) (num arg1 arg2 arg3 : ℕ)
    → IsSound k.fs
    → StaysSound (syscall_dispatch k num arg1 arg2 arg3)
syscall_dispatch-StaysSound k num arg1 arg2 arg3 v =
    dispatch-Meets HasSound (λ k. StaysSound) k num arg1 arg2 arg3 table-Sound
      (λ k arg1 arg2 arg3 v. v) v
