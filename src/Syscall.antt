-- ===== src/Syscall.antt =====
-- kernel/syscall/syscall.c: the table of system calls and `syscall_dispatch`, on the whole state that
-- the calls share. Memory is that of the calling process, with the kernel's half; what the calls put
-- on the screen is `screen`, and the messages of `kprintf` are not modelled.

pub mod Structs
pub mod Places
pub mod Bounds
pub mod Table
pub mod Sound
pub mod Live
pub mod Fault
pub mod Run
mod Tests
use chanux.Common.{
  ℕ, zero, suc, ◌+◌, ◌-◌, ◌%◌, ◌/◌, ◌^◌, Bool, leb, if◌then◌else◌, Option, none, some, update, ◌==◌,
  List, [], ◌∷◌, ℤ, pos, negsuc,
}
use chanux.Memory.{Mem}
use chanux.FileTable.{FileTable}
use chanux.Keyboard.{Keyboard}
use chanux.Proc.{Process, System, set_proc}
use chanux.Process.{process_exit, process_yield, sys_sleep}
use chanux.Ramfs.{Ramfs, write_bytes}
use chanux.Vfs.Tree.{Stat}
use chanux.SysFs.{
  SysState, Caller, dirent_bytes, sys_open, sys_close, sys_lseek, sys_stat, sys_fstat, sys_readdir,
  sys_getcwd, sys_chdir,
}
use chanux.Syscall.Structs.{
  put_number, put_fields, stat_fields, time_fields, padding, put_string, blank_stat,
}
use chanux.SysIo.{IoState, sys_read, sys_write}

pub record Kernel : Type 0 where
  pub system : System
  pub fs : Ramfs
  pub vfs_initialized : Bool
  pub keyboard : Keyboard
  pub screen : List ℕ
  pub memory : Mem

-- What a call comes to: it returns to its process (with a yield or a sleep, when that runs again), the
-- process is gone and another one runs, or the kernel has stopped.
pub data CallResult : Type 0 where
  returned : ℤ → Kernel → CallResult
  gone : Kernel → CallResult
  stopped : CallResult

abbrev pub caller_at : System → Option ℕ → Option Caller
caller_at s none = none
caller_at s (some p) = some (record { fd_table = (s.procs p).fd_table; cwd = (s.procs p).cwd })

-- The state that the file calls see, and its parts put back.
abbrev pub io_of : Kernel → IoState
io_of k = record {
  sys = record {
    vfs = record { files = k.system.files; fs = k.fs; initialized = k.vfs_initialized };
    caller = caller_at k.system k.system.current;
  };
  keyboard = k.keyboard;
  screen = k.screen;
}

abbrev pub put_caller : System → Option ℕ → Option Caller → System
put_caller s none c = s
put_caller s (some p) none = s
put_caller s (some p) (some c) =
    set_proc s p (record (s.procs p) { fd_table = c.fd_table; cwd = c.cwd })

abbrev pub put_sys : Kernel → SysState → Kernel
put_sys k s = record k {
  system = put_caller (record k.system { files = s.vfs.files }) k.system.current s.caller;
  fs = s.vfs.fs;
  vfs_initialized = s.vfs.initialized;
}

abbrev pub put_io : Kernel → IoState → Kernel
put_io k s = record (put_sys k s.sys) { keyboard = s.keyboard; screen = s.screen }

-- The casts of an argument, a 64-bit word, to `int` and to `uint32_t`.
abbrev to_uint32 : ℕ → ℕ
to_uint32 arg = arg % 2 ^ 32

unfoldable pub to_int : ℕ → ℤ
to_int arg = let n = arg % 2 ^ 32 in if leb (2 ^ 31) n then negsuc (2 ^ 32 - 1 - n) else pos n

-- The results of the calls, put into the state.
abbrev with_memory : Kernel → Mem → Kernel
with_memory k mem = record k { memory = mem }

abbrev pub put_result : Kernel → ℤ × SysState → CallResult
put_result k (r, s) = returned r (put_sys k s)

abbrev pub put_write : Kernel → ℤ × IoState → CallResult
put_write k (r, s) = returned r (put_io k s)

abbrev pub put_read : Kernel → ℤ × Mem × IoState → CallResult
put_read k (r, mem, s) = returned r (with_memory (put_io k s) mem)

abbrev pub put_stat : Kernel → ℕ → ℤ × Stat × SysState → CallResult
put_stat k ptr (negsuc e, st, s) = returned (negsuc e) (put_sys k s)
put_stat k ptr (pos r, st, s) =
    let mem = put_fields (put_fields k.memory ptr padding) ptr (stat_fields st) in
    returned (pos r) (with_memory (put_sys k s) (put_fields mem ptr (time_fields st)))

abbrev pub put_fstat : Kernel → ℕ → ℤ × Stat → CallResult
put_fstat k ptr (negsuc e, st) = returned (negsuc e) k
put_fstat k ptr (pos r, st) =
    returned (pos r) (with_memory k (put_fields k.memory ptr (stat_fields st)))

abbrev pub put_dirent : Kernel → ℕ → ℤ × (ℕ → ℕ) → CallResult
put_dirent k ptr (negsuc e, entry) = returned (negsuc e) k
put_dirent k ptr (pos r, entry) =
    returned (pos r) (with_memory k (write_bytes k.memory ptr entry dirent_bytes))

abbrev pub put_cwd : Kernel → ℕ → ℤ × Option (List ℕ) → CallResult
put_cwd k ptr (r, none) = returned r k
put_cwd k ptr (r, some path) = returned r (with_memory k (put_string k.memory ptr path))

abbrev pub exited : Kernel → Option System → CallResult
exited k none = stopped
exited k (some s) = gone (record k { system = s })

-- A call without a current process reads through a null pointer.
abbrev pub pid_of : Kernel → Option ℕ → CallResult
pid_of k none = stopped
pid_of k (some p) = returned (pos (k.system.procs p).pid) k

abbrev pub Handler : Type 0
Handler = Kernel → ℕ → ℕ → ℕ → CallResult

abbrev pub sys_exit_wrapper : Handler
sys_exit_wrapper k code arg2 arg3 = exited k (process_exit k.system (to_uint32 code))

abbrev pub sys_write_wrapper : Handler
sys_write_wrapper k fd buf len = put_write k (sys_write (io_of k) k.memory (to_int fd) buf len)

abbrev pub sys_read_wrapper : Handler
sys_read_wrapper k fd buf len = put_read k (sys_read (io_of k) k.memory (to_int fd) buf len)

abbrev pub sys_yield_wrapper : Handler
sys_yield_wrapper k arg1 arg2 arg3 = returned (pos 0) (record k { system = process_yield k.system })

abbrev pub sys_getpid_wrapper : Handler
sys_getpid_wrapper k arg1 arg2 arg3 = pid_of k k.system.current

abbrev pub sys_sleep_wrapper : Handler
sys_sleep_wrapper k ms arg2 arg3 =
    returned (pos 0) (record k { system = sys_sleep k.system k.fs.ticks ms })

abbrev pub sys_open_wrapper : Handler
sys_open_wrapper k path flags arg3 =
    put_result k (sys_open (io_of k).sys k.memory path (to_uint32 flags))

abbrev pub sys_close_wrapper : Handler
sys_close_wrapper k fd arg2 arg3 = put_result k (sys_close (io_of k).sys (to_int fd))

abbrev pub sys_lseek_wrapper : Handler
sys_lseek_wrapper k fd offset whence =
    put_result k (sys_lseek (io_of k).sys (to_int fd) offset (to_uint32 whence))

abbrev pub sys_stat_wrapper : Handler
sys_stat_wrapper k path buf arg3 =
    put_stat k buf (sys_stat (io_of k).sys k.memory path buf blank_stat)

abbrev pub sys_fstat_wrapper : Handler
sys_fstat_wrapper k fd buf arg3 =
    put_fstat k buf (sys_fstat (io_of k).sys (to_int fd) buf blank_stat)

abbrev pub sys_readdir_wrapper : Handler
sys_readdir_wrapper k fd entry index =
    put_dirent k entry
      (sys_readdir (io_of k).sys (to_int fd) entry (λ i. k.memory (entry + i)) (to_uint32 index))

abbrev pub sys_getcwd_wrapper : Handler
sys_getcwd_wrapper k buf size arg3 = put_cwd k buf (sys_getcwd (io_of k).sys buf size)

abbrev pub sys_chdir_wrapper : Handler
sys_chdir_wrapper k path arg2 arg3 = put_result k (sys_chdir (io_of k).sys k.memory path)

abbrev pub sys_max : ℕ
sys_max = 14

abbrev pub enosys : ℤ
enosys = negsuc 37

-- The handlers in the order of their numbers.
abbrev pub syscall_table : List Handler
syscall_table =
    sys_exit_wrapper ∷ sys_write_wrapper ∷ sys_read_wrapper ∷ sys_yield_wrapper ∷ sys_getpid_wrapper
    ∷ sys_sleep_wrapper ∷ sys_open_wrapper ∷ sys_close_wrapper ∷ sys_lseek_wrapper
    ∷ sys_stat_wrapper ∷ sys_fstat_wrapper ∷ sys_readdir_wrapper ∷ sys_getcwd_wrapper
    ∷ sys_chdir_wrapper ∷ []

pub handler_at : List Handler → ℕ → Option Handler
handler_at [] num = none
handler_at (h ∷ rest) zero = some h
handler_at (h ∷ rest) (suc num) = handler_at rest num

abbrev pub call : Kernel → ℕ → ℕ → ℕ → Option Handler → CallResult
call k arg1 arg2 arg3 none = returned enosys k
call k arg1 arg2 arg3 (some h) = h k arg1 arg2 arg3

-- No handler uses the fourth and the fifth argument.
unfoldable pub syscall_dispatch : Kernel → ℕ → ℕ → ℕ → ℕ → CallResult
syscall_dispatch k num arg1 arg2 arg3 =
    if leb sys_max num
    then returned enosys k
    else call k arg1 arg2 arg3 (handler_at syscall_table num)
