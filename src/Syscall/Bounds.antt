-- ===== src/Syscall/Bounds.antt =====
-- The checks of user pointers keep the system calls out of the kernel's memory.
use chanux.Common.{
  ℕ, ◌+◌, ◌%◌, ◌^◌, ◌<◌, refl, ◌==◌, Option, none, some, u64_mod, arith, Bool-cases, inl, inr,
}
use chanux.Proc.{System}
use chanux.FsPath.{vfs_max_path}
use chanux.Process.{process_exit}
use chanux.SysFs.{
  stat_for, stat_entry, read_entry, entry_of, path_at, validate_user_ptr_read, validate_user_string,
  dirent_bytes, stat_bytes, sys_open, sys_close, sys_lseek, sys_stat, sys_fstat, sys_readdir,
  sys_getcwd, sys_chdir,
}
use chanux.SysIo.{sys_read, sys_write}
use chanux.SysIo.Bounds.{sys_read-WritesUser}
use chanux.Syscall.{
  Kernel, io_of, Handler, syscall_table, syscall_dispatch, exited, pid_of, to_int, sys_exit_wrapper,
  sys_read_wrapper, sys_getpid_wrapper, sys_stat_wrapper, sys_fstat_wrapper, sys_readdir_wrapper,
  sys_getcwd_wrapper, sys_write_wrapper, sys_yield_wrapper, sys_sleep_wrapper, sys_open_wrapper,
  sys_close_wrapper, sys_lseek_wrapper, sys_chdir_wrapper,
}
use chanux.Syscall.Structs.{blank_stat}
use chanux.Syscall.Table.{All, end, ◌◂◌, Meets, dispatch-Meets}
use chanux.Syscall.Places.{
  IsSafe, accepted_end, result-IsSafe, write-IsSafe, read-IsSafe, stat-IsSafe, fstat-IsSafe,
  dirent-IsSafe, cwd-IsSafe,
}

abbrev Are64 : Kernel → ℕ → ℕ → ℕ → Type 0
Are64 k arg1 arg2 arg3 = (arg1 < u64_mod) × (arg2 < u64_mod) × (arg3 < u64_mod)

-- A handler that is safe for every state and 64-bit arguments.
abbrev SafeHandler : Handler → Type 0
SafeHandler = Meets Are64 (λ k. IsSafe k.memory)

exit-Safe : SafeHandler sys_exit_wrapper
exit-Safe k code arg2 arg3 (l1, l2, l3) = ended_safely (process_exit k.system (code % 2 ^ 32))
  where
    ended_safely : (s : Option System) → IsSafe k.memory (exited k s)
    ended_safely none = tt
    ended_safely (some s) = λ a high. refl

pid-Safe : SafeHandler sys_getpid_wrapper
pid-Safe k arg1 arg2 arg3 (l1, l2, l3) = answered k.system.current
  where
    answered : (p : Option ℕ) → IsSafe k.memory (pid_of k p)
    answered none = tt
    answered (some p) = λ a high. refl

read-Safe : SafeHandler sys_read_wrapper
read-Safe k fd buf len (l1, l2, l3) =
    read-IsSafe k buf len (sys_read (io_of k) k.memory (to_int fd) buf len)
      (sys_read-WritesUser (io_of k) k.memory (to_int fd) buf len l2 l3)

stat-Safe : SafeHandler sys_stat_wrapper
unfolding sys_stat
stat-Safe k path ptr arg3 (l1, l2, l3) =
    let s = (io_of k).sys in
    elim (Bool-cases (validate_user_string k.memory path vfs_max_path)) [
      | inr refused ↦ rw refused (λ a high. refl)
      | inl there ↦ elim (Bool-cases (validate_user_ptr_read ptr stat_bytes)) [
        | inr refused ↦ rw (there, refused) (λ a high. refl)
        | inl valid ↦
            rw (there, valid)
              (stat-IsSafe k ptr (stat_for s (path_at k.memory path) blank_stat s.caller)
                (accepted_end ptr stat_bytes l2 (omega arith) valid))
      ]
    ]

fstat-Safe : SafeHandler sys_fstat_wrapper
unfolding sys_fstat
fstat-Safe k fd ptr arg3 (l1, l2, l3) =
    let s = (io_of k).sys in
    elim (Bool-cases (validate_user_ptr_read ptr stat_bytes)) [
      | inr refused ↦ rw refused (λ a high. refl)
      | inl valid ↦ rw valid (
          fstat-IsSafe k ptr (stat_entry s.vfs blank_stat (entry_of s (to_int fd)))
            (accepted_end ptr stat_bytes l2 (omega arith) valid))
    ]

readdir-Safe : SafeHandler sys_readdir_wrapper
unfolding sys_readdir
readdir-Safe k fd ptr index (l1, l2, l3) =
    let s = (io_of k).sys in
    elim (Bool-cases (validate_user_ptr_read ptr dirent_bytes)) [
      | inr refused ↦ rw refused (λ a high. refl)
      | inl valid ↦ rw valid (
          dirent-IsSafe k ptr
            (read_entry s.vfs (λ i. k.memory (ptr + i)) (index % 2 ^ 32) (entry_of s (to_int fd)))
            (accepted_end ptr dirent_bytes l2 (omega arith) valid))
    ]

getcwd-Safe : SafeHandler sys_getcwd_wrapper
unfolding sys_getcwd
getcwd-Safe k ptr size arg3 (l1, l2, l3) = elim (Bool-cases (validate_user_ptr_read ptr size)) [
  | inr refused ↦ rw refused (λ a high. refl)
  | inl valid ↦ elim (Bool-cases (size == 0)) [
    | inl empty ↦ rw (valid, empty) (λ a high. refl)
    | inr some_room ↦
        rw (valid, some_room)
          (cwd-IsSafe k ptr size (io_of k).sys.caller (accepted_end ptr size l1 l2 valid))
  ]
]

write-Safe : SafeHandler sys_write_wrapper
write-Safe k fd buf len (l1, l2, l3) =
    write-IsSafe k (sys_write (io_of k) k.memory (to_int fd) buf len)

yield-Safe : SafeHandler sys_yield_wrapper
yield-Safe k arg1 arg2 arg3 (l1, l2, l3) = λ a high. refl

sleep-Safe : SafeHandler sys_sleep_wrapper
sleep-Safe k ms arg2 arg3 (l1, l2, l3) = λ a high. refl

open-Safe : SafeHandler sys_open_wrapper
open-Safe k path flags arg3 (l1, l2, l3) =
    result-IsSafe k (sys_open (io_of k).sys k.memory path (flags % 2 ^ 32))

close-Safe : SafeHandler sys_close_wrapper
close-Safe k fd arg2 arg3 (l1, l2, l3) = result-IsSafe k (sys_close (io_of k).sys (to_int fd))

lseek-Safe : SafeHandler sys_lseek_wrapper
lseek-Safe k fd offset whence (l1, l2, l3) =
    result-IsSafe k (sys_lseek (io_of k).sys (to_int fd) offset (whence % 2 ^ 32))

chdir-Safe : SafeHandler sys_chdir_wrapper
chdir-Safe k path arg2 arg3 (l1, l2, l3) = result-IsSafe k (sys_chdir (io_of k).sys k.memory path)

table-Safe : All SafeHandler syscall_table
table-Safe =
    exit-Safe ◂ write-Safe ◂ read-Safe ◂ yield-Safe ◂ pid-Safe ◂ sleep-Safe ◂ open-Safe ◂ close-Safe
    ◂ lseek-Safe ◂ stat-Safe ◂ fstat-Safe ◂ readdir-Safe ◂ getcwd-Safe ◂ chdir-Safe ◂ end

-- Whatever its number and its 64-bit arguments are, a system call that comes back or gives way to
-- another process has changed no byte of memory at or above the end of user space.
pub syscall_dispatch-IsSafe :
    (k : Kernel) (num arg1 arg2 arg3 : ℕ)
    → arg1 < u64_mod
    → arg2 < u64_mod
    → arg3 < u64_mod
    → IsSafe k.memory (syscall_dispatch k num arg1 arg2 arg3)
syscall_dispatch-IsSafe k num arg1 arg2 arg3 l1 l2 l3 =
    dispatch-Meets Are64 (λ k. IsSafe k.memory) k num arg1 arg2 arg3 table-Safe
      (λ k arg1 arg2 arg3 low a high. refl) (l1, l2, l3)
