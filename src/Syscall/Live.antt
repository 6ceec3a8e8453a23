-- ===== src/Syscall/Live.antt =====
-- The handlers of the system calls and the invariant of the scheduler. Memory is there at every
-- address; Syscall/Fault has the calls on the memory that there is.
use chanux.Common.{
  ℕ, ◌%◌, ◌^◌, ◌+◌, ◌≡◌, refl, sym, subst, false, Option, none, some, List, ℤ, pos, negsuc, arith,
}
use chanux.Memory.{Mem}
use chanux.FileTable.{FileTable}
use chanux.Proc.{System, is_idle}
use chanux.Process.{process_exit}
use chanux.Process.Lifecycle.{files-IsScheduled, process_exit-StaysLive}
use chanux.Process.Sleep.{process_yield-StaysLive, sys_sleep-StaysLive}
use chanux.Sched.Wake.{IsLive}
use chanux.Sched.Tick.{StaysLive, current-IsLive}
use chanux.Vfs.Tree.{Stat}
use chanux.SysFs.{
  SysState, Caller, sys_open, sys_close, sys_lseek, sys_stat, sys_fstat, sys_readdir, sys_getcwd,
  sys_chdir,
}
use chanux.SysIo.{IoState, sys_read, sys_write}
use chanux.Syscall.{
  Kernel, CallResult, returned, gone, stopped, io_of, put_caller, put_sys, Handler, syscall_table,
  syscall_dispatch, put_result, put_write, put_read, put_stat, put_fstat, put_dirent, put_cwd,
  exited, pid_of, to_int, sys_exit_wrapper, sys_write_wrapper, sys_read_wrapper, sys_yield_wrapper,
  sys_getpid_wrapper, sys_sleep_wrapper, sys_open_wrapper, sys_close_wrapper, sys_lseek_wrapper,
  sys_stat_wrapper, sys_fstat_wrapper, sys_readdir_wrapper, sys_getcwd_wrapper, sys_chdir_wrapper,
}
use chanux.Syscall.Structs.{blank_stat}
use chanux.Syscall.Table.{All, end, ◌◂◌, Meets, dispatch-Meets}

-- The current process is not the idle one, and the scheduler keeps its invariant.
abbrev pub IsCalling : System → ℕ → Type 0
IsCalling s i = (xs : List ℕ) × (c : ℕ) × IsLive s xs c i × (is_idle (s.procs c) ≡ false)

-- The kernel goes on, with the invariant of the scheduler.
abbrev pub GoesOn : ℕ → CallResult → Type 0
GoesOn i (returned r k) = StaysLive k.system i
GoesOn i (gone k) = StaysLive k.system i
GoesOn i stopped = ⊥

pub files-IsLive :
    (s : System) (files : FileTable) (xs : List ℕ) (c i : ℕ)
    → IsLive s xs c i
    → IsLive (record s { files = files }) xs c i
files-IsLive s files xs c i v = record {
  scheduled = files-IsScheduled s files xs c i v.scheduled;
  awake = v.awake;
  idle_awake = v.idle_awake;
}

caller-IsLive :
    (s : System) (p : Option ℕ) (o : Option Caller) (xs : List ℕ) (c i : ℕ)
    → p ≡ some c
    → IsLive s xs c i
    → IsLive (put_caller s p o) xs c i
caller-IsLive s none o xs c i e v = v
caller-IsLive s (some p) none xs c i e v = v
caller-IsLive s (some p) (some caller) xs c i e v =
    let same : c ≡ p = ground (arith, e) in
    subst (λ x. IsLive (put_caller s (some x) (some caller)) xs c i) same
      (current-IsLive s xs c i v
        (record (s.procs c) { fd_table = caller.fd_table; cwd = caller.cwd })
        (record { next = refl; prev = refl; flags = refl }) refl)

module _ (k : Kernel) (i : ℕ) (live : IsCalling k.system i) where
  stays : StaysLive k.system i
  stays = let (xs, c, v, busy) = live in (xs, c, v)

  put_sys-StaysLive : (s : SysState) → StaysLive (put_sys k s).system i
  put_sys-StaysLive s =
      let (xs, c, v, busy) = live in
      (
        xs,
        c,
        caller-IsLive (record k.system { files = s.vfs.files }) k.system.current s.caller xs c i
            v.scheduled.current (files-IsLive k.system s.vfs.files xs c i v),
      )

  result-GoesOn : (r : ℤ × SysState) → GoesOn i (put_result k r)
  result-GoesOn (r, s) = put_sys-StaysLive s

  write-GoesOn : (r : ℤ × IoState) → GoesOn i (put_write k r)
  write-GoesOn (r, s) = put_sys-StaysLive s.sys

  read-GoesOn : (r : ℤ × Mem × IoState) → GoesOn i (put_read k r)
  read-GoesOn (r, mem, s) = put_sys-StaysLive s.sys

  stat-GoesOn : (ptr : ℕ) (r : ℤ × Stat × SysState) → GoesOn i (put_stat k ptr r)
  stat-GoesOn ptr (pos r, st, s) = put_sys-StaysLive s
  stat-GoesOn ptr (negsuc r, st, s) = put_sys-StaysLive s

  fstat-GoesOn : (ptr : ℕ) (r : ℤ × Stat) → GoesOn i (put_fstat k ptr r)
  fstat-GoesOn ptr (pos r, st) = stays
  fstat-GoesOn ptr (negsuc r, st) = stays

  dirent-GoesOn : (ptr : ℕ) (r : ℤ × (ℕ → ℕ)) → GoesOn i (put_dirent k ptr r)
  dirent-GoesOn ptr (pos r, entry) = stays
  dirent-GoesOn ptr (negsuc r, entry) = stays

  cwd-GoesOn : (ptr : ℕ) (r : ℤ × Option (List ℕ)) → GoesOn i (put_cwd k ptr r)
  cwd-GoesOn ptr (r, none) = stays
  cwd-GoesOn ptr (r, some path) = stays

  exit-GoesOn : (code : ℕ) → GoesOn i (exited k (process_exit k.system code))
  exit-GoesOn code =
      let (xs, c, v, busy) = live in
      let (s', e, after) = process_exit-StaysLive k.system xs c i v code busy in
      subst (λ x. GoesOn i (exited k x)) (sym e) after

  pid-GoesOn : GoesOn i (pid_of k k.system.current)
  pid-GoesOn =
      let (xs, c, v, busy) = live in
      subst (λ x. GoesOn i (pid_of k x)) (sym v.scheduled.current) stays

abbrev Calls : ℕ → Kernel → ℕ → ℕ → ℕ → Type 0
Calls i k arg1 arg2 arg3 = IsCalling k.system i

abbrev LiveHandler : ℕ → Handler → Type 0
LiveHandler i = Meets (Calls i) (λ k. GoesOn i)

module _ (i : ℕ) where
  exit-Live : LiveHandler i sys_exit_wrapper
  exit-Live k code arg2 arg3 live = exit-GoesOn k i live (code % 2 ^ 32)

  write-Live : LiveHandler i sys_write_wrapper
  write-Live k fd buf len live =
      write-GoesOn k i live (sys_write (io_of k) k.memory (to_int fd) buf len)

  read-Live : LiveHandler i sys_read_wrapper
  read-Live k fd buf len live =
      read-GoesOn k i live (sys_read (io_of k) k.memory (to_int fd) buf len)

  yield-Live : LiveHandler i sys_yield_wrapper
  yield-Live k arg1 arg2 arg3 (xs, c, v, busy) = process_yield-StaysLive k.system xs c i v

  pid-Live : LiveHandler i sys_getpid_wrapper
  pid-Live k arg1 arg2 arg3 live = pid-GoesOn k i live

  sleep-Live : LiveHandler i sys_sleep_wrapper
  sleep-Live k ms arg2 arg3 (xs, c, v, busy) = sys_sleep-StaysLive k.system xs c i k.fs.ticks ms v

  open-Live : LiveHandler i sys_open_wrapper
  open-Live k path flags arg3 live =
      result-GoesOn k i live (sys_open (io_of k).sys k.memory path (flags % 2 ^ 32))

  close-Live : LiveHandler i sys_close_wrapper
  close-Live k fd arg2 arg3 live = result-GoesOn k i live (sys_close (io_of k).sys (to_int fd))

  lseek-Live : LiveHandler i sys_lseek_wrapper
  lseek-Live k fd offset whence live =
      result-GoesOn k i live (sys_lseek (io_of k).sys (to_int fd) offset (whence % 2 ^ 32))

  stat-Live : LiveHandler i sys_stat_wrapper
  stat-Live k path ptr arg3 live =
      stat-GoesOn k i live ptr (sys_stat (io_of k).sys k.memory path ptr blank_stat)

  fstat-Live : LiveHandler i sys_fstat_wrapper
  fstat-Live k fd ptr arg3 live =
      fstat-GoesOn k i live ptr (sys_fstat (io_of k).sys (to_int fd) ptr blank_stat)

  readdir-Live : LiveHandler i sys_readdir_wrapper
  readdir-Live k fd ptr index live =
      dirent-GoesOn k i live ptr
        (sys_readdir (io_of k).sys (to_int fd) ptr (λ j. k.memory (ptr + j)) (index % 2 ^ 32))

  getcwd-Live : LiveHandler i sys_getcwd_wrapper
  getcwd-Live k ptr size arg3 live = cwd-GoesOn k i live ptr (sys_getcwd (io_of k).sys ptr size)

  chdir-Live : LiveHandler i sys_chdir_wrapper
  chdir-Live k path arg2 arg3 live = result-GoesOn k i live (sys_chdir (io_of k).sys k.memory path)

  table-Live : All (LiveHandler i) syscall_table
  table-Live =
      exit-Live ◂ write-Live ◂ read-Live ◂ yield-Live ◂ pid-Live ◂ sleep-Live ◂ open-Live
      ◂ close-Live ◂ lseek-Live ◂ stat-Live ◂ fstat-Live ◂ readdir-Live ◂ getcwd-Live ◂ chdir-Live
      ◂ end

  -- If the scheduler keeps its invariant, neither the current nor an idle process is blocked and
  -- the current process is not an idle one, no handler panics: it returns, or another process runs,
  -- and the same holds of the scheduler afterwards, for some queue and some current process.
  pub syscall_dispatch-GoesOn :
      (k : Kernel) (num arg1 arg2 arg3 : ℕ)
      → IsCalling k.system i
      → GoesOn i (syscall_dispatch k num arg1 arg2 arg3)
  syscall_dispatch-GoesOn k num arg1 arg2 arg3 live =
      dispatch-Meets (Calls i) (λ k. GoesOn i) k num arg1 arg2 arg3 table-Live
        (λ k arg1 arg2 arg3 live. stays k i live) live
