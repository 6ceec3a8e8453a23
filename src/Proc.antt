-- ===== src/Proc.antt =====
-- kernel/include/proc/process.h: the process control block, and the state that process.c and
-- sched.c keep between them.
use Prim.Native.Nat.{bit_and}
use chanux.Common.{ℕ, ◌-◌, Bool, not, ◌==◌, Option, List, update, take}
use chanux.FileTable.{FdTable, FileTable}

-- `process_state_t`
pub data ProcessState : Type 0 where
  unused ready running blocked terminated : ProcessState

abbrev pub max_processes : ℕ
max_processes = 64

abbrev pub process_name_max : ℕ
process_name_max = 32

abbrev pub kernel_stack_size : ℕ
kernel_stack_size = 8192

abbrev pub default_time_slice : ℕ
default_time_slice = 10

abbrev pub cwd_max : ℕ
cwd_max = 256

abbrev pub flag_kernel : ℕ
flag_kernel = 1

abbrev pub flag_idle : ℕ
flag_idle = 2

-- `process_t`. A pointer to a process is its place in the process table; a C string is the list of
-- its bytes before the NUL; the entry point and its argument are the addresses.
pub record Process : Type 0 where
  pub pid : ℕ
  pub name : List ℕ
  pub state : ProcessState
  pub flags : ℕ
  pub kernel_stack : Option ℕ
  pub kernel_stack_top : ℕ
  pub rsp : ℕ
  pub entry : ℕ
  pub entry_arg : ℕ
  pub time_slice : ℕ
  pub priority : ℕ
  pub total_ticks : ℕ
  pub next : Option ℕ
  pub prev : Option ℕ
  pub exit_code : ℕ
  pub parent_pid : ℕ
  pub wake_tick : ℕ
  pub pml4_phys : ℕ
  pub user_stack : ℕ
  pub user_stack_top : ℕ
  pub user_rsp : ℕ
  pub user_code : ℕ
  pub user_code_size : ℕ
  pub fd_table : Option FdTable
  pub cwd : List ℕ

-- The static variables of process.c, then those of sched.c, and the files that processes share.
pub record System : Type 0 where
  pub procs : ℕ → Process
  pub next_pid : ℕ
  pub current : Option ℕ
  pub head : Option ℕ
  pub tail : Option ℕ
  pub scheduler_running : Bool
  pub need_reschedule : Bool
  pub idle : Option ℕ
  pub files : FileTable

abbrev pub set_proc : System → ℕ → Process → System
set_proc s p proc = record s { procs = update s.procs p proc }

-- `flags & PROCESS_FLAG_IDLE`
abbrev pub is_idle : Process → Bool
is_idle proc = not (bit_and proc.flags flag_idle == 0)

-- `str_copy` into a field of `max` bytes: what fits before the NUL.
pub str_copy : List ℕ → ℕ → List ℕ
str_copy src max = take (max - 1) src
