-- ===== src/Process.antt =====
-- kernel/proc/process.c: the process table, and what a process asks of the scheduler
-- (kernel/syscall/sys_process.c). Each function runs with interrupts off.
pub mod Slots
pub mod Lifecycle
pub mod Sleep
pub mod Sample
mod Tests
use chanux.Common.{
  ℕ, zero, suc, ◌+◌, ◌-◌, ◌/◌, ◌%◌, Bool, true, false, not, ◌&&◌, ◌||◌, ◌==◌, ltb, leb,
  if◌then◌else◌, Option, none, some, add64, sub64, List, [], ◌∷◌, update, add32,
}
use chanux.FileTable.{
  FdTable, FileTable, fd_table_create, fd_table_destroy, fd_init_stdio, empty_table,
}
use chanux.Proc.{
  Process, ProcessState, System, set_proc, is_idle, default_time_slice, max_processes, flag_kernel,
  flag_idle, str_copy, process_name_max, cwd_max, kernel_stack_size,
}
use chanux.RunQueue.{sched_add, points_to}
use chanux.Sched.{schedule, sched_reschedule, is_blocked}

abbrev pub is_unused : ProcessState → Bool
is_unused ProcessState.unused = true
is_unused _ = false

-- The first unused slot among the `n` from `i` on.
pub find_slot : (ℕ → Process) → ℕ → ℕ → Option ℕ
find_slot procs zero i = none
find_slot procs (suc n) i =
    let rest = find_slot procs n (i + 1) in if is_unused (procs i).state then some i else rest

abbrev pub find_free_slot : System → Option ℕ
find_free_slot s = find_slot s.procs max_processes 0

pub get_from : (ℕ → Process) → ℕ → ℕ → ℕ → Option ℕ
get_from procs pid zero i = none
get_from procs pid (suc n) i =
    let rest = get_from procs pid n (i + 1) in
    if not (is_unused (procs i).state) && (procs i).pid == pid then some i else rest

unfoldable pub process_get : System → ℕ → Option ℕ
process_get s pid = get_from s.procs pid max_processes 0

-- `process_count(-1)`, and `process_count(state)` by a test on the state.
pub count_states : (ℕ → Process) → (ProcessState → Bool) → ℕ → ℕ → ℕ
count_states procs test zero i = 0
count_states procs test (suc n) i =
    (if test (procs i).state then 1 else 0) + count_states procs test n (i + 1)

unfoldable pub process_count : System → (ProcessState → Bool) → ℕ
process_count s test = count_states s.procs test max_processes 0

-- `(stack + KERNEL_STACK_SIZE) & ~0xF`
abbrev pub stack_top : ℕ → ℕ
stack_top stack = let top = add64 stack kernel_stack_size in top - top % 16

-- The saved stack pointer below the return address and six registers of the first frame.
abbrev pub setup_initial_stack : Process → Process
setup_initial_stack proc = record proc { rsp = sub64 proc.kernel_stack_top 56 }

abbrev add_stdio : Option FdTable × FileTable → Option FdTable × FileTable
add_stdio (none, s) = (none, s)
add_stdio (some t, s) = let (t', s') = fd_init_stdio t s in (some t', s')

-- The file descriptors of a new process, if `kmalloc` gives the memory of their table.
pub stdio_table : Bool → FileTable → Option FdTable × FileTable
stdio_table memory s = add_stdio (fd_table_create memory s)

-- The idle process of `process_init`, on its stack.
idle_process : Process → ℕ → ℕ → Option FdTable → Process
idle_process old stack entry table = setup_initial_stack (record old {
  pid = 0;
  name = str_copy (105 ∷ 100 ∷ 108 ∷ 101 ∷ []) process_name_max;
  state = ProcessState.ready;
  flags = flag_kernel + flag_idle;
  priority = 0;
  time_slice = default_time_slice;
  total_ticks = 0;
  exit_code = 0;
  parent_pid = 0;
  next = none;
  prev = none;
  kernel_stack = some stack;
  kernel_stack_top = stack_top stack;
  entry = entry;
  entry_arg = 0;
  fd_table = table;
  cwd = 47 ∷ [];
})

abbrev cleared : Process → Process
cleared proc = record proc {
  state = ProcessState.unused;
  pid = 0;
  kernel_stack = none;
  fd_table = none;
  cwd = 47 ∷ [];
}

-- `stack` and `memory` are what `kmalloc` answers for the stack and for the descriptor table; `none`
-- is the panic without a stack. `entry` is the address of `idle_process_entry`.
unfoldable pub process_init : System → ℕ → Option ℕ → Bool → Option System
unfolding idle_process
process_init s entry none memory = none
process_init s entry (some stack) memory =
    let procs = λ (p : ℕ). if ltb p max_processes then cleared (s.procs p) else s.procs p in
    let (table, files) = stdio_table memory s.files in
    some (record s {
      procs = update procs 0 (idle_process (procs 0) stack entry table);
      next_pid = 1;
      current = some 0;
      files = files;
    })

-- What is left of the slot's last use goes away: its stack by `kfree`, its open files.
abbrev pub clean_slot : System → ℕ → System
clean_slot s p =
    record (set_proc s p (record (s.procs p) { kernel_stack = none; fd_table = none })) {
      files = fd_table_destroy (s.procs p).fd_table s.files;
    }

abbrev parent_of : System → ℕ
parent_of s = elim s.current [ none ↦ 0 | some c ↦ (s.procs c).pid ]

abbrev or_root : List ℕ → List ℕ
or_root [] = 47 ∷ []
or_root (c ∷ cs) = str_copy (c ∷ cs) cwd_max

-- The working directory of the process that creates, or the root.
abbrev inherited_cwd : System → List ℕ
inherited_cwd s = elim s.current [ none ↦ 47 ∷ [] | some c ↦ or_root (s.procs c).cwd ]

abbrev name_or_unnamed : Option (List ℕ) → List ℕ
name_or_unnamed none = 117 ∷ 110 ∷ 110 ∷ 97 ∷ 109 ∷ 101 ∷ 100 ∷ []
name_or_unnamed (some name) = name

-- The control block that `process_create` fills in.
unfoldable pub new_process : System → ℕ → Option (List ℕ) → ℕ → ℕ → ℕ → Option FdTable → Process
new_process s p name entry arg stack table = setup_initial_stack (record (s.procs p) {
  pid = s.next_pid;
  name = str_copy (name_or_unnamed name) process_name_max;
  state = ProcessState.ready;
  flags = flag_kernel;
  priority = 1;
  time_slice = default_time_slice;
  total_ticks = 0;
  exit_code = 0;
  parent_pid = parent_of s;
  next = none;
  prev = none;
  kernel_stack = some stack;
  kernel_stack_top = stack_top stack;
  entry = entry;
  entry_arg = arg;
  fd_table = table;
  cwd = inherited_cwd s;
})

-- Filling the slot `p`, and queueing it.
unfoldable pub create_in : System → ℕ → Option (List ℕ) → ℕ → ℕ → ℕ → Bool → System
create_in s p name entry arg stack memory =
    let (table, files) = stdio_table memory s.files in
    sched_add
      (record (set_proc s p (new_process s p name entry arg stack table)) {
        next_pid = add64 s.next_pid 1;
        files = files;
      })
      (some p)

-- `none` is (pid_t)-1. The slot is cleaned before the stack is asked for.
unfoldable pub process_create :
    System → Option (List ℕ) → ℕ → ℕ → Option ℕ → Bool → Option ℕ × System
process_create s name entry arg stack memory = elim (find_free_slot s) [
  | none ↦ (none, s)
  | some p ↦ elim stack [
    | none ↦ (none, clean_slot s p)
    | some base ↦ (some s.next_pid, create_in (clean_slot s p) p name entry arg base memory)
  ]
]

-- The current process before the switch of `process_exit`.
abbrev ended : System → ℕ → ℕ → System
ended s cur code =
    record (set_proc s cur (record (s.procs cur) {
      fd_table = none;
      state = ProcessState.terminated;
      exit_code = code;
    })) { files = fd_table_destroy (s.procs cur).fd_table s.files }

-- A panic, if `schedule` comes back.
abbrev unless_back : ℕ → System → Option System
unless_back cur s = if points_to s.current cur then none else some s

-- `none` is a panic: no current process, the idle one, or no other process to switch to.
unfoldable pub process_exit : System → ℕ → Option System
process_exit s code = elim s.current [
  | none ↦ none
  | some cur ↦ if is_idle (s.procs cur) then none else unless_back cur (schedule (ended s cur code))
]

unfoldable pub process_yield : System → System
process_yield s = elim s.current [
  | none ↦ s
  | some cur ↦
      schedule (
        sched_reschedule
          (set_proc s cur (record (s.procs cur) { time_slice = default_time_slice })))
]

abbrev blocked : System → ℕ → System
blocked s cur = set_proc s cur (record (s.procs cur) { state = ProcessState.blocked })

unfoldable pub process_block : System → System
process_block s = elim s.current [
  | none ↦ s
  | some cur ↦ if is_idle (s.procs cur) then s else schedule (blocked s cur)
]

abbrev unblock_at : System → ℕ → System
unblock_at s p =
    if is_blocked (s.procs p).state
    then sched_add
        (set_proc s p
          (record (s.procs p) { state = ProcessState.ready; time_slice = default_time_slice }))
        (some p)
    else s

unfoldable pub process_unblock : System → ℕ → System
process_unblock s pid = elim (process_get s pid) [ none ↦ s | some p ↦ unblock_at s p ]

-- The tick at which a sleep of `ms` milliseconds ends, 10 ms to a tick and rounded up.
unfoldable pub wake_tick_after : ℕ → ℕ → ℕ
wake_tick_after now ms = add64 now (add64 ms 9 / 10)

abbrev pub sleeping : System → ℕ → ℕ → System
sleeping s cur tick = set_proc s cur (record (s.procs cur) { wake_tick = tick })

-- What `sys_sleep` does when `process_block` comes back: the process no longer sleeps.
abbrev pub slept : System → ℕ → System
slept s cur = sleeping s cur 0

-- `sys_sleep`, up to the switch if there is one.
unfoldable pub sys_sleep : System → ℕ → ℕ → System
unfolding process_block process_yield wake_tick_after
sys_sleep s now ms = elim s.current [
  | none ↦ s
  | some cur ↦
      let s' = process_block (sleeping s cur (wake_tick_after now ms)) in
      if ms == 0 then process_yield s else if points_to s'.current cur then slept s' cur else s'
]

-- `none` is the panic without an idle process.
unfoldable pub sched_init : System → Option System
unfolding process_get
sched_init s = elim (process_get s 0) [
  | none ↦ none
  | some i ↦ some (record s {
    idle = some i;
    head = none;
    tail = none;
    scheduler_running = false;
    need_reschedule = false;
  })
]
