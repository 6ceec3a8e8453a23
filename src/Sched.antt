-- ===== src/Sched.antt =====
-- kernel/proc/sched.c over its run queue, with `process_wake_sleeping` of kernel/proc/process.c.
-- Interrupts are off in all of these functions, so each is one step.
pub mod Invariant
pub mod Rotation
pub mod Wake
pub mod Calm
pub mod Tick
use chanux.Common.{
  ℕ, zero, suc, ◌+◌, ◌-◌, Bool, true, false, not, ◌&&◌, ◌||◌, ◌==◌, ltb, leb, if◌then◌else◌, Option,
  none, some, add64,
}
use chanux.Proc.{
  Process, ProcessState, System, set_proc, is_idle, default_time_slice, max_processes,
}
use chanux.RunQueue.{is_some, sched_add, sched_pick_next, count_from}

abbrev pub is_running : ProcessState → Bool
is_running ProcessState.running = true
is_running _ = false

abbrev pub is_blocked : ProcessState → Bool
is_blocked ProcessState.blocked = true
is_blocked _ = false

-- A list of 64 processes is counted with fuel to spare.
unfoldable pub sched_ready_count : System → ℕ
sched_ready_count s = count_from s (max_processes + 1) s.head 0

abbrev pub sched_reschedule : System → System
sched_reschedule s = record s { need_reschedule = true }

-- A process that waited is made ready.
abbrev pub awaken : Process → Process
awaken proc = record proc {
  state = ProcessState.ready;
  time_slice = default_time_slice;
  wake_tick = 0;
}

-- The process sleeps, and its time has come.
abbrev pub is_due : ℕ → Process → Bool
is_due tick proc = is_blocked proc.state && (ltb 0 proc.wake_tick && leb proc.wake_tick tick)

-- One round of the loop of `process_wake_sleeping`.
unfoldable pub wake_one : ℕ → System → ℕ → System
wake_one tick s p =
    let proc = s.procs p in
    if is_due tick proc then sched_add (set_proc s p (awaken proc)) (some p) else s

-- The `n` processes from `i` on.
pub wake_from : ℕ → System → ℕ → ℕ → System
wake_from tick s i zero = s
wake_from tick s i (suc n) = wake_from tick (wake_one tick s i) (i + 1) n

unfoldable pub process_wake_sleeping : System → ℕ → System
process_wake_sleeping s tick = wake_from tick s 0 max_processes

abbrev pub with_slice : Process → Process
with_slice proc = record proc { time_slice = default_time_slice }

-- The process that ran goes back to the queue, if it still could run.
unfoldable pub put_back : System → ℕ → System
put_back s prev =
    let proc = s.procs prev in
    if is_running proc.state
    then sched_add
        (set_proc s prev
          (record proc { state = ProcessState.ready; time_slice = default_time_slice }))
        (some prev)
    else s

-- From here the processor runs `next`; the registers that `context_switch` saves are not modelled.
unfoldable pub run_process : System → ℕ → System
run_process s next =
    let proc = record (s.procs next) {
      state = ProcessState.running;
      time_slice = default_time_slice;
    } in
    record (set_proc s next proc) { current = some next }

unfoldable pub switch_process : System → ℕ → ℕ → System
unfolding put_back run_process
switch_process s prev next =
    if next == prev
    then set_proc s next (with_slice (s.procs next))
    else run_process (put_back s prev) next

abbrev pub switch_picked : ℕ → Option ℕ × System → System
switch_picked prev (none, s) = s
switch_picked prev (some next, s) = switch_process s prev next

-- With no idle process to fall back on the code would use a null pointer; `sched_init` sees to one.
unfoldable pub schedule : System → System
unfolding switch_process
schedule s = elim s.current [
  | none ↦ s
  | some prev ↦ if s.scheduler_running then switch_picked prev (sched_pick_next s) else s
]

-- The accounting of one tick to the current process.
unfoldable pub charge_tick : System → ℕ → System
charge_tick s cur =
    let proc = s.procs cur in
    let left = if ltb 0 proc.time_slice then proc.time_slice - 1 else proc.time_slice in
    let charged = record proc { total_ticks = add64 proc.total_ticks 1; time_slice = left } in
    let s' = set_proc s cur charged in
    if left == 0
    then if not (is_idle proc) || is_some s.head
      then record s' { need_reschedule = true }
      else set_proc s cur (with_slice charged)
    else s'

unfoldable pub preempt : System → System
unfolding schedule
preempt s = if s.need_reschedule then schedule (record s { need_reschedule = false }) else s

abbrev tick_current : System → System
tick_current s = elim s.current [ none ↦ s | some cur ↦ preempt (charge_tick s cur) ]

-- The timer interrupt, at `ticks` on the clock.
unfoldable pub sched_tick : System → ℕ → System
unfolding preempt charge_tick process_wake_sleeping
sched_tick s ticks = if s.scheduler_running then tick_current (process_wake_sleeping s ticks) else s

abbrev start_picked : Option ℕ × System → Option System
start_picked (none, s) = none
start_picked (some first, s) = some (run_process (record s { scheduler_running = true }) first)

-- `none` is the panic when there is no process to run.
unfoldable pub sched_start : System → Option System
unfolding run_process
sched_start s = start_picked (sched_pick_next s)
