-- ===== src/Process/Sample.antt =====
-- A process table in which process 1 runs, with file 4 at descriptor 3, 2 and 3 wait, 4 sleeps and 0
-- is idle: the state that runs of the calls start from.
use chanux.Common.{ℕ, refl, true, false, ◌==◌, if◌then◌else◌, none, some, List, [], ◌∷◌, arith}
use chanux.Proc.{Process, ProcessState, System}
use chanux.RunQueue.Links.{IsQueue}
use chanux.RunQueue.Requeue.{IsWaiting}
use chanux.Sched.Invariant.{IsScheduled}
use chanux.Sched.Wake.{IsLive}
use chanux.Vnode.{fresh_vnode}
use chanux.FileTable.{blank_file}
use chanux.FileTable.{empty_table}

abbrev pub blank : Process
blank = record {
  pid = 0;
  name = [];
  state = ProcessState.unused;
  flags = 0;
  kernel_stack = none;
  kernel_stack_top = 0;
  rsp = 0;
  entry = 0;
  entry_arg = 0;
  time_slice = 10;
  priority = 0;
  total_ticks = 0;
  next = none;
  prev = none;
  exit_code = 0;
  parent_pid = 0;
  wake_tick = 0;
  pml4_phys = 0;
  user_stack = 0;
  user_stack_top = 0;
  user_rsp = 0;
  user_code = 0;
  user_code_size = 0;
  fd_table = none;
  cwd = 47 ∷ [];
}

abbrev pub table : ℕ → Process
table r =
    if r == 0
    then record blank { flags = 3; state = ProcessState.ready }
    else if r == 1
    then record blank {
      pid = 1;
      flags = 1;
      state = ProcessState.running;
      fd_table = some (record empty_table { entries = λ fd. if fd == 3 then some 4 else none });
    }
    else if r == 2
    then record blank { pid = 2; flags = 1; state = ProcessState.ready; next = some 3 }
    else if r == 3
    then record blank { pid = 3; flags = 1; state = ProcessState.ready; prev = some 2 }
    else if r == 4
    then record blank { pid = 4; flags = 1; state = ProcessState.blocked; wake_tick = 5 }
    else blank

abbrev pub system : System
system = record {
  procs = table;
  next_pid = 5;
  current = some 1;
  head = some 2;
  tail = some 3;
  scheduler_running = true;
  need_reschedule = false;
  idle = some 0;
  files = record {
    files = λ f. blank_file;
    vnodes = record { table = λ i. fresh_vnode; root = none };
    initialized = true;
  };
}

abbrev pub waiting : List ℕ
waiting = 2 ∷ 3 ∷ []

pub system-IsQueue : IsQueue system waiting
system-IsQueue = record {
  links = (refl, refl, (refl, refl, (refl, refl)));
  once = refl;
  others = λ r. ground arith;
}

pub system-IsWaiting : IsWaiting system waiting
system-IsWaiting = record { queue = system-IsQueue; wait = refl }

pub system-IsScheduled : IsScheduled system waiting 1 0
system-IsScheduled = record {
  picked = record { waiting = system-IsWaiting; idle = refl; idle_flag = refl; running = refl };
  current = refl;
  current_out = refl;
}

pub system-IsLive : IsLive system waiting 1 0
system-IsLive = record {
  scheduled = system-IsScheduled;
  awake = refl;
  idle_awake = λ r. ground arith;
}
