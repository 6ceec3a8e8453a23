-- ===== src/Process/Tests.antt =====
-- Runs of the process calls on `Process/Sample.antt`.
use chanux.Common.{ℕ, ◌<◌, ◌≡◌, refl, true, false, none, some, ◌++◌}
use chanux.Sched.{sched_tick, schedule, process_wake_sleeping, is_due}
use chanux.Sched.Invariant.{IsScheduled, can_go_on, next_queue}
use chanux.Sched.Rotation.{schedules, schedule-IsScheduled, schedules-get}
use chanux.Sched.Wake.{IsLive, due_from, process_wake_sleeping_lem}
use chanux.Process.{process_create}
use chanux.Sched.Tick.{StaysLive, sched_tick-IsLive}
use chanux.Process.Slots.{Created, process_create_lem}
use chanux.Process.Sample.{system, waiting, system-IsWaiting, system-IsScheduled, system-IsLive}

schedule-IsScheduled_example :
    IsScheduled (schedule system) (next_queue waiting 1 (can_go_on system 1)) 2 0
schedule-IsScheduled_example = schedule-IsScheduled system waiting 1 0 system-IsScheduled

schedules-get_example : (schedules 2 system).current ≡ some 3
schedules-get_example = schedules-get 1 system waiting 1 0 3 system-IsScheduled refl

process_wake_sleeping_lem_example :
    IsLive (process_wake_sleeping system 7) (waiting ++ due_from 7 system 64 0) 1 0
    × ((r : ℕ) → r < 64 → is_due 7 ((process_wake_sleeping system 7).procs r) ≡ false)
process_wake_sleeping_lem_example = process_wake_sleeping_lem system waiting 1 0 7 system-IsLive

process_create_lem_example :
    Created system waiting
      (some 0x100000)
      (process_create system none 0x2000 0 (some 0x100000) true)
process_create_lem_example =
    process_create_lem system none 0x2000 0 true (some 0x100000) waiting system-IsWaiting

sched_tick-IsLive_example : StaysLive (sched_tick system 7) 0
sched_tick-IsLive_example = sched_tick-IsLive system waiting 1 0 7 system-IsLive
