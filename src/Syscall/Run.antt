-- ===== src/Syscall/Run.antt =====
-- Runs of the kernel: system calls, interrupts, and processes in user mode, in any order.
use chanux.Common.{ℕ, ◌<◌, ◌≡◌, false, if◌then◌else◌, some, add64, u64_mod, ℤ}
use chanux.Memory.{Mem}
use chanux.Proc.{System, is_idle}
use chanux.Sched.{sched_tick}
use chanux.Sched.Tick.{StaysLive}
use chanux.Keyboard.{keyboard_irq_handler}
use chanux.Ramfs.{Ramfs}
use chanux.Ramfs.Marks.{IsSound}
use chanux.Syscall.{Kernel, CallResult, returned, gone, stopped}
use chanux.Syscall.Places.{High}
use chanux.Syscall.Fault.{Pages, syscall}

-- `pit_irq_handler`; the filesystem reads the same clock.
unfoldable pub pit_irq_handler : Kernel → Kernel
pit_irq_handler k =
    let ticks = add64 k.fs.ticks 1 in
    record k {
      fs = record k.fs { ticks = ticks };
      system = if k.system.scheduler_running then sched_tick k.system ticks else k.system;
    }

-- The idle process makes no system calls.
abbrev pub ByProcess : System → Type 0
ByProcess s = (c : ℕ) → s.current ≡ some c → is_idle (s.procs c) ≡ false

-- A call that stops the kernel is the end of the run. A process in user mode, this one or another
-- that has been switched to, sees other memory below the end of user space, and the page tables keep
-- it from writing above.
pub data Step : Kernel → Kernel → Type 0 where
  called :
      (pages : Pages) (k : Kernel) (num arg1 arg2 arg3 : ℕ) (r : ℤ) (k' : Kernel)
      → arg1 < u64_mod
      → arg2 < u64_mod
      → arg3 < u64_mod
      → ByProcess k.system
      → syscall pages k num arg1 arg2 arg3 ≡ returned r k'
      → Step k k'
  process_gone :
      (pages : Pages) (k : Kernel) (num arg1 arg2 arg3 : ℕ) (k' : Kernel)
      → arg1 < u64_mod
      → arg2 < u64_mod
      → arg3 < u64_mod
      → ByProcess k.system
      → syscall pages k num arg1 arg2 arg3 ≡ gone k'
      → Step k k'
  pressed :
      (k : Kernel) (scancode : ℕ)
      → Step k (record k { keyboard = keyboard_irq_handler k.keyboard scancode })
  ticked : (k : Kernel) → Step k (pit_irq_handler k)
  ran : (k : Kernel) (mem : Mem) → High k.memory mem → Step k (record k { memory = mem })

pub data Run : Kernel → Kernel → Type 0 where
  start : (k : Kernel) → Run k k
  step : (k1 k2 k3 : Kernel) → Run k1 k2 → Step k2 k3 → Run k1 k3

-- The invariants of the filesystem and of the scheduler, whose idle process is `i`.
abbrev pub IsHealthy : ℕ → Kernel → Type 0
IsHealthy i k = IsSound k.fs × StaysLive k.system i

-- They hold afterwards, and the kernel's memory is as it was.
abbrev pub Unharmed : ℕ → Kernel → Kernel → Type 0
Unharmed i k k' = IsHealthy i k' × High k.memory k'.memory

-- What is to hold after a call.
abbrev Outcome : ℕ → Kernel → CallResult → Type 0
Outcome i k (returned r k') = Unharmed i k k'
Outcome i k (gone k') = Unharmed i k k'
Outcome i k stopped = Unit
