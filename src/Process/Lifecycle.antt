-- ===== src/Process/Lifecycle.antt =====
-- What a process asks of the scheduler keeps the invariant of the scheduler.
use chanux.Common.{
  ℕ, ◌≡◌, ◌∙◌, refl, true, false, ◌&&◌, ◌==◌, none, some, List, [], ◌∷◌, arith, Bool-cases, inl,
  inr, ==→eq,
}
use chanux.FileTable.{FileTable}
use chanux.Proc.{Process, ProcessState, System, is_idle, set_proc}
use chanux.RunQueue.Links.{contains}
use chanux.RunQueue.Frame.{IsQueue-same}
use chanux.RunQueue.Requeue.{KeepsLinks}
use chanux.Sched.{is_blocked, schedule}
use chanux.Sched.Invariant.{IsScheduled, next_process, set_proc-IsPicked}
use chanux.Sched.Wake.{IsLive}
use chanux.Sched.Tick.{IdleAwake, StaysLive, schedule-IsLive}
use chanux.Process.{process_block, process_exit, ended, unless_back}

-- The current process, which is not an idle one, may change but for its links and flags.
module _ (s : System) (xs : List ℕ) (c i : ℕ) (v : IsLive s xs c i) (proc : Process)
    (keeps : KeepsLinks (s.procs c) proc) where
  abbrev changed : System
  changed = set_proc s c proc

  changed-IsScheduled : IsScheduled changed xs c i
  changed-IsScheduled = record {
    picked = set_proc-IsPicked s xs c proc keeps i v.scheduled.current_out v.scheduled.picked;
    current = v.scheduled.current;
    current_out = v.scheduled.current_out;
  }

  changed-IdleAwake : (is_idle (s.procs c) && is_blocked proc.state) ≡ false → IdleAwake changed
  changed-IdleAwake busy r = elim (Bool-cases (c == r)) [
    | inl here ↦ rw here (ground (arith, busy, keeps))
    | inr other ↦ rw other (v.idle_awake r)
  ]

not_next :
    (procs : ℕ → Process) (xs : List ℕ) (i c : ℕ)
    → contains xs c ≡ false
    → is_idle (procs i) ≡ true
    → is_idle (procs c) ≡ false
    → (next_process xs i == c) ≡ false
not_next procs [] i c out idle busy = elim (Bool-cases (i == c)) [
  | inl same ↦ absurd (ground (arith, busy, rw (==→eq i c same) at idle))
  | inr other ↦ other
]
not_next procs (p ∷ xs) i c out idle busy = ground (arith, out)

unless-moves :
    (s : System) (n c : ℕ) → s.current ≡ some n → (n == c) ≡ false → unless_back c s ≡ some s
unless-moves s n c current other = ground (arith, current, other)

pub files-IsScheduled :
    (s : System) (files : FileTable) (xs : List ℕ) (c i : ℕ)
    → IsScheduled s xs c i
    → IsScheduled (record s { files = files }) xs c i
files-IsScheduled s files xs c i v = record {
  picked = record {
    waiting = record {
      queue =
          IsQueue-same s (record s { files = files }) xs (λ r. (refl, refl)) refl refl
            v.picked.waiting.queue;
      wait = v.picked.waiting.wait;
    };
    idle = v.picked.idle;
    idle_flag = v.picked.idle_flag;
    running = v.picked.running;
  };
  current = v.current;
  current_out = v.current_out;
}

module _ (s : System) (xs : List ℕ) (c i : ℕ) (v : IsLive s xs c i) where
  block-idle : is_idle (s.procs c) ≡ true → process_block s ≡ s
  unfolding process_block
  block-idle idle = ground (arith, v.scheduled.current, idle)

  abbrev blocking : Process
  blocking = record (s.procs c) { state = ProcessState.blocked }

  block-busy : is_idle (s.procs c) ≡ false → process_block s ≡ schedule (set_proc s c blocking)
  unfolding process_block
  block-busy busy = ground (arith, v.scheduled.current, busy)

  -- If the scheduler keeps its invariant and neither the current nor an idle process is blocked,
  -- the same holds after process_block, which does nothing for an idle process.
  pub process_block-StaysLive : StaysLive (process_block s) i
  process_block-StaysLive = elim (Bool-cases (is_idle (s.procs c))) [
    | inl idle ↦ rw (block-idle idle) (xs, c, v)
    | inr busy ↦
        let keeps : KeepsLinks (s.procs c) blocking = record {
          next = refl;
          prev = refl;
          flags = refl;
        } in
        rw (block-busy busy) (
          _,
          _,
          schedule-IsLive (set_proc s c blocking) xs c i
              (changed-IsScheduled s xs c i v blocking keeps)
              (changed-IdleAwake s xs c i v blocking keeps (ground (arith, busy))),
        )
  ]

  abbrev terminated : ℕ → Process
  terminated code = record (s.procs c) {
    fd_table = none;
    state = ProcessState.terminated;
    exit_code = code;
  }

  abbrev ending : ℕ → System
  ending code = ended s c code

  exit-busy :
      (code : ℕ)
      → is_idle (s.procs c) ≡ false
      → process_exit s code ≡ unless_back c (schedule (ending code))
  unfolding process_exit
  exit-busy code busy = ground (arith, v.scheduled.current, busy)

  ending-IsScheduled : (code : ℕ) → IsScheduled (ending code) xs c i
  ending-IsScheduled code = files-IsScheduled (set_proc s c (terminated code)) _ xs c i (
      changed-IsScheduled s xs c i v (terminated code)
        (record { next = refl; prev = refl; flags = refl }))

  ending-IdleAwake : (code : ℕ) → IdleAwake (ending code)
  ending-IdleAwake code =
      changed-IdleAwake s xs c i v (terminated code)
        (record { next = refl; prev = refl; flags = refl }) (ground arith)

  next-differs : is_idle (s.procs c) ≡ false → (next_process xs i == c) ≡ false
  next-differs busy =
      not_next s.procs xs i c v.scheduled.current_out v.scheduled.picked.idle_flag busy

  -- If the scheduler keeps its invariant, neither the current nor an idle process is blocked and
  -- the current process is not an idle one, process_exit does not panic: it switches to another
  -- process, and the same holds of the state it leaves.
  pub process_exit-StaysLive :
      (code : ℕ)
      → is_idle (s.procs c) ≡ false
      → (s' : System) × (process_exit s code ≡ some s') × StaysLive s' i
  process_exit-StaysLive code busy =
      let live =
        schedule-IsLive (ending code) xs c i (ending-IsScheduled code) (ending-IdleAwake code) in
      (
        schedule (ending code),
        exit-busy code busy
            ∙ unless-moves (schedule (ending code)) (next_process xs i) c live.scheduled.current
                (next-differs busy),
        (_, _, live),
      )
