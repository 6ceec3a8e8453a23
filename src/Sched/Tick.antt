-- ===== src/Sched/Tick.antt =====
-- The timer interrupt keeps the invariant of the scheduler.
use chanux.Common.{
  ℕ, ◌-◌, ◌≡◌, ◌∙◌, ap, refl, Bool, true, false, not, ◌&&◌, ◌||◌, ◌==◌, ltb, if◌then◌else◌, Option,
  none, some, add64, List, [], ◌∷◌, ◌++◌, arith, Bool-cases, inl, inr, either,
}
use chanux.Proc.{Process, ProcessState, System, is_idle, set_proc}
use chanux.RunQueue.{is_some}
use chanux.RunQueue.Frame.{IsQueue-same, is_ready}
use chanux.RunQueue.Requeue.{KeepsLinks}
use chanux.Sched.{
  is_blocked, schedule, charge_tick, preempt, sched_tick, process_wake_sleeping, tick_current,
  with_slice,
}
use chanux.Sched.Invariant.{IsScheduled, can_go_on, next_process, next_queue, set_proc-IsPicked}
use chanux.Sched.Rotation.{schedule-IsScheduled}
use chanux.Sched.Wake.{due_from, IsLive, process_wake_sleeping_lem}
use chanux.Sched.Calm.{IsCalm, set_proc-IsCalm, schedule-IsCalm}

-- No idle process is blocked.
abbrev pub IdleAwake : System → Type 0
IdleAwake s = (r : ℕ) → (is_idle (s.procs r) && is_blocked (s.procs r).state) ≡ false

pub IsCalm-IdleAwake : (s s' : System) → IsCalm s s' → IdleAwake s → IdleAwake s'
IsCalm-IdleAwake s s' c awake r = elim (Bool-cases (is_idle (s.procs r))) [
  | inl idle ↦ rw (c.flags r, c.calm r (ground (arith, awake r, idle))) (ground arith)
  | inr busy ↦ rw (c.flags r) (ground (arith, busy))
]

ready-awake : (st : ProcessState) → is_ready st ≡ true → is_blocked st ≡ false
ready-awake ProcessState.unused h = refl
ready-awake ProcessState.ready h = refl
ready-awake ProcessState.running h = refl
ready-awake ProcessState.blocked h = absurd (ground (arith, h))
ready-awake ProcessState.terminated h = refl

next-awake :
    (s : System) (xs : List ℕ) (c i : ℕ)
    → IsScheduled s xs c i
    → IdleAwake s
    → is_blocked (s.procs (next_process xs i)).state ≡ false
next-awake s [] c i v awake = ground (arith, awake i, v.picked.idle_flag)
next-awake s (p ∷ xs) c i v awake =
    ready-awake (s.procs p).state (ground (arith, v.picked.waiting.wait))

pub schedule-IsLive :
    (s : System) (xs : List ℕ) (c i : ℕ)
    → IsScheduled s xs c i
    → IdleAwake s
    → IsLive (schedule s) (next_queue xs c (can_go_on s c)) (next_process xs i) i
schedule-IsLive s xs c i v awake =
    let calm = schedule-IsCalm s xs c i v in
    record {
      scheduled = schedule-IsScheduled s xs c i v;
      awake = calm.calm (next_process xs i) (next-awake s xs c i v awake);
      idle_awake = IsCalm-IdleAwake s (schedule s) calm awake;
    }

-- The need to reschedule is no part of the invariant.
abbrev pub flagged : System → Bool → System
flagged s b = record s { need_reschedule = b }

pub flagged-IsLive :
    (s : System) (b : Bool) (xs : List ℕ) (c i : ℕ) → IsLive s xs c i → IsLive (flagged s b) xs c i
flagged-IsLive s b xs c i v = record {
  scheduled = record {
    picked = record {
      waiting = record {
        queue =
            IsQueue-same s (flagged s b) xs (λ r. (refl, refl)) refl refl
              v.scheduled.picked.waiting.queue;
        wait = v.scheduled.picked.waiting.wait;
      };
      idle = v.scheduled.picked.idle;
      idle_flag = v.scheduled.picked.idle_flag;
      running = v.scheduled.picked.running;
    };
    current = v.scheduled.current;
    current_out = v.scheduled.current_out;
  };
  awake = v.awake;
  idle_awake = v.idle_awake;
}

module _ (s : System) (xs : List ℕ) (c i : ℕ) (v : IsLive s xs c i) where
  -- The current process may change, but for its links, flags and state.
  pub current-IsLive :
      (proc : Process)
      → KeepsLinks (s.procs c) proc
      → proc.state ≡ (s.procs c).state
      → IsLive (set_proc s c proc) xs c i
  current-IsLive proc keeps same =
      let calm = set_proc-IsCalm s c proc keeps.flags (λ h. rw same h) in
      record {
        scheduled = record {
          picked = set_proc-IsPicked s xs c proc keeps i v.scheduled.current_out v.scheduled.picked;
          current = v.scheduled.current;
          current_out = v.scheduled.current_out;
        };
        awake = calm.calm c v.awake;
        idle_awake = IsCalm-IdleAwake s (set_proc s c proc) calm v.idle_awake;
      }

  charge_tick-IsLive : IsLive (charge_tick s c) xs c i
  unfolding charge_tick
  charge_tick-IsLive =
      let proc = s.procs c in
      let left = if ltb 0 proc.time_slice then proc.time_slice - 1 else proc.time_slice in
      let charged = record proc { total_ticks = add64 proc.total_ticks 1; time_slice = left } in
      let live = current-IsLive charged (record { next = refl; prev = refl; flags = refl }) refl in
      either (λ (s' : System). IsLive s' xs c i) (left == 0)
        (either (λ (s' : System). IsLive s' xs c i) (not (is_idle proc) || is_some s.head)
          (flagged-IsLive (set_proc s c charged) true xs c i live)
          (current-IsLive (with_slice charged) (record { next = refl; prev = refl; flags = refl })
            refl))
        live

-- The invariant holds of a later state, with another queue and process.
abbrev pub StaysLive : System → ℕ → Type 0
StaysLive s i = (xs : List ℕ) × (c : ℕ) × IsLive s xs c i

preempt-StaysLive : (s : System) (xs : List ℕ) (c i : ℕ) → IsLive s xs c i → StaysLive (preempt s) i
unfolding preempt
preempt-StaysLive s xs c i v =
    let v' = flagged-IsLive s false xs c i v in
    either (λ (s' : System). StaysLive s' i) s.need_reschedule
      (
        next_queue xs c (can_go_on (flagged s false) c),
        next_process xs i,
        schedule-IsLive (flagged s false) xs c i v'.scheduled v'.idle_awake,
      )
      (xs, c, v)

-- `tick_current`, of a given current process.
abbrev ticks_of : System → Option ℕ → System
ticks_of s none = s
ticks_of s (some c) = preempt (charge_tick s c)

tick-step :
    (s : System) (c ticks : ℕ)
    → s.scheduler_running ≡ true
    → (process_wake_sleeping s ticks).current ≡ some c
    → sched_tick s ticks ≡ preempt (charge_tick (process_wake_sleeping s ticks) c)
unfolding sched_tick
tick-step s c ticks running current =
    ap (λ b. if b then tick_current (process_wake_sleeping s ticks) else s) running
    ∙ ap (λ o. ticks_of (process_wake_sleeping s ticks) o) current

-- If the scheduler keeps its invariant and neither the current nor an idle process is blocked, so
-- it is after sched_tick, at any tick count, for some queue and some current process.
pub sched_tick-IsLive :
    (s : System) (xs : List ℕ) (c i ticks : ℕ) → IsLive s xs c i → StaysLive (sched_tick s ticks) i
sched_tick-IsLive s xs c i ticks v =
    let (v', due) = process_wake_sleeping_lem s xs c i ticks v in
    rw (tick-step s c ticks v.scheduled.picked.running v'.scheduled.current) (
      preempt-StaysLive (charge_tick (process_wake_sleeping s ticks) c)
        (xs ++ due_from ticks s 64 0) c i
        (charge_tick-IsLive (process_wake_sleeping s ticks) (xs ++ due_from ticks s 64 0) c i v'))
