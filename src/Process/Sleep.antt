-- ===== src/Process/Sleep.antt =====
-- `process_yield` and `sys_sleep` keep the invariant of the scheduler.
use chanux.Common.{
  ℕ, ◌≡◌, refl, ap, sym, subst, true, false, ◌==◌, if◌then◌else◌, Option, none, some, arith, List,
  Bool-cases, inl, inr, ==→eq, either,
}
use chanux.Proc.{System, set_proc, default_time_slice}
use chanux.RunQueue.{points_to}
use chanux.Sched.{schedule, sched_reschedule}
use chanux.Sched.Wake.{IsLive}
use chanux.Sched.Tick.{StaysLive, schedule-IsLive, flagged-IsLive, current-IsLive}
use chanux.Process.{process_block, process_yield, sys_sleep, sleeping, slept, wake_tick_after}
use chanux.Process.Lifecycle.{process_block-StaysLive}

-- The invariant says which process is the current one.
same_current : (s : System) (c d : ℕ) → s.current ≡ some c → s.current ≡ some d → c ≡ d
same_current s c d e e' = ground (arith, e, e')

module _ (s : System) (xs : List ℕ) (c i : ℕ) (v : IsLive s xs c i) where
  yield-current :
      process_yield s
      ≡ schedule
          (sched_reschedule (set_proc s c (record (s.procs c) { time_slice = default_time_slice })))
  unfolding process_yield
  yield-current = rw v.scheduled.current refl

  -- If the scheduler keeps its invariant and neither the current nor an idle process is blocked, the
  -- same holds after process_yield.
  pub process_yield-StaysLive : StaysLive (process_yield s) i
  process_yield-StaysLive =
      let proc = record (s.procs c) { time_slice = default_time_slice } in
      let v1 =
        current-IsLive s xs c i v proc (record { next = refl; prev = refl; flags = refl }) refl in
      let v2 = flagged-IsLive (set_proc s c proc) true xs c i v1 in
      rw yield-current (
        _,
        _,
        schedule-IsLive (sched_reschedule (set_proc s c proc)) xs c i v2.scheduled v2.idle_awake,
      )

  sleeping-IsLive : (tick : ℕ) → IsLive (sleeping s c tick) xs c i
  sleeping-IsLive tick =
      current-IsLive s xs c i v (record (s.procs c) { wake_tick = tick })
        (record { next = refl; prev = refl; flags = refl }) refl

slept-StaysLive :
    (s : System) (c i : ℕ)
    → StaysLive s i
    → StaysLive (if points_to s.current c then slept s c else s) i
slept-StaysLive s c i (xs, d, v) = elim (Bool-cases (d == c)) [
  | inl back ↦
      let here : points_to s.current c ≡ true = ground (arith, back, v.scheduled.current) in
      rw here (
        xs,
        d,
        subst (λ x. IsLive (slept s x) xs d i) (==→eq d c back) (sleeping-IsLive s xs d i v 0),
      )
  | inr away ↦
      let gone : points_to s.current c ≡ false = ground (arith, away, v.scheduled.current) in
      rw gone (xs, d, v)
]

-- `sys_sleep`, of a given current process.
abbrev sleep_of : System → ℕ → ℕ → Option ℕ → System
sleep_of s now ms none = s
sleep_of s now ms (some c) =
    let s' = process_block (sleeping s c (wake_tick_after now ms)) in
    if ms == 0 then process_yield s else if points_to s'.current c then slept s' c else s'

sleep-current :
    (s : System) (c now ms : ℕ)
    → s.current ≡ some c
    → sys_sleep s now ms ≡ sleep_of s now ms (some c)
unfolding sys_sleep
sleep-current s c now ms e = ap (λ o. sleep_of s now ms o) e

-- If the scheduler keeps its invariant and neither the current nor an idle process is blocked, the
-- same holds after sys_sleep, for each time.
pub sys_sleep-StaysLive :
    (s : System) (xs : List ℕ) (c i : ℕ) (now ms : ℕ)
    → IsLive s xs c i
    → StaysLive (sys_sleep s now ms) i
sys_sleep-StaysLive s xs c i now ms v =
    let tick = wake_tick_after now ms in
    let s' = process_block (sleeping s c tick) in
    let live =
      process_block-StaysLive (sleeping s c tick) xs c i (sleeping-IsLive s xs c i v tick) in
    subst (λ x. StaysLive x i) (sym (sleep-current s c now ms v.scheduled.current))
      (either (λ x. StaysLive x i) (ms == 0) (process_yield-StaysLive s xs c i v)
        (slept-StaysLive s' c i live))
