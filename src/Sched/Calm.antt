-- ===== src/Sched/Calm.antt =====
-- The scheduler blocks no process.
use chanux.Common.{
  ℕ, ◌≡◌, ◌∙◌, refl, false, ◌||◌, ◌==◌, Option, none, some, List, [], ◌∷◌, arith, Bool-cases, inl,
  inr, ==→eq,
}
use chanux.Proc.{Process, ProcessState, System, is_idle, set_proc}
use chanux.RunQueue.{is_some, points_to, sched_add, append_to_queue, pop_head}
use chanux.RunQueue.Frame.{append-fields, pop_head-state}
use chanux.RunQueue.Pop.{pick-some, sched_pick_next_empty}
use chanux.Sched.{
  is_blocked, is_running, put_back, run_process, switch_process, switch_picked, schedule,
  with_slice,
}
use chanux.Sched.Invariant.{IsScheduled}
use chanux.Sched.Rotation.{schedule_step}

-- No process becomes blocked, and the flags stay.
pub record IsCalm (s s' : System) : Type 0 where
  pub flags : (r : ℕ) → (s'.procs r).flags ≡ (s.procs r).flags
  pub calm : (r : ℕ) → is_blocked (s.procs r).state ≡ false → is_blocked (s'.procs r).state ≡ false

pub IsCalm-refl : (s : System) → IsCalm s s
IsCalm-refl s = record { flags = λ r. refl; calm = λ r h. h }

pub IsCalm-trans : (s s' s'' : System) → IsCalm s s' → IsCalm s' s'' → IsCalm s s''
IsCalm-trans s s' s'' a b = record {
  flags = λ r. b.flags r ∙ a.flags r;
  calm = λ r h. b.calm r (a.calm r h);
}

module _ (s : System) (p : ℕ) where
  pub set_proc-IsCalm :
      (proc : Process)
      → proc.flags ≡ (s.procs p).flags
      → (is_blocked (s.procs p).state ≡ false → is_blocked proc.state ≡ false)
      → IsCalm s (set_proc s p proc)
  set_proc-IsCalm proc f h = record {
    flags = λ r. ground (arith, f);
    calm = λ r b. elim (Bool-cases (p == r)) [
      | inl here ↦ rw here (h (rw (==→eq p r here) b))
      | inr other ↦ rw other b
    ];
  }

  append-IsCalm : IsCalm s (append_to_queue s p)
  append-IsCalm = record {
    flags = λ r. (append-fields s p r).1;
    calm = λ r b.
        rw ((append-fields s p r).0)
          (elim (Bool-cases (p == r)) [ inl here ↦ rw here refl | inr other ↦ rw other b ]);
  }

  sched_add-IsCalm : IsCalm s (sched_add s (some p))
  unfolding sched_add
  sched_add-IsCalm = elim (Bool-cases (is_idle (s.procs p))) [
    | inl idle ↦ rw idle (IsCalm-refl s)
    | inr busy ↦
        elim (Bool-cases
          (is_some (s.procs p).next || (is_some (s.procs p).prev || points_to s.head p))) [
            | inl linked ↦ rw (busy, linked) (IsCalm-refl s)
            | inr free ↦ rw (busy, free) append-IsCalm
          ]
  ]

  pop-IsCalm : IsCalm s (pop_head s p)
  pop-IsCalm = record {
    flags = λ r. (pop_head-state s p r).1;
    calm = λ r b. rw ((pop_head-state s p r).0) b;
  }

module _ (s : System) (p : ℕ) where
  put_back-IsCalm : IsCalm s (put_back s p)
  unfolding put_back
  put_back-IsCalm = elim (Bool-cases (is_running (s.procs p).state)) [
    | inl run ↦ rw run (
        IsCalm-trans s _ _
          (set_proc-IsCalm s p (record (s.procs p) { state = ProcessState.ready; time_slice = 10 })
            refl (λ h. refl))
          (sched_add-IsCalm (set_proc s p _) p))
    | inr stop ↦ rw stop (IsCalm-refl s)
  ]

  run_process-IsCalm : IsCalm s (run_process s p)
  unfolding run_process
  run_process-IsCalm =
      let c =
        set_proc-IsCalm s p (record (s.procs p) { state = ProcessState.running; time_slice = 10 })
          refl (λ h. refl) in
      record { flags = c.flags; calm = c.calm }

  slice-IsCalm : IsCalm s (set_proc s p (with_slice (s.procs p)))
  slice-IsCalm = set_proc-IsCalm s p (with_slice (s.procs p)) refl (λ h. h)

module _ (s : System) (c n : ℕ) where
  switch-IsCalm : IsCalm s (switch_process s c n)
  unfolding switch_process
  switch-IsCalm = elim (Bool-cases (n == c)) [
    | inl same ↦ rw same (slice-IsCalm s n)
    | inr other ↦ rw other (
        IsCalm-trans s (put_back s c) _ (put_back-IsCalm s c) (run_process-IsCalm (put_back s c) n))
  ]

picked-IsCalm :
    (s s' : System) (c : ℕ) (o : Option ℕ) → IsCalm s s' → IsCalm s (switch_picked c (o, s'))
picked-IsCalm s s' c none h = h
picked-IsCalm s s' c (some n) h = IsCalm-trans s s' _ h (switch-IsCalm s' c n)

pub schedule-IsCalm :
    (s : System) (xs : List ℕ) (c i : ℕ) → IsScheduled s xs c i → IsCalm s (schedule s)
schedule-IsCalm s [] c i v =
    rw
      (
        schedule_step s c i v.current v.picked.running,
        sched_pick_next_empty s v.picked.waiting.queue,
      )
      (picked-IsCalm s s c s.idle (IsCalm-refl s))
schedule-IsCalm s (p ∷ xs) c i v =
    rw
      (schedule_step s c i v.current v.picked.running, pick-some s p v.picked.waiting.queue.links.0)
      (picked-IsCalm s (pop_head s p) c (some p) (pop-IsCalm s p))
