-- ===== src/Sched/Rotation.antt =====
-- `schedule` gives the processor to the first process of the queue, in turn.
use chanux.Common.{
  ℕ, zero, suc, ◌≡◌, ◌≢◌, ◌∙◌, sym, ap, subst, refl, get_elem?, Bool, true, false, ◌==◌, none, some,
  List, [], ◌∷◌, arith, Bool-cases, inl, inr, ==→eq, eq→==, ne→==,
}
use chanux.Proc.{System, set_proc}
use chanux.RunQueue.{sched_pick_next, pop_head}
use chanux.RunQueue.Links.{contains}
use chanux.RunQueue.Queue.{contains-append}
use chanux.RunQueue.Pop.{pick-some, sched_pick_next_empty, pop-IsQueue}
use chanux.RunQueue.Frame.{pop_head-SameRest, pop_head-state, all_wait-member, all_wait_intro}
use chanux.Sched.{put_back, switch_process, switch_picked, schedule, with_slice}
use chanux.Sched.Invariant.{
  IsPicked, IsScheduled, can_go_on, next_process, next_queue, returned, set_proc-IsPicked,
  run_process-IsScheduled, put_back-IsPicked,
}

module _ (s : System) (p i : ℕ) (ys : List ℕ) (v : IsPicked s (p ∷ ys) i) where
  pub pop-IsPicked : IsPicked (pop_head s p) ys i
  pop-IsPicked =
      let rest = pop_head-SameRest s p in
      record {
        waiting = record {
          queue = pop-IsQueue s p ys v.waiting.queue;
          wait = all_wait_intro (pop_head s p).procs ys (λ r. elim (Bool-cases (contains ys r)) [
            | inl member ↦ ground (
              arith,
              pop_head-state s p r,
              all_wait-member s.procs ys r (ground (arith, v.waiting.wait)) member,
            )
            | inr outside ↦ rw outside refl
          ]);
        };
        idle = rest.idle ∙ v.idle;
        idle_flag = ground (arith, v.idle_flag, pop_head-state s p i);
        running = rest.running ∙ v.running;
      }

module _ (s : System) (prev : ℕ) (current : s.current ≡ some prev)
    (running : s.scheduler_running ≡ true) where
  schedule-none :
      s.head ≡ none → s.idle ≡ some prev → schedule s ≡ set_proc s prev (with_slice (s.procs prev))
  unfolding schedule switch_process sched_pick_next
  schedule-none empty idle = ground (arith, eq→== prev prev refl)

pub returned_out :
    (xs : List ℕ) (c n : ℕ) (go : Bool)
    → contains xs n ≡ false
    → (c == n) ≡ false
    → contains (returned xs c go) n ≡ false
returned_out xs c n true out other = ground (arith, contains-append xs c n)
returned_out xs c n false out other = out

module _ (s : System) (xs : List ℕ) (c n i : ℕ) (v : IsPicked s xs i)
    (out : contains xs c ≡ false) where
  pub switch_process-IsScheduled :
      contains xs n ≡ false
      → n ≢ c
      → IsScheduled (switch_process s c n) (returned xs c (can_go_on s c)) n i
  unfolding switch_process
  switch_process-IsScheduled free other = rw (ne→== n c other) (
      run_process-IsScheduled (put_back s c) (returned xs c (can_go_on s c)) n i
        (returned_out xs c n (can_go_on s c) free (ne→== c n (λ e. other (sym e))))
        (put_back-IsPicked s xs c i out v))

pub differ : (xs : List ℕ) (p c : ℕ) → contains (p ∷ xs) c ≡ false → p ≢ c
differ xs p c out e = absurd (ground (arith, e, eq→== p c e))

module _ (s : System) (c i : ℕ) where
  go_on-same : (p : ℕ) → can_go_on (pop_head s p) c ≡ can_go_on s c
  go_on-same p = rw ((pop_head-state s p c).0, (pop_head-state s p c).1) refl

  slice-IsScheduled :
      (xs : List ℕ)
      → IsScheduled s xs c i
      → IsScheduled (set_proc s c (with_slice (s.procs c))) xs c i
  slice-IsScheduled xs v = record {
    picked =
        set_proc-IsPicked s xs c _ (record { next = refl; prev = refl; flags = refl }) i
          v.current_out v.picked;
    current = v.current;
    current_out = v.current_out;
  }

  pub schedule_step :
      s.current ≡ some c
      → s.scheduler_running ≡ true
      → schedule s ≡ switch_picked c (sched_pick_next s)
  unfolding schedule
  schedule_step current running = ground (arith, current, running)

  idle_again : c ≡ i → switch_process s c i ≡ set_proc s c (with_slice (s.procs c))
  unfolding switch_process
  idle_again same = rw (← same, eq→== c c refl) refl

  idle_stays : IsScheduled s [] c i → c ≡ i → can_go_on s c ≡ false
  idle_stays v same = ground (arith, rw (← same) at v.picked.idle_flag)

idle_case :
    (s : System) (c i : ℕ)
    → IsScheduled s [] c i
    → c ≡ i
    → IsScheduled (switch_process s c i) (next_queue [] c (can_go_on s c)) i i
idle_case s c i v e =
    rw (idle_again s c i e, idle_stays s c i v e)
      (subst (λ j. IsScheduled (set_proc s c (with_slice (s.procs c))) [] j i) e
        (slice-IsScheduled s c i [] v))

-- schedule keeps the invariant of the scheduler: the first process of the queue, or the idle one if
-- there is none, has the processor; it has left the queue; and the process that ran is at the end
-- of the queue if it was running and is not the idle one.
pub schedule-IsScheduled :
    (s : System) (xs : List ℕ) (c i : ℕ)
    → IsScheduled s xs c i
    → IsScheduled (schedule s) (next_queue xs c (can_go_on s c)) (next_process xs i) i
schedule-IsScheduled s [] c i v =
    let picks : sched_pick_next s ≡ (some i, s) =
      sched_pick_next_empty s v.picked.waiting.queue ∙ ap (λ o. (o, s)) v.picked.idle in
    let to_idle : IsScheduled (switch_process s c i) (next_queue [] c (can_go_on s c)) i i =
      elim (Bool-cases (c == i)) [
        | inl same ↦ idle_case s c i v (==→eq c i same)
        | inr other ↦
            switch_process-IsScheduled s [] c i i v.picked refl refl
              (λ e. absurd (ground (arith, eq→== c i (sym e))))
      ] in
    rw (schedule_step s c i v.current v.picked.running ∙ ap (switch_picked c) picks) to_idle
schedule-IsScheduled s (p ∷ xs) c i v =
    let q = v.picked.waiting.queue in
    let picks = pick-some s p q.links.0 in
    rw
      (
        schedule_step s c i v.current v.picked.running ∙ ap (switch_picked c) picks,
        ← go_on-same s c i p,
      )
      (switch_process-IsScheduled (pop_head s p) xs c p i (pop-IsPicked s p i xs v.picked)
        (ground (arith, v.current_out)) (ground (arith, q.once)) (differ xs p c v.current_out))

-- `n` switches in a row.
pub schedules : ℕ → System → System
schedules zero s = s
schedules (suc n) s = schedules n (schedule s)

schedules-suc :
    (n : ℕ) (s : System)
    → (schedules (suc (suc n)) s).current ≡ (schedules (suc n) (schedule s)).current
unfolding schedules
schedules-suc n s = refl

schedules_one : (s : System) → (schedules 1 s).current ≡ (schedule s).current
unfolding schedules
schedules_one s = refl

returned_get :
    (xs : List ℕ) (c k p : ℕ) (go : Bool)
    → get_elem? xs k ≡ some p
    → get_elem? (returned xs c go) k ≡ some p
returned_get xs c k p false e = e
returned_get [] c k p true e = absurd (ground arith)
returned_get (x ∷ xs) c zero p true e = e
returned_get (x ∷ xs) c (suc k) p true e = returned_get xs c k p true e

-- In a scheduler that keeps its invariant, the process at place k of the run queue has the
-- processor after k + 1 calls of schedule in a row, whether or not the processes before it can go
-- on.
pub schedules-get :
    (k : ℕ) (s : System) (xs : List ℕ) (c i p : ℕ)
    → IsScheduled s xs c i
    → get_elem? xs k ≡ some p
    → (schedules (suc k) s).current ≡ some p
schedules-get k s [] c i p v e = absurd (ground arith)
schedules-get zero s (x ∷ xs) c i p v e =
    schedules_one s ∙ (schedule-IsScheduled s (x ∷ xs) c i v).current ∙ e
schedules-get (suc k) s (x ∷ xs) c i p v e = rw (schedules-suc k s) (
    schedules-get k (schedule s) (returned xs c (can_go_on s c)) x i p
      (schedule-IsScheduled s (x ∷ xs) c i v) (returned_get xs c k p (can_go_on s c) e))
