-- ===== src/Sched/Invariant.antt =====
-- The invariant of the scheduler, and one switch of the processor.
use chanux.Common.{
  ℕ, ◌≡◌, ◌∙◌, refl, Bool, true, false, not, ◌&&◌, ◌==◌, some, List, [], ◌∷◌, ◌++◌, arith,
  Bool-cases, inl, inr, ==→eq,
}
use chanux.Proc.{Process, ProcessState, System, is_idle, set_proc}
use chanux.RunQueue.{sched_add}
use chanux.RunQueue.Links.{contains}
use chanux.RunQueue.Queue.{sched_add_ignored}
use chanux.RunQueue.Frame.{IsQueue-same, all_wait-member, all_wait_intro}
use chanux.RunQueue.Requeue.{IsWaiting, Requeues, KeepsLinks, set_proc-IsQueue, requeue}
use chanux.Sched.{is_running, put_back, run_process}

-- The queue is `xs`, of processes that wait, and process `i` is the idle one.
pub record IsPicked (s : System) (xs : List ℕ) (i : ℕ) : Type 0 where
  pub waiting : IsWaiting s xs
  pub idle : s.idle ≡ some i
  pub idle_flag : is_idle (s.procs i) ≡ true
  pub running : s.scheduler_running ≡ true

-- Moreover process `c`, which is not in the queue, has the processor.
pub record IsScheduled (s : System) (xs : List ℕ) (c i : ℕ) : Type 0 where
  pub picked : IsPicked s xs i
  pub current : s.current ≡ some c
  pub current_out : contains xs c ≡ false

-- The process that has the processor could go on.
abbrev pub can_go_on : System → ℕ → Bool
can_go_on s c = is_running (s.procs c).state && not (is_idle (s.procs c))

abbrev pub next_process : List ℕ → ℕ → ℕ
next_process [] i = i
next_process (p ∷ xs) i = p

abbrev pub returned : List ℕ → ℕ → Bool → List ℕ
returned xs c true = xs ++ (c ∷ [])
returned xs c false = xs

abbrev pub rest_of : List ℕ → List ℕ
rest_of [] = []
rest_of (p ∷ xs) = xs

-- The queue after the switch: without its first process, and with `c` at the end if `c` goes on.
abbrev pub next_queue : List ℕ → ℕ → Bool → List ℕ
next_queue xs c go = returned (rest_of xs) c go

module _ (s : System) (xs : List ℕ) (p : ℕ) (proc : Process)
    (keeps : KeepsLinks (s.procs p) proc) where
  -- A process outside the queue may change.
  pub set_proc-IsWaiting : contains xs p ≡ false → IsWaiting s xs → IsWaiting (set_proc s p proc) xs
  set_proc-IsWaiting out w = record {
    queue = set_proc-IsQueue s p proc keeps xs w.queue;
    wait = all_wait_intro (set_proc s p proc).procs xs (λ r. elim (Bool-cases (contains xs r)) [
      | inl member ↦
          ground (arith, all_wait-member s.procs xs r w.wait member, contains_differ r member out)
      | inr outside ↦ rw outside refl
    ]);
  }
    where
      contains_differ : (r : ℕ) → contains xs r ≡ true → contains xs p ≡ false → (p == r) ≡ false
      contains_differ r member out = elim (Bool-cases (p == r)) [
        | inl same ↦ absurd (ground (arith, rw (==→eq p r same) at out))
        | inr other ↦ other
      ]

  pub set_proc-IsPicked :
      (i : ℕ) → contains xs p ≡ false → IsPicked s xs i → IsPicked (set_proc s p proc) xs i
  set_proc-IsPicked i out v = record {
    waiting = set_proc-IsWaiting out v.waiting;
    idle = v.idle;
    idle_flag = ground (arith, v.idle_flag, keeps);
    running = v.running;
  }

module _ (s : System) (xs : List ℕ) (n i : ℕ) (out : contains xs n ≡ false)
    (v : IsPicked s xs i) where
  pub run_process-IsScheduled : IsScheduled (run_process s n) xs n i
  unfolding run_process
  run_process-IsScheduled =
      let v' =
        set_proc-IsPicked s xs n _ (record { next = refl; prev = refl; flags = refl }) i out v in
      record {
        picked = record {
          waiting = record {
            queue = IsQueue-same _ _ xs (λ r. (refl, refl)) refl refl v'.waiting.queue;
            wait = v'.waiting.wait;
          };
          idle = v'.idle;
          idle_flag = v'.idle_flag;
          running = v'.running;
        };
        current = refl;
        current_out = out;
      }

module _ (s : System) (xs : List ℕ) (c i : ℕ) (out : contains xs c ≡ false)
    (v : IsPicked s xs i) where
  abbrev ready_again : Process
  ready_again = record (s.procs c) { state = ProcessState.ready; time_slice = 10 }

  keeps_links : KeepsLinks (s.procs c) ready_again
  keeps_links = record { next = refl; prev = refl; flags = refl }

  put_back-running :
      is_running (s.procs c).state ≡ true
      → put_back s c ≡ sched_add (set_proc s c ready_again) (some c)
  unfolding put_back
  put_back-running run = rw run refl

  put_back-stopped : is_running (s.procs c).state ≡ false → put_back s c ≡ s
  unfolding put_back
  put_back-stopped stop = rw stop refl

  pub Requeues-IsPicked : (s' : System) (xs' : List ℕ) → Requeues s s' xs' c → IsPicked s' xs' i
  Requeues-IsPicked s' xs' r = record {
    waiting = r.waiting;
    idle = r.rest.idle ∙ v.idle;
    idle_flag = ground (arith, v.idle_flag, r.flags i);
    running = r.rest.running ∙ v.running;
  }

  put_back-idle :
      is_running (s.procs c).state ≡ true
      → is_idle (s.procs c) ≡ true
      → IsPicked (put_back s c) xs i
  put_back-idle run idle =
      let v' = set_proc-IsPicked s xs c ready_again keeps_links i out v in
      let ignored =
        sched_add_ignored (set_proc s c ready_again) c xs v'.waiting.queue (ground (arith, idle)) in
      rw (put_back-running run, ignored) v'

  pub put_back-IsPicked : IsPicked (put_back s c) (returned xs c (can_go_on s c)) i
  put_back-IsPicked = elim (Bool-cases (is_running (s.procs c).state)) [
    | inl run ↦ elim (Bool-cases (is_idle (s.procs c))) [
      | inl idle ↦ rw (run, idle) (put_back-idle run idle)
      | inr busy ↦
          rw (run, busy, put_back-running run)
            (Requeues-IsPicked _ _ (requeue s c ready_again keeps_links xs v.waiting out busy))
    ]
    | inr stop ↦ rw (stop, put_back-stopped stop) v
  ]
