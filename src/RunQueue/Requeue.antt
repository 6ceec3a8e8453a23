-- ===== src/RunQueue/Requeue.antt =====
-- A process that becomes ready: it is written back and `sched_add` puts it at the end of the queue.
use chanux.Common.{
  ℕ, ◌≡◌, refl, true, false, not, ◌||◌, ◌==◌, if◌then◌else◌, some, List, [], ◌∷◌, ◌++◌, arith,
  Bool-cases, inl, inr, ==→eq,
}
use chanux.Proc.{Process, ProcessState, System, is_idle, set_proc}
use chanux.RunQueue.{sched_add, append_to_queue}
use chanux.RunQueue.Links.{contains, IsQueue}
use chanux.RunQueue.Queue.{sched_add-adds, append-IsQueue, contains-append}
use chanux.RunQueue.Frame.{
  SameRest, append-SameRest, append-fields, IsQueue-same, waits, all_wait, all_wait-member,
  all_wait_intro,
}

-- A queue of processes that wait.
pub record IsWaiting (s : System) (xs : List ℕ) : Type 0 where
  pub queue : IsQueue s xs
  pub wait : all_wait s.procs xs ≡ true

-- `s'` is `s` with process `p` ready, and the processes `xs'` waiting.
pub record Requeues (s s' : System) (xs' : List ℕ) (p : ℕ) : Type 0 where
  pub waiting : IsWaiting s' xs'
  pub rest : SameRest s s'
  pub state :
      (r : ℕ) → (s'.procs r).state ≡ (if p == r then ProcessState.ready else (s.procs r).state)
  pub flags : (r : ℕ) → (s'.procs r).flags ≡ (s.procs r).flags

-- The scheduling fields that a write keeps.
pub record KeepsLinks (old new : Process) : Type 0 where
  pub next : new.next ≡ old.next
  pub prev : new.prev ≡ old.prev
  pub flags : new.flags ≡ old.flags

module _ (s : System) (p : ℕ) (proc : Process) (keeps : KeepsLinks (s.procs p) proc) where
  pub set_proc-IsQueue : (xs : List ℕ) → IsQueue s xs → IsQueue (set_proc s p proc) xs
  set_proc-IsQueue xs q =
      IsQueue-same s (set_proc s p proc) xs (λ r. ground (arith, keeps)) refl refl q

  module _ (xs : List ℕ) (w : IsWaiting s xs) (out : contains xs p ≡ false)
      (busy : is_idle (s.procs p) ≡ false) where
    abbrev after : System
    after = append_to_queue (set_proc s p proc) p

    after_state :
        (r : ℕ) → (after.procs r).state ≡ (if p == r then ProcessState.ready else (s.procs r).state)
    after_state r = ground (arith, (append-fields (set_proc s p proc) p r).0)

    after_flags : (r : ℕ) → (after.procs r).flags ≡ (s.procs r).flags
    after_flags r = ground (arith, (append-fields (set_proc s p proc) p r).1, keeps)

    after_waits : (r : ℕ) → (not (contains (xs ++ (p ∷ [])) r) || waits (after.procs r)) ≡ true
    after_waits r = elim (Bool-cases (p == r)) [
      | inl here ↦
          let same : p ≡ r = ==→eq p r here in
          ground (arith, after_state r, after_flags r, rw same at busy)
      | inr other ↦ elim (Bool-cases (contains xs r)) [
        | inl member ↦
            ground (arith, after_state r, after_flags r, all_wait-member s.procs xs r w.wait member)
        | inr outside ↦ ground (arith, contains-append xs p r)
      ]
    ]

    after_rest : SameRest s after
    after_rest =
        let a = append-SameRest (set_proc s p proc) p in
        record {
          current = a.current;
          idle = a.idle;
          running = a.running;
          reschedule = a.reschedule;
          next_pid = a.next_pid;
          files = a.files;
        }

    still_busy : is_idle ((set_proc s p proc).procs p) ≡ false
    still_busy = ground (arith, busy, keeps)

    pub requeue : Requeues s (sched_add (set_proc s p proc) (some p)) (xs ++ (p ∷ [])) p
    requeue =
        let q = set_proc-IsQueue xs w.queue in
        rw (sched_add-adds (set_proc s p proc) p xs q out still_busy) (record {
          waiting = record {
            queue = append-IsQueue (set_proc s p proc) p xs out q;
            wait = all_wait_intro after.procs (xs ++ (p ∷ [])) after_waits;
          };
          rest = after_rest;
          state = after_state;
          flags = after_flags;
        })
