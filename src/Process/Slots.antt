-- ===== src/Process/Slots.antt =====
-- Which slot `process_create` takes, and what it does to the queue.
use chanux.Common.{
  ℕ, zero, suc, ◌+◌, ◌≤◌, ◌<◌, ◌≡◌, ◌≢◌, ◌∙◌, ap, sym, refl, Bool, true, false, ◌==◌, Option, none,
  some, update, List, [], ◌∷◌, ◌++◌, arith, Bool-cases, Option-cases, inl, inr, ◌⊎◌, ==→eq, eq→==,
}
use chanux.Proc.{Process, ProcessState, System, set_proc, is_idle}
use chanux.RunQueue.{is_some}
use chanux.RunQueue.Links.{contains, IsQueue, unlinked}
use chanux.RunQueue.Queue.{sched_add-IsQueue}
use chanux.RunQueue.Frame.{IsQueue-same, is_ready, all_wait-member}
use chanux.RunQueue.Requeue.{IsWaiting}
use chanux.Process.{
  is_unused, find_slot, stdio_table, new_process, create_in, clean_slot, process_create,
}

module _ (procs : ℕ → Process) (n i : ℕ) where
  slot-free : is_unused (procs i).state ≡ true → find_slot procs (suc n) i ≡ some i
  unfolding find_slot
  slot-free h = rw h refl

  slot-used :
      is_unused (procs i).state ≡ false → find_slot procs (suc n) i ≡ find_slot procs n (i + 1)
  unfolding find_slot
  slot-used h = rw h refl

some-eq : (i p : ℕ) → some i ≡ some p → i ≡ p
some-eq i p e = ground (arith, e)

none-some : (i : ℕ) → none ≢ some i
none-some i e = absurd (ground (arith, e))

find_slot_nil : (procs : ℕ → Process) (i p : ℕ) → find_slot procs 0 i ≢ some p
unfolding find_slot
find_slot_nil procs i p e = none-some p e

pub find_slot-some :
    (procs : ℕ → Process) (n i p : ℕ)
    → find_slot procs n i ≡ some p
    → (p < i + n) × (is_unused (procs p).state ≡ true)
find_slot-some procs zero i p e = absurd (find_slot_nil procs i p e)
find_slot-some procs (suc n) i p e = elim (Bool-cases (is_unused (procs i).state)) [
  | inl free ↦
      let same = some-eq i p (sym (slot-free procs n i free) ∙ e) in (omega arith, rw (← same) free)
  | inr used ↦
      let (lt, free) = find_slot-some procs n (i + 1) p (sym (slot-used procs n i used) ∙ e) in
      (omega arith, free)
]

pub find_slot-none :
    (procs : ℕ → Process) (n i p : ℕ)
    → find_slot procs n i ≡ none
    → i ≤ p
    → p < i + n
    → is_unused (procs p).state ≡ false
find_slot-none procs zero i p e le lt = absurd (omega arith)
find_slot-none procs (suc n) i p e le lt = elim (Bool-cases (is_unused (procs i).state)) [
  | inl free ↦ absurd (none-some i (sym e ∙ slot-free procs n i free))
  | inr used ↦ elim (Bool-cases (i == p)) [
    | inl here ↦ rw (← ==→eq i p here) used
    | inr later ↦
        let ne : i ≢ p = λ h. absurd (ground (arith, eq→== i p h)) in
        find_slot-none procs n (i + 1) p (sym (slot-used procs n i used) ∙ e) (omega (arith, ne))
          (omega arith)
  ]
]

ready-used : (st : ProcessState) → is_ready st ≡ true → is_unused st ≡ false
ready-used ProcessState.unused h = absurd (ground (arith, h))
ready-used ProcessState.ready h = refl
ready-used ProcessState.running h = refl
ready-used ProcessState.blocked h = refl
ready-used ProcessState.terminated h = refl

-- An unused slot is outside a queue of processes that wait.
pub unused_out :
    (s : System) (xs : List ℕ) (p : ℕ)
    → IsWaiting s xs
    → is_unused (s.procs p).state ≡ true
    → contains xs p ≡ false
unused_out s xs p w free = elim (Bool-cases (contains xs p)) [
  | inl member ↦
      let waiting = all_wait-member s.procs xs p w.wait member in
      absurd (ground (arith, ready-used (s.procs p).state (ground (arith, waiting))))
  | inr out ↦ out
]

none_of : (o : Option ℕ) → is_some o ≡ false → o ≡ none
none_of none h = refl
none_of (some x) h = absurd (ground (arith, h))

unlinked-none : (proc : Process) → unlinked proc ≡ true → (proc.next ≡ none) × (proc.prev ≡ none)
unlinked-none proc h = (none_of proc.next (ground arith), none_of proc.prev (ground arith))

pub outside_unlinked :
    (s : System) (xs : List ℕ) (p : ℕ)
    → IsQueue s xs
    → contains xs p ≡ false
    → ((s.procs p).next ≡ none) × ((s.procs p).prev ≡ none)
outside_unlinked s xs p q out = unlinked-none (s.procs p) (ground (arith, q.others p, out))

-- An unlinked process is written to a place outside the queue.
pub fresh-IsQueue :
    (s : System) (xs : List ℕ) (p : ℕ) (proc : Process)
    → proc.next ≡ none
    → proc.prev ≡ none
    → contains xs p ≡ false
    → IsQueue s xs
    → IsQueue (set_proc s p proc) xs
fresh-IsQueue s xs p proc n v out q =
    let (old_n, old_v) = outside_unlinked s xs p q out in
    IsQueue-same s (set_proc s p proc) xs
      (λ r. elim (Bool-cases (p == r)) [
        | inl here ↦ rw (here, ← ==→eq p r here) (n ∙ sym old_n, v ∙ sym old_v)
        | inr other ↦ rw other (refl, refl)
      ])
      refl refl q

update_self : (procs : ℕ → Process) (p : ℕ) (proc : Process) → update procs p proc p ≡ proc
update_self procs p proc = rw (eq→== p p refl) refl

module _ (s : System) (p : ℕ) (name : Option (List ℕ)) (entry arg stack : ℕ) (memory : Bool) where
  abbrev fresh : Process
  fresh = new_process s p name entry arg stack (stdio_table memory s.files).0

  fresh_fields : (fresh.next ≡ none) × (fresh.prev ≡ none) × (is_idle fresh ≡ false)
  unfolding new_process
  fresh_fields = (refl, refl, refl)

  pub create_in-IsQueue :
      (xs : List ℕ)
      → IsQueue s xs
      → contains xs p ≡ false
      → IsQueue (create_in s p name entry arg stack memory) (xs ++ (p ∷ []))
        × (((create_in s p name entry arg stack memory).procs p).state ≡ ProcessState.ready)
  unfolding create_in
  create_in-IsQueue xs q out =
      let (n, v, busy) = fresh_fields in
      let q' = fresh-IsQueue s xs p fresh n v out q in
      sched_add-IsQueue _ p xs
        (IsQueue-same (set_proc s p fresh) _ xs (λ r. (refl, refl)) refl refl q') out
        (ap is_idle (update_self s.procs p fresh) ∙ busy)

-- What becomes of a creation, of a process with this stack.
abbrev pub Created : System → List ℕ → Option ℕ → Option ℕ × System → Type 0
Created s xs stack (result, s') =
    ((p : ℕ) × (p < 64)
      × (is_unused (s.procs p).state ≡ true)
      × (is_some stack ≡ true)
      × (result ≡ some s.next_pid)
      × IsQueue s' (xs ++ (p ∷ []))
      × ((s'.procs p).state ≡ ProcessState.ready))
    ⊎ ((result ≡ none)
        × IsQueue s' xs
        × ((is_some stack ≡ false) ⊎ ((p : ℕ) → p < 64 → is_unused (s.procs p).state ≡ false)))

clean-IsQueue :
    (s : System) (xs : List ℕ) (p : ℕ)
    → contains xs p ≡ false
    → IsQueue s xs
    → IsQueue (clean_slot s p) xs
clean-IsQueue s xs p out q =
    let (n, v) = outside_unlinked s xs p q out in
    let q' =
      fresh-IsQueue s xs p (record (s.procs p) { kernel_stack = none; fd_table = none }) n v out
        q in
    IsQueue-same _ (clean_slot s p) xs (λ r. (refl, refl)) refl refl q'

module _ (s : System) (name : Option (List ℕ)) (entry arg : ℕ) (memory : Bool) where
  create-full :
      (stack : Option ℕ)
      → find_slot s.procs 64 0 ≡ none
      → process_create s name entry arg stack memory ≡ (none, s)
  unfolding process_create
  create-full stack e = rw (e, process_create) refl

  module _ (p : ℕ) (e : find_slot s.procs 64 0 ≡ some p) where
    create-poor : process_create s name entry arg none memory ≡ (none, clean_slot s p)
    unfolding process_create
    create-poor = rw (e, process_create) refl

    create-made :
        (base : ℕ)
        → process_create s name entry arg (some base) memory
          ≡ (some s.next_pid, create_in (clean_slot s p) p name entry arg base memory)
    unfolding process_create
    create-made base = rw (e, process_create) refl

  -- With a queue of ready processes, process_create either returns the next process id and appends
  -- to the queue a slot of the table that was unused and is now ready; or returns -1 and keeps the
  -- queue, and then there was no memory for the stack or every slot of the table is in use, a
  -- terminated process's slot included.
  pub process_create_lem :
      (stack : Option ℕ) (xs : List ℕ)
      → IsWaiting s xs
      → Created s xs stack (process_create s name entry arg stack memory)
  process_create_lem stack xs w = elim (Option-cases (find_slot s.procs 64 0)) [
    | inl e ↦
        rw (create-full stack e)
          (inr (refl, w.queue, inr (λ p lt. find_slot-none s.procs 64 0 p e (omega arith) lt)))
    | inr (p, e) ↦ in_slot stack xs w p e
  ]
    where
      in_slot :
          (stack : Option ℕ) (xs : List ℕ)
          → IsWaiting s xs
          → (p : ℕ) → find_slot s.procs 64 0 ≡ some p
          → Created s xs stack (process_create s name entry arg stack memory)
      in_slot none xs w p e =
          let (lt, free) = find_slot-some s.procs 64 0 p e in
          rw (create-poor p e)
            (inr (refl, clean-IsQueue s xs p (unused_out s xs p w free) w.queue, inl refl))
      in_slot (some base) xs w p e =
          let (lt, free) = find_slot-some s.procs 64 0 p e in
          let out = unused_out s xs p w free in
          let (queue, ready) =
            create_in-IsQueue (clean_slot s p) p name entry arg base memory xs
              (clean-IsQueue s xs p out w.queue) out in
          rw (create-made p e base) (inl (p, lt, free, refl, refl, queue, ready))
