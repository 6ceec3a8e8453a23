-- ===== src/RunQueue.antt =====
-- The run queue of kernel/proc/sched.c: a doubly linked list through the process table.
pub mod Links
pub mod Queue
pub mod Pop
pub mod Frame
pub mod Requeue
use chanux.Common.{
  ℕ, zero, suc, ◌+◌, Bool, true, false, not, ◌||◌, ◌==◌, if◌then◌else◌, Option, none, some, update,
  add32,
}
use chanux.Proc.{Process, ProcessState, System, set_proc, is_idle}

abbrev pub is_some : Option ℕ → Bool
is_some none = false
is_some (some _) = true

-- `o == p`, for a pointer that may be `NULL`
abbrev pub points_to : Option ℕ → ℕ → Bool
points_to none p = false
points_to (some q) p = q == p

abbrev set_next : System → Option ℕ → Option ℕ → System
set_next s none next = s
set_next s (some p) next = set_proc s p (record (s.procs p) { next = next })

abbrev set_prev : System → Option ℕ → Option ℕ → System
set_prev s none prev = s
set_prev s (some p) prev = set_proc s p (record (s.procs p) { prev = prev })

-- The end of `sched_add`: the process is linked in behind the tail.
unfoldable pub append_to_queue : System → ℕ → System
append_to_queue s p =
    let proc = record (s.procs p) { state = ProcessState.ready; prev = s.tail; next = none } in
    let s' = set_next (set_proc s p proc) s.tail (some p) in
    record s' { head = if is_some s.tail then s'.head else some p; tail = some p }

unfoldable pub sched_add : System → Option ℕ → System
unfolding append_to_queue
sched_add s none = s
sched_add s (some p) =
    let proc = s.procs p in
    if is_idle proc
    then s
    else if is_some proc.next || (is_some proc.prev || points_to s.head p)
    then s
    else append_to_queue s p

-- The process before it, or the head, is linked to the one after it, and the one after it, or the
-- tail, to the one before it.
unfoldable pub sched_remove : System → Option ℕ → System
sched_remove s none = s
sched_remove s (some p) =
    let before = set_next s (s.procs p).prev (s.procs p).next in
    let headed =
      if is_some (s.procs p).prev then before else record before { head = (s.procs p).next } in
    let after = set_prev headed (headed.procs p).next (headed.procs p).prev in
    let tailed =
      if is_some (headed.procs p).next
      then after
      else record after { tail = (headed.procs p).prev } in
    set_proc tailed p (record (tailed.procs p) { next = none; prev = none })

-- Taking the head `p` off the queue.
unfoldable pub pop_head : System → ℕ → System
pop_head s p =
    let second = (s.procs p).next in
    let moved = set_prev (record s { head = second }) second none in
    let s' = record moved { tail = if is_some second then moved.tail else none } in
    set_proc s' p (record (s'.procs p) { next = none; prev = none })

unfoldable pub sched_pick_next : System → Option ℕ × System
unfolding pop_head
sched_pick_next s = elim s.head [ none ↦ (s.idle, s) | some p ↦ (some p, pop_head s p) ]

-- The `while` loop of `sched_ready_count`, on fuel.
pub count_from : System → ℕ → Option ℕ → ℕ → ℕ
count_from s zero p count = count
count_from s (suc fuel) none count = count
count_from s (suc fuel) (some p) count = count_from s fuel (s.procs p).next (add32 count 1)
