-- ===== src/RunQueue/Frame.antt =====
-- What the operations on the run queue leave alone.
use chanux.Common.{
  ℕ, ◌≡◌, refl, Bool, true, false, not, ◌&&◌, ◌||◌, ◌∙◌, Bool-cases, ==→eq, eq→==, ◌==◌,
  if◌then◌else◌, Option, none, some, List, [], ◌∷◌, arith, Option-cases, inl, inr,
}
use chanux.Proc.{Process, ProcessState, System, is_idle}
use chanux.RunQueue.{append_to_queue, pop_head}
use chanux.RunQueue.Queue.{append-none, append-some}
use chanux.RunQueue.Pop.{pop-last, pop-some}
use chanux.RunQueue.Links.{contains, Links, IsQueue}

-- The scheduler's variables but the queue are as they were.
pub record SameRest (s s' : System) : Type 0 where
  pub current : s'.current ≡ s.current
  pub idle : s'.idle ≡ s.idle
  pub running : s'.scheduler_running ≡ s.scheduler_running
  pub reschedule : s'.need_reschedule ≡ s.need_reschedule
  pub next_pid : s'.next_pid ≡ s.next_pid
  pub files : s'.files ≡ s.files

module _ (s : System) (p : ℕ) where
  pub pop_head-SameRest : SameRest s (pop_head s p)
  unfolding pop_head
  pop_head-SameRest = elim (Option-cases (s.procs p).next) [
    | inl last ↦ ground (arith, last)
    | inr (y, more) ↦ ground (arith, more)
  ]

  pub pop_head-state :
      (r : ℕ)
      → (((pop_head s p).procs r).state ≡ (s.procs r).state)
        × (((pop_head s p).procs r).flags ≡ (s.procs r).flags)
  pop_head-state r = elim (Option-cases (s.procs p).next) [
    | inl last ↦ rw (pop-last s p last) (ground arith, ground arith)
    | inr (y, more) ↦ rw (pop-some s p y more) (ground arith, ground arith)
  ]

  pub append-SameRest : SameRest s (append_to_queue s p)
  append-SameRest = elim (Option-cases s.tail) [
    | inl empty ↦ rw (append-none s p empty) (record {
      current = refl;
      idle = refl;
      running = refl;
      reschedule = refl;
      next_pid = refl;
      files = refl;
    })
    | inr (t, last) ↦ rw (append-some s p t last) (record {
      current = refl;
      idle = refl;
      running = refl;
      reschedule = refl;
      next_pid = refl;
      files = refl;
    })
  ]

  pub append-fields :
      (r : ℕ)
      → (((append_to_queue s p).procs r).state
          ≡ (if p == r then ProcessState.ready else (s.procs r).state))
        × (((append_to_queue s p).procs r).flags ≡ (s.procs r).flags)
  append-fields r = elim (Option-cases s.tail) [
    | inl empty ↦ rw (append-none s p empty) (ground arith, ground arith)
    | inr (t, last) ↦ rw (append-some s p t last) (ground arith, ground arith)
  ]

module _ (s : System) (p : ℕ) where
  pub append-wake_tick : (r : ℕ) → ((append_to_queue s p).procs r).wake_tick ≡ (s.procs r).wake_tick
  append-wake_tick r = elim (Option-cases s.tail) [
    | inl empty ↦ rw (append-none s p empty) (ground arith)
    | inr (t, last) ↦ rw (append-some s p t last) (ground arith)
  ]

-- The links of `procs'` are those of `procs`.
abbrev pub SameLinks : (ℕ → Process) → (ℕ → Process) → Type 0
SameLinks procs procs' =
    (r : ℕ) → ((procs' r).next ≡ (procs r).next) × ((procs' r).prev ≡ (procs r).prev)

Links-same :
    (procs procs' : ℕ → Process) (xs : List ℕ) (prev cur tail : Option ℕ)
    → SameLinks procs procs'
    → Links procs prev cur xs tail
    → Links procs' prev cur xs tail
Links-same procs procs' [] prev cur tail same h = h
Links-same procs procs' (x ∷ xs) prev cur tail same h = (
  h.0,
  (same x).1 ∙ h.1,
  rw ((same x).0) (Links-same procs procs' xs (some x) (procs x).next tail same h.2),
)

-- A change that keeps the links keeps the queue.
pub IsQueue-same :
    (s s' : System) (xs : List ℕ)
    → SameLinks s.procs s'.procs
    → s'.head ≡ s.head
    → s'.tail ≡ s.tail
    → IsQueue s xs
    → IsQueue s' xs
IsQueue-same s s' xs same h t q = record {
  links = rw (h, t) (Links-same s.procs s'.procs xs none s.head s.tail same q.links);
  once = q.once;
  others = λ r. ground (arith, q.others r, same r);
}

abbrev pub is_ready : ProcessState → Bool
is_ready ProcessState.ready = true
is_ready _ = false

-- A process of the queue waits for the processor.
abbrev pub waits : Process → Bool
waits proc = is_ready proc.state && not (is_idle proc)

abbrev pub all_wait : (ℕ → Process) → List ℕ → Bool
all_wait procs [] = true
all_wait procs (x ∷ xs) = waits (procs x) && all_wait procs xs

pub all_wait-member :
    (procs : ℕ → Process) (xs : List ℕ) (p : ℕ)
    → all_wait procs xs ≡ true
    → contains xs p ≡ true
    → waits (procs p) ≡ true
all_wait-member procs [] p w m = absurd (ground arith)
all_wait-member procs (x ∷ xs) p w m = elim (Bool-cases (x == p)) [
  | inl here ↦ rw (← ==→eq x p here) (ground arith)
  | inr later ↦ all_wait-member procs xs p (ground arith) (ground arith)
]

pub all_wait_intro :
    (procs : ℕ → Process) (xs : List ℕ)
    → ((r : ℕ) → (not (contains xs r) || waits (procs r)) ≡ true)
    → all_wait procs xs ≡ true
all_wait_intro procs [] h = refl
all_wait_intro procs (x ∷ xs) h =
    let rest = all_wait_intro procs xs (λ r. ground (arith, h r)) in
    ground (arith, h x, rest, eq→== x x refl)
