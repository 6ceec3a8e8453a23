-- ===== src/Sched/Wake.antt =====
-- `process_wake_sleeping` queues the processes whose sleep is over.
use mathlib.Core.List.{append_assoc, append-nil}
use chanux.Common.{
  ℕ, zero, suc, ◌+◌, ◌≤◌, ◌<◌, subst, if◌then◌else◌, ◌≡◌, ◌≢◌, ◌∙◌, ap, refl, Bool, true, false,
  not, ◌&&◌, ◌==◌, ltb, leb, some, List, [], ◌∷◌, ◌++◌, arith, Bool-cases, inl, inr, ==→eq, eq→==,
}
use chanux.Proc.{ProcessState, System, is_idle, set_proc}
use chanux.RunQueue.{sched_add, append_to_queue}
use chanux.RunQueue.Links.{contains}
use chanux.RunQueue.Queue.{contains-append, sched_add-adds}
use chanux.RunQueue.Frame.{is_ready, all_wait-member, append-wake_tick}
use chanux.RunQueue.Requeue.{Requeues, KeepsLinks, set_proc-IsQueue, requeue}
use chanux.Sched.{is_blocked, is_due, awaken, wake_one, wake_from, process_wake_sleeping}
use chanux.Sched.Invariant.{IsScheduled, Requeues-IsPicked}

-- The scheduler's invariant, while no process that has the processor, and no idle one, is blocked.
pub record IsLive (s : System) (xs : List ℕ) (c i : ℕ) : Type 0 where
  pub scheduled : IsScheduled s xs c i
  pub awake : is_blocked (s.procs c).state ≡ false
  pub idle_awake : (r : ℕ) → (is_idle (s.procs r) && is_blocked (s.procs r).state) ≡ false

blocked-ready : (st : ProcessState) → is_blocked st ≡ true → is_ready st ≡ false
blocked-ready ProcessState.unused h = refl
blocked-ready ProcessState.ready h = absurd (ground (arith, h))
blocked-ready ProcessState.running h = refl
blocked-ready ProcessState.blocked h = refl
blocked-ready ProcessState.terminated h = refl

module _ (tick : ℕ) (s : System) (xs : List ℕ) (c i p : ℕ) (v : IsLive s xs c i) where
  wake_one-skip : is_due tick (s.procs p) ≡ false → wake_one tick s p ≡ s
  unfolding wake_one
  wake_one-skip h = rw h refl

  wake_one-due :
      is_due tick (s.procs p) ≡ true
      → wake_one tick s p ≡ sched_add (set_proc s p (awaken (s.procs p))) (some p)
  unfolding wake_one
  wake_one-due h = rw h refl

  module _ (due : is_due tick (s.procs p) ≡ true) where
    blocked_out : contains xs p ≡ false
    blocked_out = elim (Bool-cases (contains xs p)) [
      | inl member ↦
          let waiting = all_wait-member s.procs xs p v.scheduled.picked.waiting.wait member in
          absurd
            (ground (arith, waiting, due, blocked-ready (s.procs p).state (ground (arith, due))))
      | inr out ↦ out
    ]

    blocked_busy : is_idle (s.procs p) ≡ false
    blocked_busy = ground (arith, v.idle_awake p, due)

    not_current : (p == c) ≡ false
    not_current = elim (Bool-cases (p == c)) [
      | inl same ↦ absurd (ground (arith, due, rw (← ==→eq p c same) at v.awake))
      | inr other ↦ other
    ]

    keeps : KeepsLinks (s.procs p) (awaken (s.procs p))
    keeps = record { next = refl; prev = refl; flags = refl }

    woken : Requeues s (wake_one tick s p) (xs ++ (p ∷ [])) p
    woken = rw (wake_one-due due) (
        requeue s p (awaken (s.procs p)) keeps xs v.scheduled.picked.waiting blocked_out
          blocked_busy)

    woken-IsLive : IsLive (wake_one tick s p) (xs ++ (p ∷ [])) c i
    woken-IsLive = record {
      scheduled = record {
        picked = Requeues-IsPicked s xs p i blocked_out v.scheduled.picked _ _ woken;
        current = woken.rest.current ∙ v.scheduled.current;
        current_out = ground (arith, contains-append xs p c, v.scheduled.current_out, not_current);
      };
      awake = ground (arith, woken.state c, not_current, v.awake);
      idle_awake = λ r.
          rw (woken.flags r, woken.state r)
            (elim (Bool-cases (p == r)) [
              | inl here ↦ rw here (ground arith)
              | inr other ↦ rw other (v.idle_awake r)
            ]);
    }

    appended : wake_one tick s p ≡ append_to_queue (set_proc s p (awaken (s.procs p))) p
    appended =
        wake_one-due due
        ∙ sched_add-adds (set_proc s p (awaken (s.procs p))) p xs
            (set_proc-IsQueue s p (awaken (s.procs p)) keeps xs v.scheduled.picked.waiting.queue)
            blocked_out (ground (arith, blocked_busy))

    woken-wake_tick :
        (r : ℕ) → (p == r) ≡ false → ((wake_one tick s p).procs r).wake_tick ≡ (s.procs r).wake_tick
    woken-wake_tick r other =
        ap (λ s'. (s'.procs r).wake_tick) appended
        ∙ append-wake_tick (set_proc s p (awaken (s.procs p))) p r
        ∙ ground (arith, other)

    woken-due :
        (r : ℕ)
        → is_due tick ((wake_one tick s p).procs r) ≡ (not (p == r) && is_due tick (s.procs r))
    woken-due r = elim (Bool-cases (p == r)) [
      | inl here ↦ rw (woken.state r, here) refl
      | inr other ↦ rw (woken.state r, woken-wake_tick r other, other) refl
    ]

  wake_one-due_after :
      (r : ℕ)
      → is_due tick ((wake_one tick s p).procs r) ≡ (not (p == r) && is_due tick (s.procs r))
  wake_one-due_after r = elim (Bool-cases (is_due tick (s.procs p))) [
    | inl due ↦ woken-due due r
    | inr early ↦ rw (wake_one-skip early) (elim (Bool-cases (p == r)) [
      | inl here ↦ rw here (rw (← ==→eq p r here) early)
      | inr other ↦ rw other refl
    ])
  ]

  wake_one-IsLive :
      IsLive (wake_one tick s p) (xs ++ (if is_due tick (s.procs p) then p ∷ [] else [])) c i
  wake_one-IsLive = elim (Bool-cases (is_due tick (s.procs p))) [
    | inl due ↦ rw due (woken-IsLive due)
    | inr early ↦ rw (early, wake_one-skip early, append-nil xs) v
  ]

-- The processes of the places `i` to `i + n` whose sleep is over, in the order of the table.
pub due_from : ℕ → System → ℕ → ℕ → List ℕ
due_from tick s zero i = []
due_from tick s (suc n) i =
    let rest = due_from tick s n (i + 1) in (if is_due tick (s.procs i) then i ∷ [] else []) ++ rest

due_from-same :
    (tick n : ℕ) (s s' : System) (i : ℕ)
    → ((r : ℕ) → i ≤ r → is_due tick (s'.procs r) ≡ is_due tick (s.procs r))
    → due_from tick s' n i ≡ due_from tick s n i
unfolding due_from
due_from-same tick zero s s' i same = refl
due_from-same tick (suc n) s s' i same =
    let rest = due_from-same tick n s s' (i + 1) (λ r le. same r (omega (arith, le))) in
    rw (same i (omega arith), rest) refl

-- The places `i` to `i + n` are `r`'s.
abbrev within : ℕ → ℕ → ℕ → Bool
within i n r = leb i r && ltb r (i + n)

within-suc :
    (i n r : ℕ) (d : Bool)
    → (not (within (i + 1) n r) && (not (i == r) && d)) ≡ (not (within i (suc n) r) && d)
within-suc i n r d = elim (Bool-cases (i == r)) [
  | inl here ↦ let same = ==→eq i r here in ground (arith, here, same)
  | inr other ↦
      let ne : i ≢ r = λ e. absurd (ground (arith, eq→== i r e)) in ground (arith, other, ne)
]

Woken : ℕ → System → System → List ℕ → ℕ → ℕ → ℕ → ℕ → Type 0
Woken tick s s' xs c idle i n =
    IsLive s' (xs ++ due_from tick s n i) c idle
    × ((r : ℕ) → is_due tick (s'.procs r) ≡ (not (within i n r) && is_due tick (s.procs r)))

-- Waking the process of place `i` changes no later place's due time.
later_due :
    (tick : ℕ) (s : System) (xs : List ℕ) (c idle i n : ℕ)
    → IsLive s xs c idle
    → due_from tick (wake_one tick s i) n (i + 1) ≡ due_from tick s n (i + 1)
later_due tick s xs c idle i n v = due_from-same tick n s (wake_one tick s i) (i + 1) (λ r le.
    let other : (i == r) ≡ false = ground (arith, le) in
    wake_one-due_after tick s xs c idle i v r ∙ rw other refl)

wake_from-Woken :
    (tick n : ℕ) (s : System) (xs : List ℕ) (c idle i : ℕ)
    → IsLive s xs c idle
    → Woken tick s (wake_from tick s i n) xs c idle i n
unfolding wake_from Woken due_from
wake_from-Woken tick zero s xs c idle i v = (rw (append-nil xs) v, λ r. ground arith)
wake_from-Woken tick (suc n) s xs c idle i v =
    let first : List ℕ = if is_due tick (s.procs i) then i ∷ [] else [] in
    let v' = wake_one-IsLive tick s xs c idle i v in
    let (v'', due) = wake_from-Woken tick n (wake_one tick s i) (xs ++ first) c idle (i + 1) v' in
    let t = wake_from tick (wake_one tick s i) (i + 1) n in
    let same = later_due tick s xs c idle i n v in
    (
      subst (λ l. IsLive t l c idle) (append_assoc xs first (due_from tick s n (i + 1)))
          (subst (λ l. IsLive t ((xs ++ first) ++ l) c idle) same v''),
      λ r.
          due r
          ∙ rw (wake_one-due_after tick s xs c idle i v r)
              (within-suc i n r (is_due tick (s.procs r))),
    )

all_places : (r : ℕ) → r < 64 → within 0 64 r ≡ true
all_places r lt = ground arith

-- If neither the current nor an idle process is blocked, process_wake_sleeping keeps the invariant
-- of the scheduler and appends to the run queue exactly the blocked processes whose wake-up time
-- has come, in the order of the table; none of the table is left blocked with such a time.
pub process_wake_sleeping_lem :
    (s : System) (xs : List ℕ) (c idle tick : ℕ)
    → IsLive s xs c idle
    → IsLive (process_wake_sleeping s tick) (xs ++ due_from tick s 64 0) c idle
      × ((r : ℕ) → r < 64 → is_due tick ((process_wake_sleeping s tick).procs r) ≡ false)
unfolding process_wake_sleeping Woken
process_wake_sleeping_lem s xs c idle tick v =
    let (live, due) = wake_from-Woken tick 64 s xs c idle 0 v in
    (live, λ r lt. due r ∙ ap (λ b. not b && is_due tick (s.procs r)) (all_places r lt))
