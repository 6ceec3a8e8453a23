-- ===== src/RunQueue/Queue.antt =====
-- `sched_add` and `sched_pick_next` are the operations of a first-in, first-out queue.
use chanux.Common.{
  ℕ, ◌≡◌, refl, true, false, ◌||◌, ◌==◌, Option, none, some, update, List, [], ◌∷◌, ◌++◌, arith,
  Bool-cases, Option-cases, eq→==, inl, inr,
}
use chanux.Proc.{Process, ProcessState, System, is_idle}
use chanux.RunQueue.{is_some, points_to, append_to_queue, sched_add}
use chanux.RunQueue.Links.{
  contains, distinct, Links, IsQueue, Links-update, Links-member, Links-tail, link_next,
  Links-append, contains-ne,
}

module _ (s : System) (p : ℕ) where
  -- The process as `sched_add` leaves it.
  abbrev pub queued : Process
  queued = record (s.procs p) { state = ProcessState.ready; prev = s.tail; next = none }

  pub append-none :
      s.tail ≡ none
      → append_to_queue s p
        ≡ record s { procs = update s.procs p queued; head = some p; tail = some p }
  unfolding append_to_queue
  append-none h = ground arith

  pub append-some :
      (t : ℕ)
      → s.tail ≡ some t
      → append_to_queue s p
        ≡ record s { procs = link_next (update s.procs p queued) t p; tail = some p }
  unfolding append_to_queue
  append-some t h = ground arith

pub contains-append :
    (xs : List ℕ) (p q : ℕ) → contains (xs ++ (p ∷ [])) q ≡ (contains xs q || p == q)
contains-append [] p q = ground arith
contains-append (x ∷ xs) p q = ground (arith, contains-append xs p q)

distinct-append :
    (xs : List ℕ) (p : ℕ)
    → distinct xs ≡ true
    → contains xs p ≡ false
    → distinct (xs ++ (p ∷ [])) ≡ true
distinct-append [] p d out = refl
distinct-append (x ∷ xs) p d out = ground (arith, distinct-append xs p, contains-append xs p x)

Links-tail_some :
    (procs : ℕ → Process) (x : ℕ) (xs : List ℕ) (prev cur tail : Option ℕ)
    → Links procs prev cur (x ∷ xs) tail
    → (t : ℕ) × (tail ≡ some t)
Links-tail_some procs x [] prev cur tail h = (x, h.2.1)
Links-tail_some procs x (y ∷ ys) prev cur tail h =
    Links-tail_some procs y ys (some x) (procs x).next tail h.2

module _ (s : System) (p : ℕ) where
  append_some-IsQueue :
      (x t : ℕ) (xs : List ℕ)
      → s.tail ≡ some t
      → contains (x ∷ xs) p ≡ false
      → IsQueue s (x ∷ xs)
      → IsQueue
          (record s { procs = link_next (update s.procs p (queued s p)) t p; tail = some p })
          ((x ∷ xs) ++ (p ∷ []))
  append_some-IsQueue x t xs e out q =
      let links : Links s.procs none s.head (x ∷ xs) (some t) = rw e at q.links in
      let inside = Links-tail s.procs x t xs none s.head links in
      record {
        links =
            Links-append (update s.procs p (queued s p)) x t p xs none s.head q.once out
              (ground (arith, e)) (ground arith)
              (Links-update s.procs p (queued s p) (x ∷ xs) none s.head (some t) out links);
        once = distinct-append (x ∷ xs) p q.once out;
        others = λ r.
            ground (arith, q.others r, inside, contains-append xs p r, contains-ne (x ∷ xs) r t);
      }

  pub append-IsQueue :
      (xs : List ℕ)
      → contains xs p ≡ false
      → IsQueue s xs
      → IsQueue (append_to_queue s p) (xs ++ (p ∷ []))
  append-IsQueue [] out q = rw (append-none s p q.links.1) (record {
    links = (refl, ground (arith, q.links), (ground arith, refl));
    once = refl;
    others = λ r. ground (arith, q.others r);
  })
  append-IsQueue (x ∷ xs) out q =
      let (t, e) = Links-tail_some s.procs x xs none s.head s.tail q.links in
      rw (append-some s p t e) (append_some-IsQueue x t xs e out q)

  append-state : ((append_to_queue s p).procs p).state ≡ ProcessState.ready
  append-state = elim (Option-cases s.tail) [
    | inl empty ↦ rw (append-none s p empty) (ground arith)
    | inr (t, e) ↦ rw (append-some s p t e) (ground (arith, e))
  ]

head_not :
    (s : System) (p : ℕ) (xs : List ℕ)
    → IsQueue s xs
    → contains xs p ≡ false
    → points_to s.head p ≡ false
head_not s p [] q out = rw q.links.0 refl
head_not s p (x ∷ xs) q out = rw q.links.0 (ground arith)

head_or_linked :
    (s : System) (p : ℕ) (xs : List ℕ)
    → IsQueue s xs
    → contains xs p ≡ true
    → (is_some (s.procs p).prev || points_to s.head p) ≡ true
head_or_linked s p xs q inside =
    elim (Links-member s.procs p xs none s.head s.tail inside q.links) [
      | inl first ↦ ground (arith, first, eq→== p p refl)
      | inr linked ↦ ground (arith, linked)
    ]

pub sched_add-adds :
    (s : System) (p : ℕ) (xs : List ℕ)
    → IsQueue s xs
    → contains xs p ≡ false
    → is_idle (s.procs p) ≡ false
    → sched_add s (some p) ≡ append_to_queue s p
unfolding sched_add
sched_add-adds s p xs q out busy = ground (arith, busy, head_not s p xs q out, q.others p, out)

-- If the links of the process table hold a queue, a process is not in it and is not the idle one,
-- sched_add leaves links that hold the queue with the process at its end, and the process is ready.
pub sched_add-IsQueue :
    (s : System) (p : ℕ) (xs : List ℕ)
    → IsQueue s xs
    → contains xs p ≡ false
    → is_idle (s.procs p) ≡ false
    → IsQueue (sched_add s (some p)) (xs ++ (p ∷ []))
      × (((sched_add s (some p)).procs p).state ≡ ProcessState.ready)
sched_add-IsQueue s p xs q out busy =
    rw (sched_add-adds s p xs q out busy) (append-IsQueue s p xs out q, append-state s p)

-- If the links of the process table hold a queue, sched_add changes nothing for the idle process
-- and for a process that is in the queue.
pub sched_add_ignored :
    (s : System) (p : ℕ) (xs : List ℕ)
    → IsQueue s xs
    → (is_idle (s.procs p) || contains xs p) ≡ true
    → sched_add s (some p) ≡ s
unfolding sched_add
sched_add_ignored s p xs q h = elim (Bool-cases (is_idle (s.procs p))) [
  | inl idle ↦ rw idle refl
  | inr busy ↦ ground (arith, busy, head_or_linked s p xs q (ground arith))
]
