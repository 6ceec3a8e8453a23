-- ===== src/RunQueue/Pop.antt =====
-- `sched_pick_next` takes the first process of the queue.
use chanux.Common.{ℕ, ◌≡◌, refl, none, some, update, List, [], ◌∷◌, arith}
use chanux.Proc.{Process, System}
use chanux.RunQueue.{pop_head, sched_pick_next}
use chanux.RunQueue.Links.{IsQueue, Links-update}

abbrev pub detached : Process → Process
detached proc = record proc { next = none; prev = none }

-- The second process of the queue becomes its first.
abbrev pub fronted : (ℕ → Process) → ℕ → ℕ → Process
fronted procs y = update procs y (record (procs y) { prev = none })

module _ (s : System) (p : ℕ) where
  pub pop-last :
      (s.procs p).next ≡ none
      → pop_head s p
        ≡ record s { procs = update s.procs p (detached (s.procs p)); head = none; tail = none }
  unfolding pop_head
  pop-last h = ground arith

  pub pop-some :
      (y : ℕ)
      → (s.procs p).next ≡ some y
      → pop_head s p ≡ record s {
        procs = update (fronted s.procs y) p (detached (fronted s.procs y p));
        head = some y;
      }
  unfolding pop_head
  pop-some y h = ground arith

  pub pop-IsQueue : (ys : List ℕ) → IsQueue s (p ∷ ys) → IsQueue (pop_head s p) ys
  pop-IsQueue [] q =
      rw (pop-last q.links.2.0)
        (record { links = (refl, refl); once = refl; others = λ r. ground (arith, q.others r) })
  pop-IsQueue (y ∷ ys) q =
      let rest = q.links.2 in
      rw (pop-some y rest.0) (record {
        links =
            Links-update (fronted s.procs y) p (detached (fronted s.procs y p)) (y ∷ ys) none
              (some y) s.tail (ground (arith, q.once))
              (
                refl,
                ground arith,
                rw (same_next y) (
                    Links-update s.procs y _ ys (some y) (s.procs y).next s.tail
                      (ground (arith, q.once)) rest.2),
              );
        once = ground (arith, q.once);
        others = λ r. ground (arith, q.others r);
      })
    where
      same_next : (y : ℕ) → (fronted s.procs y y).next ≡ (s.procs y).next
      same_next y = ground arith

pub pick-some : (s : System) (p : ℕ) → s.head ≡ some p → sched_pick_next s ≡ (some p, pop_head s p)
unfolding sched_pick_next
pick-some s p h = rw (h, sched_pick_next) refl

-- If the links of the process table hold a queue that is not empty, sched_pick_next returns its
-- first process and leaves links that hold the rest.
pub sched_pick_next-IsQueue :
    (s : System) (p : ℕ) (xs : List ℕ)
    → IsQueue s (p ∷ xs)
    → ((sched_pick_next s).0 ≡ some p) × IsQueue (sched_pick_next s).1 xs
sched_pick_next-IsQueue s p xs q = rw (pick-some s p q.links.0) (refl, pop-IsQueue s p xs q)

-- It gives the idle process when the queue is empty.
pub sched_pick_next_empty : (s : System) → IsQueue s [] → sched_pick_next s ≡ (s.idle, s)
unfolding sched_pick_next
sched_pick_next_empty s q = ground (arith, q.links.0)
