-- ===== src/RunQueue/Links.antt =====
-- What it means that the links of the process table hold a queue.
use chanux.Common.{
  ℕ, ◌≡◌, refl, Bool, true, false, not, ◌&&◌, ◌||◌, ◌==◌, Option, none, some, update, List, [], ◌∷◌,
  ◌++◌, arith, Bool-cases, inl, inr, ◌⊎◌, ==→eq,
}
use chanux.Proc.{Process, System}
use chanux.RunQueue.{is_some}

abbrev pub contains : List ℕ → ℕ → Bool
contains [] p = false
contains (x ∷ xs) p = x == p || contains xs p

abbrev pub distinct : List ℕ → Bool
distinct [] = true
distinct (x ∷ xs) = not (contains xs x) && distinct xs

-- The links hold the list `xs` from `cur` on, behind `prev` and up to `tail`.
abbrev pub Links : (ℕ → Process) → Option ℕ → Option ℕ → List ℕ → Option ℕ → Type 0
Links procs prev cur [] tail = (cur ≡ none) × (tail ≡ prev)
Links procs prev cur (x ∷ xs) tail =
    (cur ≡ some x) × ((procs x).prev ≡ prev) × Links procs (some x) (procs x).next xs tail

-- The process is in no list.
abbrev pub unlinked : Process → Bool
unlinked proc = not (is_some proc.next) && not (is_some proc.prev)

pub record IsQueue (s : System) (xs : List ℕ) : Type 0 where
  pub links : Links s.procs none s.head xs s.tail
  pub once : distinct xs ≡ true
  pub others : (p : ℕ) → (contains xs p || unlinked (s.procs p)) ≡ true

-- A write to a process outside the list leaves its links alone.
pub Links-update :
    (procs : ℕ → Process) (p : ℕ) (proc : Process) (xs : List ℕ) (prev cur tail : Option ℕ)
    → contains xs p ≡ false
    → Links procs prev cur xs tail
    → Links (update procs p proc) prev cur xs tail
Links-update procs p proc [] prev cur tail out h = h
Links-update procs p proc (x ∷ xs) prev cur tail out h =
    let e : update procs p proc x ≡ procs x = ground arith in
    (
      h.0,
      rw e h.1,
      rw e (Links-update procs p proc xs (some x) (procs x).next tail (ground arith) h.2),
    )

-- A member of a list is its first, or has a process before it.
pub Links-member :
    (procs : ℕ → Process) (p : ℕ) (xs : List ℕ) (prev cur tail : Option ℕ)
    → contains xs p ≡ true
    → Links procs prev cur xs tail
    → ((cur ≡ some p) × ((procs p).prev ≡ prev)) ⊎ (is_some (procs p).prev ≡ true)
Links-member procs p [] prev cur tail m h = absurd (ground arith)
Links-member procs p (x ∷ xs) prev cur tail m h = elim (Bool-cases (x == p)) [
  | inl here ↦ inl (rw (← ==→eq x p here) (h.0, h.1))
  | inr later ↦ elim (Links-member procs p xs (some x) (procs x).next tail (ground arith) h.2) [
    | inl first ↦ inr (rw first.1 refl)
    | inr linked ↦ inr linked
  ]
]

-- The tail of a list that is not empty is a member.
pub Links-tail :
    (procs : ℕ → Process) (x t : ℕ) (xs : List ℕ) (prev cur : Option ℕ)
    → Links procs prev cur (x ∷ xs) (some t)
    → contains (x ∷ xs) t ≡ true
Links-tail procs x t [] prev cur h = ground (arith, h.2.1)
Links-tail procs x t (y ∷ ys) prev cur h =
    ground (arith, Links-tail procs y t ys (some x) (procs x).next h.2)

pub contains-ne :
    (xs : List ℕ) (x t : ℕ) → contains xs x ≡ false → contains xs t ≡ true → (t == x) ≡ false
contains-ne [] x t out inside = absurd (ground arith)
contains-ne (y ∷ ys) x t out inside = ground (arith, contains-ne ys x t)

-- The write that links `p` behind `t`.
abbrev pub link_next : (ℕ → Process) → ℕ → ℕ → ℕ → Process
link_next procs t p = update procs t (record (procs t) { next = some p })

-- Linking a process `p` that points back to the tail `t` behind it.
pub Links-append :
    (procs : ℕ → Process) (x t p : ℕ) (xs : List ℕ) (prev cur : Option ℕ)
    → distinct (x ∷ xs) ≡ true
    → contains (x ∷ xs) p ≡ false
    → (procs p).prev ≡ some t
    → (procs p).next ≡ none
    → Links procs prev cur (x ∷ xs) (some t)
    → Links (link_next procs t p) prev cur ((x ∷ xs) ++ (p ∷ [])) (some p)
Links-append procs x t p [] prev cur d out back front h =
    let same : t ≡ x = cc (h.2.1) in
    let other : (x == p) ≡ false = ground arith in
    rw same (
      h.0,
      ground (arith, h.1),
      (ground arith, ground (arith, other, back, same), (ground (arith, other, front), refl)),
    )
Links-append procs x t p (y ∷ ys) prev cur d out back front h =
    let inside = Links-tail procs y t ys (some x) (procs x).next h.2 in
    let other : (t == x) ≡ false = ground (arith, inside, contains-ne (y ∷ ys) x t) in
    let same : link_next procs t p x ≡ procs x = rw other refl in
    (
      h.0,
      rw same h.1,
      rw same (
          Links-append procs y t p ys (some x) (procs x).next (ground arith) (ground arith) back
            front h.2),
    )
