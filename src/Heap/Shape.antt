-- ===== src/Heap/Shape.antt =====
-- The abstract list of blocks under `kmalloc` and `kfree`: what stays, what is handed out, and that
-- no two free blocks are neighbours.
use chanux.Common.{
  ℕ, ◌+◌, ◌-◌, ◌≤◌, ◌≡◌, refl, ap, Bool, true, false, not, ◌&&◌, ◌==◌, ltb, leb, some, List, [],
  ◌∷◌, arith, Bool-cases, inl, inr, eq→==, subst,
}
use chanux.Heap.Layout.{Seg, free, used, seg_size, after}
use chanux.Heap.Alloc.{first_fit, fit_addr, place, cut}
use chanux.Heap.Merge.{fold_next}
use chanux.Heap.Free.{block_at, join, give_back, block_at-le}

abbrev pub is_free : Seg → Bool
is_free (free s) = true
is_free (used s) = false

abbrev pub starts_free : List Seg → Bool
starts_free [] = false
starts_free (g ∷ gs) = is_free g

-- No two free blocks are neighbours.
abbrev pub coalesced : List Seg → Bool
coalesced [] = true
coalesced (g ∷ gs) = not (is_free g && starts_free gs) && coalesced gs

pub fit_addr-le : (n addr : ℕ) (gs : List Seg) → addr ≤ fit_addr n addr gs
unfolding fit_addr
fit_addr-le n addr [] = omega arith
fit_addr-le n addr (used s ∷ gs) = omega (arith, fit_addr-le n (addr + 32 + s) gs)
fit_addr-le n addr (free s ∷ gs) = ground (arith, fit_addr-le n (addr + 32 + s) gs)

-- The block that is handed out is in use afterwards, was free before, and is as large as asked for.
pub block_at-place :
    (gs : List Seg) (n s addr : ℕ)
    → first_fit n gs ≡ some s
    → n ≤ s
    → (m : ℕ) × (block_at (fit_addr n addr gs) addr (place n gs) ≡ some (used m))
      × (n ≤ m)
      × (block_at (fit_addr n addr gs) addr gs ≡ some (free s))
unfolding block_at place cut first_fit fit_addr
block_at-place [] n s addr fit le = absurd (ground arith)
block_at-place (used t ∷ gs) n s addr fit le =
    let (m, ih, large, ih') = block_at-place gs n s (addr + 32 + t) fit le in
    let ne : (addr == fit_addr n (addr + 32 + t) gs) ≡ false =
      ground (arith, fit_addr-le n (addr + 32 + t) gs) in
    (m, rw ne ih, large, rw ne ih')
block_at-place (free t ∷ gs) n s addr fit le = elim (Bool-cases (leb n t)) [
  | inl fits ↦ elim (Bool-cases (ltb t (n + 64))) [
    | inl small ↦ (
      t,
      ground (arith, fits, small, eq→== addr addr refl),
      ground (arith, fits),
      ground (arith, fits, fit, eq→== addr addr refl),
    )
    | inr large ↦ (
      n,
      ground (arith, fits, large, eq→== addr addr refl),
      omega arith,
      ground (arith, fits, fit, eq→== addr addr refl),
    )
  ]
  | inr tight ↦
      let (m, ih, large, ih') = block_at-place gs n s (addr + 32 + t) (rw tight at fit) le in
      let ne : (addr == fit_addr n (addr + 32 + t) gs) ≡ false =
        ground (arith, fit_addr-le n (addr + 32 + t) gs) in
      (m, ground (arith, ne, tight, ih), large, ground (arith, ne, tight, ih'))
]

block_at-cut :
    (s n t b addr : ℕ) (gs : List Seg)
    → n + 32 ≤ s
    → block_at b addr (free s ∷ gs) ≡ some (used t)
    → block_at b addr (cut s n gs) ≡ some (used t)
unfolding block_at cut
block_at-cut s n t b addr gs le e = elim (Bool-cases (addr == b)) [
  | inl here ↦ absurd (ground (arith, here, e))
  | inr other ↦
      let e' : block_at b (addr + 32 + s) gs ≡ some (used t) = rw other at e in
      elim (Bool-cases (ltb s (n + 64))) [
        | inl small ↦ rw (small, other) e'
        | inr large ↦
            let low = block_at-le b (addr + 32 + s) gs (used t) e' in
            let next : (addr + 32 + n == b) ≡ false = ground arith in
            let same : addr + 32 + s ≡ addr + 32 + n + 32 + (s - n - 32) = omega arith in
            rw (large, other, next) (subst (λ a. block_at b a gs ≡ some (used t)) same e')
      ]
]

-- Every other block in use stays as it is.
pub block_at-place_other :
    (gs : List Seg) (n s t b addr : ℕ)
    → first_fit n gs ≡ some s
    → n + 32 ≤ s
    → block_at b addr gs ≡ some (used t)
    → block_at b addr (place n gs) ≡ some (used t)
unfolding block_at place first_fit
block_at-place_other [] n s t b addr fit le e = absurd (ground arith)
block_at-place_other (used u ∷ gs) n s t b addr fit le e = elim (Bool-cases (addr == b)) [
  | inl here ↦ ground (arith, here, e)
  | inr other ↦ rw other (block_at-place_other gs n s t b (addr + 32 + u) fit le (rw other at e))
]
block_at-place_other (free u ∷ gs) n s t b addr fit le e = elim (Bool-cases (leb n u)) [
  | inl fits ↦
      let same : u ≡ s = ground (arith, fits, fit) in
      rw fits (block_at-cut u n t b addr gs (omega arith) e)
  | inr tight ↦ elim (Bool-cases (addr == b)) [
    | inl here ↦ absurd (ground (arith, here, e))
    | inr other ↦
        rw (tight, other)
          (block_at-place_other gs n s t b (addr + 32 + u) (rw tight at fit) le (rw other at e))
  ]
]

starts_free-place :
    (n : ℕ) (gs : List Seg) → starts_free gs ≡ false → starts_free (place n gs) ≡ false
unfolding place
starts_free-place n [] e = refl
starts_free-place n (used s ∷ gs) e = refl
starts_free-place n (free s ∷ gs) e = absurd (ground arith)

pub coalesced-place : (gs : List Seg) (n : ℕ) → coalesced gs ≡ true → coalesced (place n gs) ≡ true
unfolding place cut
coalesced-place [] n c = refl
coalesced-place (used t ∷ gs) n c = ground (arith, coalesced-place gs n)
coalesced-place (free t ∷ gs) n c = ground (arith, coalesced-place gs n, starts_free-place n gs)

coalesced-fold_next :
    (s : ℕ) (gs : List Seg) → coalesced gs ≡ true → coalesced (fold_next (free s) gs) ≡ true
unfolding fold_next
coalesced-fold_next s [] c = refl
coalesced-fold_next s (used t ∷ gs) c = c
coalesced-fold_next s (free t ∷ gs) c = ground (arith, c)

coalesced-join : (g : Seg) (gs : List Seg) → coalesced gs ≡ true → coalesced (join g gs) ≡ true
unfolding join
coalesced-join (used s) gs c = c
coalesced-join (free s) gs c = coalesced-fold_next s gs c

starts_free-join : (g : Seg) (gs : List Seg) → starts_free (join g gs) ≡ is_free g
unfolding join fold_next
starts_free-join (used s) gs = refl
starts_free-join (free s) [] = refl
starts_free-join (free s) (used t ∷ gs) = refl
starts_free-join (free s) (free t ∷ gs) = refl

starts_free-give_back :
    (b addr : ℕ) (gs : List Seg)
    → (addr == b) ≡ false
    → starts_free (give_back b addr gs) ≡ starts_free gs
unfolding give_back
starts_free-give_back b addr [] ne = refl
starts_free-give_back b addr (g ∷ gs) ne = elim (Bool-cases (after addr g == b)) [
  | inl next ↦ rw (ne, next) (starts_free-join g (give_back b (after addr g) gs))
  | inr later ↦ rw (ne, later) refl
]

coalesced-tail : (g : Seg) (gs : List Seg) → coalesced (g ∷ gs) ≡ true → coalesced gs ≡ true
coalesced-tail (free s) gs c = ground arith
coalesced-tail (used s) gs c = c

coalesced_swap :
    (g : Seg) (gs gs' : List Seg)
    → starts_free gs' ≡ starts_free gs
    → coalesced gs' ≡ true
    → coalesced (g ∷ gs) ≡ true
    → coalesced (g ∷ gs') ≡ true
coalesced_swap (free s) gs gs' same c' c = ground arith
coalesced_swap (used s) gs gs' same c' c = c'

pub coalesced-give_back :
    (gs : List Seg) (b addr : ℕ) → coalesced gs ≡ true → coalesced (give_back b addr gs) ≡ true
unfolding give_back
coalesced-give_back [] b addr c = refl
coalesced-give_back (g ∷ gs) b addr c =
    let tail = coalesced-tail g gs c in
    let ih = coalesced-give_back gs b (after addr g) tail in
    elim (Bool-cases (addr == b)) [
      | inl here ↦ rw here (coalesced-fold_next (seg_size g) gs tail)
      | inr other ↦ elim (Bool-cases (after addr g == b)) [
        | inl next ↦ rw (other, next) (coalesced-join g (give_back b (after addr g) gs) ih)
        | inr later ↦
            rw (other, later)
              (coalesced_swap g gs (give_back b (after addr g) gs)
                (starts_free-give_back b (after addr g) gs later) ih c)
      ]
    ]

-- The block that is handed out and given back.
pub give_back-cut :
    (s n : ℕ) (gs : List Seg)
    → starts_free gs ≡ false
    → n + 32 ≤ s
    → (b : ℕ) → give_back b b (cut s n gs) ≡ free s ∷ gs
unfolding give_back cut fold_next
give_back-cut s n [] start roomy b = elim (Bool-cases (ltb s (n + 64))) [
  | inl small ↦ rw (small, eq→== b b refl) refl
  | inr large ↦
      let same : n + (32 + (s - n - 32)) ≡ s = ground arith in
      rw (large, eq→== b b refl) (ap (λ x. free x ∷ []) same)
]
give_back-cut s n (free t ∷ gs) start roomy b = absurd (ground arith)
give_back-cut s n (used t ∷ gs) start roomy b = elim (Bool-cases (ltb s (n + 64))) [
  | inl small ↦ rw (small, eq→== b b refl) refl
  | inr large ↦
      let same : n + (32 + (s - n - 32)) ≡ s = ground arith in
      rw (large, eq→== b b refl) (ap (λ x. free x ∷ used t ∷ gs) same)
]
