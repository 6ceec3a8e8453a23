-- ===== src/Heap/RoundTrip.antt =====
-- `kmalloc` and then `kfree` of kernel/mm/heap.c.
use chanux.Common.{
  ℕ, suc, ◌+◌, ◌≤◌, ◌≡◌, ◌≢◌, ◌∙◌, refl, sym, ap, true, false, ◌==◌, leb, Option, none, some, List,
  [], ◌∷◌, arith, Bool-cases, inl, inr, subst,
}
use chanux.Heap.{Heap, Pager, request, block_to_ptr}
use chanux.Heap.Calls.{kmalloc, kfree, take_block}
use chanux.Heap.Layout.{Seg, free, used, after}
use chanux.Heap.Alloc.{first_fit, fit_addr, place}
use chanux.Heap.Merge.{fold_next}
use chanux.Heap.Free.{join, give_back}
use chanux.Heap.Valid.{IsHeap, kmalloc-IsHeap, kfree-IsHeap}
use chanux.Heap.Shape.{coalesced, give_back-cut, fit_addr-le, block_at-place}

join-coalesced : (g : Seg) (gs : List Seg) → coalesced (g ∷ gs) ≡ true → join g gs ≡ g ∷ gs
unfolding join fold_next
join-coalesced (used s) gs c = refl
join-coalesced (free s) [] c = refl
join-coalesced (free s) (used t ∷ gs) c = refl
join-coalesced (free s) (free t ∷ gs) c = absurd (ground arith)

-- A block before the one that is handed out.
give_back_behind :
    (b addr : ℕ) (g : Seg) (gs gs' : List Seg)
    → addr + 32 ≤ b
    → coalesced (g ∷ gs) ≡ true
    → give_back b (after addr g) gs' ≡ gs
    → give_back b addr (g ∷ gs') ≡ g ∷ gs
unfolding give_back
give_back_behind b addr g gs gs' lt c e =
    let ne : (addr == b) ≡ false = ground arith in
    elim (Bool-cases (after addr g == b)) [
      | inl next ↦ rw (ne, next) (ap (join g) e ∙ join-coalesced g gs c)
      | inr later ↦ rw (ne, later) (ap (λ l. g ∷ l) e)
    ]

coalesced-tail : (g : Seg) (gs : List Seg) → coalesced (g ∷ gs) ≡ true → coalesced gs ≡ true
coalesced-tail (free s) gs c = ground arith
coalesced-tail (used s) gs c = c

pub give_back-place :
    (gs : List Seg) (n s addr : ℕ)
    → coalesced gs ≡ true
    → first_fit n gs ≡ some s
    → n + 32 ≤ s
    → give_back (fit_addr n addr gs) addr (place n gs) ≡ gs
unfolding first_fit fit_addr place
give_back-place [] n s addr c fit roomy = absurd (ground arith)
give_back-place (used t ∷ gs) n s addr c fit roomy =
    give_back_behind (fit_addr n (addr + 32 + t) gs) addr (used t) gs (place n gs)
      (omega (arith, fit_addr-le n (addr + 32 + t) gs)) c
      (give_back-place gs n s (addr + 32 + t) c fit roomy)
give_back-place (free t ∷ gs) n s addr c fit roomy = elim (Bool-cases (leb n t)) [
  | inl fits ↦
      let same : t ≡ s = ground (arith, fits, fit) in
      rw fits (give_back-cut t n gs (ground (arith, c)) (omega arith) addr)
  | inr tight ↦ rw tight (
      give_back_behind (fit_addr n (addr + 32 + t) gs) addr (free t) gs (place n gs)
        (omega (arith, fit_addr-le n (addr + 32 + t) gs)) c
        (give_back-place gs n s (addr + 32 + t) (coalesced-tail (free t) gs c) (rw tight at fit)
          roomy))
]

-- What kmalloc returns, given to kfree.
abbrev pub freed : {M : Type 0} → Heap M → Option (ℕ × Heap M) → Heap M
freed h none = h
freed h (some (ptr, h')) = kfree h' ptr

-- On a heap with no two free blocks side by side, a call of kmalloc that finds a block 32 bytes
-- larger than the rounded request, and a call of kfree on its result, leave a heap that holds the
-- same list of blocks as before.
pub kfree-kmalloc :
    {M : Type 0} (pager : Pager M) (h : Heap M) (gs : List Seg)
    → IsHeap h gs
    → (fuel size s : ℕ) → coalesced gs ≡ true
    → size ≢ 0
    → first_fit (request size) gs ≡ some s
    → request size + 32 ≤ s
    → IsHeap (freed h (kmalloc pager (suc fuel) h size)) gs
unfolding take_block
kfree-kmalloc pager h gs v fuel size s c ne fit roomy =
    let n = request size in
    let b = fit_addr n h.heap_first gs in
    let (result, v') = kmalloc-IsHeap pager h gs v fuel size s ne fit roomy in
    let (m, here, large, before) = block_at-place gs n s h.heap_first fit (omega arith) in
    let f = (kfree-IsHeap (take_block h b n) (place n gs) v' b m here).0 in
    subst (λ o. IsHeap (freed h o) gs) (sym result)
      (subst (λ l. IsHeap (kfree (take_block h b n) (block_to_ptr b)) l)
        (give_back-place gs n s h.heap_first c fit roomy) f)
