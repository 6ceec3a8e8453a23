-- ===== src/Heap/Ends.antt =====
-- `kmalloc` of kernel/mm/heap.c ends: the block that it adds to the heap serves the request.
use chanux.Common.{
  ℕ, suc, ◌+◌, ◌-◌, ◌≤◌, ◌<◌, ◌≡◌, ◌≢◌, ◌∙◌, refl, sym, ap, Bool, true, false, ◌==◌, ltb, leb,
  if◌then◌else◌, Option, none, some, List, [], ◌∷◌, arith, Bool-cases, Option-cases, inl, inr,
  eq→==, ne→==, subst, add64,
}
use chanux.Pmm.{align_up}
use chanux.Heap.{Heap, Pager, request, heap_max_size, heap_expand_size, header_size, block_to_ptr}
use chanux.Heap.Calls.{kmalloc, heap_expand, take_block, retry}
use chanux.Heap.Layout.{Seg, free, used}
use chanux.Heap.Alloc.{first_fit, fit_addr, search_result}
use chanux.Heap.Merge.{fold_next}
use chanux.Heap.Free.{join}
use chanux.Heap.Expand.{extend}
use chanux.Heap.Grow.{Expanded, InRange, heap_expand-Expanded}
use chanux.Heap.Valid.{IsHeap, search-IsHeap}

-- A request of more than nothing and less than a size is rounded up by less than 32.
pub request_bounds :
    (size : ℕ)
    → size < heap_max_size
    → (size ≤ request size) × (request size < size + 33) × (32 ≤ request size)
unfolding request
request_bounds size top = (ground arith, ground arith, ground arith)

request_again : (size : ℕ) → size < heap_max_size → request (request size) ≡ request size
unfolding request
request_again size top = ground arith

first_fit-extend :
    (n m : ℕ) (g : Seg) (gs : List Seg) → n ≤ m → (s : ℕ) × (first_fit n (extend m g gs) ≡ some s)
unfolding extend first_fit join fold_next
first_fit-extend n m (used t) [] le = (m, ground arith)
first_fit-extend n m (free t) [] le = (t + (32 + m), ground arith)
first_fit-extend n m (used t) (x ∷ gs) le = first_fit-extend n m x gs le
first_fit-extend n m (free t) (x ∷ gs) le = elim (Bool-cases (leb n t)) [
  | inl fits ↦ (t, rw fits refl)
  | inr tight ↦ let (s, e) = first_fit-extend n m x gs le in (s, rw tight e)
]

-- How much `kmalloc` asks for.
abbrev grown_size : ℕ → ℕ
grown_size n =
    if ltb heap_expand_size (add64 n header_size) then add64 n header_size else heap_expand_size

module _ {M : Type 0} (pager : Pager M) (h : Heap M) (gs : List Seg) (v : IsHeap h gs) where
  kmalloc_finds :
      (fuel size s : ℕ)
      → size ≢ 0
      → first_fit (request size) gs ≡ some s
      → (r : ℕ × Heap M) × (kmalloc pager (suc fuel) h size ≡ some r)
  unfolding kmalloc
  kmalloc_finds fuel size s ne fit =
      let b = fit_addr (request size) h.heap_first gs in
      (
        (block_to_ptr b, take_block h b (request size)),
        rw (ne→== size 0 ne, search-IsHeap h gs (request size) v ∙ ap (λ o. search_result o b) fit)
            refl,
      )

abbrev pub Ends : {M : Type 0} → Option (ℕ × Heap M) → Type 0
Ends {M} r = (out : ℕ × Heap M) × (r ≡ some out)

asked_bounds :
    (n : ℕ)
    → n + 4096 ≤ heap_max_size
    → (0 < grown_size n)
      × (grown_size n ≤ heap_max_size)
      × (n ≤ align_up (grown_size n) - header_size)
asked_bounds n top = elim (Bool-cases (ltb heap_expand_size (add64 n header_size))) [
  | inl more ↦
      let e : add64 n header_size ≡ n + 32 = omega arith in
      rw (more, e) (omega arith, omega arith, omega arith)
  | inr less ↦
      let le : n + 32 ≤ heap_expand_size = ground arith in
      rw less (omega arith, omega arith, omega arith)
]

zero_request :
    {M : Type 0} (pager : Pager M) (h : Heap M) (fuel size : ℕ)
    → (size == 0) ≡ true
    → kmalloc pager (suc fuel) h size ≡ some (0, h)
unfolding kmalloc
zero_request pager h fuel size e = rw e refl

module _ {M : Type 0} (pager : Pager M) (h : Heap M) (g : Seg) (gs : List Seg)
    (v : IsHeap h (g ∷ gs)) (r : InRange h) where
  retry-Ends :
      (size n : ℕ) (o : Option (Bool × Heap M))
      → n ≢ 0
      → request n ≡ n
      → n ≤ size - header_size
      → Expanded h g gs size o
      → Ends (retry (λ k. kmalloc pager 1 k n) o)
  retry-Ends size n none ne same le x = absurd x
  retry-Ends size n (some (false, h')) ne same le x = ((0, h'), refl)
  retry-Ends size n (some (true, h')) ne same le x =
      let (s, fit) = first_fit-extend n (size - header_size) g gs le in
      kmalloc_finds pager h' (extend (size - header_size) g gs) x.0 0 n s ne
        (subst (λ k. first_fit k (extend (size - header_size) g gs) ≡ some s) (sym same) fit)

  kmalloc_missing :
      (size : ℕ)
      → size ≢ 0
      → first_fit (request size) (g ∷ gs) ≡ none
      → kmalloc pager 2 h size
        ≡ retry
            (λ k. kmalloc pager 1 k (request size))
            (heap_expand pager h (grown_size (request size)))
  unfolding kmalloc
  kmalloc_missing size ne none_fits =
      let n = request size in
      let search =
        search-IsHeap h (g ∷ gs) n v
        ∙ ap (λ o. search_result o (fit_addr n h.heap_first (g ∷ gs))) none_fits in
      rw (ne→== size 0 ne, search) refl

  -- kmalloc ends on a heap that holds a list of blocks and is within its bounds, for each size 8192
  -- bytes or more below the heap's limit and whatever the page allocator and the page tables
  -- answer: it calls itself once at most.
  pub kmalloc-Ends : (size : ℕ) → size + 8192 ≤ heap_max_size → Ends (kmalloc pager 2 h size)
  kmalloc-Ends size top = elim (Bool-cases (size == 0)) [
    | inl zero_size ↦ ((0, h), zero_request pager h 1 size zero_size)
    | inr some_size ↦
        let n = request size in
        let bounds = request_bounds size (omega arith) in
        let ne : size ≢ 0 = λ e. absurd (ground (arith, eq→== size 0 e, some_size)) in
        elim (Option-cases (first_fit n (g ∷ gs))) [
          | inr found_fit ↦ kmalloc_finds pager h (g ∷ gs) v 1 size found_fit.0 ne found_fit.1
          | inl none_fits ↦
              let asked = grown_size n in
              let enough = asked_bounds n (omega (arith, bounds.1)) in
              subst Ends (sym (kmalloc_missing size ne none_fits)) (
                retry-Ends (align_up asked) n (heap_expand pager h asked)
                  (λ e. absurd (omega (arith, bounds.2, e))) (request_again size (omega arith))
                  enough.2 (heap_expand-Expanded pager h g gs v r asked enough.0 enough.1))
        ]
  ]
