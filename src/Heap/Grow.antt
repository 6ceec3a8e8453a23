-- ===== src/Heap/Grow.antt =====
-- `heap_expand` and `heap_init` of kernel/mm/heap.c keep the invariant of the heap.
use chanux.Common.{
  ℕ, ◌+◌, ◌-◌, ◌/◌, ◌≤◌, ◌<◌, ◌≡◌, refl, sym, Bool, true, false, not, ltb, if◌then◌else◌, Option,
  none, some, List, [], ◌∷◌, arith, Bool-cases, inl, inr, subst, add64, sub64, u64_mod, update,
}
use chanux.Pmm.{page_size, align_up}
use chanux.Heap.{
  Heap, Headers, Pager, heap_fuel, header_size, add_block, heap_max_size, heap_start,
  heap_initial_size,
}
use chanux.Heap.Calls.{map_pages, heap_expand, finish_expand, heap_init}
use chanux.Heap.Layout.{Seg, free, block_of, Holds}
use chanux.Heap.Expand.{last_of, extend, find_last-Holds, add_block-Holds, length-extend}
use chanux.Heap.Valid.{IsHeap, fuel-IsHeap}

align_up_bounds :
    (size : ℕ)
    → 0 < size
    → size + page_size ≤ u64_mod
    → (size ≤ align_up size) × (align_up size < size + page_size) × (page_size ≤ align_up size)
align_up_bounds size pos top = (omega arith, omega arith, omega arith)

-- What `heap_expand` leaves, from a heap that holds `g ∷ gs`.
abbrev pub Expanded : {M : Type 0} → Heap M → Seg → List Seg → ℕ → Option (Bool × Heap M) → Type 0
Expanded h g gs size none = ⊥
Expanded h g gs size (some (false, h')) = IsHeap h' (g ∷ gs)
Expanded h g gs size (some (true, h')) =
    IsHeap h' (extend (size - header_size) g gs)
    × (h'.heap_size ≡ h.heap_size + size)
    × (h'.alloc_count ≡ h.alloc_count)

-- The state after an expansion by `size` bytes.
abbrev expanded : {M : Type 0} → Heap M → Seg → List Seg → ℕ → Heap M
expanded h g gs size = record h {
  headers = add_block h.headers h.heap_break (last_of h.heap_first g gs) (size - header_size);
  heap_break = add64 h.heap_break size;
  heap_size = add64 h.heap_size size;
}

module _ {M : Type 0} (h : Heap M) (g : Seg) (gs : List Seg) (v : IsHeap h (g ∷ gs)) where
  finish_expand-eq :
      (size : ℕ)
      → header_size ≤ size
      → size < u64_mod
      → finish_expand h size ≡ some (true, expanded h g gs size)
  unfolding finish_expand
  finish_expand-eq size least top =
      let fuel = fuel-IsHeap h (g ∷ gs) v in
      let last =
        find_last-Holds gs h.headers (heap_fuel h.heap_size) 0 h.heap_first h.heap_break g
          v.not_null (omega arith) v.blocks in
      let rest : sub64 size header_size ≡ size - header_size = omega arith in
      rw (last, rest, finish_expand) refl

  finish_expand-Expanded :
      (size : ℕ)
      → header_size ≤ size
      → h.heap_break + size < u64_mod
      → Expanded h g gs size (finish_expand h size)
  finish_expand-Expanded size least top =
      let extent = v.extent in
      let brk' : h.heap_break + 32 + (size - 32) ≡ add64 h.heap_break size = omega arith in
      let size' : add64 h.heap_size size ≡ h.heap_size + size = omega arith in
      subst (Expanded h g gs size) (sym (finish_expand-eq size least (omega arith))) (
        record {
          blocks =
              subst (Holds (expanded h g gs size).headers 0 h.heap_first (extend (size - 32) g gs))
                brk'
                (add_block-Holds gs h.headers 0 h.heap_first (size - 32) h.heap_break g v.not_null
                  (omega arith) v.blocks).0;
          not_empty = length-extend (size - 32) g gs;
          not_null = v.not_null;
          top = omega arith;
          extent = omega arith;
        },
        size',
        refl,
      )

pages-IsHeap :
    {M : Type 0} (h : Heap M) (gs : List Seg) (pages : M)
    → IsHeap h gs
    → IsHeap (record h { pages = pages }) gs
pages-IsHeap h gs pages v = record {
  blocks = v.blocks;
  not_empty = v.not_empty;
  not_null = v.not_null;
  top = v.top;
  extent = v.extent;
}

-- The bounds under which the addresses of the heap do not wrap.
pub record InRange {M : Type 0} (h : Heap M) : Type 0 where
  pub small : h.heap_size ≤ heap_max_size
  pub low : h.heap_first + heap_max_size < u64_mod

module _ {M : Type 0} (pager : Pager M) (h : Heap M) (g : Seg) (gs : List Seg)
    (v : IsHeap h (g ∷ gs)) (r : InRange h) where
  mapped_case :
      (size : ℕ) (ok : Bool) (pages : M)
      → header_size ≤ size
      → h.heap_size + size ≤ heap_max_size
      → Expanded h g gs size (
          if not ok
          then some (false, record h { pages = pages })
          else finish_expand (record h { pages = pages }) size)
  mapped_case size false pages least fits = pages-IsHeap h (g ∷ gs) pages v
  mapped_case size true pages least fits =
      let extent = v.extent in
      let low = r.low in
      finish_expand-Expanded (record h { pages = pages }) g gs (pages-IsHeap h (g ∷ gs) pages v)
        size least (omega arith)

  -- heap_expand ends on a heap that holds a list of blocks and is within its bounds, for each
  -- request up to the limit of the heap and whatever the page allocator and the page tables answer.
  -- If it succeeds, the heap has grown by the request in whole pages, and the list has a free block
  -- more at the end, one with the last block if that was free. If it fails, at the size limit or
  -- for want of a page, the heap holds the list that it held.
  pub heap_expand-Expanded :
      (min_size : ℕ)
      → 0 < min_size
      → min_size ≤ heap_max_size
      → Expanded h g gs (align_up min_size) (heap_expand pager h min_size)
  unfolding heap_expand
  heap_expand-Expanded min_size pos top =
      let size = align_up min_size in
      let bounds = align_up_bounds min_size pos (omega arith) in
      let small = r.small in
      let no_wrap : add64 h.heap_size size ≡ h.heap_size + size = omega (arith, bounds.1) in
      let mapped = map_pages pager (size / page_size) h.heap_break h.pages in
      elim (Bool-cases (ltb heap_max_size (add64 h.heap_size size))) [
        | inl over ↦
            let result : heap_expand pager h min_size ≡ some (false, h) = rw over refl in
            subst (Expanded h g gs size) (sym result) v
        | inr fits ↦
            let result : heap_expand pager h min_size ≡ (
                if not mapped.0
                then some (false, record h { pages = mapped.1 })
                else finish_expand (record h { pages = mapped.1 }) size) =
              rw fits refl in
            subst (Expanded h g gs size) (sym result)
              (mapped_case size mapped.0 mapped.1 (omega arith) (ground (arith, no_wrap, fits)))
      ]

-- The state that `heap_init` leaves.
abbrev initial : {M : Type 0} → Headers → M → Heap M
initial mem pages = record {
  headers = update mem heap_start (block_of (free (heap_initial_size - header_size)) 0 0);
  heap_first = heap_start;
  heap_size = heap_initial_size;
  heap_break = heap_start + heap_initial_size;
  alloc_count = 0;
  free_count = 0;
  pages = pages;
}

chosen : {A : Type 0} (ok : Bool) (x y : A) → (if not ok then none else some x) ≡ some y → x ≡ y
chosen true x y e = cc
chosen false x y e = absurd (cc)

-- heap_init, whatever the page allocator and the page tables answer, ends in its panic or leaves a
-- heap of one free block that takes up the initial size.
pub heap_init-IsHeap :
    {M : Type 0} (pager : Pager M) (mem : Headers) (pages : M) (h : Heap M)
    → heap_init pager mem pages ≡ some h
    → IsHeap h (free (heap_initial_size - header_size) ∷ []) × InRange h
unfolding heap_init
heap_init-IsHeap {M} pager mem pages h e =
    let mapped = map_pages pager (heap_initial_size / page_size) heap_start pages in
    subst (λ (k : Heap M). IsHeap k (free (heap_initial_size - header_size) ∷ []) × InRange k)
      (chosen mapped.0 (initial mem mapped.1) h e)
      (
        record {
          blocks = (refl, refl);
          not_empty = omega arith;
          not_null = omega arith;
          top = omega arith;
          extent = omega arith;
        },
        record { small = omega arith; low = omega arith },
      )
