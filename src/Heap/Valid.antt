-- ===== src/Heap/Valid.antt =====
-- The invariant of the heap's state, and `kmalloc` and `kfree` against the abstract list of blocks.
use chanux.Common.{
  ℕ, suc, ◌+◌, ◌≤◌, ◌<◌, ◌≡◌, ◌≢◌, ◌∙◌, refl, sym, ap, false, ◌==◌, Option, some, add64, u64_mod,
  List, [], ◌∷◌, length, arith, Bool-cases, inl, inr, ne→==, subst,
}
use chanux.Heap.{Heap, Pager, ptr_to_block, block_to_ptr, request, heap_fuel, find_fit}
use chanux.Heap.Calls.{release, kfree, kmalloc, take_block}
use chanux.Heap.Layout.{Seg, free, used, seg_size, first_of, after, Holds, length-Holds}
use chanux.Heap.Alloc.{first_fit, fit_addr, place, cut, place-Holds, find_fit-eq, search_result}
use chanux.Heap.Merge.{fold_next}
use chanux.Heap.Free.{block_at, join, give_back, release-Holds, block_at-le, Holds-block_at}

-- The state holds the blocks `gs`, from its first block to its break.
pub record IsHeap {M : Type 0} (h : Heap M) (gs : List Seg) : Type 0 where
  pub blocks : Holds h.headers 0 h.heap_first gs h.heap_break
  pub not_empty : 0 < length gs
  pub not_null : 0 < h.heap_first
  pub top : h.heap_break < u64_mod
  pub extent : h.heap_first + h.heap_size ≡ h.heap_break

pub first_of-full : (gs : List Seg) (addr : ℕ) → 0 < length gs → first_of gs addr ≡ addr
first_of-full [] addr h = absurd (omega arith)
first_of-full (g ∷ gs) addr h = refl

pub fuel-IsHeap :
    {M : Type 0} (h : Heap M) (gs : List Seg) → IsHeap h gs → length gs < heap_fuel h.heap_size
fuel-IsHeap h gs v =
    omega (arith, length-Holds h.headers 0 h.heap_first gs h.heap_break v.blocks, v.extent)

pub search-IsHeap :
    {M : Type 0} (h : Heap M) (gs : List Seg) (n : ℕ)
    → IsHeap h gs
    → find_fit h.headers n (heap_fuel h.heap_size) h.heap_first
      ≡ search_result (first_fit n gs) (fit_addr n h.heap_first gs)
search-IsHeap h gs n v =
    ap (find_fit h.headers n (heap_fuel h.heap_size))
      (sym (first_of-full gs h.heap_first v.not_empty))
    ∙ find_fit-eq gs h.headers n (heap_fuel h.heap_size) 0 h.heap_first h.heap_break v.not_null
        (fuel-IsHeap h gs v) v.blocks

length-place : (n : ℕ) (gs : List Seg) → length gs ≤ length (place n gs)
unfolding place cut
length-place n [] = omega arith
length-place n (used s ∷ gs) = omega (arith, length-place n gs)
length-place n (free s ∷ gs) = ground (arith, length-place n gs)

-- The result of kmalloc.
abbrev pub Allocated : {M : Type 0} → Heap M → List Seg → ℕ → Option (ℕ × Heap M) → Type 0
Allocated h gs n result =
    let b = fit_addr n h.heap_first gs in
    (result ≡ some (block_to_ptr b, take_block h b n)) × IsHeap (take_block h b n) (place n gs)

module _ {M : Type 0} (pager : Pager M) (h : Heap M) (gs : List Seg) (v : IsHeap h gs) where
  kmalloc_found :
      (fuel size s : ℕ)
      → size ≢ 0
      → first_fit (request size) gs ≡ some s
      → kmalloc pager (suc fuel) h size ≡ (
          let b = fit_addr (request size) h.heap_first gs in
          some (block_to_ptr b, take_block h b (request size)))
  unfolding kmalloc
  kmalloc_found fuel size s ne fit =
      rw
        (
          ne→== size 0 ne,
          search-IsHeap h gs (request size) v
              ∙ ap (λ o. search_result o (fit_addr (request size) h.heap_first gs)) fit,
        )
        refl

  take-IsHeap :
      (n s : ℕ)
      → first_fit n gs ≡ some s
      → n + 32 ≤ s
      → IsHeap (take_block h (fit_addr n h.heap_first gs) n) (place n gs)
  unfolding take_block
  take-IsHeap n s fit roomy = record {
    blocks =
        (place-Holds gs h.headers n s 0 h.heap_first h.heap_break v.not_null v.top fit roomy
          v.blocks).0;
    not_empty = omega (arith, v.not_empty, length-place n gs);
    not_null = v.not_null;
    top = v.top;
    extent = v.extent;
  }

  -- kmalloc, on a heap whose headers hold a list of blocks, returns the data area of the first free
  -- block that is large enough for the rounded request, and leaves a heap that holds the list with
  -- that block cut; the block has to be 32 bytes larger than the rounded request.
  pub kmalloc-IsHeap :
      (fuel size s : ℕ)
      → size ≢ 0
      → first_fit (request size) gs ≡ some s
      → request size + 32 ≤ s
      → Allocated h gs (request size) (kmalloc pager (suc fuel) h size)
  kmalloc-IsHeap fuel size s ne fit roomy =
      (kmalloc_found fuel size s ne fit, take-IsHeap (request size) s fit roomy)

length-fold_next : (g : Seg) (gs : List Seg) → 0 < length (fold_next g gs)
unfolding fold_next
length-fold_next g [] = omega arith
length-fold_next g (used t ∷ gs) = omega arith
length-fold_next g (free t ∷ gs) = omega arith

length-join : (g : Seg) (gs : List Seg) → 0 < length (join g gs)
unfolding join
length-join (used s) gs = omega arith
length-join (free s) gs = length-fold_next (free s) gs

length-give_back : (b addr : ℕ) (gs : List Seg) → 0 < length gs → 0 < length (give_back b addr gs)
unfolding give_back
length-give_back b addr [] h = h
length-give_back b addr (g ∷ gs) h = elim (Bool-cases (addr == b)) [
  | inl here ↦ rw here (length-fold_next (free (seg_size g)) gs)
  | inr other ↦ elim (Bool-cases (after addr g == b)) [
    | inl next ↦ rw (other, next) (length-join g (give_back b (after addr g) gs))
    | inr later ↦ rw (other, later) (omega arith)
  ]
]

module _ {M : Type 0} (h : Heap M) (gs : List Seg) (v : IsHeap h gs) where
  kfree_block :
      (b s : ℕ)
      → block_at b h.heap_first gs ≡ some (used s)
      → kfree h (block_to_ptr b)
        ≡ record h { headers = release h.headers b; free_count = add64 h.free_count 1 }
  unfolding kfree
  kfree_block b s e =
      let (magic, flags, size, end) =
        Holds-block_at gs h.headers 0 h.heap_first b h.heap_break (used s) e v.blocks in
      let low = block_at-le b h.heap_first gs (used s) e in
      let top = v.top in
      let pos = v.not_null in
      let back : ptr_to_block (block_to_ptr b) ≡ b = omega arith in
      let ptr : (block_to_ptr b == 0) ≡ false = ground arith in
      let ne : (b == 0) ≡ false = ground arith in rw (back, ptr, ne, magic, flags) refl

  -- kfree, given the data area of a block in use, leaves a heap that holds the list in which the
  -- block is free and one with its free neighbours, and counts the call.
  pub kfree-IsHeap :
      (b s : ℕ)
      → block_at b h.heap_first gs ≡ some (used s)
      → IsHeap (kfree h (block_to_ptr b)) (give_back b h.heap_first gs)
        × ((kfree h (block_to_ptr b)).free_count ≡ add64 h.free_count 1)
  kfree-IsHeap b s e =
      let h' = record h { headers = release h.headers b; free_count = add64 h.free_count 1 } in
      subst (λ k. IsHeap k (give_back b h.heap_first gs) × (k.free_count ≡ add64 h.free_count 1))
        (sym (kfree_block b s e))
        (
          record {
            blocks =
                (release-Holds h.headers h.heap_first b s h.heap_break gs v.not_null v.top e
                  v.blocks).0;
            not_empty = length-give_back b h.heap_first gs v.not_empty;
            not_null = v.not_null;
            top = v.top;
            extent = v.extent;
          },
          refl,
        )
