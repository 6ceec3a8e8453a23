-- ===== src/Heap/Report.antt =====
-- `heap_validate` and `heap_get_stats` of kernel/mm/heap.c on a heap that holds a list of blocks.
use chanux.Common.{
  ℕ, zero, suc, ◌+◌, ◌*◌, ◌≤◌, ◌<◌, ◌≡◌, ◌∙◌, refl, sym, ap, true, false, ◌==◌, Option, none, some,
  List, [], ◌∷◌, length, arith, subst, u64_mod,
}
use chanux.Heap.{Heap, Headers, heap_fuel}
use chanux.Heap.Walks.{
  HeapStats, count_block, stats_loop, heap_get_stats, validate_loop, heap_validate,
}
use chanux.Heap.Layout.{Seg, free, used, seg_size, seg_flags, first_of, after, Holds, Holds-le}
use chanux.Heap.Valid.{IsHeap, fuel-IsHeap, first_of-full}

validate_loop-Holds :
    (gs : List Seg) (mem : Headers) (fuel prev addr brk : ℕ)
    → 0 < addr
    → length gs < fuel
    → Holds mem prev addr gs brk
    → validate_loop mem fuel (first_of gs addr) prev ≡ some true
unfolding validate_loop
validate_loop-Holds gs mem zero prev addr brk pos f h = absurd (omega arith)
validate_loop-Holds [] mem (suc fuel) prev addr brk pos f h = refl
validate_loop-Holds (g ∷ gs) mem (suc fuel) prev addr brk pos f h =
    let ne : (addr == 0) ≡ false = ground arith in
    let ih =
      validate_loop-Holds gs mem fuel addr (after addr g) brk (omega arith) (omega arith) h.1 in
    rw (ne, h.0) (ground (arith, ih))

-- The figures of a list of blocks.
pub count_list : HeapStats → List Seg → HeapStats
count_list st [] = st
count_list st (g ∷ gs) = count_list (count_block st (seg_flags g) (seg_size g)) gs

stats_loop-Holds :
    (gs : List Seg) (mem : Headers) (fuel prev addr brk : ℕ) (st : HeapStats)
    → 0 < addr
    → length gs < fuel
    → Holds mem prev addr gs brk
    → stats_loop mem fuel (first_of gs addr) st ≡ some (count_list st gs)
unfolding stats_loop count_list
stats_loop-Holds gs mem zero prev addr brk st pos f h = absurd (omega arith)
stats_loop-Holds [] mem (suc fuel) prev addr brk st pos f h = refl
stats_loop-Holds (g ∷ gs) mem (suc fuel) prev addr brk st pos f h =
    let ne : (addr == 0) ≡ false = ground arith in
    rw (ne, h.0)
      (stats_loop-Holds gs mem fuel addr (after addr g) brk
        (count_block st (seg_flags g) (seg_size g)) (omega arith) (omega arith) h.1)

-- What the blocks that are counted take up.
abbrev pub counted : HeapStats → ℕ
counted st = st.used_size + st.free_size + 32 * st.block_count

counted-block :
    (st : HeapStats) (g : Seg)
    → counted st + 32 + seg_size g < u64_mod
    → counted (count_block st (seg_flags g) (seg_size g)) ≡ counted st + 32 + seg_size g
counted-block st (free s) lt = omega arith
counted-block st (used s) lt = omega arith

counted-list :
    (gs : List Seg) (mem : Headers) (st : HeapStats) (prev addr brk : ℕ)
    → brk < u64_mod
    → counted st ≤ addr
    → Holds mem prev addr gs brk
    → counted (count_list st gs) + addr ≡ counted st + brk
unfolding count_list
counted-list [] mem st prev addr brk top le h = omega arith
counted-list (g ∷ gs) mem st prev addr brk top le h =
    let end = Holds-le mem addr (after addr g) gs brk h.1 in
    let one = counted-block st g (omega arith) in
    omega (
      arith,
      counted-list gs mem (count_block st (seg_flags g) (seg_size g)) addr (after addr g) brk top
          (omega arith) h.1,
      one,
    )

kept-list :
    (gs : List Seg) (st : HeapStats)
    → ((count_list st gs).total_size ≡ st.total_size)
      × ((count_list st gs).alloc_count ≡ st.alloc_count)
      × ((count_list st gs).free_count ≡ st.free_count)
unfolding count_list
kept-list [] st = (refl, refl, refl)
kept-list (free s ∷ gs) st = kept-list gs (count_block st 0 s)
kept-list (used s ∷ gs) st = kept-list gs (count_block st 1 s)

abbrev pub Reports : {M : Type 0} → Heap M → Option HeapStats → Type 0
Reports h none = ⊥
Reports h (some st) =
    (st.total_size ≡ h.heap_size)
    × (st.used_size + st.free_size + 32 * st.block_count ≡ h.heap_size)
    × (st.alloc_count ≡ h.alloc_count)
    × (st.free_count ≡ h.free_count)

module _ {M : Type 0} (h : Heap M) (gs : List Seg) (v : IsHeap h gs) where
  -- heap_validate ends, and finds no fault, on a heap whose headers hold a list of blocks.
  pub heap_validate-IsHeap : heap_validate h ≡ some true
  unfolding heap_validate
  heap_validate-IsHeap =
      ap (λ b. validate_loop h.headers (heap_fuel h.heap_size) b 0)
        (sym (first_of-full gs h.heap_first v.not_empty))
      ∙ validate_loop-Holds gs h.headers (heap_fuel h.heap_size) 0 h.heap_first h.heap_break
          v.not_null (fuel-IsHeap h gs v) v.blocks

  abbrev start : HeapStats
  start = record {
    total_size = h.heap_size;
    used_size = 0;
    free_size = 0;
    largest_free = 0;
    block_count = 0;
    free_block_count = 0;
    alloc_count = h.alloc_count;
    free_count = h.free_count;
  }

  stats-eq : heap_get_stats h ≡ some (count_list start gs)
  unfolding heap_get_stats
  stats-eq =
      ap (λ b. stats_loop h.headers (heap_fuel h.heap_size) b start)
        (sym (first_of-full gs h.heap_first v.not_empty))
      ∙ stats_loop-Holds gs h.headers (heap_fuel h.heap_size) 0 h.heap_first h.heap_break start
          v.not_null (fuel-IsHeap h gs v) v.blocks

  -- heap_get_stats ends on a heap whose headers hold a list of blocks, and its figures add up: the
  -- bytes in use, the free bytes and 32 bytes for each block are the size of the heap; it reports
  -- the two counters of the heap.
  pub heap_get_stats-Reports : Reports h (heap_get_stats h)
  heap_get_stats-Reports = subst (Reports h) (sym stats-eq) (
      let kept = kept-list gs start in
      let total = v.extent in
      let sum =
        counted-list gs h.headers start 0 h.heap_first h.heap_break v.top (omega arith) v.blocks in
      (kept.0, omega arith, kept.1, kept.2))
