-- ===== src/Heap/Keeps.antt =====
-- `kmalloc` of kernel/mm/heap.c hands out no block that is in use.
use chanux.Common.{ℕ, suc, ◌+◌, ◌≤◌, ◌≡◌, ◌≢◌, refl, sym, Option, none, some, List, arith, subst}
use chanux.Heap.{Heap, Pager, request, block_to_ptr}
use chanux.Heap.Calls.{kmalloc, take_block}
use chanux.Heap.Layout.{Seg, free, used}
use chanux.Heap.Alloc.{first_fit, fit_addr, place}
use chanux.Heap.Free.{block_at, Holds-block_at}
use chanux.Heap.Valid.{IsHeap, kmalloc-IsHeap}
use chanux.Heap.Shape.{block_at-place, block_at-place_other}

-- The block at `b` keeps its header's flags and its size, and is not the one handed out.
abbrev pub Keeps : {M : Type 0} → ℕ → ℕ → ℕ → Option (ℕ × Heap M) → Type 0
Keeps b t n none = ⊥
Keeps b t n (some (ptr, h')) =
    ((h'.headers b).flags ≡ 1)
    × ((h'.headers b).size ≡ t)
    × ((c : ℕ) × (ptr ≡ block_to_ptr c)
        × (c ≢ b)
        × ((h'.headers c).flags ≡ 1)
        × (n ≤ (h'.headers c).size))

differ :
    (c b addr : ℕ) (gs : List Seg) (s t : ℕ)
    → block_at c addr gs ≡ some (free s)
    → block_at b addr gs ≡ some (used t)
    → c ≢ b
differ c b addr gs s t p q e =
    let p' : block_at b addr gs ≡ some (free s) =
      subst (λ x. block_at x addr gs ≡ some (free s)) e p in
    absurd (ground (arith, p', q))

-- kmalloc leaves each block that is in use in use, with its size, and hands out another block,
-- which is in use then and has room for the rounded request, if the first free block that is large
-- enough is 32 bytes larger than that.
pub kmalloc-Keeps :
    {M : Type 0} (pager : Pager M) (h : Heap M) (gs : List Seg)
    → IsHeap h gs
    → (fuel size s b t : ℕ) → size ≢ 0
    → first_fit (request size) gs ≡ some s
    → request size + 32 ≤ s
    → block_at b h.heap_first gs ≡ some (used t)
    → Keeps b t (request size) (kmalloc pager (suc fuel) h size)
unfolding take_block
kmalloc-Keeps pager h gs v fuel size s b t ne fit roomy here =
    let n = request size in
    let c = fit_addr n h.heap_first gs in
    let (result, v') = kmalloc-IsHeap pager h gs v fuel size s ne fit roomy in
    let h' = take_block h c n in
    let (m, taken, large, before) = block_at-place gs n s h.heap_first fit (omega arith) in
    let kept =
      Holds-block_at (place n gs) h'.headers 0 h.heap_first b h.heap_break (used t)
        (block_at-place_other gs n s t b h.heap_first fit roomy here) v'.blocks in
    let new =
      Holds-block_at (place n gs) h'.headers 0 h.heap_first c h.heap_break (used m) taken
        v'.blocks in
    let other : c ≢ b = differ c b h.heap_first gs s t before here in
    subst (Keeps b t n) (sym result) (kept.1, kept.2, (c, refl, other, new.1, omega (arith, new.2)))
