-- ===== src/Heap/Calls.antt =====
-- The operations of kernel/mm/heap.c on the heap's state. A walk along a list that turns back into
-- itself does not end: the result is `none` then.
use chanux.Common.{
  ℕ, zero, suc, ◌+◌, ◌-◌, ◌/◌, Bool, true, false, not, ◌&&◌, ◌==◌, ltb, if◌then◌else◌, Option, none,
  some, update, add64, sub64,
}
use chanux.Pmm.{page_size, align_up}
use chanux.Heap.{
  Headers, Heap, Pager, found, missing, corrupted, endless, heap_start, heap_initial_size,
  heap_max_size, heap_expand_size, heap_block_magic, header_size, block_to_ptr, ptr_to_block,
  block_valid, block_split, block_merge_next, find_fit, find_last, heap_fuel, request, add_block,
}

-- `PTE_KERNEL_RW`: present and writable
abbrev pub kernel_rw : ℕ
kernel_rw = 3

-- `block->flags = flags`
abbrev pub set_flags : Headers → ℕ → ℕ → Headers
set_flags mem block flags = update mem block (record (mem block) { flags = flags })

-- What `kmalloc` does with the block that it finds.
unfoldable pub take_block : {M : Type 0} → Heap M → ℕ → ℕ → Heap M
take_block h block size = record h {
  headers = set_flags (block_split h.headers block size) block 1;
  alloc_count = add64 h.alloc_count 1;
}

-- What `heap_expand` does once the pages are mapped.
unfoldable pub finish_expand : {M : Type 0} → Heap M → ℕ → Option (Bool × Heap M)
finish_expand h size = elim (find_last h.headers (heap_fuel h.heap_size) h.heap_first) [
  | none ↦ none
  | some last ↦ some (
    true,
    record h {
      headers = add_block h.headers h.heap_break last (sub64 size header_size);
      heap_break = add64 h.heap_break size;
      heap_size = add64 h.heap_size size;
    },
  )
]

-- What `kfree` does with a block in use.
unfoldable pub release : Headers → ℕ → Headers
release mem block =
    let merged = block_merge_next (set_flags mem block 0) block in
    let prev = (merged block).prev in
    if not (prev == 0) && (merged prev).flags == 0 then block_merge_next merged prev else merged

unfoldable pub kfree : {M : Type 0} → Heap M → ℕ → Heap M
unfolding release
kfree h ptr =
    let block = ptr_to_block ptr in
    if ptr == 0
    then h
    else if not (block_valid h.headers block)
    then h
    else if not ((h.headers block).flags == 1)
    then h
    else record h { headers = release h.headers block; free_count = add64 h.free_count 1 }

-- `kmalloc` once more, if the heap could be expanded.
abbrev pub retry :
    {M : Type 0} → (Heap M → Option (ℕ × Heap M)) → Option (Bool × Heap M) → Option (ℕ × Heap M)
retry again none = none
retry again (some (true, h')) = again h'
retry again (some (false, h')) = some (0, h')

module _ {M : Type 0} (pager : Pager M) where
  -- `n` pages from an address on; the pages mapped before a failure stay mapped.
  unfoldable pub map_pages : ℕ → ℕ → M → Bool × M
  map_pages zero addr pages = (true, pages)
  map_pages (suc n) addr pages =
      let (page, taken) = pager.alloc_page pages in
      let (ok, mapped) = pager.map_page taken addr page kernel_rw in
      let rest = map_pages n (add64 addr page_size) mapped in
      if page == 0
      then (false, taken)
      else if not ok
      then (false, pager.free_page mapped page)
      else rest

  unfoldable pub heap_expand : Heap M → ℕ → Option (Bool × Heap M)
  unfolding finish_expand
  heap_expand h min_size =
      let size = align_up min_size in
      let (ok, pages) = map_pages (size / page_size) h.heap_break h.pages in
      let h' = record h { pages = pages } in
      if ltb heap_max_size (add64 h.heap_size size)
      then some (false, h)
      else if not ok
      then some (false, h')
      else finish_expand h' size

  -- `kmalloc`, with a bound on how often it calls itself.
  unfoldable pub kmalloc : ℕ → Heap M → ℕ → Option (ℕ × Heap M)
  unfolding take_block
  kmalloc zero h size = none
  kmalloc (suc fuel) h size =
      let n = request size in
      let min_size =
        if ltb heap_expand_size (add64 n header_size)
        then add64 n header_size
        else heap_expand_size in
      let search : Option (ℕ × Heap M) =
        elim (find_fit h.headers n (heap_fuel h.heap_size) h.heap_first) [
          | found block ↦ some (block_to_ptr block, take_block h block n)
          | corrupted ↦ some (0, h)
          | endless ↦ none
          | missing ↦ retry (λ h'. kmalloc fuel h' n) (heap_expand h min_size)
        ] in
      if size == 0 then some (0, h) else search

  -- `heap_init`; `none` stands for its `PANIC`.
  unfoldable pub heap_init : Headers → M → Option (Heap M)
  heap_init mem pages =
      let (ok, mapped) = map_pages (heap_initial_size / page_size) heap_start pages in
      if not ok
      then none
      else some (record {
        headers = update mem heap_start (record {
          magic = heap_block_magic;
          flags = 0;
          size = heap_initial_size - header_size;
          next = 0;
          prev = 0;
        });
        heap_first = heap_start;
        heap_size = heap_initial_size;
        heap_break = heap_start + heap_initial_size;
        alloc_count = 0;
        free_count = 0;
        pages = mapped;
      })
