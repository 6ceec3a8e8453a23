-- ===== src/Heap/Walks.antt =====
-- `heap_get_stats` and `heap_validate` of kernel/mm/heap.c: walks along the block list, on fuel.
use chanux.Common.{
  ℕ, zero, suc, Bool, true, false, not, ◌&&◌, ◌==◌, ltb, if◌then◌else◌, Option, none, some, add64,
}
use chanux.Heap.{Headers, Heap, block_valid, heap_block_magic, heap_fuel}

pub record HeapStats : Type 0 where
  pub total_size : ℕ
  pub used_size : ℕ
  pub free_size : ℕ
  pub largest_free : ℕ
  pub block_count : ℕ
  pub free_block_count : ℕ
  pub alloc_count : ℕ
  pub free_count : ℕ

-- The body of the loop, for a block with these flags and this size.
abbrev pub count_block : HeapStats → ℕ → ℕ → HeapStats
count_block st flags size =
    if flags == 0
    then record st {
      block_count = add64 st.block_count 1;
      free_size = add64 st.free_size size;
      free_block_count = add64 st.free_block_count 1;
      largest_free = if ltb st.largest_free size then size else st.largest_free;
    }
    else record st { block_count = add64 st.block_count 1; used_size = add64 st.used_size size }

unfoldable pub stats_loop : Headers → ℕ → ℕ → HeapStats → Option HeapStats
stats_loop mem zero block st = none
stats_loop mem (suc fuel) block st =
    let blk = mem block in
    let rest = stats_loop mem fuel blk.next (count_block st blk.flags blk.size) in
    if block == 0 then some st else if not (block_valid mem block) then some st else rest

unfoldable pub heap_get_stats : {M : Type 0} → Heap M → Option HeapStats
heap_get_stats h = stats_loop h.headers (heap_fuel h.heap_size) h.heap_first (record {
  total_size = h.heap_size;
  used_size = 0;
  free_size = 0;
  largest_free = 0;
  block_count = 0;
  free_block_count = 0;
  alloc_count = h.alloc_count;
  free_count = h.free_count;
})

unfoldable pub validate_loop : Headers → ℕ → ℕ → ℕ → Option Bool
validate_loop mem zero block prev = none
validate_loop mem (suc fuel) block prev =
    let rest = validate_loop mem fuel (mem block).next block in
    if block == 0
    then some true
    else if not ((mem block).magic == heap_block_magic)
    then some false
    else if not ((mem block).prev == prev)
    then some false
    else if not ((mem block).flags == 0) && not ((mem block).flags == 1)
    then some false
    else rest

unfoldable pub heap_validate : {M : Type 0} → Heap M → Option Bool
heap_validate h = validate_loop h.headers (heap_fuel h.heap_size) h.heap_first 0
