-- ===== src/Heap.antt =====
-- The block list of kernel/mm/heap.c: a first-fit allocator over the headers in memory. The memory
-- is a map from the addresses of headers to headers; the bytes of the data areas are apart, in
-- Heap/Memory.antt.
pub mod Calls
pub mod Walks
pub mod Layout
pub mod Split
pub mod Alloc
pub mod Merge
pub mod Free
pub mod Valid
pub mod Shape
pub mod RoundTrip
pub mod Report
pub mod ExactFit
pub mod Expand
pub mod Grow
pub mod Ends
pub mod Keeps
pub mod Bytes
mod Tests
use chanux.Common.{
  ℕ, zero, suc, ◌+◌, ◌-◌, ◌*◌, ◌/◌, ◌%◌, ◌^◌, Bool, true, false, not, ◌&&◌, ◌==◌, ltb, leb,
  if◌then◌else◌, Option, none, some, update, add64, sub64,
}
use chanux.Pmm.{page_size, align_up}

abbrev pub heap_start : ℕ
heap_start = 0xFFFFFFFF81000000

abbrev pub heap_initial_size : ℕ
heap_initial_size = 4 * 1024 * 1024

abbrev pub heap_max_size : ℕ
heap_max_size = 240 * 1024 * 1024

abbrev pub heap_expand_size : ℕ
heap_expand_size = 1024 * 1024

abbrev pub heap_block_magic : ℕ
heap_block_magic = 0xDEADBEEF

-- `sizeof(heap_block_t)` is 32, a multiple of `HEAP_ALIGNMENT`.
abbrev pub header_size : ℕ
header_size = 32

abbrev pub heap_min_block : ℕ
heap_min_block = 32

-- The address 0 stands for `NULL`.
pub record Block : Type 0 where
  pub magic : ℕ
  pub flags : ℕ
  pub size : ℕ
  pub next : ℕ
  pub prev : ℕ

abbrev pub Headers : Type 0
Headers = ℕ → Block

-- What the heap calls outside itself: the physical pages and the page tables, with their state.
pub record Pager (M : Type 0) : Type 0 where
  pub alloc_page : M → ℕ × M
  pub free_page : M → ℕ → M
  pub map_page : M → ℕ → ℕ → ℕ → Bool × M

-- The static variables, the headers in memory, and the state of the pages below.
pub record Heap (M : Type 0) : Type 0 where
  pub headers : Headers
  pub heap_first : ℕ
  pub heap_size : ℕ
  pub heap_break : ℕ
  pub alloc_count : ℕ
  pub free_count : ℕ
  pub pages : M

abbrev pub block_to_ptr : ℕ → ℕ
block_to_ptr block = add64 block header_size

abbrev pub ptr_to_block : ℕ → ℕ
ptr_to_block ptr = sub64 ptr header_size

abbrev pub block_valid : Headers → ℕ → Bool
block_valid mem block = not (block == 0) && (mem block).magic == heap_block_magic

-- `block->prev = prev`, for a block that may be `NULL`
abbrev pub set_prev : Headers → ℕ → ℕ → Headers
set_prev mem block prev =
    if block == 0 then mem else update mem block (record (mem block) { prev = prev })

-- The end of `block_split`, with the new block's address and size.
pub split_at : Headers → ℕ → ℕ → ℕ → ℕ → Headers
split_at mem block size new remaining =
    let made = update mem new (record {
      magic = heap_block_magic;
      flags = 0;
      size = remaining;
      next = (mem block).next;
      prev = block;
    }) in
    let linked = set_prev made (made block).next new in
    update linked block (record (linked block) { next = new; size = size })

unfoldable pub block_split : Headers → ℕ → ℕ → Headers
unfolding split_at
block_split mem block size =
    let remaining = sub64 (sub64 (mem block).size size) header_size in
    if ltb remaining heap_min_block
    then mem
    else split_at mem block size (add64 (add64 block header_size) size) remaining

-- The end of `block_merge_next`: `block` absorbs `next`.
pub absorb : Headers → ℕ → ℕ → Headers
absorb mem block next =
    let grown = update mem block (record (mem block) {
      size = add64 (mem block).size (add64 header_size (mem next).size);
      next = (mem next).next;
    }) in
    let linked = set_prev grown (grown next).next block in
    update linked next (record (linked next) { magic = 0 })

unfoldable pub block_merge_next : Headers → ℕ → Headers
unfolding absorb
block_merge_next mem block =
    let next = (mem block).next in
    if next == 0
    then mem
    else if not ((mem next).flags == 0)
    then mem
    else if not (block_valid mem next)
    then mem
    else absorb mem block next

-- How the search of `kmalloc` ends. On a list that turns back into itself it does not end.
pub data Fit : Type 0 where
  found : ℕ → Fit
  missing : Fit
  corrupted : Fit
  endless : Fit

-- The `while` loop of `kmalloc`, on fuel.
pub find_fit : Headers → ℕ → ℕ → ℕ → Fit
find_fit mem size zero block = endless
find_fit mem size (suc fuel) block =
    let rest = find_fit mem size fuel (mem block).next in
    if block == 0
    then missing
    else if not (block_valid mem block)
    then corrupted
    else if (mem block).flags == 0 && leb size (mem block).size
    then found block
    else rest

-- `while (last->next)`, on fuel.
unfoldable pub find_last : Headers → ℕ → ℕ → Option ℕ
find_last mem zero last = none
find_last mem (suc fuel) last =
    let rest = find_last mem fuel (mem last).next in
    if (mem last).next == 0 then some last else rest

-- The blocks of the heap are 32 bytes long at least, so a list that ends has fewer.
abbrev pub heap_fuel : ℕ → ℕ
heap_fuel size = size / 32 + 1

-- The rounded size of a request: `ALIGN_UP(size, 16)`, and 32 at least.
unfoldable pub request : ℕ → ℕ
request size =
    let sum = add64 size 15 in
    let aligned = sum - sum % 16 in if ltb aligned heap_min_block then heap_min_block else aligned

-- The end of `heap_expand`: a free block at the break, linked behind the last block.
unfoldable pub add_block : Headers → ℕ → ℕ → ℕ → Headers
add_block mem at last size =
    let made =
      update mem at
        (record { magic = heap_block_magic; flags = 0; size = size; next = 0; prev = 0 }) in
    let behind = update made last (record (made last) { next = at }) in
    let linked = update behind at (record (behind at) { prev = last }) in
    if (linked last).flags == 0 then block_merge_next linked last else linked
