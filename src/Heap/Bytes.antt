-- ===== src/Heap/Bytes.antt =====
-- The operations of kernel/mm/heap.c that also write the data areas: the heap's state beside the
-- bytes of memory.
use chanux.Common.{
  ℕ, ◌+◌, ◌-◌, ◌/◌, ◌%◌, ◌^◌, not, ◌&&◌, ◌==◌, ltb, leb, if◌then◌else◌, Option, none, some, add64,
  sub64,
}
use chanux.Memory.{Mem, memcpy, memset}
use chanux.Heap.{Heap, Pager, ptr_to_block, block_valid, block_split, block_merge_next, header_size}
use chanux.Heap.Calls.{kmalloc, kfree}

abbrev pub Result : Type 0 → Type 0
Result M = Option (ℕ × Heap M × Mem)

-- `((void**)at)[-1] = value`: the eight bytes before an address, the lowest first.
unfoldable pub store_before : Mem → ℕ → ℕ → Mem
store_before mem at value a =
    let first = sub64 at 8 in
    if leb first a && ltb a (first + 8) then value / 256 ^ (a - first) % 256 else mem a

-- `ALIGN_UP(x, align)`, for an alignment that is a power of two.
abbrev pub align_to : ℕ → ℕ → ℕ
align_to x align = let sum = add64 x (align - 1) in sum - sum % align

-- `ALIGN_UP(new_size, 16)`
abbrev pub align_16 : ℕ → ℕ
align_16 size = let sum = add64 size 15 in sum - sum % 16

abbrev zeroed : {M : Type 0} → Mem → ℕ → Option (ℕ × Heap M) → Result M
zeroed bytes size none = none
zeroed bytes size (some (ptr, h')) =
    some (ptr, h', if ptr == 0 then bytes else memset bytes ptr 0 size)

abbrev aligned : {M : Type 0} → Mem → ℕ → Option (ℕ × Heap M) → Result M
aligned bytes alignment none = none
aligned bytes alignment (some (ptr, h')) =
    let at = align_to (add64 ptr 8) alignment in
    if ptr == 0 then some (0, h', bytes) else some (at, h', store_before bytes at ptr)

-- The end of `krealloc`: the bytes move to a new block.
abbrev moved : {M : Type 0} → Heap M → Mem → ℕ → Option (ℕ × Heap M) → Result M
moved h bytes ptr none = none
moved h bytes ptr (some (new_ptr, h')) =
    let size = (h'.headers (ptr_to_block ptr)).size in
    if new_ptr == 0
    then some (0, h', bytes)
    else some (new_ptr, kfree h' ptr, memcpy bytes new_ptr ptr size)

abbrev beside : {M : Type 0} → Mem → Option (ℕ × Heap M) → Result M
beside bytes none = none
beside bytes (some (ptr, h')) = some (ptr, h', bytes)

module _ {M : Type 0} (pager : Pager M) (fuel : ℕ) where
  unfoldable pub kzalloc : Heap M → Mem → ℕ → Result M
  kzalloc h bytes size = zeroed bytes size (kmalloc pager fuel h size)

  unfoldable pub kmalloc_aligned : Heap M → Mem → ℕ → ℕ → Result M
  kmalloc_aligned h bytes size alignment =
      if leb alignment 16
      then beside bytes (kmalloc pager fuel h size)
      else aligned bytes alignment (kmalloc pager fuel h (add64 (add64 size alignment) 8))

  -- A block that is too small takes in a free neighbour, if that is enough.
  unfoldable pub krealloc : Heap M → Mem → ℕ → ℕ → Result M
  krealloc h bytes ptr new_size =
      let mem = h.headers in
      let block = ptr_to_block ptr in
      let n = align_16 new_size in
      let next = (mem block).next in
      let combined = add64 (add64 (mem block).size header_size) (mem next).size in
      if ptr == 0
      then beside bytes (kmalloc pager fuel h new_size)
      else if new_size == 0
      then some (0, kfree h ptr, bytes)
      else if not (block_valid mem block)
      then some (0, h, bytes)
      else if leb n (mem block).size
      then some (ptr, h, bytes)
      else if not (next == 0) && ((mem next).flags == 0 && leb n combined)
      then some
          (ptr, record h { headers = block_split (block_merge_next mem block) block n }, bytes)
      else moved h bytes ptr (kmalloc pager fuel h n)
