-- ===== src/Heap/ExactFit.antt =====
-- A request that a free block of kernel/mm/heap.c fits exactly: `remaining` of `block_split` wraps
-- around, and the block is split all the same.
use chanux.Common.{ℕ, ◌+◌, ◌-◌, ◌<◌, ◌≡◌, refl, false, ◌==◌, arith, eq→==, add64, sub64, u64_mod}
use chanux.Heap.{Heap, Block, Headers, block_split, split_at, heap_block_magic, header_size}
use chanux.Heap.Calls.{take_block}

abbrev looped : ℕ → Block
looped n = record { magic = heap_block_magic; flags = 0; size = u64_mod - 32; next = n; prev = n }

module _ (mem : Headers) (b n : ℕ) (pos : 0 < b) (next : (mem b).next ≡ b + 32 + n) where
  abbrev new : ℕ
  new = b + 32 + n

  split_at_exact : split_at mem b n new (u64_mod - 32) new ≡ looped new
  unfolding split_at
  split_at_exact =
      let ne : (new == b) ≡ false = ground arith in
      let ne' : (b == new) ≡ false = ground arith in
      let null : (new == 0) ≡ false = ground arith in
      rw (ne, next, null, ne', eq→== new new refl) refl

  block_split_exact :
      b + 32 + n < u64_mod
      → (mem b).size ≡ n
      → block_split mem b n ≡ split_at mem b n new (u64_mod - 32)
  unfolding block_split
  block_split_exact top size =
      let rest : sub64 (sub64 n n) header_size ≡ u64_mod - 32 = omega arith in
      let place : add64 (add64 b header_size) n ≡ new = omega arith in rw (size, rest, place) refl

-- When kmalloc takes a free block whose size is the rounded request itself, and another block
-- follows, it overwrites the header of that block, which becomes a free block of 2^64 - 32 bytes
-- that is its own neighbour on both sides.
pub take_block_exact :
    {M : Type 0} (h : Heap M) (b n : ℕ)
    → 0 < b
    → b + 32 + n < u64_mod
    → (h.headers b).size ≡ n
    → (h.headers b).next ≡ b + 32 + n
    → (take_block h b n).headers (b + 32 + n) ≡ record {
      magic = heap_block_magic;
      flags = 0;
      size = u64_mod - 32;
      next = b + 32 + n;
      prev = b + 32 + n;
    }
unfolding take_block
take_block_exact h b n pos top size next =
    let ne' : (b == b + 32 + n) ≡ false = ground arith in
    rw ne' (
      rw (block_split_exact h.headers b n pos next top size)
        (split_at_exact h.headers b n pos next))
