-- ===== src/Heap/Tests.antt =====
-- A heap of two blocks in use, with a free one of 256 bytes between them and one at the end.
use chanux.Common.{
  ℕ, ◌+◌, ◌-◌, ◌*◌, ◌≡◌, ◌≤◌, refl, true, some, List, [], ◌∷◌, update, add64, arith,
}
use chanux.Pmm.{align_up}
use chanux.Heap.{
  Heap, Headers, Pager, heap_start, header_size, heap_initial_size, request, block_to_ptr,
}
use chanux.Heap.Calls.{kmalloc, kfree, heap_init, heap_expand, map_pages}
use chanux.Heap.Layout.{Seg, free, used, block_of}
use chanux.Heap.Alloc.{first_fit}
use chanux.Heap.Free.{block_at, give_back}
use chanux.Heap.Valid.{IsHeap, Allocated, kmalloc-IsHeap, kfree-IsHeap}
use chanux.Heap.RoundTrip.{freed, kfree-kmalloc}
use chanux.Heap.Grow.{Expanded, InRange, heap_expand-Expanded}
use chanux.Heap.Keeps.{Keeps, kmalloc-Keeps}
use chanux.Heap.Ends.{Ends, kmalloc-Ends}

-- Pages in the order of their numbers, and tables that take every page.
abbrev pages : Pager ℕ
pages = record {
  alloc_page = λ m. (4096 * m, m + 1);
  free_page = λ m page. m;
  map_page = λ m virt phys flags. (true, m);
}

abbrev blocks : List Seg
blocks = used 64 ∷ free 256 ∷ used 32 ∷ free 3616 ∷ []

abbrev at : ℕ → ℕ
at n = heap_start + n

abbrev headers : Headers
headers =
    update
      (update
        (update (update (λ a. block_of (free 0) 0 0) (at 0) (block_of (used 64) (at 96) 0)) (at 96)
          (block_of (free 256) (at 384) (at 0)))
        (at 384) (block_of (used 32) (at 448) (at 96)))
      (at 448) (block_of (free 3616) 0 (at 384))

abbrev heap : Heap ℕ
heap = record {
  headers = headers;
  heap_first = heap_start;
  heap_size = 4096;
  heap_break = at 4096;
  alloc_count = 2;
  free_count = 0;
  pages = 7;
}

heap-IsHeap : IsHeap heap blocks
heap-IsHeap = record {
  blocks = (refl, (refl, (refl, (refl, refl))));
  not_empty = omega arith;
  not_null = omega arith;
  top = omega arith;
  extent = omega arith;
}

heap-InRange : InRange heap
heap-InRange = record { small = omega arith; low = omega arith }

request_100 : first_fit (request 100) blocks ≡ some 256
unfolding first_fit request
request_100 = refl

room_100 : request 100 + 32 ≤ 256
unfolding request
room_100 = omega arith

kmalloc-IsHeap_example : Allocated heap blocks (request 100) (kmalloc pages 2 heap 100)
kmalloc-IsHeap_example =
    kmalloc-IsHeap pages heap blocks heap-IsHeap 1 100 256 (λ e. absurd (omega arith)) request_100
      room_100

second_used : block_at (at 384) heap_start blocks ≡ some (used 32)
unfolding block_at
second_used = refl

kfree-IsHeap_example :
    IsHeap (kfree heap (block_to_ptr (at 384))) (give_back (at 384) heap_start blocks)
    × ((kfree heap (block_to_ptr (at 384))).free_count ≡ add64 0 1)
kfree-IsHeap_example = kfree-IsHeap heap blocks heap-IsHeap (at 384) 32 second_used

kfree-kmalloc_example : IsHeap (freed heap (kmalloc pages 2 heap 100)) blocks
kfree-kmalloc_example =
    kfree-kmalloc pages heap blocks heap-IsHeap 1 100 256 refl (λ e. absurd (omega arith))
      request_100 room_100

kmalloc-Keeps_example : Keeps (at 384) 32 (request 100) (kmalloc pages 2 heap 100)
kmalloc-Keeps_example =
    kmalloc-Keeps pages heap blocks heap-IsHeap 1 100 256 (at 384) 32 (λ e. absurd (omega arith))
      request_100 room_100 second_used

kmalloc-Ends_example : Ends (kmalloc pages 2 heap 100000)
kmalloc-Ends_example =
    kmalloc-Ends pages heap (used 64) (free 256 ∷ used 32 ∷ free 3616 ∷ []) heap-IsHeap heap-InRange
      100000 (omega arith)

heap_expand-Expanded_example :
    Expanded heap
      (used 64)
      (free 256 ∷ used 32 ∷ free 3616 ∷ [])
      (align_up 5000)
      (heap_expand pages heap 5000)
heap_expand-Expanded_example =
    heap_expand-Expanded pages heap (used 64) (free 256 ∷ used 32 ∷ free 3616 ∷ []) heap-IsHeap
      heap-InRange 5000 (omega arith) (omega arith)

-- One page for all.
abbrev one_page : Pager ℕ
one_page = record {
  alloc_page = λ m. (4096, m);
  free_page = λ m page. m;
  map_page = λ m virt phys flags. (true, m);
}

abbrev first_heap : Heap ℕ
first_heap = record {
  headers = update headers heap_start (block_of (free (heap_initial_size - header_size)) 0 0);
  heap_first = heap_start;
  heap_size = heap_initial_size;
  heap_break = heap_start + heap_initial_size;
  alloc_count = 0;
  free_count = 0;
  pages = 7;
}

init_runs : heap_init one_page headers 7 ≡ some first_heap
unfolding heap_init map_pages
init_runs = refl
