-- ===== src/Pmm.antt =====
-- kernel/mm/pmm.c: the physical page frame allocator over a bitmap, a set bit for a used page.
pub mod Init
pub mod Runs
pub mod Valid
pub mod Alloc
pub mod Release
pub mod AllocRun
pub mod Boot
pub mod BootCount
mod Tests
use chanux.Common.{
  ℕ, zero, suc, ◌+◌, ◌-◌, ◌*◌, ◌/◌, ◌%◌, ◌^◌, Bool, true, false, not, ◌==◌, ltb, leb, if◌then◌else◌,
  Option, none, some, add64, sub64, u64_mod,
}
use chanux.Bitmap.{Bitmap, bitmap_test, bitmap_set, bitmap_clear, find_free}

abbrev pub page_size : ℕ
page_size = 4096

-- `MM_MAX_PAGES`: 32 GB of pages
abbrev pub max_pages : ℕ
max_pages = 2 ^ 35 / page_size

-- The static variables of the allocator.
pub record Pmm : Type 0 where
  pub bitmap : Bitmap
  pub total_pages : ℕ
  pub free_count : ℕ
  pub reserved_pages : ℕ
  pub first_free_hint : ℕ
  pub total_memory : ℕ

abbrev pub addr_to_pfn : ℕ → ℕ
addr_to_pfn addr = addr / page_size

abbrev pub pfn_to_addr : ℕ → ℕ
pfn_to_addr pfn = (pfn * page_size) % u64_mod

-- `ALIGN_DOWN(addr, PAGE_SIZE)` and `ALIGN_UP(addr, PAGE_SIZE)`: the mask clears the low 12 bits.
abbrev pub align_down : ℕ → ℕ
align_down addr = addr - addr % page_size

abbrev pub align_up : ℕ → ℕ
align_up addr = align_down (add64 addr (page_size - 1))

-- What both loops of `pmm_alloc_page` do with the free page that they find.
pub take_page : Pmm → ℕ → Pmm
take_page s pfn = record s {
  bitmap = bitmap_set s.bitmap pfn;
  free_count = sub64 s.free_count 1;
  first_free_hint = pfn + 1;
}

-- The address is 0 when no page is free. The second loop runs up to the hint.
unfoldable pub alloc_page : Pmm → ℕ × Pmm
alloc_page s = elim (find_free s.bitmap (max_pages - s.first_free_hint) s.first_free_hint) [
  | some pfn ↦ (pfn_to_addr pfn, take_page s pfn)
  | none ↦ elim (find_free s.bitmap s.first_free_hint 0) [
    | some pfn ↦ (pfn_to_addr pfn, take_page s pfn)
    | none ↦ (0, s)
  ]
]

-- The loop of `pmm_alloc_pages` over `n` pages from `pfn` on, with `start_pfn` and `found`.
pub find_run : Bitmap → ℕ → ℕ → ℕ → ℕ → ℕ → ℕ × ℕ
find_run bm count zero pfn start found = (start, found)
find_run bm count (suc n) pfn start found =
    let used = bitmap_test bm pfn in
    let start' = if used then start else if found == 0 then pfn else start in
    let found' = if used then 0 else found + 1 in
    let rest = find_run bm count n (pfn + 1) start' found' in
    if ltb found count then rest else (start, found)

-- `BITMAP_SET(start_pfn + i)` for `n` pages
pub set_run : Bitmap → ℕ → ℕ → Bitmap
set_run bm start zero = bm
set_run bm start (suc n) = set_run (bitmap_set bm start) (start + 1) n

pub take_run : Pmm → ℕ → ℕ → ℕ × Pmm
take_run s count start = (
  pfn_to_addr start,
  record s {
    bitmap = set_run s.bitmap start count;
    free_count = sub64 s.free_count count;
    first_free_hint = start + count;
  },
)

-- The search from the hint, then from the beginning up to the hint.
pub search_run : Pmm → ℕ → ℕ × ℕ
search_run s count =
    let (start, found) =
      find_run s.bitmap count (max_pages - s.first_free_hint) s.first_free_hint 0 0 in
    if ltb found count then find_run s.bitmap count s.first_free_hint 0 start 0 else (start, found)

unfoldable pub alloc_pages : Pmm → ℕ → ℕ × Pmm
alloc_pages s count =
    if count == 0
    then (0, s)
    else if count == 1
    then alloc_page s
    else let (start, found) = search_run s count in
      if ltb found count then (0, s) else take_run s count start

unfoldable pub free_page : Pmm → ℕ → Pmm
free_page s addr =
    let aligned = if addr % page_size == 0 then addr else align_down addr in
    let pfn = addr_to_pfn aligned in
    if addr == 0
    then s
    else if leb max_pages pfn
    then s
    else if not (bitmap_test s.bitmap pfn)
    then s
    else record s {
      bitmap = bitmap_clear s.bitmap pfn;
      free_count = add64 s.free_count 1;
      first_free_hint = if ltb pfn s.first_free_hint then pfn else s.first_free_hint;
    }

-- `f` at the addresses `addr + i * PAGE_SIZE` of `n` pages, from `i` on.
pub for_pages : (Pmm → ℕ → Pmm) → Pmm → ℕ → ℕ → ℕ → Pmm
for_pages f s addr i zero = s
for_pages f s addr i (suc n) = for_pages f (f s (add64 addr (i * page_size))) addr (i + 1) n

unfoldable pub free_pages : Pmm → ℕ → ℕ → Pmm
free_pages s addr count = for_pages free_page s addr 0 count

unfoldable pub reserve_page : Pmm → ℕ → Pmm
reserve_page s addr =
    let pfn = addr_to_pfn addr in
    if leb max_pages pfn
    then s
    else if not (bitmap_test s.bitmap pfn)
    then record s {
      bitmap = bitmap_set s.bitmap pfn;
      free_count = sub64 s.free_count 1;
      reserved_pages = add64 s.reserved_pages 1;
    }
    else s

unfoldable pub reserve_pages : Pmm → ℕ → ℕ → Pmm
reserve_pages s addr count = for_pages reserve_page s addr 0 count

unfoldable pub unreserve_page : Pmm → ℕ → Pmm
unreserve_page s addr =
    let pfn = addr_to_pfn addr in
    if leb max_pages pfn
    then s
    else if bitmap_test s.bitmap pfn
    then record s {
      bitmap = bitmap_clear s.bitmap pfn;
      free_count = add64 s.free_count 1;
      reserved_pages = if ltb 0 s.reserved_pages then s.reserved_pages - 1 else s.reserved_pages;
    }
    else s

unfoldable pub is_page_free : Pmm → ℕ → Bool
is_page_free s addr =
    let pfn = addr_to_pfn addr in
    if leb max_pages pfn then false else not (bitmap_test s.bitmap pfn)

-- `pmm_stats_t`
pub record PmmStats : Type 0 where
  pub total_pages : ℕ
  pub free_pages : ℕ
  pub used_pages : ℕ
  pub reserved_pages : ℕ
  pub total_memory : ℕ
  pub free_memory : ℕ

pub get_stats : Pmm → PmmStats
get_stats s = record {
  total_pages = s.total_pages;
  free_pages = s.free_count;
  used_pages = sub64 s.total_pages s.free_count;
  reserved_pages = s.reserved_pages;
  total_memory = s.total_memory;
  free_memory = (s.free_count * page_size) % u64_mod;
}
