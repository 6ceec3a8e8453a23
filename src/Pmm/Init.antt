-- ===== src/Pmm/Init.antt =====
-- `pmm_init`: the bitmap from the E820 memory map of the boot loader.
use chanux.Common.{
  ℕ, zero, suc, ◌+◌, ◌-◌, ◌/◌, ◌&&◌, ◌==◌, ltb, if◌then◌else◌, Option, none, some, List, [], ◌∷◌,
  add64,
}
use chanux.Bitmap.{bitmap_clear, find_free}
use chanux.Pmm.{Pmm, page_size, max_pages, addr_to_pfn, align_up, align_down, reserve_pages}

-- `memory_map_entry_t`; its attributes are not read.
pub record MemoryMapEntry : Type 0 where
  pub base : ℕ
  pub length : ℕ
  pub type : ℕ

abbrev pub memory_type_usable : ℕ
memory_type_usable = 1

-- `memset(pmm_bitmap, 0xFF, MM_PMM_BITMAP_SIZE)` over the variables' initial values
abbrev pub all_used : Pmm
all_used = record {
  bitmap = λ _. 255;
  total_pages = 0;
  free_count = 0;
  reserved_pages = 0;
  first_free_hint = 0;
  total_memory = 0;
}

-- One round of the loop over the addresses of a region.
unfoldable pub release_page : Pmm → ℕ → Pmm
release_page s addr =
    let pfn = addr_to_pfn addr in
    if ltb pfn max_pages
    then record s { bitmap = bitmap_clear s.bitmap pfn; free_count = add64 s.free_count 1 }
    else s

-- `n` rounds of it; `addr` stays below the region's end, so it does not wrap.
unfoldable pub release_pages : Pmm → ℕ → ℕ → Pmm
release_pages s addr zero = s
release_pages s addr (suc n) = release_pages (release_page s addr) (addr + page_size) n

abbrev pub region_start : MemoryMapEntry → ℕ
region_start e = align_up e.base

abbrev pub region_end : MemoryMapEntry → ℕ
region_end e = align_down (add64 e.base e.length)

-- Both ends are page-aligned, so the loop runs once for each page between them.
unfoldable pub add_region : Pmm → MemoryMapEntry → Pmm
add_region s e =
    let start = region_start e in
    let end = region_end e in
    let freed = release_pages s start ((end - start) / page_size) in
    if e.type == memory_type_usable && ltb start end
    then record freed { total_memory = add64 freed.total_memory (end - start) }
    else s

unfoldable pub add_regions : Pmm → List MemoryMapEntry → Pmm
add_regions s [] = s
add_regions s (e ∷ es) = add_regions (add_region s e) es

-- The first megabyte, the kernel, the bitmap and the page tables, 256 pages each.
unfoldable pub reserve_system : Pmm → Pmm
reserve_system s =
    let low = reserve_pages s 0 256 in
    let kernel = reserve_pages low 0x100000 256 in
    let bitmap = reserve_pages kernel 0x200000 256 in reserve_pages bitmap 0x300000 256

unfoldable pub find_hint : Pmm → Pmm
find_hint s = record s {
  first_free_hint = elim (find_free s.bitmap max_pages 0) [ some pfn ↦ pfn | none ↦ 0 ];
}

-- `none` is the panic of an absent or empty memory map.
unfoldable pub init : List MemoryMapEntry → Option Pmm
init [] = none
init (e ∷ es) =
    let freed = add_regions all_used (e ∷ es) in
    some (find_hint (reserve_system (record freed { total_pages = freed.free_count })))
