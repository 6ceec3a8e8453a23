-- ===== src/Pmm/Boot.antt =====
-- `pmm_init`: which pages are free after it.
use chanux.Common.{
  ℕ, zero, suc, ◌+◌, ◌-◌, ◌*◌, ◌/◌, ◌%◌, ◌^◌, ◌<◌, ◌≡◌, refl, Bool, true, false, ◌==◌, ltb, leb,
  ◌&&◌, ◌||◌, not, if◌then◌else◌, inl, inr, arith, Bool-cases, some, List, [], ◌∷◌, add64,
}
use chanux.Bitmap.{IsBytes, bitmap_test}
use chanux.Bitmap.Bytes.{bit_test-full}
use chanux.Bitmap.Laws.{test-set, test-clear, bitmap_set-IsBytes, bitmap_clear-IsBytes}
use chanux.Pmm.{Pmm, page_size, max_pages, addr_to_pfn, for_pages, reserve_page, reserve_pages}
use chanux.Pmm.Init.{
  MemoryMapEntry, memory_type_usable, all_used, release_page, release_pages, region_start,
  region_end, add_region, add_regions, reserve_system, find_hint, init,
}

-- The page lies wholly in a usable region of the memory map.
unfoldable pub covers : MemoryMapEntry → ℕ → Bool
covers e r =
    e.type == memory_type_usable
    && leb (region_start e) (r * page_size)
    && ltb (r * page_size) (region_end e)

unfoldable pub covered : List MemoryMapEntry → ℕ → Bool
covered [] r = false
covered (e ∷ es) r = covers e r || covered es r

pub release_page-IsBytes :
    (s : Pmm) (addr : ℕ) → IsBytes s.bitmap → IsBytes (release_page s addr).bitmap
unfolding release_page
release_page-IsBytes s addr v = elim (Bool-cases (ltb (addr_to_pfn addr) max_pages)) [
  | inl inside ↦ rw inside (bitmap_clear-IsBytes s.bitmap v (addr_to_pfn addr))
  | inr outside ↦ rw outside v
]

pub reserve_page-IsBytes :
    (s : Pmm) (addr : ℕ) → IsBytes s.bitmap → IsBytes (reserve_page s addr).bitmap
unfolding reserve_page
reserve_page-IsBytes s addr v = elim (Bool-cases (leb max_pages (addr_to_pfn addr))) [
  | inl outside ↦ rw outside v
  | inr inside ↦ elim (Bool-cases (bitmap_test s.bitmap (addr_to_pfn addr))) [
    | inl used ↦ rw (inside, used) v
    | inr free ↦ rw (inside, free) (bitmap_set-IsBytes s.bitmap v (addr_to_pfn addr))
  ]
]

-- `r` is the page of one of the `n` page addresses from `start` on.
abbrev pub in_pages : ℕ → ℕ → ℕ → Bool
in_pages start n r = leb start (r * page_size) && ltb (r * page_size) (start + n * page_size)

module _ (r : ℕ) (in_range : r < max_pages) where
  pub test-release_page :
      (s : Pmm) (addr : ℕ)
      → IsBytes s.bitmap
      → bitmap_test (release_page s addr).bitmap r
        ≡ (if addr_to_pfn addr == r then false else bitmap_test s.bitmap r)
  unfolding release_page
  test-release_page s addr v = ground (arith, test-clear s.bitmap v (addr_to_pfn addr) r)

  pub test-reserve_page :
      (s : Pmm) (addr : ℕ)
      → IsBytes s.bitmap
      → bitmap_test (reserve_page s addr).bitmap r
        ≡ (if addr_to_pfn addr == r then true else bitmap_test s.bitmap r)
  unfolding reserve_page
  test-reserve_page s addr v = ground (arith, test-set s.bitmap v (addr_to_pfn addr) r)

  test-release_pages :
      (n : ℕ) (s : Pmm) (start : ℕ)
      → IsBytes s.bitmap
      → start % page_size ≡ 0
      → bitmap_test (release_pages s start n).bitmap r
        ≡ (if in_pages start n r then false else bitmap_test s.bitmap r)
  unfolding release_pages
  test-release_pages zero s start v a = ground arith
  test-release_pages (suc n) s start v a = ground (
    arith,
    test-release_pages n (release_page s start) (start + page_size) (release_page-IsBytes s start v)
        (omega arith),
    test-release_page s start v,
  )

  test-reserve_pages :
      (n i : ℕ) (s : Pmm) (addr : ℕ)
      → IsBytes s.bitmap
      → addr % page_size ≡ 0
      → addr + (i + n) * page_size < 2 ^ 64
      → bitmap_test (for_pages reserve_page s addr i n).bitmap r
        ≡ (if in_pages (addr + i * page_size) n r then true else bitmap_test s.bitmap r)
  unfolding for_pages
  test-reserve_pages zero i s addr v a small = ground arith
  test-reserve_pages (suc n) i s addr v a small =
      let here = add64 addr (i * page_size) in
      ground (
        arith,
        test-reserve_pages n (i + 1) (reserve_page s here) addr (reserve_page-IsBytes s here v) a
            (omega arith),
        test-reserve_page s here v,
      )

pub release_pages-IsBytes :
    (n : ℕ) (s : Pmm) (start : ℕ) → IsBytes s.bitmap → IsBytes (release_pages s start n).bitmap
unfolding release_pages
release_pages-IsBytes zero s start v = v
release_pages-IsBytes (suc n) s start v =
    release_pages-IsBytes n (release_page s start) (start + page_size)
      (release_page-IsBytes s start v)

pub add_region-IsBytes :
    (s : Pmm) (e : MemoryMapEntry) → IsBytes s.bitmap → IsBytes (add_region s e).bitmap
unfolding add_region
add_region-IsBytes s e v =
    elim (Bool-cases (e.type == memory_type_usable && ltb (region_start e) (region_end e))) [
      | inl usable ↦ rw usable (release_pages-IsBytes _ s (region_start e) v)
      | inr other ↦ rw other v
    ]

pub add_regions-IsBytes :
    (es : List MemoryMapEntry) (s : Pmm) → IsBytes s.bitmap → IsBytes (add_regions s es).bitmap
unfolding add_regions
add_regions-IsBytes [] s v = v
add_regions-IsBytes (e ∷ es) s v =
    add_regions-IsBytes es (add_region s e) (add_region-IsBytes s e v)

pub for_pages-IsBytes :
    (n i : ℕ) (s : Pmm) (addr : ℕ)
    → IsBytes s.bitmap
    → IsBytes (for_pages reserve_page s addr i n).bitmap
unfolding for_pages
for_pages-IsBytes zero i s addr v = v
for_pages-IsBytes (suc n) i s addr v =
    for_pages-IsBytes n (i + 1) (reserve_page s (add64 addr (i * page_size))) addr
      (reserve_page-IsBytes s (add64 addr (i * page_size)) v)

module _ (r : ℕ) (in_range : r < max_pages) where
  pub test-add_region :
      (s : Pmm) (e : MemoryMapEntry)
      → IsBytes s.bitmap
      → bitmap_test (add_region s e).bitmap r
        ≡ (if covers e r then false else bitmap_test s.bitmap r)
  unfolding add_region covers
  test-add_region s e v =
      let pages = (region_end e - region_start e) / page_size in
      ground (arith, test-release_pages r in_range pages s (region_start e) v (omega arith))

  pub test-add_regions :
      (es : List MemoryMapEntry) (s : Pmm)
      → IsBytes s.bitmap
      → bitmap_test (add_regions s es).bitmap r
        ≡ (if covered es r then false else bitmap_test s.bitmap r)
  unfolding add_regions covered
  test-add_regions [] s v = refl
  test-add_regions (e ∷ es) s v = ground (
    arith,
    test-add_regions es (add_region s e) (add_region-IsBytes s e v),
    test-add_region s e v,
  )

  test-reserve_region :
      (s : Pmm) (addr : ℕ)
      → IsBytes s.bitmap
      → addr % page_size ≡ 0
      → addr < 2 ^ 32
      → bitmap_test (reserve_pages s addr 256).bitmap r
        ≡ (if in_pages addr 256 r then true else bitmap_test s.bitmap r)
  unfolding reserve_pages
  test-reserve_region s addr v a small =
      ground (arith, test-reserve_pages r in_range 256 0 s addr v a (omega arith))

reserve_region-IsBytes :
    (s : Pmm) (addr : ℕ) → IsBytes s.bitmap → IsBytes (reserve_pages s addr 256).bitmap
unfolding reserve_pages
reserve_region-IsBytes s addr v = for_pages-IsBytes 256 0 s addr v

pub reserve_system-IsBytes : (s : Pmm) → IsBytes s.bitmap → IsBytes (reserve_system s).bitmap
unfolding reserve_system
reserve_system-IsBytes s v = reserve_region-IsBytes _ 0x300000 (
    reserve_region-IsBytes _ 0x200000
      (reserve_region-IsBytes _ 0x100000 (reserve_region-IsBytes s 0 v)))

module _ (r : ℕ) (in_range : r < max_pages) where
  test-reserve_system :
      (s : Pmm)
      → IsBytes s.bitmap
      → bitmap_test (reserve_system s).bitmap r
        ≡ (if ltb r 1024 then true else bitmap_test s.bitmap r)
  unfolding reserve_system
  test-reserve_system s v =
      let low = reserve_pages s 0 256 in
      let kernel = reserve_pages low 0x100000 256 in
      let bitmap = reserve_pages kernel 0x200000 256 in
      let low_bytes = reserve_region-IsBytes s 0 v in
      let kernel_bytes = reserve_region-IsBytes low 0x100000 low_bytes in
      let bitmap_bytes = reserve_region-IsBytes kernel 0x200000 kernel_bytes in
      ground (
        arith,
        test-reserve_region r in_range s 0 v refl (omega arith),
        test-reserve_region r in_range low 0x100000 low_bytes refl (omega arith),
        test-reserve_region r in_range kernel 0x200000 kernel_bytes refl (omega arith),
        test-reserve_region r in_range bitmap 0x300000 bitmap_bytes refl (omega arith),
      )

pub all_used-IsBytes : IsBytes all_used.bitmap
all_used-IsBytes n = omega arith

pub test-all_used : (r : ℕ) → bitmap_test all_used.bitmap r ≡ true
unfolding bitmap_test
test-all_used r = bit_test-full (r % 8) (omega arith)

-- If pmm_init succeeds, a page of the bitmap is used exactly if it lies below 4 MB or in no usable
-- region of the memory map.
pub init-bitmap :
    (es : List MemoryMapEntry) (r : ℕ) {s : Pmm}
    → init es ≡ some s
    → r < max_pages
    → bitmap_test s.bitmap r ≡ (ltb r 1024 || not (covered es r))
unfolding init find_hint
init-bitmap [] r e h = absurd (ground arith)
init-bitmap (e ∷ es) r {s} eq h =
    let freed = add_regions all_used (e ∷ es) in
    ground (
      arith,
      test-reserve_system r h (record freed { total_pages = freed.free_count })
          (add_regions-IsBytes (e ∷ es) all_used all_used-IsBytes),
      test-add_regions r h (e ∷ es) all_used all_used-IsBytes,
      test-all_used r,
    )
