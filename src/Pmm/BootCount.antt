-- ===== src/Pmm/BootCount.antt =====
-- `pmm_init`: its counters agree with the bitmap.
use chanux.Common.{
  ℕ, zero, suc, ◌+◌, ◌*◌, ◌%◌, ◌<◌, ◌≤◌, ◌≡◌, sym, true, ◌==◌, ltb, leb, ◌&&◌, if◌then◌else◌, inl,
  inr, arith, Bool-cases, Option-cases, some, List, [], ◌∷◌, add64,
}
use chanux.Bitmap.{IsBytes, bitmap_test, count_free, find_free}
use chanux.Bitmap.Count.{count_free-set, count_free-clear, count_free-le}
use chanux.Bitmap.Search.{count_free-AllSet, find_free-some}
use chanux.Pmm.{Pmm, page_size, max_pages, addr_to_pfn, for_pages, reserve_page, reserve_pages}
use chanux.Pmm.Init.{
  MemoryMapEntry, memory_type_usable, all_used, release_page, release_pages, region_start,
  region_end, add_region, add_regions, reserve_system, find_hint, init,
}
use chanux.Pmm.Valid.{IsValid}
use chanux.Pmm.Boot.{
  covers, covered, in_pages, release_page-IsBytes, reserve_page-IsBytes, test-release_page,
  test-add_region, add_region-IsBytes, add_regions-IsBytes, test-all_used, all_used-IsBytes,
  init-bitmap,
}

-- The free count is the number of clear bits.
abbrev IsCounted : Pmm → Type 0
IsCounted s = s.free_count ≡ count_free s.bitmap max_pages

release_page-IsCounted :
    (s : Pmm) (addr : ℕ)
    → IsBytes s.bitmap
    → (addr_to_pfn addr < max_pages → bitmap_test s.bitmap (addr_to_pfn addr) ≡ true)
    → IsCounted s
    → IsCounted (release_page s addr)
unfolding release_page
release_page-IsCounted s addr v used c = elim (Bool-cases (ltb (addr_to_pfn addr) max_pages)) [
  | inl inside ↦ rw inside (
      omega (
        arith,
        c,
        count_free-clear s.bitmap v (addr_to_pfn addr) max_pages (ground arith)
            (used (ground arith)),
        count_free-le s.bitmap max_pages,
      ))
  | inr outside ↦ rw outside c
]

reserve_page-IsCounted :
    (s : Pmm) (addr : ℕ) → IsBytes s.bitmap → IsCounted s → IsCounted (reserve_page s addr)
unfolding reserve_page
reserve_page-IsCounted s addr v c = elim (Bool-cases (leb max_pages (addr_to_pfn addr))) [
  | inl outside ↦ rw outside c
  | inr inside ↦ elim (Bool-cases (bitmap_test s.bitmap (addr_to_pfn addr))) [
    | inl used ↦ rw (inside, used) c
    | inr free ↦
        rw (inside, free)
          (omega (
            arith,
            c,
            count_free-set s.bitmap v (addr_to_pfn addr) max_pages (ground arith) free,
            count_free-le s.bitmap max_pages,
          ))
  ]
]

for_pages-IsCounted :
    (n i : ℕ) (s : Pmm) (addr : ℕ)
    → IsBytes s.bitmap
    → IsCounted s
    → IsCounted (for_pages reserve_page s addr i n)
unfolding for_pages
for_pages-IsCounted zero i s addr v c = c
for_pages-IsCounted (suc n) i s addr v c =
    let here = add64 addr (i * page_size) in
    for_pages-IsCounted n (i + 1) (reserve_page s here) addr (reserve_page-IsBytes s here v)
      (reserve_page-IsCounted s here v c)

for_pages-IsBytes :
    (n i : ℕ) (s : Pmm) (addr : ℕ)
    → IsBytes s.bitmap
    → IsBytes (for_pages reserve_page s addr i n).bitmap
unfolding for_pages
for_pages-IsBytes zero i s addr v = v
for_pages-IsBytes (suc n) i s addr v =
    for_pages-IsBytes n (i + 1) (reserve_page s (add64 addr (i * page_size))) addr
      (reserve_page-IsBytes s (add64 addr (i * page_size)) v)

reserve_region-IsCounted :
    (s : Pmm) (addr : ℕ)
    → IsBytes s.bitmap × IsCounted s
    → IsBytes (reserve_pages s addr 256).bitmap × IsCounted (reserve_pages s addr 256)
unfolding reserve_pages
reserve_region-IsCounted s addr (v, c) =
    (for_pages-IsBytes 256 0 s addr v, for_pages-IsCounted 256 0 s addr v c)

reserve_system-IsCounted :
    (s : Pmm)
    → IsBytes s.bitmap × IsCounted s
    → IsBytes (reserve_system s).bitmap × IsCounted (reserve_system s)
unfolding reserve_system
reserve_system-IsCounted s h = reserve_region-IsCounted _ 0x300000 (
    reserve_region-IsCounted _ 0x200000
      (reserve_region-IsCounted _ 0x100000 (reserve_region-IsCounted s 0 h)))

-- A region whose pages are all used is released with an exact count.
release_pages-IsCounted :
    (n : ℕ) (s : Pmm) (start : ℕ)
    → IsBytes s.bitmap
    → start % page_size ≡ 0
    → ((r : ℕ) → r < max_pages → in_pages start n r ≡ true → bitmap_test s.bitmap r ≡ true)
    → IsCounted s
    → IsCounted (release_pages s start n)
unfolding release_pages
release_pages-IsCounted zero s start v a used c = c
release_pages-IsCounted (suc n) s start v a used c =
    release_pages-IsCounted n (release_page s start) (start + page_size)
      (release_page-IsBytes s start v) (omega arith)
      (λ r h p. ground (arith, test-release_page r h s start v, used r h (ground arith)))
      (release_page-IsCounted s start v (λ h. used (addr_to_pfn start) h (ground arith)) c)

add_region-IsCounted :
    (s : Pmm) (e : MemoryMapEntry)
    → IsBytes s.bitmap
    → ((r : ℕ) → r < max_pages → covers e r ≡ true → bitmap_test s.bitmap r ≡ true)
    → IsCounted s
    → IsCounted (add_region s e)
unfolding add_region covers
add_region-IsCounted s e v used c =
    elim (Bool-cases (e.type == memory_type_usable && ltb (region_start e) (region_end e))) [
      | inl usable ↦ rw usable (
          release_pages-IsCounted _ s (region_start e) v (omega arith)
            (λ r h p. used r h (ground arith)) c)
      | inr other ↦ rw other c
    ]

-- How many entries of the map give page `r` as usable.
unfoldable pub count_covers : List MemoryMapEntry → ℕ → ℕ
count_covers [] r = 0
count_covers (e ∷ es) r = (if covers e r then 1 else 0) + count_covers es r

covered→count : (es : List MemoryMapEntry) (r : ℕ) → covered es r ≡ true → 0 < count_covers es r
unfolding covered count_covers
covered→count [] r h = absurd (ground arith)
covered→count (e ∷ es) r h = ground (arith, covered→count es r)

add_regions-IsCounted :
    (es : List MemoryMapEntry) (s : Pmm)
    → IsBytes s.bitmap
    → ((r : ℕ) → count_covers es r ≤ 1)
    → ((r : ℕ) → r < max_pages → covered es r ≡ true → bitmap_test s.bitmap r ≡ true)
    → IsCounted s
    → IsCounted (add_regions s es)
unfolding add_regions covered count_covers
add_regions-IsCounted [] s v once used c = c
add_regions-IsCounted (e ∷ es) s v once used c =
    add_regions-IsCounted es (add_region s e) (add_region-IsBytes s e v)
      (λ r. omega (arith, once r))
      (λ r h p.
        ground
          (arith, test-add_region r h s e v, used r h (ground arith), once r, covered→count es r p))
      (add_region-IsCounted s e v (λ r h p. used r h (ground arith)) c)

all_used-IsCounted : IsCounted all_used
all_used-IsCounted = sym (count_free-AllSet all_used.bitmap max_pages (λ r p q. test-all_used r))

find_hint-le : (s : Pmm) → (find_hint s).first_free_hint ≤ max_pages
unfolding find_hint
find_hint-le s = elim (Option-cases (find_free s.bitmap max_pages 0)) [
  | inl nothing ↦ rw (nothing, find_hint) (omega arith)
  | inr (q, found) ↦ rw (found, find_hint) (omega (arith, (find_free-some _ _ _ q found).before))
]

find_hint-IsValid :
    (s : Pmm)
    → IsBytes s.bitmap × IsCounted s
    → bitmap_test (find_hint s).bitmap 0 ≡ true
    → IsValid (find_hint s)
unfolding find_hint
find_hint-IsValid s h z = record {
  bytes = h.0;
  counted = h.1;
  hint_in = find_hint-le s;
  zero_used = z;
}

-- If no page lies in two usable regions of the memory map and pmm_init succeeds, it ends in a valid
-- state: the free count is the number of clear bits, the hint is in range and page 0 is used.
pub init-IsValid :
    (es : List MemoryMapEntry) {s : Pmm}
    → ((r : ℕ) → count_covers es r ≤ 1)
    → init es ≡ some s
    → IsValid s
unfolding init
init-IsValid [] once e = absurd (ground arith)
init-IsValid (e ∷ es) {s} once eq =
    let freed = add_regions all_used (e ∷ es) in
    let started = record freed { total_pages = freed.free_count } in
    let same : find_hint (reserve_system started) ≡ s = ground arith in
    rw same at (
      find_hint-IsValid (reserve_system started)
        (reserve_system-IsCounted started (
          add_regions-IsBytes (e ∷ es) all_used all_used-IsBytes,
          add_regions-IsCounted (e ∷ es) all_used all_used-IsBytes once (λ r p q. test-all_used r)
              all_used-IsCounted,
        ))
        (rw same (init-bitmap (e ∷ es) 0 eq (omega arith))))
