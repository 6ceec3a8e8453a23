-- ===== src/Pmm/Release.antt =====
-- `pmm_free_page`, `pmm_reserve_page` and `pmm_unreserve_page`.
use chanux.Common.{
  ℕ, ◌-◌, ◌<◌, ◌≤◌, ◌≡◌, refl, Bool, true, false, ltb, if◌then◌else◌, ◌⊎◌, inl, inr, arith, add64,
  sub64,
}
use chanux.Bitmap.{bitmap_test, bitmap_set, bitmap_clear}
use chanux.Pmm.{
  Pmm, page_size, max_pages, addr_to_pfn, free_page, reserve_page, unreserve_page, alloc_page,
}
use chanux.Pmm.Valid.{IsValid, Takes, Releases, set-Takes, clear-Releases}
use chanux.Pmm.Alloc.{alloc_page_lem}

-- The page is out of range, or its bit is already as the call would leave it: nothing changes.
abbrev pub Ignores : Pmm → Pmm → ℕ → Bool → Type 0
Ignores s s' q bit = (s' ≡ s) × ((max_pages ≤ q) ⊎ (bitmap_test s.bitmap q ≡ bit))

-- In range, the page is free or used.
page_cases :
    (s : Pmm) (q : ℕ)
    → ((max_pages ≤ q) ⊎ (bitmap_test s.bitmap q ≡ false))
      ⊎ ((q < max_pages) × (bitmap_test s.bitmap q ≡ true))
page_cases s q = ground arith

page_cases_set :
    (s : Pmm) (q : ℕ)
    → ((max_pages ≤ q) ⊎ (bitmap_test s.bitmap q ≡ true))
      ⊎ ((q < max_pages) × (bitmap_test s.bitmap q ≡ false))
page_cases_set s q = ground arith

module _ (s : Pmm) (v : IsValid s) (addr : ℕ) where
  freed : Pmm
  freed = record s {
    bitmap = bitmap_clear s.bitmap (addr_to_pfn addr);
    free_count = add64 s.free_count 1;
    first_free_hint =
        if ltb (addr_to_pfn addr) s.first_free_hint then addr_to_pfn addr else s.first_free_hint;
  }

  free_page-used :
      page_size ≤ addr
      → addr_to_pfn addr < max_pages
      → bitmap_test s.bitmap (addr_to_pfn addr) ≡ true
      → free_page s addr ≡ freed
  unfolding free_page freed
  free_page-used h r used = ground arith

  free_page-ignored :
      (max_pages ≤ addr_to_pfn addr) ⊎ (bitmap_test s.bitmap (addr_to_pfn addr) ≡ false)
      → free_page s addr ≡ s
  unfolding free_page
  free_page-ignored h = ground arith

  reserved : Pmm
  reserved = record s {
    bitmap = bitmap_set s.bitmap (addr_to_pfn addr);
    free_count = sub64 s.free_count 1;
    reserved_pages = add64 s.reserved_pages 1;
  }

  reserve_page-free :
      addr_to_pfn addr < max_pages
      → bitmap_test s.bitmap (addr_to_pfn addr) ≡ false
      → reserve_page s addr ≡ reserved
  unfolding reserve_page reserved
  reserve_page-free r free = ground arith

  reserve_page-ignored :
      (max_pages ≤ addr_to_pfn addr) ⊎ (bitmap_test s.bitmap (addr_to_pfn addr) ≡ true)
      → reserve_page s addr ≡ s
  unfolding reserve_page
  reserve_page-ignored h = ground arith

  unreserved : Pmm
  unreserved = record s {
    bitmap = bitmap_clear s.bitmap (addr_to_pfn addr);
    free_count = add64 s.free_count 1;
    reserved_pages = if ltb 0 s.reserved_pages then s.reserved_pages - 1 else s.reserved_pages;
  }

  unreserve_page-used :
      addr_to_pfn addr < max_pages
      → bitmap_test s.bitmap (addr_to_pfn addr) ≡ true
      → unreserve_page s addr ≡ unreserved
  unfolding unreserve_page unreserved
  unreserve_page-used r used = ground arith

  unreserve_page-ignored :
      (max_pages ≤ addr_to_pfn addr) ⊎ (bitmap_test s.bitmap (addr_to_pfn addr) ≡ false)
      → unreserve_page s addr ≡ s
  unfolding unreserve_page
  unreserve_page-ignored h = ground arith

  freed-Releases :
      page_size ≤ addr
      → addr_to_pfn addr < max_pages
      → bitmap_test s.bitmap (addr_to_pfn addr) ≡ true
      → Releases s freed (addr_to_pfn addr)
  unfolding freed
  freed-Releases h r used =
      clear-Releases s _ (addr_to_pfn addr) v r used (omega arith) refl refl
        (ground (arith, v.hint_in))

  unreserved-Releases :
      page_size ≤ addr
      → addr_to_pfn addr < max_pages
      → bitmap_test s.bitmap (addr_to_pfn addr) ≡ true
      → Releases s unreserved (addr_to_pfn addr)
  unfolding unreserved
  unreserved-Releases h r used =
      clear-Releases s _ (addr_to_pfn addr) v r used (omega arith) refl refl v.hint_in

  reserved-Takes :
      addr_to_pfn addr < max_pages
      → bitmap_test s.bitmap (addr_to_pfn addr) ≡ false
      → Takes s reserved (addr_to_pfn addr)
  unfolding reserved
  reserved-Takes r free = set-Takes s _ (addr_to_pfn addr) v r free refl refl v.hint_in

  -- In a valid state, for an address of 4096 or above, pmm_free_page clears the bit of a used page
  -- of the bitmap, raises the free count by one and keeps the invariant; or it changes nothing, and
  -- the page was free already or is outside the bitmap.
  pub free_page_lem :
      page_size ≤ addr
      → Releases s (free_page s addr) (addr_to_pfn addr)
        ⊎ Ignores s (free_page s addr) (addr_to_pfn addr) false
  free_page_lem h = elim (page_cases s (addr_to_pfn addr)) [
    | inl same ↦ inr (free_page-ignored same, same)
    | inr (r, used) ↦ inl (rw (free_page-used h r used) (freed-Releases h r used))
  ]

  -- In a valid state, for an address of 4096 or above, pmm_unreserve_page clears the bit of a used
  -- page of the bitmap, raises the free count by one and keeps the invariant; or it changes
  -- nothing, and the page was free already or is outside the bitmap.
  pub unreserve_page_lem :
      page_size ≤ addr
      → Releases s (unreserve_page s addr) (addr_to_pfn addr)
        ⊎ Ignores s (unreserve_page s addr) (addr_to_pfn addr) false
  unreserve_page_lem h = elim (page_cases s (addr_to_pfn addr)) [
    | inl same ↦ inr (unreserve_page-ignored same, same)
    | inr (r, used) ↦ inl (rw (unreserve_page-used r used) (unreserved-Releases h r used))
  ]

  -- In a valid state pmm_reserve_page sets the bit of a free page of the bitmap, lowers the free
  -- count by one and keeps the invariant; or it changes nothing, and the page was used already or
  -- is outside the bitmap.
  pub reserve_page_lem :
      Takes s (reserve_page s addr) (addr_to_pfn addr)
      ⊎ Ignores s (reserve_page s addr) (addr_to_pfn addr) true
  reserve_page_lem = elim (page_cases_set s (addr_to_pfn addr)) [
    | inl same ↦ inr (reserve_page-ignored same, same)
    | inr (r, free) ↦ inl (rw (reserve_page-free r free) (reserved-Takes r free))
  ]

module _ (s s' s'' : Pmm) (q : ℕ) (t : Takes s s' q) where
  Takes-Releases :
      Releases s' s'' q
      → ((r : ℕ) → bitmap_test s''.bitmap r ≡ bitmap_test s.bitmap r)
        × (s''.free_count ≡ s.free_count)
        × IsValid s''
  Takes-Releases f = (
    λ r. ground (arith, t.now r, f.now r, t.was_free),
    omega (arith, t.counted, f.counted),
    f.valid,
  )

  not-Ignores : ¬ Ignores s' s'' q false
  not-Ignores (same, why) = ground (arith, why, t.in_range, t.now q)

-- In a valid state with a free page, pmm_alloc_page and then pmm_free_page of its result leave
-- every bit and the free count as they were, and the state valid.
pub free_page-alloc_page :
    (s : Pmm)
    → IsValid s
    → 0 < s.free_count
    → let (addr, s') = alloc_page s in
      let s'' = free_page s' addr in
      ((r : ℕ) → bitmap_test s''.bitmap r ≡ bitmap_test s.bitmap r)
      × (s''.free_count ≡ s.free_count)
      × IsValid s''
free_page-alloc_page s v h = elim (alloc_page_lem s v) [
  | inl (q, t, e, pos) ↦
      let same_page : addr_to_pfn (alloc_page s).0 ≡ q = omega arith in
      elim (free_page_lem (alloc_page s).1 t.valid (alloc_page s).0 (omega arith)) [
        | inl f ↦ Takes-Releases s _ _ q t (rw same_page at f)
        | inr ignored ↦ absurd (not-Ignores s _ _ q t (rw same_page at ignored))
      ]
  | inr (e, same, none_free) ↦ absurd (omega arith)
]
