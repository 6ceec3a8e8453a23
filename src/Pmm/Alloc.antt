-- ===== src/Pmm/Alloc.antt =====
-- `pmm_alloc_page`.
use chanux.Common.{
  ℕ, ◌-◌, ◌*◌, ◌<◌, ◌≤◌, ◌≡◌, refl, false, Option, none, some, Option-cases, ◌⊎◌, inl, inr, ◌∙◌,
  arith,
}
use chanux.Bitmap.{bitmap_test, find_free}
use chanux.Bitmap.Search.{
  IsFirstFree, AllSet-append, count_free-AllSet, find_free-some, find_free-none,
}
use chanux.Pmm.{Pmm, page_size, max_pages, pfn_to_addr, take_page, alloc_page}
use chanux.Pmm.Valid.{IsValid, Takes, set-Takes}

take_page-Takes :
    (s : Pmm) (q : ℕ)
    → IsValid s
    → q < max_pages
    → bitmap_test s.bitmap q ≡ false
    → Takes s (take_page s q) q
unfolding take_page
take_page-Takes s q v h free = set-Takes s (take_page s q) q v h free refl refl (omega arith)

-- A call's result either is the address of a page that it takes, or means that no page is free.
abbrev pub Outcome : Pmm → ℕ × Pmm → Type 0
Outcome s r =
    ((q : ℕ) × Takes s r.1 q × (r.0 ≡ q * page_size) × (0 < r.0))
    ⊎ ((r.0 ≡ 0) × (r.1 ≡ s) × (s.free_count ≡ 0))

take_page-Outcome :
    (s : Pmm) (i j q : ℕ)
    → IsValid s
    → IsFirstFree s.bitmap i j q
    → j ≤ max_pages
    → Outcome s (pfn_to_addr q, take_page s q)
take_page-Outcome s i j q v f h =
    inl (q, take_page-Takes s q v below f.free, omega arith, omega (arith, positive))
  where
    below : q < max_pages
    below = omega (arith, f.before)

    positive : 0 < q
    positive = grind (arith, f.free, v.zero_used)

alloc_page-none :
    (s : Pmm)
    → IsValid s
    → find_free s.bitmap (max_pages - s.first_free_hint) s.first_free_hint ≡ none
    → find_free s.bitmap s.first_free_hint 0 ≡ none
    → s.free_count ≡ 0
alloc_page-none s v high low =
    v.counted
    ∙ count_free-AllSet s.bitmap max_pages (
        AllSet-append s.bitmap 0 s.first_free_hint max_pages
          (λ r a b. find_free-none s.bitmap s.first_free_hint 0 low r a (omega arith))
          (λ r a b. find_free-none s.bitmap _ s.first_free_hint high r a (omega arith)))

module _ (s : Pmm) where
  abbrev high_search : Option ℕ
  high_search = find_free s.bitmap (max_pages - s.first_free_hint) s.first_free_hint

  abbrev low_search : Option ℕ
  low_search = find_free s.bitmap s.first_free_hint 0

  alloc_page-high : (q : ℕ) → high_search ≡ some q → alloc_page s ≡ (pfn_to_addr q, take_page s q)
  unfolding alloc_page
  alloc_page-high q h = ground arith

  alloc_page-low :
      (q : ℕ)
      → high_search ≡ none
      → low_search ≡ some q
      → alloc_page s ≡ (pfn_to_addr q, take_page s q)
  unfolding alloc_page
  alloc_page-low q h l = ground arith

  alloc_page-full : high_search ≡ none → low_search ≡ none → alloc_page s ≡ (0, s)
  unfolding alloc_page
  alloc_page-full h l = ground arith

-- In a valid state pmm_alloc_page either returns the address of a page of the bitmap that was free
-- and is not page 0, sets exactly that bit, lowers the free count by one and keeps the invariant;
-- or returns 0 and changes nothing, and then the free count is 0.
pub alloc_page_lem : (s : Pmm) → IsValid s → Outcome s (alloc_page s)
alloc_page_lem s v = elim (Option-cases (high_search s)) [
  | inl high ↦ elim (Option-cases (low_search s)) [
    | inl low ↦ rw (alloc_page-full s high low) (inr (refl, refl, alloc_page-none s v high low))
    | inr (q, low) ↦
        rw (alloc_page-low s q high low)
          (take_page-Outcome s _ _ q v (find_free-some _ _ _ q low) (omega arith))
  ]
  | inr (q, high) ↦
      rw (alloc_page-high s q high)
        (take_page-Outcome s _ _ q v (find_free-some _ _ _ q high) (omega arith))
]
