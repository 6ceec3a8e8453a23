-- ===== src/Pmm/AllocRun.antt =====
-- `pmm_alloc_pages`.
use chanux.Common.{
  ℕ, zero, suc, ◌+◌, ◌-◌, ◌*◌, ◌%◌, ◌^◌, ◌<◌, ◌≤◌, ◌≡◌, refl, true, false, ltb, leb, ◌&&◌,
  if◌then◌else◌, ◌⊎◌, inl, inr, arith, Bool-cases, ne→==,
}
use chanux.Bitmap.{bitmap_test, count_free}
use chanux.Bitmap.Count.{count_free-le}
use chanux.Pmm.{Pmm, page_size, max_pages, find_run, set_run, take_run, search_run, alloc_pages}
use chanux.Pmm.Valid.{IsValid}
use chanux.Pmm.Runs.{
  AllFree, all_free, all_free→AllFree, AllFree→all_free, find_run-some, find_run_complete,
  set_run-IsBytes, test-set_run, count_free-set_run,
}

-- The `count` pages from `start` on were free and are now used, and no other page has changed.
pub record TakesRun (s s' : Pmm) (start count : ℕ) : Type 0 where
  pub in_range : start + count ≤ max_pages
  pub now :
      (r : ℕ)
      → bitmap_test s'.bitmap r
        ≡ (if leb start r && ltb r (start + count) then true else bitmap_test s.bitmap r)
  pub were_free : all_free s.bitmap start count ≡ true
  pub counted : s'.free_count + count ≡ s.free_count
  pub valid : IsValid s'

-- The call took a run, and returned its address, which is not 0.
abbrev pub IsRunTaken : Pmm → ℕ → ℕ × Pmm → Type 0
IsRunTaken s count r =
    (start : ℕ) × TakesRun s r.1 start count × (r.0 ≡ start * page_size) × (0 < r.0)

module _ (s : Pmm) (v : IsValid s) (count : ℕ) where
  run_positive : (start : ℕ) → AllFree s.bitmap start count → 0 < count → 0 < start
  run_positive zero free h =
      absurd (ground (arith, free 0 (omega arith) (omega arith), v.zero_used))
  run_positive (suc n) free h = omega arith

  take_run-TakesRun :
      (start : ℕ)
      → 0 < count
      → AllFree s.bitmap start count
      → start + count ≤ max_pages
      → TakesRun s (take_run s count start).1 start count
  unfolding take_run
  take_run-TakesRun start pos free h = record {
    in_range = h;
    now = test-set_run count start s.bitmap v.bytes;
    were_free = AllFree→all_free s.bitmap start count free;
    counted = less.0;
    valid = record {
      bytes = set_run-IsBytes count start s.bitmap v.bytes;
      counted = less.1;
      hint_in = h;
      zero_used = ground (arith, v.zero_used, test-set_run count start s.bitmap v.bytes 0);
    };
  }
    where
      less :
          ((take_run s count start).1.free_count + count ≡ s.free_count)
          × ((take_run s count start).1.free_count
              ≡ count_free (set_run s.bitmap start count) max_pages)
      less = omega (
        arith,
        v.counted,
        count_free-set_run count start s.bitmap max_pages v.bytes h free,
        count_free-le s.bitmap max_pages,
      )

  abbrev first_search : ℕ × ℕ
  first_search = find_run s.bitmap count (max_pages - s.first_free_hint) s.first_free_hint 0 0

  abbrev second_search : ℕ × ℕ
  second_search = find_run s.bitmap count s.first_free_hint 0 first_search.0 0

  search_run-first : ltb first_search.1 count ≡ false → search_run s count ≡ first_search
  unfolding search_run
  search_run-first h = rw h

  search_run-second : ltb first_search.1 count ≡ true → search_run s count ≡ second_search
  unfolding search_run
  search_run-second h = rw h

  abbrev IsFreeRun : ℕ × ℕ → Type 0
  IsFreeRun r = AllFree s.bitmap r.0 count × (r.0 + count ≤ max_pages)

  -- The search gives a run of free pages, if it gives `count` of them.
  search_run-some :
      0 < count → ltb (search_run s count).1 count ≡ false → IsFreeRun (search_run s count)
  search_run-some pos h = elim (Bool-cases (ltb first_search.1 count)) [
    | inl more ↦
        let e = search_run-second more in
        rw e (
          find_run-some s.bitmap count s.first_free_hint 0 first_search.0 max_pages
            (omega (arith, v.hint_in)) pos (rw e at h))
    | inr enough ↦ rw (search_run-first enough) (
        find_run-some s.bitmap count _ s.first_free_hint 0 max_pages (omega (arith, v.hint_in)) pos
          enough)
  ]

  -- It misses no run of free pages that lies on one side of the hint.
  search_run_complete :
      (a : ℕ)
      → AllFree s.bitmap a count
      → a + count ≤ max_pages
      → (a + count ≤ s.first_free_hint) ⊎ (s.first_free_hint ≤ a)
      → ltb (search_run s count).1 count ≡ false
  search_run_complete a free h side = elim (Bool-cases (ltb first_search.1 count)) [
    | inr enough ↦ rw (search_run-first enough) enough
    | inl more ↦ rw (search_run-second more) (elim side [
      | inl low ↦
          find_run_complete s.bitmap count a s.first_free_hint 0 first_search.0 0 free (omega arith)
            (omega arith)
      | inr high ↦ absurd (
          cc (
            find_run_complete s.bitmap count a (max_pages - s.first_free_hint) s.first_free_hint 0 0
              free (omega arith) (omega arith)))
    ])
  ]

  alloc_pages-some :
      1 < count
      → ltb (search_run s count).1 count ≡ false
      → alloc_pages s count ≡ take_run s count (search_run s count).0
  unfolding alloc_pages
  alloc_pages-some h enough = rw (ne→== count 0 (omega arith), ne→== count 1 (omega arith), enough)

  alloc_pages-none :
      1 < count → ltb (search_run s count).1 count ≡ true → alloc_pages s count ≡ (0, s)
  unfolding alloc_pages
  alloc_pages-none h few = rw (ne→== count 0 (omega arith), ne→== count 1 (omega arith), few)

  take_run-address :
      (start : ℕ)
      → start + count ≤ max_pages
      → (take_run s count start).0 ≡ start * page_size % 2 ^ 64
  unfolding take_run
  take_run-address start h = refl

  taken :
      1 < count
      → ltb (search_run s count).1 count ≡ false
      → IsRunTaken s count (alloc_pages s count)
  taken h enough =
      let start = (search_run s count).0 in
      let r = search_run-some (omega arith) enough in
      rw (alloc_pages-some h enough) (
        (search_run s count).0,
        take_run-TakesRun (search_run s count).0 (omega arith) r.0 r.1,
        omega (arith, take_run-address start r.1, r.1),
        omega (arith, take_run-address start r.1, r.1, run_positive start r.0 (omega arith)),
      )

-- In a valid state pmm_alloc_pages of two pages or more either takes a run of that many pages of
-- the bitmap that were all free, keeps the invariant and returns the address of the first, which is
-- not 0; or returns 0 and changes nothing.
pub alloc_pages_lem :
    (s : Pmm) (count : ℕ)
    → IsValid s
    → 1 < count
    → IsRunTaken s count (alloc_pages s count) ⊎ (alloc_pages s count ≡ (0, s))
alloc_pages_lem s count v h = elim (Bool-cases (ltb (search_run s count).1 count)) [
  | inl few ↦ inr (alloc_pages-none s v count h few)
  | inr enough ↦ inl (taken s v count h enough)
]

-- In a valid state pmm_alloc_pages of two pages or more takes a run whenever there is a run of free
-- pages of that length inside the bitmap that ends at or below the search hint or starts at or
-- above it.
pub alloc_pages_complete :
    (s : Pmm) (count a : ℕ)
    → IsValid s
    → 1 < count
    → all_free s.bitmap a count ≡ true
    → a + count ≤ max_pages
    → (a + count ≤ s.first_free_hint) ⊎ (s.first_free_hint ≤ a)
    → IsRunTaken s count (alloc_pages s count)
alloc_pages_complete s count a v h free within side =
    taken s v count h
      (search_run_complete s v count a (all_free→AllFree s.bitmap a count free) within side)
