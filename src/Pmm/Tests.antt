-- ===== src/Pmm/Tests.antt =====
-- The page allocator run after a boot with one usable region, the four pages from 4 MB on.
use chanux.Common.{ℕ, ◌<◌, ◌≡◌, refl, true, false, inr, arith, some, List, [], ◌∷◌}
use chanux.Bitmap.{bitmap_test}
use chanux.Bitmap.Count.{count_free_pos}
use chanux.Pmm.{Pmm, max_pages, alloc_page, alloc_pages, free_page}
use chanux.Pmm.Init.{MemoryMapEntry, all_used, add_regions, reserve_system, find_hint, init}
use chanux.Pmm.Runs.{all_free}
use chanux.Pmm.Valid.{IsValid}
use chanux.Pmm.Alloc.{Outcome, alloc_page_lem}
use chanux.Pmm.Release.{free_page-alloc_page}
use chanux.Pmm.AllocRun.{IsRunTaken, alloc_pages_complete}
use chanux.Pmm.Boot.{covers, covered, init-bitmap}
use chanux.Pmm.BootCount.{count_covers, init-IsValid}

abbrev region : MemoryMapEntry
region = record { base = 0x400000; length = 0x4000; type = 1 }

abbrev memory_map : List MemoryMapEntry
memory_map = region ∷ []

abbrev freed : Pmm
freed = add_regions all_used memory_map

abbrev booted : Pmm
booted = find_hint (reserve_system (record freed { total_pages = freed.free_count }))

init_boots : init memory_map ≡ some booted
unfolding init
init_boots = refl

init-IsValid_example : IsValid booted
unfolding count_covers
init-IsValid_example = init-IsValid memory_map (λ r. ground arith) init_boots

page_1024_free : bitmap_test booted.bitmap 1024 ≡ false
unfolding covered covers
page_1024_free = init-bitmap memory_map 1024 init_boots (omega arith)

page_1025_free : bitmap_test booted.bitmap 1025 ≡ false
unfolding covered covers
page_1025_free = init-bitmap memory_map 1025 init_boots (omega arith)

-- The search starts at page 0.
abbrev rewound : Pmm
rewound = record booted { first_free_hint = 0 }

rewound-IsValid : IsValid rewound
rewound-IsValid =
    let v = init-IsValid_example in
    record { bytes = v.bytes; counted = v.counted; hint_in = omega arith; zero_used = v.zero_used }

rewound_has_free : 0 < rewound.free_count
rewound_has_free = omega (
  arith,
  rewound-IsValid.counted,
  count_free_pos booted.bitmap max_pages 1024 (omega arith) page_1024_free,
)

alloc_page_lem_example : Outcome rewound (alloc_page rewound)
alloc_page_lem_example = alloc_page_lem rewound rewound-IsValid

free_page-alloc_page_example :
    let (addr, s') = alloc_page rewound in
    let s'' = free_page s' addr in
    ((r : ℕ) → bitmap_test s''.bitmap r ≡ bitmap_test rewound.bitmap r)
    × (s''.free_count ≡ rewound.free_count)
    × IsValid s''
free_page-alloc_page_example = free_page-alloc_page rewound rewound-IsValid rewound_has_free

two_free : all_free rewound.bitmap 1024 2 ≡ true
unfolding all_free
two_free = rw (page_1024_free, page_1025_free)

alloc_pages_complete_example : IsRunTaken rewound 2 (alloc_pages rewound 2)
alloc_pages_complete_example =
    alloc_pages_complete rewound 2 1024 rewound-IsValid (omega arith) two_free (omega arith)
      (inr (omega arith))
