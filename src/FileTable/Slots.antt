-- ===== src/FileTable/Slots.antt =====
-- `file_alloc` and the table of open files.
use chanux.Common.{
  ℕ, zero, suc, ◌+◌, ◌<◌, ◌≡◌, refl, true, ◌==◌, if◌then◌else◌, none, some, arith, Option-cases,
  inl, inr, ◌⊎◌,
}
use chanux.FileTable.{
  File, FileTable, max_open_files, init_file_table, find_slot, file_alloc, fresh_file,
}

-- How many of the `n` slots from `i` on no one references.
pub count_unused : (ℕ → File) → ℕ → ℕ → ℕ
count_unused t zero i = 0
count_unused t (suc n) i = (if (t i).ref_count == 0 then 1 else 0) + count_unused t n (i + 1)

find_slot-none : (t : ℕ → File) (n i : ℕ) → find_slot t n i ≡ none → count_unused t n i ≡ 0
unfolding find_slot count_unused
find_slot-none t zero i h = refl
find_slot-none t (suc n) i h = ground (arith, find_slot-none t n (i + 1))

pub find_slot-some :
    (t : ℕ → File) (n i q : ℕ) → find_slot t n i ≡ some q → ((t q).ref_count ≡ 0) × (q < i + n)
unfolding find_slot
find_slot-some t zero i q h = absurd (ground arith)
find_slot-some t (suc n) i q h = ground (arith, find_slot-some t n (i + 1) q)

-- In an initialized table file_alloc gives a slot that no one references, makes it a fresh file and
-- leaves every other file alone; or every slot is referenced, and it changes nothing.
pub file_alloc_lem :
    (s : FileTable) (f : ℕ)
    → s.initialized ≡ true
    → ((file_alloc s ≡ (none, s)) × (count_unused s.files max_open_files 0 ≡ 0))
      ⊎ ((q : ℕ) × ((file_alloc s).0 ≡ some q)
          × (q < max_open_files)
          × ((s.files q).ref_count ≡ 0)
          × ((file_alloc s).1.files f ≡ (if q == f then fresh_file else s.files f)))
unfolding file_alloc init_file_table
file_alloc_lem s f ready = elim (Option-cases (find_slot s.files max_open_files 0)) [
  | inl full ↦ inl (ground arith, find_slot-none s.files max_open_files 0 full)
  | inr (q, found) ↦
      let h = find_slot-some s.files max_open_files 0 q found in
      inr (q, ground arith, omega (arith, h), h.0, ground arith)
]
