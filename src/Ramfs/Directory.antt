-- ===== src/Ramfs/Directory.antt =====
-- The directories of kernel/fs/ramfs.c in their blocks: `ramfs_dir_lookup` finds what a name leads to
-- in the bytes of the directory.
use chanux.Common.{
  ℕ, zero, suc, ◌+◌, ◌-◌, ◌*◌, ◌/◌, ◌%◌, ◌≤◌, ◌<◌, ◌≡◌, ◌≢◌, ◌∙◌, refl, sym, ap, subst, Bool, true,
  false, ◌==◌, leb, if◌then◌else◌, Option, none, some, arith, Bool-cases, Option-cases, inl, inr,
  ==→eq,
}
use chanux.Memory.{Mem}
use chanux.Ramfs.{Ramfs, block_size}
use chanux.Ramfs.Dirs.{search_blocks, search_block, search_entries, dirent_size, dirents_per_block}
use chanux.Ramfs.Owned.{IsFs, pointer}
use chanux.Ramfs.Content.{byte_of, content}
use chanux.Ramfs.Search.{search-some, search-fails, search-append, search-append_found}

-- The bytes of a directory.
abbrev pub bytes : Ramfs → ℕ → Mem
bytes s dir = content s dir

pub content_at :
    (s : Ramfs) (dir k o : ℕ)
    → o < block_size
    → content s dir (k * block_size + o)
      ≡ (if pointer s dir k == 0 then 0 else s.disk (pointer s dir k * block_size + o))
unfolding content byte_of
content_at s dir k o lt =
    let index : (k * block_size + o) / block_size ≡ k = omega arith in
    let place : (k * block_size + o) % block_size ≡ o = omega arith in rw (index, place) refl

abbrev shifted : ℕ → ℕ → Option ℕ → Option ℕ
shifted a p none = none
shifted a p (some x) = some (x - a + p)

-- Searches through two places with the same answers go side by side.
side_by_side :
    (t u : ℕ → Bool) (n a p : ℕ)
    → ((j : ℕ) → j < n → t (a + dirent_size * j) ≡ u (p + dirent_size * j))
    → search_entries u n p ≡ shifted a p (search_entries t n a)
unfolding search_entries
side_by_side t u zero a p h = refl
side_by_side t u (suc n) a p h =
    let first : t a ≡ u p =
      subst (λ x. t x ≡ u p) {x = a + dirent_size * 0} (omega arith)
        (subst (λ x. t (a + dirent_size * 0) ≡ u x) {x = p + dirent_size * 0} (omega arith)
          (h 0 (omega arith))) in
    let rest = side_by_side t u n (a + dirent_size) (p + dirent_size) (λ j lt.
      subst (λ x. t x ≡ u (p + dirent_size + dirent_size * j)) {x = a + dirent_size * suc j}
        (omega arith)
        (subst (λ x. t (a + dirent_size * suc j) ≡ u x) {x = p + dirent_size * suc j} (omega arith)
          (h (suc j) (omega arith)))) in
    elim (Bool-cases (t a)) [
      | inl here ↦
          let there : u p ≡ true = sym first ∙ here in
          let place : a - a + p ≡ p = omega arith in rw (here, there) (ap some (sym place))
      | inr miss ↦
          let miss' : u p ≡ false = sym first ∙ miss in
          rw (miss, miss') (rest ∙ same (search_entries t n (a + dirent_size)) refl)
    ]
  where
    same :
        (r : Option ℕ)
        → search_entries t n (a + dirent_size) ≡ r
        → shifted (a + dirent_size) (p + dirent_size) r ≡ shifted a p r
    same none e = refl
    same (some x) e =
        let (j, lt, place, pass) = search-some t n (a + dirent_size) x e in
        ap some (omega (arith, place))

-- An entry on the disk, and its position in the directory.
abbrev pub IsAt : Ramfs → ℕ → ℕ → ℕ → Type 0
IsAt s dir a p =
    (k : ℕ) × (o : ℕ) × (o + dirent_size ≤ block_size)
    × (pointer s dir k ≢ 0)
    × (a ≡ pointer s dir k * block_size + o)
    × (p ≡ k * block_size + o)

-- The results of a search on the disk and of one in the bytes of the directory.
abbrev pub Agree : Ramfs → ℕ → Option ℕ → Option ℕ → Type 0
Agree s dir r r' =
    (r ≡ none → r' ≡ none) × ((a : ℕ) → r ≡ some a → (p : ℕ) × (r' ≡ some p) × IsAt s dir a p)

-- A test of addresses of the disk and a test of positions of a directory, which agree on the
-- entries in its blocks and fail where it has none.
module _ (s : Ramfs) (dir : ℕ) (v : IsFs s) (t u : ℕ → Bool)
    (agrees : (k o : ℕ)
      → pointer s dir k ≢ 0
      → o + dirent_size ≤ block_size
      → t (pointer s dir k * block_size + o) ≡ u (k * block_size + o))
    (fails : (k o : ℕ)
      → pointer s dir k ≡ 0
      → o + dirent_size ≤ block_size
      → u (k * block_size + o) ≡ false) where
  block_found :
      (k : ℕ) (r : Option ℕ)
      → pointer s dir k ≢ 0
      → search_entries t dirents_per_block (pointer s dir k * block_size) ≡ r
      → Agree s dir r (shifted (pointer s dir k * block_size) (k * block_size) r)
  block_found k none there e = (λ z. refl, λ a z. absurd (ground (arith, z)))
  block_found k (some x) there e =
      let (j, lt, place, pass) =
        search-some t dirents_per_block (pointer s dir k * block_size) x e in
      (
        λ z. absurd (ground (arith, z)),
        λ a z.
            let same : x ≡ a = ground (arith, z) in
            (
              x - pointer s dir k * block_size + k * block_size,
              refl,
              (
                k,
                dirent_size * j,
                omega arith,
                there,
                omega (arith, place, same),
                omega (arith, place),
              ),
            ),
      )

  block_agrees :
      (k : ℕ)
      → Agree s dir
          (search_block s t (pointer s dir k))
          (search_entries u dirents_per_block (k * block_size))
  block_agrees k = elim (Bool-cases (pointer s dir k == 0)) [
    | inl hole ↦
        let e = ==→eq (pointer s dir k) 0 hole in
        let nothing =
          search-fails u dirents_per_block (k * block_size)
            (λ j lt. fails k (dirent_size * j) e (omega arith)) in
        rw (hole, nothing) (λ z. refl, λ a z. absurd (ground (arith, z)))
    | inr block ↦
        let there : pointer s dir k ≢ 0 = λ z. absurd (ground (arith, block, z)) in
        let high = (v.used dir k refl there).high in
        let on_disk : leb s.disk_blocks (pointer s dir k) ≡ false = ground arith in
        let r = search_entries t dirents_per_block (pointer s dir k * block_size) in
        let same =
          side_by_side t u dirents_per_block (pointer s dir k * block_size) (k * block_size)
            (λ j lt. agrees k (dirent_size * j) there (omega arith)) in
        rw (block, on_disk, same) (block_found k r there refl)
  ]

  abbrev blocks : ℕ → ℕ
  blocks = (s.inodes dir).blocks

  next_block :
      (n k : ℕ)
      → search_block s t (blocks k) ≡ none
      → search_blocks s blocks t (suc n) k ≡ search_blocks s blocks t n (k + 1)
  unfolding search_blocks
  next_block n k e = rw (search_blocks, e) refl

  this_block :
      (n k a : ℕ)
      → search_block s t (blocks k) ≡ some a
      → search_blocks s blocks t (suc n) k ≡ some a
  unfolding search_blocks
  this_block n k a e = rw (search_blocks, e) refl

  some-Agree : (a p : ℕ) → IsAt s dir a p → Agree s dir (some a) (some p)
  some-Agree a p h = (
    λ z. absurd (ground (arith, z)),
    λ b z. let same : a ≡ b = ground (arith, z) in (p, refl, subst (λ x. IsAt s dir x p) same h),
  )

  -- The search through the blocks, and the search through the positions.
  pub blocks-Agree :
      (n k : ℕ)
      → Agree s dir
          (search_blocks s (s.inodes dir).blocks t n k)
          (search_entries u (dirents_per_block * n) (k * block_size))
  unfolding search_blocks search_entries
  blocks-Agree zero k = (λ z. refl, λ a z. absurd (ground (arith, z)))
  blocks-Agree (suc n) k =
      let more : dirents_per_block * suc n ≡ dirents_per_block + dirents_per_block * n =
        omega arith in
      let here = block_agrees k in
      let next : k * block_size + dirent_size * dirents_per_block ≡ (k + 1) * block_size =
        omega arith in
      rw more (elim (Option-cases (search_block s t (blocks k))) [
        | inl no_entry ↦
            let skipped =
              search-append u dirents_per_block (dirents_per_block * n) (k * block_size)
                (here.0 no_entry)
              ∙ ap (search_entries u (dirents_per_block * n)) next in
            subst
              (λ r.
                Agree s dir r
                  (search_entries u (dirents_per_block + dirents_per_block * n) (k * block_size)))
              (sym (next_block n k no_entry))
              (subst (Agree s dir (search_blocks s blocks t n (k + 1))) (sym skipped)
                (blocks-Agree n (k + 1)))
        | inr (a, found) ↦
            let (p, e, at_p) = here.1 a found in
            let stopped =
              search-append_found u dirents_per_block (dirents_per_block * n) (k * block_size) p
                e in
            subst
              (λ r.
                Agree s dir r
                  (search_entries u (dirents_per_block + dirents_per_block * n) (k * block_size)))
              (sym (this_block n k a found))
              (subst (Agree s dir (some a)) (sym stopped) (some-Agree a p at_p))
      ])
