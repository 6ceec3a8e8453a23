-- ===== src/Ramfs/NameMap.antt =====
-- A directory of kernel/fs/ramfs.c is a partial map from names to inodes: `ramfs_dir_add_entry` and
-- `ramfs_dir_remove_entry` change it at one name.
use chanux.Common.{
  ℕ, ◌+◌, ◌-◌, ◌*◌, ◌<◌, ◌≡◌, ◌≢◌, ◌∙◌, refl, sym, ap, subst, fun_ext, true, false, not, ◌||◌, ◌==◌,
  leb, Option, none, some, List, length, sub64, u32_mod, arith, Bool-cases, Option-cases, inl, inr,
}
use chanux.Ramfs.{Ramfs, clear_bytes, block_size, direct_blocks, type_dir}
use chanux.Ramfs.Dirs.{
  dir_lookup, dir_add_entry, dir_remove_entry, clear_entry, add_loop, find_entry, entry_matches,
  dirent_size, dirents_per_block, max_filename, is_found,
}
use chanux.Ramfs.Owned.{IsFs, pointer}
use chanux.Ramfs.WriteFile.{content-set_inode}
use chanux.Ramfs.Create.{Keeps, dir_add_entry-Keeps}
use chanux.Ramfs.CreateFile.{dir_remove_entry-Keeps}
use chanux.Ramfs.Search.{search-some}
use chanux.Ramfs.Listing.{slots, IsDistinct, IsMissing-lookup}
use chanux.Ramfs.Edits.{IsInserted, IsDeleted, put-IsInserted, cut-IsDeleted}
use chanux.Ramfs.Directory.{bytes}
use chanux.Ramfs.Names.{finds, clear_here, clear_there}
use chanux.Ramfs.AddName.{IsName, dir_lookup-lookup, Placed, add_loop-Placed}

-- The name leads to the inode; every other name to what it led to, no two entries in use have one
-- name, and every other file has the bytes that it had.
pub record IsAdded (s t : Ramfs) (dir : ℕ) (name : List ℕ) (inode : ℕ) : Type 0 where
  pub found : dir_lookup t dir name ≡ some inode
  pub others : (m : List ℕ) → IsName m → m ≢ name → dir_lookup t dir m ≡ dir_lookup s dir m
  pub distinct : IsDistinct (bytes t dir)
  pub files : (i : ℕ) → dir ≢ i → bytes t i ≡ bytes s i

-- The name leads nowhere; all else as for `IsAdded`.
pub record IsRemoved (s t : Ramfs) (dir : ℕ) (name : List ℕ) : Type 0 where
  pub gone : dir_lookup t dir name ≡ none
  pub others : (m : List ℕ) → IsName m → m ≢ name → dir_lookup t dir m ≡ dir_lookup s dir m
  pub distinct : IsDistinct (bytes t dir)
  pub files : (i : ℕ) → dir ≢ i → bytes t i ≡ bytes s i

unlisted : (o : Option ℕ) → is_found o ≡ false → o ≡ none
unlisted none h = refl
unlisted (some i) h = absurd (ground (arith, h))

module _ (s : Ramfs) (dir : ℕ) (name : List ℕ) (v : IsFs s) (n : IsName name)
    (once : IsDistinct (bytes s dir)) where
  Placed-IsAdded :
      (t : Ramfs) (inode type : ℕ)
      → (s.inodes dir).type ≡ type_dir
      → Keeps s t
      → dir_lookup s dir name ≡ none
      → 0 < inode
      → inode < u32_mod
      → Placed s t dir name inode type
      → IsAdded s t dir name inode
  Placed-IsAdded t inode type a_dir k new pos small p =
      let a_dir' = k.type dir ∙ a_dir in
      let missing =
        IsMissing-lookup (bytes s dir) name (sym (dir_lookup-lookup s dir name v a_dir n) ∙ new) in
      let put : IsInserted (bytes s dir) (bytes t dir) name inode =
        subst (λ c. IsInserted (bytes s dir) c name inode) (sym p.here)
          (put-IsInserted (bytes s dir) name inode type p.slot n.fits p.in_range missing p.free pos
            small) in
      record {
        found = dir_lookup-lookup t dir name k.valid a_dir' n ∙ put.found;
        others = λ m m_name ne.
            dir_lookup-lookup t dir m k.valid a_dir' m_name
            ∙ put.others m m_name.fits ne
            ∙ sym (dir_lookup-lookup s dir m v a_dir m_name);
        distinct = put.distinct once;
        files = p.others;
      }

  -- If dir_add_entry succeeds, the name leads to the given inode number in the directory, every
  -- other name to what it led to, no two entries have one name, and every other file has the bytes
  -- that it had. The names have 55 bytes at most and are not "." or "..", the number is not 0 and
  -- has 32 bits; no two entries had one name, and the invariants of the blocks held.
  pub dir_add_entry-IsAdded :
      (inode type : ℕ)
      → 0 < inode
      → inode < u32_mod
      → (dir_add_entry s dir name inode type).0 ≡ true
      → IsAdded s (dir_add_entry s dir name inode type).1 dir name inode
  unfolding dir_add_entry
  dir_add_entry-IsAdded inode type pos small ok =
      let k = dir_add_entry-Keeps s dir name inode type v in
      let r = add_loop s dir name inode type direct_blocks 0 in
      elim (Bool-cases (not ((s.inodes dir).type == type_dir))) [
        | inl no_dir ↦ absurd (ground (arith, ok, no_dir))
        | inr a_dir ↦ elim (Bool-cases (length name == 0 || leb max_filename (length name))) [
          | inl long ↦ absurd (ground (arith, ok, a_dir, long))
          | inr short ↦ elim (Bool-cases (is_found (dir_lookup s dir name))) [
            | inl there ↦ absurd (ground (arith, ok, a_dir, short, there))
            | inr new ↦
                let same : dir_add_entry s dir name inode type ≡ r = rw (a_dir, short, new) refl in
                let placed =
                  add_loop-Placed dir name inode type n.fits direct_blocks s 0 v (omega arith)
                    (sym (ap (λ x. x.0) same) ∙ ok) in
                let is_dir : (s.inodes dir).type ≡ type_dir = ground (arith, a_dir) in
                subst (λ x. IsAdded s x.1 dir name inode) (sym same)
                  (Placed-IsAdded r.1 inode type is_dir (subst (λ x. Keeps s x.1) same k)
                    (unlisted (dir_lookup s dir name) new) pos small placed)
          ]
        ]
      ]

  -- The entry that is cleared, and what is left.
  cleared-IsRemoved :
      (a : ℕ)
      → find_entry s dir name ≡ some a
      → (s.inodes dir).type ≡ type_dir
      → Keeps s (clear_entry s dir (some a)).1
      → IsRemoved s (clear_entry s dir (some a)).1 dir name
  cleared-IsRemoved a found a_dir keeps =
      let t = (clear_entry s dir (some a)).1 in
      let (p, e, (k, o, le, there, at_a, at_p)) = (finds s dir v name n.fits).1 a found in
      let (slot, in_range, at_slot, matches) =
        search-some (entry_matches (bytes s dir) name) slots 0 p e in
      let j = slot - dirents_per_block * k in
      let whole : slot ≡ dirents_per_block * k + j = omega (arith, at_slot, at_p, le) in
      let lt : j < dirents_per_block = omega (arith, at_slot, at_p, le) in
      let offset : o ≡ dirent_size * j = omega (arith, at_slot, at_p, le) in
      let place : a ≡ pointer s dir k * block_size + dirent_size * j =
        omega (arith, at_a, offset) in
      let wiped : Ramfs = record s { disk = clear_bytes s.disk a dirent_size } in
      let node = record (s.inodes dir) {
        size = sub64 (s.inodes dir).size dirent_size;
        modified = s.ticks;
      } in
      let kept : (i : ℕ) → bytes t i ≡ bytes wiped i =
        λ i. fun_ext (λ q. content-set_inode wiped dir node refl i q) in
      let at_place : wiped ≡ record s {
        disk = clear_bytes s.disk (pointer s dir k * block_size + dirent_size * j) dirent_size;
      } =
        ap (λ x. record s { disk = clear_bytes s.disk x dirent_size }) place in
      let here : bytes t dir ≡ clear_bytes (bytes s dir) (dirent_size * slot) dirent_size =
        kept dir
        ∙ ap (λ x. bytes x dir) at_place
        ∙ clear_here s dir v k j name 0 0 there lt n.fits
        ∙ ap (λ x. clear_bytes (bytes s dir) (dirent_size * x) dirent_size) (sym whole) in
      let cut : IsDeleted (bytes s dir) (bytes t dir) name =
        subst (λ c. IsDeleted (bytes s dir) c name) (sym here)
          (cut-IsDeleted (bytes s dir) name slot n.fits in_range (
            subst (λ x. entry_matches (bytes s dir) name x ≡ true) {y = dirent_size * slot}
              (omega (arith, at_slot)) matches)) in
      let a_dir' = keeps.type dir ∙ a_dir in
      record {
        gone = dir_lookup-lookup t dir name keeps.valid a_dir' n ∙ cut.gone once;
        others = λ m m_name ne.
            dir_lookup-lookup t dir m keeps.valid a_dir' m_name
            ∙ cut.others m m_name.fits ne
            ∙ sym (dir_lookup-lookup s dir m v a_dir m_name);
        distinct = cut.distinct once;
        files = λ i ne.
            kept i
            ∙ ap (λ x. bytes x i) at_place
            ∙ clear_there s dir v k j name 0 0 there lt n.fits i ne;
      }

  -- If dir_remove_entry succeeds, the name leads nowhere in the directory, every other name to what
  -- it led to, no two entries have one name, and every other file has the bytes that it had. The
  -- names have 55 bytes at most and are not "." or ".."; no two entries had one name, and the
  -- invariants of the blocks held.
  pub dir_remove_entry-IsRemoved :
      (dir_remove_entry s dir name).0 ≡ true → IsRemoved s (dir_remove_entry s dir name).1 dir name
  unfolding dir_remove_entry
  dir_remove_entry-IsRemoved ok =
      let k = dir_remove_entry-Keeps s dir name v in
      elim (Bool-cases (not ((s.inodes dir).type == type_dir))) [
        | inl no_dir ↦ absurd (ground (arith, ok, no_dir))
        | inr a_dir ↦ elim (Option-cases (find_entry s dir name)) [
          | inl nothing ↦
              let same : dir_remove_entry s dir name ≡ (false, s) = rw (a_dir, nothing) refl in
              absurd (ground (arith, ok, ap (λ x. x.0) same))
          | inr (a, found) ↦
              let same : dir_remove_entry s dir name ≡ clear_entry s dir (some a) =
                rw (a_dir, found) refl in
              subst (λ x. IsRemoved s x.1 dir name) (sym same)
                (cleared-IsRemoved a found (ground (arith, a_dir))
                  (subst (λ x. Keeps s x.1) same k))
        ]
      ]
