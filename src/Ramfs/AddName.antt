-- ===== src/Ramfs/AddName.antt =====
-- `ramfs_dir_add_entry` and `ramfs_dir_remove_entry` of kernel/fs/ramfs.c, as what they do to the
-- names of a directory.
use chanux.Common.{
  ℕ, zero, suc, ◌+◌, ◌*◌, ◌≤◌, ◌<◌, ◌≡◌, ◌≢◌, ◌∙◌, refl, sym, ap, subst, fun_ext, Bool, true, false,
  ◌==◌, leb, some, List, add64, arith, Option-cases, inl, inr, ==→eq, ne→==,
}
use chanux.Ramfs.{Ramfs, set_inode, block_size, direct_blocks, type_dir}
use chanux.Ramfs.Files.{ensure_block}
use chanux.Ramfs.Dirs.{
  dir_lookup, add_loop, use_entry, search_block, search_entries, entry_inode, put_entry,
  dirent_size, dirents_per_block, is_dot, is_dot_dot,
}
use chanux.Ramfs.Owned.{IsFs, pointer}
use chanux.Ramfs.Content.{Ensured, ensure_block-Ensured}
use chanux.Ramfs.WriteFile.{content-set_inode}
use chanux.Ramfs.Create.{add_loop_full, add_loop_next, add_loop_here}
use chanux.Ramfs.Search.{search-some}
use chanux.Ramfs.Listing.{Fits, lookup, slots, entry-cong}
use chanux.Ramfs.Directory.{bytes}
use chanux.Ramfs.Names.{find-lookup, entry_byte, put_here, put_there}

-- A name that has its own entry.
pub record IsName (name : List ℕ) : Type 0 where
  pub fits : Fits name
  pub not_dot : is_dot name ≡ false
  pub not_dot_dot : is_dot_dot name ≡ false

pub dir_lookup-lookup :
    (s : Ramfs) (dir : ℕ) (name : List ℕ)
    → IsFs s
    → (s.inodes dir).type ≡ type_dir
    → IsName name
    → dir_lookup s dir name ≡ lookup (bytes s dir) name
unfolding dir_lookup
dir_lookup-lookup s dir name v a_dir n =
    rw (a_dir, n.not_dot, n.not_dot_dot) (find-lookup s dir v name n.fits)

-- An entry written to a free slot of the directory, and nothing else.
pub record Placed (s t : Ramfs) (dir : ℕ) (name : List ℕ) (inode type : ℕ) : Type 0 where
  pub slot : ℕ
  pub in_range : slot < slots
  pub free : entry_inode (bytes s dir) (dirent_size * slot) ≡ 0
  pub here : bytes t dir ≡ put_entry (bytes s dir) (dirent_size * slot) name inode type
  pub others : (i : ℕ) → dir ≢ i → bytes t i ≡ bytes s i

module _ (dir : ℕ) (name : List ℕ) (inode type : ℕ) (fits : Fits name) where
  -- The place that `search_block` finds.
  block_place :
      (t : Ramfs) (k e : ℕ)
      → IsFs t
      → pointer t dir k ≢ 0
      → search_block t (λ a. entry_inode t.disk a == 0) (pointer t dir k) ≡ some e
      → (j : ℕ) × (j < dirents_per_block)
        × (e ≡ pointer t dir k * block_size + dirent_size * j)
        × (entry_inode t.disk e ≡ 0)
  block_place t k e v there found =
      let block : (pointer t dir k == 0) ≡ false = ne→== (pointer t dir k) 0 there in
      let high = (v.used dir k refl there).high in
      let on_disk : leb t.disk_blocks (pointer t dir k) ≡ false = ground arith in
      let test : ℕ → Bool = λ a. entry_inode t.disk a == 0 in
      let same : search_block t test (pointer t dir k)
          ≡ search_entries test dirents_per_block (pointer t dir k * block_size) =
        rw (block, on_disk) refl in
      let (j, lt, place, free) =
        search-some test dirents_per_block (pointer t dir k * block_size) e (sym same ∙ found) in
      (j, lt, place, ==→eq (entry_inode t.disk e) 0 free)

  use_entry-Placed :
      (t : Ramfs) (k e : ℕ)
      → IsFs t
      → k < direct_blocks
      → pointer t dir k ≢ 0
      → search_block t (λ a. entry_inode t.disk a == 0) (pointer t dir k) ≡ some e
      → Placed t (use_entry t dir e name inode type) dir name inode type
  use_entry-Placed t k e v in_dir there found =
      let (j, lt, place, free) = block_place t k e v there found in
      let written : Ramfs = record t { disk = put_entry t.disk e name inode type } in
      let node = record (t.inodes dir) {
        size = add64 (t.inodes dir).size dirent_size;
        modified = t.ticks;
      } in
      let kept : (i : ℕ) → bytes (set_inode written dir node) i ≡ bytes written i =
        λ i. fun_ext (λ q. content-set_inode written dir node refl i q) in
      let entry =
        entry-cong name t.disk (bytes t dir) (pointer t dir k * block_size + dirent_size * j)
          (k * block_size + dirent_size * j) fits
          (λ b small. entry_byte t dir v k (dirent_size * j) b there (omega arith) small) in
      let at_slot : k * block_size + dirent_size * j ≡ dirent_size * (dirents_per_block * k + j) =
        omega arith in
      let at_place : written ≡ record t {
        disk = put_entry t.disk (pointer t dir k * block_size + dirent_size * j) name inode type;
      } =
        ap (λ x. record t { disk = put_entry t.disk x name inode type }) place in
      record {
        slot = dirents_per_block * k + j;
        in_range = omega arith;
        free =
            ap (entry_inode (bytes t dir)) (sym at_slot)
            ∙ sym entry.1
            ∙ ap (entry_inode t.disk) (sym place)
            ∙ free;
        here =
            kept dir
            ∙ ap (λ x. bytes x dir) at_place
            ∙ put_here t dir v k j name inode type there lt fits;
        others = λ i ne.
            kept i
            ∙ ap (λ x. bytes x i) at_place
            ∙ put_there t dir v k j name inode type there lt fits i ne;
      }

  -- What was placed in a state with the same bytes.
  Placed-same :
      (s t u : Ramfs)
      → ((i : ℕ) → bytes t i ≡ bytes s i)
      → Placed t u dir name inode type
      → Placed s u dir name inode type
  Placed-same s t u same p = record {
    slot = p.slot;
    in_range = p.in_range;
    free = ap (λ c. entry_inode c (dirent_size * p.slot)) (sym (same dir)) ∙ p.free;
    here = p.here ∙ ap (λ c. put_entry c (dirent_size * p.slot) name inode type) (same dir);
    others = λ i ne. p.others i ne ∙ same i;
  }

  pub add_loop-Placed :
      (n : ℕ) (s : Ramfs) (k : ℕ)
      → IsFs s
      → k + n ≤ direct_blocks
      → (add_loop s dir name inode type n k).0 ≡ true
      → Placed s (add_loop s dir name inode type n k).1 dir name inode type
  unfolding add_loop
  add_loop-Placed zero s k v le ok = absurd (ground (arith, ok))
  add_loop-Placed (suc n) s k v le ok =
      let ensured = ensure_block-Ensured s dir k v in
      elim (Option-cases (ensure_block s dir k)) [
        | inl full ↦
            absurd
              (ground (arith, ok, ap (λ r. r.0) (add_loop_full s dir name inode type n k full)))
        | inr (t, e) ↦
            let (v', same, there) = subst (Ensured s dir k) e ensured in
            let kept : (i : ℕ) → bytes t i ≡ bytes s i = λ i. fun_ext (λ q. same.bytes i q) in
            elim (Option-cases
              (search_block t (λ a. entry_inode t.disk a == 0) (pointer t dir k))) [
                | inl no_entry ↦
                    let next = add_loop_next s dir name inode type n k t e no_entry in
                    let rest =
                      add_loop-Placed n t (k + 1) v' (omega arith)
                        (sym (ap (λ r. r.0) next) ∙ ok) in
                    subst (λ r. Placed s r.1 dir name inode type) (sym next)
                      (Placed-same s t (add_loop t dir name inode type n (k + 1)).1 kept rest)
                | inr (entry, found) ↦
                    subst (λ r. Placed s r.1 dir name inode type)
                      (sym (add_loop_here s dir name inode type n k t e entry found))
                      (Placed-same s t (use_entry t dir entry name inode type) kept
                        (use_entry-Placed t k entry v' (omega arith) there found))
              ]
      ]
