-- ===== src/Ramfs/Create.antt =====
-- Adding a directory entry in kernel/fs/ramfs.c keeps the invariant of the blocks.
use chanux.Common.{
  ℕ, zero, suc, ◌+◌, ◌≡◌, ◌∙◌, refl, sym, subst, true, false, not, ◌||◌, ◌==◌, leb, none, some,
  List, length, add64, arith, Bool-cases, Option-cases, inl, inr,
}
use chanux.Ramfs.{Inode, Ramfs, set_inode, alloc_block, direct_blocks, type_dir}
use chanux.Ramfs.Files.{ensure_block, set_block}
use chanux.Ramfs.Dirs.{
  add_loop, dir_add_entry, use_entry, search_block, entry_inode, put_entry, dirent_size, dir_lookup,
  is_found, max_filename,
}
use chanux.Ramfs.Owned.{IsFs, inode_field, IsCounted-same}
use chanux.Ramfs.Content.{Ensured, ensure_block-Ensured}
use chanux.Ramfs.WriteFile.{set_inode-IsFs}

-- The invariant holds, and the inodes have the types and the marks that they have in another state.
pub record Keeps (s t : Ramfs) : Type 0 where
  pub valid : IsFs t
  pub type : (j : ℕ) → (t.inodes j).type ≡ (s.inodes j).type
  pub marks : t.inode_bitmap ≡ s.inode_bitmap

pub Keeps-trans : (s t u : Ramfs) → Keeps s t → Keeps t u → Keeps s u
Keeps-trans s t u k l = record {
  valid = l.valid;
  type = λ j. l.type j ∙ k.type j;
  marks = l.marks ∙ k.marks;
}

alloc_block-marks : (s : Ramfs) → (alloc_block s).1.inode_bitmap ≡ s.inode_bitmap
unfolding alloc_block
alloc_block-marks s = ground arith

pub ensure_block-marks :
    (s t : Ramfs) (i k : ℕ) → ensure_block s i k ≡ some t → t.inode_bitmap ≡ s.inode_bitmap
unfolding ensure_block set_block
ensure_block-marks s t i k e = ground (arith, e, alloc_block-marks s)

-- The bytes of the disk and an inode's fields other than its type and blocks may change.
pub disk-Keeps : (s : Ramfs) (disk : ℕ → ℕ) → IsFs s → Keeps s (record s { disk = disk })
disk-Keeps s disk v = record {
  valid = record {
    counted = IsCounted-same s (record s { disk = disk }) refl refl refl refl refl v.counted;
    used = λ j k live ne.
        let u = v.used j k live ne in record { low = u.low; high = u.high; marked = u.marked };
    once = v.once;
  };
  type = λ j. refl;
  marks = refl;
}

pub set_inode-Keeps :
    (s : Ramfs) (i : ℕ) (node : Inode)
    → node.blocks ≡ (s.inodes i).blocks
    → node.type ≡ (s.inodes i).type
    → IsFs s
    → Keeps s (set_inode s i node)
set_inode-Keeps s i node blocks type v = record {
  valid = set_inode-IsFs s i node blocks v;
  type = inode_field s i node (λ x. x.type) type;
  marks = refl;
}

use_entry-Keeps :
    (s : Ramfs) (dir e : ℕ) (name : List ℕ) (inode type : ℕ)
    → IsFs s
    → Keeps s (use_entry s dir e name inode type)
use_entry-Keeps s dir e name inode type v =
    let written = record s { disk = put_entry s.disk e name inode type } in
    let node = record (s.inodes dir) {
      size = add64 (s.inodes dir).size dirent_size;
      modified = s.ticks;
    } in
    let k = disk-Keeps s (put_entry s.disk e name inode type) v in
    Keeps-trans s written (set_inode written dir node) k
      (set_inode-Keeps written dir node refl refl k.valid)

pub Keeps-refl : (s : Ramfs) → IsFs s → Keeps s s
Keeps-refl s v = record { valid = v; type = λ j. refl; marks = refl }

module _ (s : Ramfs) (dir : ℕ) (name : List ℕ) (inode type n i : ℕ) where
  pub add_loop_full :
      ensure_block s dir i ≡ none → add_loop s dir name inode type (suc n) i ≡ (false, s)
  unfolding add_loop
  add_loop_full full = rw (full, add_loop) refl

  module _ (t : Ramfs) (e : ensure_block s dir i ≡ some t) where
    pub add_loop_next :
        search_block t (λ e. entry_inode t.disk e == 0) ((t.inodes dir).blocks i) ≡ none
        → add_loop s dir name inode type (suc n) i ≡ add_loop t dir name inode type n (i + 1)
    unfolding add_loop
    add_loop_next no_entry = rw (e, add_loop) (rw (no_entry, add_loop) refl)

    pub add_loop_here :
        (entry : ℕ)
        → search_block t (λ e. entry_inode t.disk e == 0) ((t.inodes dir).blocks i) ≡ some entry
        → add_loop s dir name inode type (suc n) i ≡ (true, use_entry t dir entry name inode type)
    unfolding add_loop
    add_loop_here entry found = rw (e, add_loop) (rw (found, add_loop) refl)

add_loop-Keeps :
    (n : ℕ) (s : Ramfs) (dir : ℕ) (name : List ℕ) (inode type i : ℕ)
    → IsFs s
    → Keeps s (add_loop s dir name inode type n i).1
unfolding add_loop
add_loop-Keeps zero s dir name inode type i v = Keeps-refl s v
add_loop-Keeps (suc n) s dir name inode type i v =
    let ensured = ensure_block-Ensured s dir i v in
    elim (Option-cases (ensure_block s dir i)) [
      | inl full ↦
          subst (λ r. Keeps s r.1) (sym (add_loop_full s dir name inode type n i full))
            (Keeps-refl s v)
      | inr one ↦
          let t = one.0 in
          let (v', same, there) = subst (Ensured s dir i) one.1 ensured in
          let k : Keeps s t = record {
            valid = v';
            type = same.type;
            marks = ensure_block-marks s t dir i one.1;
          } in
          elim (Option-cases
            (search_block t (λ e. entry_inode t.disk e == 0) ((t.inodes dir).blocks i))) [
              | inl no_entry ↦
                  subst (λ r. Keeps s r.1)
                    (sym (add_loop_next s dir name inode type n i t one.1 no_entry))
                    (Keeps-trans s t (add_loop t dir name inode type n (i + 1)).1 k
                      (add_loop-Keeps n t dir name inode type (i + 1) v'))
              | inr entry ↦
                  subst (λ r. Keeps s r.1)
                    (sym (add_loop_here s dir name inode type n i t one.1 entry.0 entry.1))
                    (Keeps-trans s t (use_entry t dir entry.0 name inode type) k
                      (use_entry-Keeps t dir entry.0 name inode type v'))
            ]
    ]

pub dir_add_entry-Keeps :
    (s : Ramfs) (dir : ℕ) (name : List ℕ) (inode type : ℕ)
    → IsFs s
    → Keeps s (dir_add_entry s dir name inode type).1
unfolding dir_add_entry
dir_add_entry-Keeps s dir name inode type v =
    let same = Keeps-refl s v in
    elim (Bool-cases (not ((s.inodes dir).type == type_dir))) [
      | inl no_dir ↦ rw no_dir same
      | inr a_dir ↦ elim (Bool-cases (length name == 0 || leb max_filename (length name))) [
        | inl long ↦ rw (a_dir, long) same
        | inr short ↦ elim (Bool-cases (is_found (dir_lookup s dir name))) [
          | inl there ↦ rw (a_dir, short, there) same
          | inr new ↦
              rw (a_dir, short, new) (add_loop-Keeps direct_blocks s dir name inode type 0 v)
        ]
      ]
    ]
