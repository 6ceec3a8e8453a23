-- ===== src/Ramfs/CreateFile.antt =====
-- Removing a directory entry and creating files and directories in kernel/fs/ramfs.c keep the
-- invariant of the blocks.
use chanux.Common.{
  ℕ, ◌<◌, ◌≡◌, ◌≢◌, ◌∙◌, refl, sym, subst, Bool, true, false, not, ◌==◌, if◌then◌else◌, Option,
  none, some, List, add32, sub32, sub64, arith, Bool-cases, inl, inr,
}
use chanux.Bitmap.{bitmap_test}
use chanux.Ramfs.{
  Ramfs, set_inode, alloc_inode, free_inode, clear_bytes, type_file, type_dir, type_free, max_files,
  root_inode,
}
use chanux.Ramfs.Dirs.{dir_add_entry, dir_remove_entry, clear_entry, dirent_size, find_entry}
use chanux.Ramfs.Paths.{
  link_file, create_file, link_dir, create_dir, new_place, link_new, create_at,
}
use chanux.Ramfs.Owned.{IsFs}
use chanux.Ramfs.WriteFile.{set_inode-IsFs}
use chanux.Ramfs.Inodes.{NewInode, alloc_inode-NewInode, free_inode-IsFs}
use chanux.Ramfs.Create.{
  Keeps, Keeps-refl, Keeps-trans, disk-Keeps, set_inode-Keeps, dir_add_entry-Keeps,
}

clear_entry-Keeps :
    (s : Ramfs) (dir : ℕ) (entry : Option ℕ) → IsFs s → Keeps s (clear_entry s dir entry).1
clear_entry-Keeps s dir none v = Keeps-refl s v
clear_entry-Keeps s dir (some e) v =
    let disk = clear_bytes s.disk e dirent_size in
    let written = record s { disk = disk } in
    let node = record (s.inodes dir) {
      size = sub64 (s.inodes dir).size dirent_size;
      modified = s.ticks;
    } in
    let k = disk-Keeps s disk v in
    Keeps-trans s written (set_inode written dir node) k
      (set_inode-Keeps written dir node refl refl k.valid)

pub dir_remove_entry-Keeps :
    (s : Ramfs) (dir : ℕ) (name : List ℕ) → IsFs s → Keeps s (dir_remove_entry s dir name).1
unfolding dir_remove_entry
dir_remove_entry-Keeps s dir name v = elim (Bool-cases (not ((s.inodes dir).type == type_dir))) [
  | inl no_dir ↦ rw no_dir (Keeps-refl s v)
  | inr a_dir ↦ rw a_dir (clear_entry-Keeps s dir (find_entry s dir name) v)
]

-- An inode that has just been allocated.
pub record IsNew (s : Ramfs) (i type : ℕ) : Type 0 where
  pub valid : IsFs s
  pub in_table : i < max_files
  pub not_root : i ≢ root_inode
  pub marked : bitmap_test s.inode_bitmap i ≡ true
  pub typed : (s.inodes i).type ≡ type

IsNew-Keeps : (s t : Ramfs) (i type : ℕ) → IsNew s i type → Keeps s t → IsNew t i type
IsNew-Keeps s t i type v k = record {
  valid = k.valid;
  in_table = v.in_table;
  not_root = v.not_root;
  marked = rw k.marks v.marked;
  typed = k.type i ∙ v.typed;
}

free-IsNew : (s : Ramfs) (i type : ℕ) → IsNew s i type → type ≢ type_free → IsFs (free_inode s i)
free-IsNew s i type v ne =
    (free_inode-IsFs s i v.valid v.in_table v.not_root (λ z. ne (sym v.typed ∙ z)) v.marked).0

-- The end of `create_file`: a free inode again, if the entry could not be added.
abbrev keep_or_free : Bool → ℕ → Ramfs → Option ℕ × Ramfs
keep_or_free ok i t = if ok then (some i, t) else (none, free_inode t i)

keep_or_free-IsFs :
    (ok : Bool) (t : Ramfs) (i type : ℕ)
    → IsNew t i type
    → type ≢ type_free
    → IsFs (keep_or_free ok i t).1
keep_or_free-IsFs true t i type v ne = v.valid
keep_or_free-IsFs false t i type v ne = free-IsNew t i type v ne

link_file-IsFs :
    (s : Ramfs) (parent : ℕ) (name : List ℕ) (i : ℕ)
    → IsNew s i type_file
    → IsFs (link_file s parent name i).1
unfolding link_file
link_file-IsFs s parent name i v =
    let node = record (s.inodes i) { parent = parent } in
    let named = set_inode s i node in
    let r = dir_add_entry named parent name i type_file in
    let k = set_inode-Keeps s i node refl refl v.valid in
    let new =
      IsNew-Keeps named r.1 i type_file (IsNew-Keeps s named i type_file v k)
        (dir_add_entry-Keeps named parent name i type_file k.valid) in
    keep_or_free-IsFs r.0 r.1 i type_file new (λ z. absurd (omega arith))

link_dir-IsFs :
    (s : Ramfs) (parent : ℕ) (name : List ℕ) (i : ℕ)
    → IsNew s i type_dir
    → IsFs (link_dir s parent name i).1
unfolding link_dir
link_dir-IsFs s parent name i v =
    let node = record (s.inodes i) { parent = parent; link_count = 2 } in
    let named = set_inode s i node in
    let k = set_inode-Keeps s i node refl refl v.valid in
    let counted_node = record (named.inodes parent) {
      link_count = add32 (named.inodes parent).link_count 1;
    } in
    let counted = set_inode named parent counted_node in
    let k' = set_inode-Keeps named parent counted_node refl refl k.valid in
    let r = dir_add_entry counted parent name i type_dir in
    let new =
      IsNew-Keeps counted r.1 i type_dir
        (IsNew-Keeps named counted i type_dir (IsNew-Keeps s named i type_dir v k) k')
        (dir_add_entry-Keeps counted parent name i type_dir k'.valid) in
    let freed = free_inode r.1 i in
    elim (Bool-cases r.0) [
      | inl ok ↦ rw ok new.valid
      | inr failed ↦ rw failed (
          set_inode-IsFs freed parent
            (record (freed.inodes parent) { link_count = sub32 (freed.inodes parent).link_count 1 })
            refl (free-IsNew r.1 i type_dir new (λ z. absurd (omega arith))))
    ]

link_new-IsFs :
    (link : Ramfs → ℕ → Option ℕ × Ramfs) (s : Ramfs) (type : ℕ) (r : Option ℕ × Ramfs)
    → ((t : Ramfs) (i : ℕ) → IsNew t i type → IsFs (link t i).1)
    → IsFs s
    → NewInode s type r
    → IsFs (link_new link r).1
link_new-IsFs link s type (none, t) keeps v n = subst (IsFs) (sym n) v
link_new-IsFs link s type (some i, t) keeps v n =
    keeps t i (record { valid = n.0; in_table = n.1; not_root = n.2; marked = n.4; typed = n.5 })

create_at-IsFs :
    (s : Ramfs) (type : ℕ) (link : Ramfs → ℕ → List ℕ → ℕ → Option ℕ × Ramfs)
    (place : Option (ℕ × List ℕ))
    → ((t : Ramfs) (parent : ℕ) (name : List ℕ) (i : ℕ)
        → IsNew t i type
        → IsFs (link t parent name i).1)
    → IsFs s
    → IsFs (create_at s type link place).1
create_at-IsFs s type link none keeps v = v
create_at-IsFs s type link (some (parent, name)) keeps v =
    link_new-IsFs (λ t i. link t parent name i) s type (alloc_inode s type)
      (λ t i n. keeps t parent name i n) v (alloc_inode-NewInode s type v)

-- create_file and create_dir keep the invariants of the blocks and the counters, whether or not
-- they succeed; so do dir_add_entry and dir_remove_entry.
pub create-IsFs :
    (s : Ramfs) (path name : List ℕ) (dir inode type : ℕ)
    → IsFs s
    → IsFs (create_file s path).1
      × IsFs (create_dir s path).1
      × IsFs (dir_add_entry s dir name inode type).1
      × IsFs (dir_remove_entry s dir name).1
unfolding create_file create_dir
create-IsFs s path name dir inode type v = (
  create_at-IsFs s type_file link_file (new_place s path) link_file-IsFs v,
  create_at-IsFs s type_dir link_dir (new_place s path) link_dir-IsFs v,
  (dir_add_entry-Keeps s dir name inode type v).valid,
  (dir_remove_entry-Keeps s dir name v).valid,
)
