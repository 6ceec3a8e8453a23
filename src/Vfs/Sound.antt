-- ===== src/Vfs/Sound.antt =====
-- The calls of kernel/fs/vfs.c keep the invariants of the filesystem below.
use chanux.Common.{
  ℕ, ◌<◌, refl, Bool, true, false, ◌&&◌, ◌==◌, ltb, leb, if◌then◌else◌, Option, none, some, List,
  add32, sub32, arith, Bool-cases, inl, inr,
}
use chanux.Ramfs.{Ramfs, set_inode, alloc_inode, max_files, type_dir}
use chanux.Ramfs.Dirs.{dir_add_entry, dir_remove_entry, dir_lookup}
use chanux.Ramfs.Create.{set_inode-Keeps, dir_add_entry-Keeps}
use chanux.Ramfs.CreateFile.{dir_remove_entry-Keeps}
use chanux.Ramfs.Marks.{IsSound, SoundNew, Keeps-IsSound, free_inode-IsSound, alloc_inode-SoundNew}
use chanux.Vfs.{
  Vfs, vnode_at, is_set, set_fs, get_vnode, vfs_lookup, at_parent, with_name, lookup_inode,
  set_parent, less_links, finish_create, create_inode, create_below, ramfs_vfs_create, drop_link,
  finish_unlink, unlink_inode, unlink_below, ramfs_vfs_unlink, with_fs,
}
use chanux.Vfs.Tree.{create_new, unlink_in, release_parent, release_new}

links-IsSound :
    (fs : Ramfs) (i n : ℕ)
    → IsSound fs
    → IsSound (set_inode fs i (record (fs.inodes i) { link_count = n }))
links-IsSound fs i n v =
    let node = record (fs.inodes i) { link_count = n } in
    Keeps-IsSound fs (set_inode fs i node) v (set_inode-Keeps fs i node refl refl v.valid)

set_parent-IsSound :
    (fs : Ramfs) (dir num type i : ℕ) → IsSound fs → IsSound (set_parent fs dir num type i)
unfolding set_parent
set_parent-IsSound fs dir num type i v =
    let one = record (fs.inodes i) { parent = num } in
    let two = record (fs.inodes i) { parent = num; link_count = 2 } in
    let linked = set_inode fs i two in
    let v' = Keeps-IsSound fs linked v (set_inode-Keeps fs i two refl refl v.valid) in
    elim (Bool-cases (type == type_dir)) [
      | inl a_dir ↦ rw a_dir (links-IsSound linked dir (add32 (linked.inodes dir).link_count 1) v')
      | inr other ↦
          rw other
            (Keeps-IsSound fs (set_inode fs i one) v (set_inode-Keeps fs i one refl refl v.valid))
    ]

-- The filesystem of a state is sound.
abbrev pub Sound : Vfs → Type 0
Sound s = IsSound s.fs

get_vnode-Sound : (s : Vfs) (num : Option ℕ) → Sound s → Sound (get_vnode s num).1
get_vnode-Sound s none v = v
get_vnode-Sound s (some i) v = v

pub lookup-Sound : (s : Vfs) (path : Option (List ℕ)) → Sound s → Sound (vfs_lookup s path).1
unfolding vfs_lookup
lookup-Sound s path v = get_vnode-Sound s (if s.initialized then lookup_inode s.fs path else none) v

with_name-Sound : (name : List ℕ) (r : Option ℕ × Vfs) → Sound r.1 → Sound (with_name name r).1
with_name-Sound name (none, s) v = v
with_name-Sound name (some i, s) v = v

pub parent-Sound :
    (s : Vfs) (place : Option (List ℕ × List ℕ)) → Sound s → Sound (at_parent s place).1
parent-Sound s none v = v
parent-Sound s (some (dir, name)) v =
    with_name-Sound name (vfs_lookup s (some dir)) (lookup-Sound s (some dir) v)

finish_create-Sound :
    (s : Vfs) (dir type i : ℕ) (r : Bool × Ramfs)
    → i < max_files
    → IsSound r.1
    → Sound (finish_create s dir type i r).1
finish_create-Sound s dir type i (true, fs) lt v = get_vnode-Sound (set_fs s fs) (some i) v
finish_create-Sound s dir type i (false, fs) lt v = elim (Bool-cases (type == type_dir)) [
  | inl a_dir ↦
      let n = sub32 (fs.inodes dir).link_count 1 in
      rw a_dir (free_inode-IsSound (less_links fs dir) i (links-IsSound fs dir n v) lt)
  | inr other ↦ rw other (free_inode-IsSound fs i v lt)
]

create_inode-Sound :
    (s : Vfs) (dir num : ℕ) (name : List ℕ) (type : ℕ) (r : Option ℕ × Ramfs)
    → SoundNew r
    → Sound (create_inode s dir num name type r).1
create_inode-Sound s dir num name type (none, fs) v = v
create_inode-Sound s dir num name type (some i, fs) v =
    let named = set_parent fs dir num type i in
    let v' = set_parent-IsSound fs dir num type i v.0 in
    let r = dir_add_entry named dir name i type in
    finish_create-Sound s dir type i r v.1
      (Keeps-IsSound named r.1 v' (dir_add_entry-Keeps named dir name i type v'.valid))

below-Sound :
    (s : Vfs) (num : ℕ) (name : List ℕ) (type : ℕ) (o : Option ℕ)
    → Sound s
    → Sound (create_below s num name type o).1
below-Sound s num name type none v = v
below-Sound s num name type (some dir) v =
    create_inode-Sound s dir num name type (alloc_inode s.fs type)
      (alloc_inode-SoundNew s.fs type v)

pub create-Sound :
    (s : Vfs) (v : ℕ) (name : List ℕ) (type : ℕ)
    → Sound s
    → Sound (ramfs_vfs_create s v name type).1
unfolding ramfs_vfs_create
create-Sound s v name type sound =
    below-Sound s (vnode_at s v).inode_num name type (vnode_at s v).inode sound

release_new-Sound : (r : Option ℕ × Vfs) → Sound r.1 → Sound (release_new r).1
release_new-Sound (none, s) v = v
release_new-Sound (some i, s) v = v

release-Sound : (p : ℕ) (r : Bool × Vfs) → Sound r.1 → Sound (release_parent p r).1
release-Sound p (ok, s) v = v

pub create_new-Sound :
    (type : ℕ) (r : Option (ℕ × List ℕ) × Vfs) → Sound r.1 → Sound (create_new type r).1
create_new-Sound type (none, s) v = v
create_new-Sound type (some (p, name), s) v =
    release-Sound p
      (if is_set (vnode_at s p).ops
        then release_new (ramfs_vfs_create s p name type)
        else (false, s))
      (elim (Bool-cases (is_set (vnode_at s p).ops)) [
        | inl set ↦
            rw set
              (release_new-Sound (ramfs_vfs_create s p name type) (create-Sound s p name type v))
        | inr unset ↦ rw unset v
      ])

drop_link-IsSound :
    (fs : Ramfs) (dir i : ℕ) → i < max_files → IsSound fs → IsSound (drop_link fs dir i)
unfolding drop_link
drop_link-IsSound fs dir i lt v =
    let less = if (fs.inodes i).type == type_dir then less_links fs dir else fs in
    let dropped : IsSound less = elim (Bool-cases ((fs.inodes i).type == type_dir)) [
      | inl a_dir ↦ rw a_dir (links-IsSound fs dir (sub32 (fs.inodes dir).link_count 1) v)
      | inr other ↦ rw other v
    ] in
    let t = less_links less i in
    let v' = links-IsSound less i (sub32 (less.inodes i).link_count 1) dropped in
    elim (Bool-cases ((t.inodes i).link_count == 0)) [
      | inl last ↦ rw last (free_inode-IsSound t i v' lt)
      | inr linked ↦ rw linked v'
    ]

finish_unlink-IsSound :
    (dir i : ℕ) (r : Bool × Ramfs) → i < max_files → IsSound r.1 → IsSound (finish_unlink dir i r).1
finish_unlink-IsSound dir i (true, fs) lt v = drop_link-IsSound fs dir i lt v
finish_unlink-IsSound dir i (false, fs) lt v = v

unlink_inode-IsSound :
    (fs : Ramfs) (dir : ℕ) (name : List ℕ) (o : Option ℕ)
    → IsSound fs
    → IsSound (unlink_inode fs dir name o).1
unlink_inode-IsSound fs dir name none v = v
unlink_inode-IsSound fs dir name (some i) v = elim (Bool-cases (leb max_files i)) [
  | inl out ↦ rw out v
  | inr in_table ↦ elim (Bool-cases ((fs.inodes i).type == type_dir && ltb 0 (fs.inodes i).size)) [
    | inl full ↦ rw (in_table, full) v
    | inr empty ↦
        let lt : i < max_files = ground arith in
        let r = dir_remove_entry fs dir name in
        rw (in_table, empty)
          (finish_unlink-IsSound dir i r lt
            (Keeps-IsSound fs r.1 v (dir_remove_entry-Keeps fs dir name v.valid)))
  ]
]

pub with_fs-Sound {ℓ} : {A : Type ℓ} (s : Vfs) (r : A × Ramfs) → IsSound r.1 → Sound (with_fs s r).1
with_fs-Sound s (x, fs) v = v

unlink_below-Sound :
    (s : Vfs) (name : List ℕ) (o : Option ℕ) → Sound s → Sound (unlink_below s name o).1
unlink_below-Sound s name none v = v
unlink_below-Sound s name (some dir) v =
    let o = dir_lookup s.fs dir name in
    with_fs-Sound s (unlink_inode s.fs dir name o) (unlink_inode-IsSound s.fs dir name o v)

pub unlink_in-Sound : (r : Option (ℕ × List ℕ) × Vfs) → Sound r.1 → Sound (unlink_in r).1
unfolding ramfs_vfs_unlink
unlink_in-Sound (none, s) v = v
unlink_in-Sound (some (p, name), s) v =
    release-Sound p (if is_set (vnode_at s p).ops then ramfs_vfs_unlink s p name else (false, s))
      (elim (Bool-cases (is_set (vnode_at s p).ops)) [
        | inl set ↦ rw set (unlink_below-Sound s name (vnode_at s p).inode v)
        | inr unset ↦ rw unset v
      ])
