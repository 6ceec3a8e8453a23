-- ===== src/Vfs/Keeps.antt =====
-- The calls of kernel/fs/vfs.c on files, and with them all its calls, keep the invariants of the
-- filesystem.
use chanux.Common.{
  ℕ, Bool, not, ◌&&◌, ◌==◌, Option, none, some, List, Bool-cases, Option-cases, inl, inr,
}
use chanux.FileTable.{FileTable, file_alloc, o_rdonly, o_wronly}
use chanux.Ramfs.{type_file, type_dir}
use chanux.Ramfs.Files.{ramfs_read, ramfs_write, ramfs_truncate}
use chanux.Ramfs.Dirs.{max_filename}
use chanux.Ramfs.Marks.{IsSound}
use chanux.Ramfs.Sound.{ramfs_truncate-IsSound, ramfs_read-IsSound, ramfs_write-IsSound}
use chanux.Vfs.{
  Vfs, vnode_at, is_set, vfs_lookup, vfs_lookup_parent, parent_place, ramfs_vfs_create,
}
use chanux.Vfs.Calls.{
  vfs_open, open_vnode, or_create, create_file_in, created_in, creates, emptied, truncates,
  access_mode, fill_file, ramfs_vfs_truncate, truncate_inode, vfs_read, finish_read, ramfs_vfs_read,
  read_inode, write_inode, usable_vnode, file_at, vfs_write, finish_vfs_write, ramfs_vfs_write,
  at_end, appends,
}
use chanux.Vfs.Tree.{vfs_create, vfs_mkdir, vfs_unlink}
use chanux.Vfs.Sound.{
  Sound, lookup-Sound, parent-Sound, create-Sound, create_new-Sound, unlink_in-Sound, with_fs-Sound,
}

created-Sound : (p : ℕ) (r : Option ℕ × Vfs) → Sound r.1 → Sound (created_in p r).1
created-Sound p (i, s) v = v

file_in-Sound : (r : Option (ℕ × List ℕ) × Vfs) → Sound r.1 → Sound (create_file_in r).1
file_in-Sound (none, s) v = v
file_in-Sound (some (p, name), s) v = elim (Bool-cases (is_set (vnode_at s p).ops)) [
  | inl set ↦
      rw set
        (created-Sound p (ramfs_vfs_create s p name type_file) (create-Sound s p name type_file v))
  | inr unset ↦ rw unset v
]

or_create-Sound :
    (path : Option (List ℕ)) (flags : ℕ) (r : Option ℕ × Vfs)
    → Sound r.1
    → Sound (or_create path flags r).1
unfolding vfs_lookup_parent
or_create-Sound path flags (some i, s) v = v
or_create-Sound path flags (none, s) v = elim (Bool-cases (creates flags)) [
  | inl asked ↦ rw asked (
      file_in-Sound (vfs_lookup_parent s path max_filename)
        (parent-Sound s (parent_place path max_filename) v))
  | inr other ↦ rw other v
]

truncate-Sound : (s : Vfs) (size : ℕ) (o : Option ℕ) → Sound s → Sound (truncate_inode s size o).1
truncate-Sound s size none v = v
truncate-Sound s size (some i) v =
    with_fs-Sound s (ramfs_truncate s.fs i size) (ramfs_truncate-IsSound s.fs i size v)

emptied-Sound :
    (flags u : ℕ) (created : Bool) (s : Vfs) → Sound s → Sound (emptied flags u created s)
unfolding ramfs_vfs_truncate
emptied-Sound flags u created s v =
    elim (Bool-cases (truncates flags && ((vnode_at s u).type == type_file && not created))) [
      | inl asked ↦ elim (Bool-cases (is_set (vnode_at s u).ops)) [
        | inl set ↦ rw (emptied, asked, set) (truncate-Sound s 0 (vnode_at s u).inode v)
        | inr unset ↦ rw (emptied, asked, unset) v
      ]
      | inr other ↦ rw (emptied, other) v
    ]

fill-Sound :
    (flags u : ℕ) (s : Vfs) (r : Option ℕ × FileTable) → Sound s → Sound (fill_file flags u s r).1
fill-Sound flags u s (none, files) v = v
fill-Sound flags u s (some f, files) v = v

open_vnode-Sound :
    (flags : ℕ) (r : (Option ℕ × Bool) × Vfs) → Sound r.1 → Sound (open_vnode flags r).1
open_vnode-Sound flags ((none, created), s) v = v
open_vnode-Sound flags ((some u, created), s) v =
    let s' = emptied flags u created s in
    elim (Bool-cases ((vnode_at s u).type == type_dir && not (access_mode flags == o_rdonly))) [
      | inl refused ↦ rw refused v
      | inr allowed ↦
          rw allowed
            (fill-Sound flags u s' (file_alloc s'.files) (emptied-Sound flags u created s v))
    ]

pub open-Sound :
    (s : Vfs) (path : Option (List ℕ)) (flags : ℕ) → Sound s → Sound (vfs_open s path flags).1
unfolding vfs_open
open-Sound s path flags v =
    open_vnode-Sound flags (or_create path flags (vfs_lookup s path))
      (or_create-Sound path flags (vfs_lookup s path) (lookup-Sound s path v))

finish_read-Sound : (f : ℕ) (r : Option (ℕ × (ℕ → ℕ)) × Vfs) → Sound r.1 → Sound (finish_read f r).1
finish_read-Sound f (none, s) v = v
finish_read-Sound f (some (n, buf), s) v = v

inode_read-Sound :
    (s : Vfs) (o : Option ℕ) (buf : ℕ → ℕ) (count offset : ℕ)
    → Sound s
    → Sound (read_inode s buf count offset o).1
inode_read-Sound s none buf count offset v = v
inode_read-Sound s (some i) buf count offset v =
    with_fs-Sound s (ramfs_read s.fs i buf count offset)
      (ramfs_read-IsSound s.fs i buf count offset v)

pub read-Sound :
    (s : Vfs) (f : Option ℕ) (buf : ℕ → ℕ) (count : ℕ) → Sound s → Sound (vfs_read s f buf count).1
unfolding vfs_read ramfs_vfs_read
read-Sound s none buf count v = v
read-Sound s (some f) buf count v =
    elim (Bool-cases (access_mode (file_at s f).flags == o_wronly)) [
      | inl refused ↦ rw refused v
      | inr allowed ↦ elim (Option-cases (usable_vnode s f)) [
        | inl unset ↦ rw (allowed, unset) v
        | inr (u, set) ↦
            rw (allowed, set)
              (finish_read-Sound f (ramfs_vfs_read s u buf count (file_at s f).offset)
                (inode_read-Sound s (vnode_at s u).inode buf count (file_at s f).offset v))
      ]
    ]

finish_write-Sound : (f : ℕ) (r : Option ℕ × Vfs) → Sound r.1 → Sound (finish_vfs_write f r).1
finish_write-Sound f (none, s) v = v
finish_write-Sound f (some n, s) v = v

inode_write-Sound :
    (s : Vfs) (o : Option ℕ) (src : ℕ → ℕ) (count offset : ℕ)
    → Sound s
    → Sound (write_inode s src count offset o).1
inode_write-Sound s none src count offset v = v
inode_write-Sound s (some i) src count offset v =
    with_fs-Sound s (ramfs_write s.fs i src count offset)
      (ramfs_write-IsSound s.fs i src count offset v)

at_end-Sound : (s : Vfs) (f u : ℕ) → Sound s → Sound (at_end s f u)
at_end-Sound s f u v = elim (Bool-cases (appends (file_at s f).flags)) [
  | inl asked ↦ rw (at_end, asked) v
  | inr other ↦ rw (at_end, other) v
]

pub write-Sound :
    (s : Vfs) (f : Option ℕ) (src : ℕ → ℕ) (count : ℕ) → Sound s → Sound (vfs_write s f src count).1
unfolding vfs_write ramfs_vfs_write
write-Sound s none src count v = v
write-Sound s (some f) src count v =
    elim (Bool-cases (access_mode (file_at s f).flags == o_rdonly)) [
      | inl refused ↦ rw refused v
      | inr allowed ↦ elim (Option-cases (usable_vnode s f)) [
        | inl unset ↦ rw (allowed, unset) v
        | inr (u, set) ↦
            let t = at_end s f u in
            let v' = at_end-Sound s f u v in
            rw (allowed, set)
              (finish_write-Sound f (ramfs_vfs_write t u src count (file_at t f).offset)
                (inode_write-Sound t (vnode_at t u).inode src count (file_at t f).offset v'))
      ]
    ]

-- vfs_open, vfs_read, vfs_write, vfs_create, vfs_mkdir and vfs_unlink keep the invariants of the
-- filesystem, whatever their arguments are and whether or not they succeed: the counters count the
-- clear bits, each block has one pointer at most and is marked, and each inode with a type is
-- marked.
pub vfs_calls-IsSound :
    (s : Vfs) (path : Option (List ℕ)) (f : Option ℕ) (buf : ℕ → ℕ) (count flags type : ℕ)
    → IsSound s.fs
    → IsSound (vfs_open s path flags).1.fs
      × IsSound (vfs_read s f buf count).1.fs
      × IsSound (vfs_write s f buf count).1.fs
      × IsSound (vfs_create s path type).1.fs
      × IsSound (vfs_mkdir s path).1.fs
      × IsSound (vfs_unlink s path).1.fs
unfolding vfs_create vfs_mkdir vfs_unlink vfs_lookup_parent
vfs_calls-IsSound s path f buf count flags type v =
    let p = vfs_lookup_parent s path max_filename in
    let v' = parent-Sound s (parent_place path max_filename) v in
    (
      open-Sound s path flags v,
      read-Sound s f buf count v,
      write-Sound s f buf count v,
      create_new-Sound type p v',
      create_new-Sound type_dir p v',
      unlink_in-Sound p v',
    )
