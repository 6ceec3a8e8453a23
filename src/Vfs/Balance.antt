-- ===== src/Vfs/Balance.antt =====
-- The calls of kernel/fs/vfs.c that take a path give back each vnode that they do not hand out.
use chanux.Common.{
  ℕ, ◌≡◌, refl, sym, subst, Bool, not, ◌&&◌, ◌==◌, Option, none, some, List, arith, Bool-cases,
  eq→==, inl, inr,
}
use chanux.Vnode.{Vnodes}
use chanux.FileTable.{FileTable, file_alloc, init_file_table, o_rdonly}
use chanux.Ramfs.{Ramfs, type_dir}
use chanux.Ramfs.Files.{ramfs_truncate}
use chanux.Ramfs.Dirs.{max_filename}
use chanux.Vfs.{Vfs, vnode_at, vfs_lookup, vfs_lookup_parent, parent_place, with_fs}
use chanux.Vfs.Calls.{
  vfs_open, open_vnode, or_create, emptied, fill_file, file_at, ramfs_vfs_truncate, truncate_inode,
  access_mode,
}
use chanux.Vfs.Tree.{vfs_create, vfs_mkdir, vfs_unlink, vfs_stat}
use chanux.Vfs.Holds.{Holds, hold}
use chanux.Vfs.Takes.{
  nothing, IsRoomy, Takes, Takes-refl, lookup-Takes, parent-Takes, or_create-Takes, unref_last,
  create_new-Takes, unlink_in-Takes, stat-Takes,
}

truncate-files : (s : Vfs) (o : Option ℕ) (size : ℕ) → (truncate_inode s size o).1.files ≡ s.files
truncate-files s none size = refl
truncate-files s (some i) size = kept (ramfs_truncate s.fs i size)
  where
    kept : (r : Bool × Ramfs) → (with_fs s r).1.files ≡ s.files
    kept (ok, fs) = refl

emptied-files :
    (flags v : ℕ) (created : Bool) (s : Vfs) → (emptied flags v created s).files ≡ s.files
unfolding ramfs_vfs_truncate
emptied-files flags v created s = ground (arith, truncate-files s (vnode_at s v).inode 0)

file_alloc-vnodes : (s : FileTable) → (file_alloc s).1.vnodes ≡ s.vnodes
unfolding file_alloc init_file_table
file_alloc-vnodes s = ground arith

-- The vnode of the file that `vfs_open` returns.
abbrev pub opened : Option ℕ × Vfs → Option ℕ
opened (none, s) = none
opened (some f, s) = (file_at s f).vnode

module _ (a : Vnodes) (room : IsRoomy a) where
  fill-Takes :
      (flags v : ℕ) (s : Vfs) (r : Option ℕ × FileTable)
      → r.1.vnodes ≡ s.files.vnodes
      → Takes a s (hold (some v))
      → Takes a (fill_file flags v s r).1 (hold (opened (fill_file flags v s r)))
  fill-Takes flags v s (none, files) e k =
      unref_last a room (record s { files = files }) v
        (subst (λ x. Holds a x (hold (some v))) (sym e) k)
  fill-Takes flags v s (some f, files) e k =
      let t = (fill_file flags v s (some f, files)).1 in
      let here : opened (some f, t) ≡ some v = rw (opened, eq→== f f refl) refl in
      subst (λ o. Holds a files.vnodes (hold o)) (sym here)
        (subst (λ x. Holds a x (hold (some v))) (sym e) k)

  open_vnode-Takes :
      (flags : ℕ) (r : (Option ℕ × Bool) × Vfs)
      → Takes a r.1 (hold r.0.0)
      → Takes a (open_vnode flags r).1 (hold (opened (open_vnode flags r)))
  open_vnode-Takes flags ((none, created), s) k = k
  open_vnode-Takes flags ((some v, created), s) k =
      let s' = emptied flags v created s in
      let k' : Takes a s' (hold (some v)) =
        subst (λ x. Holds a x.vnodes (hold (some v))) (sym (emptied-files flags v created s)) k in
      elim (Bool-cases ((vnode_at s v).type == type_dir && not (access_mode flags == o_rdonly))) [
        | inl refused ↦ rw refused (unref_last a room s v k)
        | inr allowed ↦
            rw allowed (fill-Takes flags v s' (file_alloc s'.files) (file_alloc-vnodes s'.files) k')
      ]

-- vfs_open takes one reference to the vnode of the file that it returns, and no other; if it fails,
-- at whatever point, the reference count of each vnode is as before. The root is not counted, and
-- the counts have room for two more references.
pub vfs_open-Holds :
    (s : Vfs) (path : Option (List ℕ)) (flags : ℕ)
    → IsRoomy s.files.vnodes
    → Holds s.files.vnodes
        (vfs_open s path flags).1.files.vnodes
        (hold (opened (vfs_open s path flags)))
unfolding vfs_open
vfs_open-Holds s path flags room =
    let a = s.files.vnodes in
    let r = vfs_lookup s path in
    open_vnode-Takes a room flags (or_create path flags r)
      (or_create-Takes a room path flags r (lookup-Takes a room s path (Takes-refl s)))

-- vfs_create, vfs_mkdir, vfs_unlink and vfs_stat leave the reference count of each vnode but the
-- root as it was, whether or not they succeed. The counts have room for two more references.
pub vfs_path-Holds :
    (s : Vfs) (path : Option (List ℕ)) (type : ℕ)
    → IsRoomy s.files.vnodes
    → Holds s.files.vnodes (vfs_create s path type).1.files.vnodes nothing
      × Holds s.files.vnodes (vfs_mkdir s path).1.files.vnodes nothing
      × Holds s.files.vnodes (vfs_unlink s path).1.files.vnodes nothing
      × Holds s.files.vnodes (vfs_stat s path).1.files.vnodes nothing
unfolding vfs_create vfs_mkdir vfs_unlink vfs_stat vfs_lookup_parent
vfs_path-Holds s path type room =
    let a = s.files.vnodes in
    let p = vfs_lookup_parent s path max_filename in
    let k = parent-Takes a room s (parent_place path max_filename) (Takes-refl s) in
    (
      create_new-Takes a room type p k,
      create_new-Takes a room type_dir p k,
      unlink_in-Takes a room p k,
      stat-Takes a room (vfs_lookup s path) (lookup-Takes a room s path (Takes-refl s)),
    )
