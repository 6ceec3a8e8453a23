-- ===== src/Vfs.antt =====
-- kernel/fs/vfs.c: the virtual filesystem, which joins paths, vnodes, open files and the RAM
-- filesystem. A pointer to a vnode is its place in the table; `none` is `NULL`, and the -1 of a call
-- with a result; the -1 of the others is `false`.
pub mod Calls
pub mod Seek
pub mod Tree
pub mod ReadBack
pub mod Holds
pub mod Takes
pub mod Balance
pub mod Sound
pub mod Keeps
pub mod Filled
pub mod Close
pub mod Sample
mod Tests
use chanux.Common.{
  ℕ, zero, suc, ◌+◌, Bool, true, false, not, ◌&&◌, ◌==◌, ltb, leb, if◌then◌else◌, Option, none,
  some, add32, sub32, List, [], ◌∷◌, length,
}
use chanux.Vnode.{
  Vnode, Vnodes, max_vnodes, set_vnode, vnode_alloc, vnode_free, vnode_ref, vnode_unref,
}
use chanux.FileTable.{FileTable}
use chanux.FsPath.{slash, vfs_max_path, path_normalize, path_dirname, path_basename}
use chanux.Ramfs.{Ramfs, set_inode, alloc_inode, free_inode, max_files, root_inode, type_dir}
use chanux.Ramfs.Dirs.{dir_lookup, dir_add_entry, dir_remove_entry}
use chanux.Ramfs.Paths.{lookup_path}

-- The open files with their vnodes, the filesystem below, and `vfs_initialized`.
pub record Vfs : Type 0 where
  pub files : FileTable
  pub fs : Ramfs
  pub initialized : Bool

-- `&ramfs_vfs_ops`, the only table of operations; all its members are set.
abbrev pub ramfs_vfs_ops : ℕ
ramfs_vfs_ops = 0

abbrev pub vnode_at : Vfs → ℕ → Vnode
vnode_at s v = s.files.vnodes.table v

abbrev pub set_vnodes : Vfs → Vnodes → Vfs
set_vnodes s vnodes = record s { files = record s.files { vnodes = vnodes } }

abbrev pub set_fs : Vfs → Ramfs → Vfs
set_fs s fs = record s { fs = fs }

abbrev pub unref : Vfs → ℕ → Vfs
unref s v = set_vnodes s (vnode_unref s.files.vnodes (some v))

abbrev pub is_set : Option ℕ → Bool
is_set none = false
is_set (some i) = true

-- The vnode in use for an inode, the first among `n` from `i` on.
pub find_inode : (ℕ → Vnode) → ℕ → ℕ → ℕ → Option ℕ
find_inode t zero i num = none
find_inode t (suc n) i num =
    let rest = find_inode t n (i + 1) num in
    if ltb 0 (t i).ref_count && (t i).inode_num == num then some i else rest

-- A new vnode filled in; it is freed again if there is no such inode.
abbrev pub fill_vnode : Ramfs → ℕ → Option ℕ × Vnodes → Option ℕ × Vnodes
fill_vnode fs num (none, vnodes) = (none, vnodes)
fill_vnode fs num (some v, vnodes) =
    if leb max_files num then (none, vnode_free vnodes (some v)) else (
      some v,
      set_vnode vnodes v (record (vnodes.table v) {
        inode_num = num;
        type = (fs.inodes num).type;
        inode = some num;
        ops = some ramfs_vfs_ops;
      }),
    )

unfoldable pub vnode_get_or_create : Ramfs → Vnodes → ℕ → Option ℕ × Vnodes
vnode_get_or_create fs vnodes num = elim (find_inode vnodes.table max_vnodes 0 num) [
  | some v ↦ (some v, vnode_ref vnodes (some v))
  | none ↦ fill_vnode fs num (vnode_alloc vnodes)
]

abbrev pub with_vnodes : Vfs → Option ℕ × Vnodes → Option ℕ × Vfs
with_vnodes s (v, vnodes) = (v, set_vnodes s vnodes)

-- The inode that a path leads to from the root.
unfoldable pub lookup_inode : Ramfs → Option (List ℕ) → Option ℕ
lookup_inode fs path = elim (path_normalize path (some (slash ∷ [])) vfs_max_path) [
  | none ↦ none
  | some normalized ↦ lookup_path fs normalized
]

abbrev pub get_vnode : Vfs → Option ℕ → Option ℕ × Vfs
get_vnode s none = (none, s)
get_vnode s (some num) = with_vnodes s (vnode_get_or_create s.fs s.files.vnodes num)

unfoldable pub vfs_lookup : Vfs → Option (List ℕ) → Option ℕ × Vfs
vfs_lookup s path = get_vnode s (if s.initialized then lookup_inode s.fs path else none)

-- The directory and the name in a path, if the name is shorter than the buffer.
unfoldable pub parent_place : Option (List ℕ) → ℕ → Option (List ℕ × List ℕ)
parent_place path name_size = elim (path_normalize path (some (slash ∷ [])) vfs_max_path) [
  | none ↦ none
  | some normalized ↦ elim (path_dirname (some normalized) vfs_max_path) [
    | none ↦ none
    | some parent ↦
        let name = path_basename (some normalized) in
        if leb name_size (length name) then none else some (parent, name)
  ]
]

abbrev pub with_name : List ℕ → Option ℕ × Vfs → Option (ℕ × List ℕ) × Vfs
with_name name (none, s) = (none, s)
with_name name (some v, s) = (some (v, name), s)

abbrev pub at_parent : Vfs → Option (List ℕ × List ℕ) → Option (ℕ × List ℕ) × Vfs
at_parent s none = (none, s)
at_parent s (some (parent, name)) = with_name name (vfs_lookup s (some parent))

unfoldable pub vfs_lookup_parent : Vfs → Option (List ℕ) → ℕ → Option (ℕ × List ℕ) × Vfs
vfs_lookup_parent s path name_size = at_parent s (parent_place path name_size)

abbrev pub more_links : Ramfs → ℕ → Ramfs
more_links fs i =
    set_inode fs i (record (fs.inodes i) { link_count = add32 (fs.inodes i).link_count 1 })

abbrev pub less_links : Ramfs → ℕ → Ramfs
less_links fs i =
    set_inode fs i (record (fs.inodes i) { link_count = sub32 (fs.inodes i).link_count 1 })

-- The parent of a new inode set; a directory has two links, and its parent one more.
unfoldable pub set_parent : Ramfs → ℕ → ℕ → ℕ → ℕ → Ramfs
set_parent fs dir num type i =
    let node = fs.inodes i in
    let linked = set_inode fs i (record node { parent = num; link_count = 2 }) in
    if type == type_dir
    then more_links linked dir
    else set_inode fs i (record node { parent = num })

-- The vnode of the new inode, if it could be added to its directory; else the inode is freed again.
abbrev pub finish_create : Vfs → ℕ → ℕ → ℕ → Bool × Ramfs → Option ℕ × Vfs
finish_create s dir type i (true, fs) = get_vnode (set_fs s fs) (some i)
finish_create s dir type i (false, fs) =
    (none, set_fs s (free_inode (if type == type_dir then less_links fs dir else fs) i))

abbrev pub create_inode : Vfs → ℕ → ℕ → List ℕ → ℕ → Option ℕ × Ramfs → Option ℕ × Vfs
create_inode s dir num name type (none, fs) = (none, set_fs s fs)
create_inode s dir num name type (some i, fs) =
    finish_create s dir type i (dir_add_entry (set_parent fs dir num type i) dir name i type)

abbrev pub create_below : Vfs → ℕ → List ℕ → ℕ → Option ℕ → Option ℕ × Vfs
create_below s num name type none = (none, s)
create_below s num name type (some dir) = create_inode s dir num name type (alloc_inode s.fs type)

-- The operations of `ramfs_vfs_ops`, at a vnode.
unfoldable pub ramfs_vfs_create : Vfs → ℕ → List ℕ → ℕ → Option ℕ × Vfs
ramfs_vfs_create s v name type =
    create_below s (vnode_at s v).inode_num name type (vnode_at s v).inode

unfoldable pub ramfs_vfs_lookup : Vfs → ℕ → List ℕ → Option ℕ × Vfs
ramfs_vfs_lookup s v name = elim (vnode_at s v).inode [
  | none ↦ (none, s)
  | some dir ↦ get_vnode s (dir_lookup s.fs dir name)
]

-- The link counts after an entry is removed, and the inode freed if it has no more links.
unfoldable pub drop_link : Ramfs → ℕ → ℕ → Ramfs
drop_link fs dir i =
    let less = less_links (if (fs.inodes i).type == type_dir then less_links fs dir else fs) i in
    if (less.inodes i).link_count == 0 then free_inode less i else less

abbrev pub finish_unlink : ℕ → ℕ → Bool × Ramfs → Bool × Ramfs
finish_unlink dir i (true, fs) = (true, drop_link fs dir i)
finish_unlink dir i (false, fs) = (false, fs)

abbrev pub unlink_inode : Ramfs → ℕ → List ℕ → Option ℕ → Bool × Ramfs
unlink_inode fs dir name none = (false, fs)
unlink_inode fs dir name (some i) =
    if leb max_files i
    then (false, fs)
    else if (fs.inodes i).type == type_dir && ltb 0 (fs.inodes i).size
    then (false, fs)
    else finish_unlink dir i (dir_remove_entry fs dir name)

abbrev pub with_fs {ℓ} : {A : Type ℓ} → Vfs → A × Ramfs → A × Vfs
with_fs s (r, fs) = (r, set_fs s fs)

abbrev pub unlink_below : Vfs → List ℕ → Option ℕ → Bool × Vfs
unlink_below s name none = (false, s)
unlink_below s name (some dir) = with_fs s (unlink_inode s.fs dir name (dir_lookup s.fs dir name))

unfoldable pub ramfs_vfs_unlink : Vfs → ℕ → List ℕ → Bool × Vfs
ramfs_vfs_unlink s v name = unlink_below s name (vnode_at s v).inode
