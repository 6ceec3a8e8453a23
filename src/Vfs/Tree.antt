-- ===== src/Vfs/Tree.antt =====
-- `vfs_stat`, `vfs_fstat`, `vfs_create`, `vfs_mkdir`, `vfs_unlink` and `vfs_readdir` of
-- kernel/fs/vfs.c.
use chanux.Common.{
  ℕ, ◌+◌, ◌/◌, ◌%◌, ◌^◌, Bool, true, false, not, ◌==◌, if◌then◌else◌, Option, none, some, List,
}
use chanux.Ramfs.{Inode, block_size, type_file, type_dir}
use chanux.Ramfs.Dirs.{dir_read_entry, max_filename}
use chanux.Vfs.{
  Vfs, vnode_at, unref, is_set, vfs_lookup, vfs_lookup_parent, ramfs_vfs_create, ramfs_vfs_unlink,
}
use chanux.Vfs.Calls.{file_at, file_type_dir, usable_vnode}

-- `stat_t`
pub record Stat : Type 0 where
  pub st_ino : ℕ
  pub st_mode : ℕ
  pub st_nlink : ℕ
  pub st_uid : ℕ
  pub st_gid : ℕ
  pub st_size : ℕ
  pub st_blksize : ℕ
  pub st_blocks : ℕ
  pub st_atime : ℕ
  pub st_mtime : ℕ
  pub st_ctime : ℕ

-- `mode | bit`, for a power of two
abbrev or_bit : ℕ → ℕ → ℕ
or_bit mode bit = if mode / bit % 2 == 1 then mode else mode + bit

abbrev pub inode_mode : Inode → ℕ
inode_mode node =
    if node.type == type_file
    then or_bit node.permissions (2 ^ 15)
    else if node.type == type_dir
    then or_bit node.permissions (2 ^ 14)
    else node.permissions

abbrev pub inode_stat : Vfs → ℕ → Option ℕ → Option Stat
inode_stat s v none = none
inode_stat s v (some i) =
    let node = s.fs.inodes i in
    some (record {
      st_ino = (vnode_at s v).inode_num;
      st_mode = inode_mode node;
      st_nlink = node.link_count;
      st_uid = 0;
      st_gid = 0;
      st_size = node.size;
      st_blksize = block_size;
      st_blocks = node.block_count;
      st_atime = node.accessed;
      st_mtime = node.modified;
      st_ctime = node.created;
    })

unfoldable pub ramfs_vfs_stat : Vfs → ℕ → Option Stat
ramfs_vfs_stat s v = inode_stat s v (vnode_at s v).inode

abbrev pub stat_found : Option ℕ × Vfs → Option Stat × Vfs
stat_found (none, s) = (none, s)
stat_found (some v, s) = (if is_set (vnode_at s v).ops then ramfs_vfs_stat s v else none, unref s v)

unfoldable pub vfs_stat : Vfs → Option (List ℕ) → Option Stat × Vfs
vfs_stat s path = stat_found (vfs_lookup s path)

abbrev pub stat_usable : Vfs → Option ℕ → Option Stat
stat_usable s none = none
stat_usable s (some v) = ramfs_vfs_stat s v

unfoldable pub vfs_fstat : Vfs → Option ℕ → Option Stat
vfs_fstat s none = none
vfs_fstat s (some f) = stat_usable s (usable_vnode s f)

-- The new vnode is given back; the result is whether there is one.
abbrev pub release_new : Option ℕ × Vfs → Bool × Vfs
release_new (none, s) = (false, s)
release_new (some v, s) = (true, unref s v)

abbrev pub release_parent : ℕ → Bool × Vfs → Bool × Vfs
release_parent parent (ok, s) = (ok, unref s parent)

abbrev pub create_new : ℕ → Option (ℕ × List ℕ) × Vfs → Bool × Vfs
create_new type (none, s) = (false, s)
create_new type (some (parent, name), s) = release_parent parent (
    if is_set (vnode_at s parent).ops
    then release_new (ramfs_vfs_create s parent name type)
    else (false, s))

unfoldable pub vfs_create : Vfs → Option (List ℕ) → ℕ → Bool × Vfs
vfs_create s path type = create_new type (vfs_lookup_parent s path max_filename)

-- The same with the type of a directory.
unfoldable pub vfs_mkdir : Vfs → Option (List ℕ) → Bool × Vfs
vfs_mkdir s path = create_new type_dir (vfs_lookup_parent s path max_filename)

abbrev pub unlink_in : Option (ℕ × List ℕ) × Vfs → Bool × Vfs
unlink_in (none, s) = (false, s)
unlink_in (some (parent, name), s) =
    release_parent parent
      (if is_set (vnode_at s parent).ops then ramfs_vfs_unlink s parent name else (false, s))

unfoldable pub vfs_unlink : Vfs → Option (List ℕ) → Bool × Vfs
vfs_unlink s path = unlink_in (vfs_lookup_parent s path max_filename)

abbrev pub read_dir : Vfs → ℕ → Option ℕ → Option (ℕ → ℕ)
read_dir s index none = none
read_dir s index (some v) = elim (vnode_at s v).inode [
  | none ↦ none
  | some dir ↦ dir_read_entry s.fs dir index
]

-- The 64 bytes of the entry.
unfoldable pub vfs_readdir : Vfs → Option ℕ → ℕ → Option (ℕ → ℕ)
vfs_readdir s none index = none
vfs_readdir s (some f) index =
    if not ((file_at s f).type == file_type_dir) then none else read_dir s index (usable_vnode s f)
