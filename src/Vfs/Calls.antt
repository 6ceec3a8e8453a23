-- ===== src/Vfs/Calls.antt =====
-- The calls of kernel/fs/vfs.c on paths and open files. Buffers are maps from offsets to bytes, and
-- not `NULL`; an `int64_t` is its 64-bit pattern.
use chanux.Common.{
  ℕ, ◌/◌, ◌%◌, Bool, true, false, not, ◌&&◌, ◌==◌, ltb, if◌then◌else◌, Option, none, some, update,
  add64, List,
}
use chanux.Vnode.{Vnodes, max_vnodes, vnode_alloc, set_vnode}
use chanux.FileTable.{
  File, FileTable, file_alloc, file_unref, o_rdonly, o_wronly, file_type_regular,
}
use chanux.Ramfs.{Ramfs, root_inode, type_file, type_dir}
use chanux.Ramfs.Files.{ramfs_read, ramfs_write, ramfs_truncate}
use chanux.Ramfs.Dirs.{max_filename}
use chanux.Vfs.{
  Vfs, vnode_at, unref, is_set, ramfs_vfs_ops, vfs_lookup, vfs_lookup_parent, ramfs_vfs_create,
  with_fs,
}

abbrev pub file_type_dir : ℕ
file_type_dir = 1

-- `flags & O_ACCMODE`, and the tests of `O_CREAT`, `O_TRUNC` and `O_APPEND`
abbrev pub access_mode : ℕ → ℕ
access_mode flags = flags % 4

abbrev pub creates : ℕ → Bool
creates flags = flags / 256 % 2 == 1

abbrev pub truncates : ℕ → Bool
truncates flags = flags / 512 % 2 == 1

abbrev pub appends : ℕ → Bool
appends flags = flags / 1024 % 2 == 1

abbrev pub file_at : Vfs → ℕ → File
file_at s f = s.files.files f

abbrev pub set_file : Vfs → ℕ → File → Vfs
set_file s f file = record s { files = record s.files { files = update s.files.files f file } }

-- `vn->inode->size`. A vnode without an inode is a null dereference in vfs_open and vfs_write, where 0
-- stands for the size; Syscall/Fault has the calls that would meet one. sys_fstat takes 0.
abbrev pub inode_size : Vfs → ℕ → ℕ
inode_size s v = elim (vnode_at s v).inode [ none ↦ 0 | some i ↦ (s.fs.inodes i).size ]

-- `ramfs_init` gives the filesystem, or it fails; `none` is a panic.
unfoldable pub vfs_init : Vfs → Option Ramfs → Option Vfs
vfs_init s ramfs =
    let cleared = λ (v : ℕ).
      if ltb v max_vnodes
      then record (s.files.vnodes.table v) { ref_count = 0; inode = none }
      else s.files.vnodes.table v in
    let filled : Option ℕ × Vnodes → Ramfs → Option Vfs = λ r fs. elim r.0 [
      | none ↦ none
      | some v ↦
          let node = record (r.1.table v) {
            inode_num = root_inode;
            type = type_dir;
            ref_count = 1;
            inode = some root_inode;
            ops = some ramfs_vfs_ops;
            fs_data = none;
          } in
          some (record {
            files = record s.files { vnodes = record (set_vnode r.1 v node) { root = some v } };
            fs = fs;
            initialized = true;
          })
    ] in
    if s.initialized then some s else elim ramfs [
      | none ↦ none
      | some fs ↦ filled (vnode_alloc (record s.files.vnodes { table = cleared })) fs
    ]

-- A vnode that was found or created for `vfs_open`, and whether it was created.
abbrev pub created_in : ℕ → Option ℕ × Vfs → (Option ℕ × Bool) × Vfs
created_in parent (v, s) = ((v, true), unref s parent)

abbrev pub create_file_in : Option (ℕ × List ℕ) × Vfs → (Option ℕ × Bool) × Vfs
create_file_in (none, s) = ((none, false), s)
create_file_in (some (parent, name), s) =
    if is_set (vnode_at s parent).ops
    then created_in parent (ramfs_vfs_create s parent name type_file)
    else ((none, false), unref s parent)

abbrev pub or_create : Option (List ℕ) → ℕ → Option ℕ × Vfs → (Option ℕ × Bool) × Vfs
or_create path flags (some v, s) = ((some v, false), s)
or_create path flags (none, s) =
    if creates flags
    then create_file_in (vfs_lookup_parent s path max_filename)
    else ((none, false), s)

abbrev pub truncate_inode : Vfs → ℕ → Option ℕ → Bool × Vfs
truncate_inode s size none = (false, s)
truncate_inode s size (some i) = with_fs s (ramfs_truncate s.fs i size)

unfoldable pub ramfs_vfs_truncate : Vfs → ℕ → ℕ → Bool × Vfs
ramfs_vfs_truncate s v size = truncate_inode s size (vnode_at s v).inode

-- The file emptied, if it was opened with `O_TRUNC` and not created.
abbrev pub emptied : ℕ → ℕ → Bool → Vfs → Vfs
emptied flags v created s =
    if truncates flags && ((vnode_at s v).type == type_file && not created)
    then if is_set (vnode_at s v).ops then (ramfs_vfs_truncate s v 0).1 else s
    else s

abbrev pub fill_file : ℕ → ℕ → Vfs → Option ℕ × FileTable → Option ℕ × Vfs
fill_file flags v s (none, files) = (none, unref (record s { files = files }) v)
fill_file flags v s (some f, files) =
    let s' = record s { files = files } in
    (
      some f,
      set_file s' f (record (files.files f) {
        flags = flags;
        offset = if appends flags then inode_size s' v else 0;
        inode = (vnode_at s' v).inode_num;
        type = if (vnode_at s' v).type == type_dir then file_type_dir else file_type_regular;
        vnode = some v;
      }),
    )

abbrev pub open_vnode : ℕ → (Option ℕ × Bool) × Vfs → Option ℕ × Vfs
open_vnode flags ((none, created), s) = (none, s)
open_vnode flags ((some v, created), s) =
    if (vnode_at s v).type == type_dir && not (access_mode flags == o_rdonly)
    then (none, unref s v)
    else let s' = emptied flags v created s in fill_file flags v s' (file_alloc s'.files)

-- The place of the open file.
unfoldable pub vfs_open : Vfs → Option (List ℕ) → ℕ → Option ℕ × Vfs
vfs_open s path flags = open_vnode flags (or_create path flags (vfs_lookup s path))

unfoldable pub vfs_close : Vfs → Option ℕ → Bool × Vfs
vfs_close s none = (false, s)
vfs_close s (some f) = (true, record s { files = file_unref s.files (some f) })

abbrev pub read_inode : Vfs → (ℕ → ℕ) → ℕ → ℕ → Option ℕ → Option (ℕ × (ℕ → ℕ)) × Vfs
read_inode s buf count offset none = (none, s)
read_inode s buf count offset (some i) = with_fs s (ramfs_read s.fs i buf count offset)

unfoldable pub ramfs_vfs_read : Vfs → ℕ → (ℕ → ℕ) → ℕ → ℕ → Option (ℕ × (ℕ → ℕ)) × Vfs
ramfs_vfs_read s v buf count offset = read_inode s buf count offset (vnode_at s v).inode

abbrev pub write_inode : Vfs → (ℕ → ℕ) → ℕ → ℕ → Option ℕ → Option ℕ × Vfs
write_inode s src count offset none = (none, s)
write_inode s src count offset (some i) = with_fs s (ramfs_write s.fs i src count offset)

unfoldable pub ramfs_vfs_write : Vfs → ℕ → (ℕ → ℕ) → ℕ → ℕ → Option ℕ × Vfs
ramfs_vfs_write s v src count offset = write_inode s src count offset (vnode_at s v).inode

-- The offset of the file moved by what was read or written.
abbrev pub advance : Vfs → ℕ → ℕ → Vfs
advance s f n = set_file s f (record (file_at s f) { offset = add64 (file_at s f).offset n })

abbrev pub finish_read : ℕ → Option (ℕ × (ℕ → ℕ)) × Vfs → Option (ℕ × (ℕ → ℕ)) × Vfs
finish_read f (none, s) = (none, s)
finish_read f (some (n, buf), s) = (some (n, buf), advance s f n)

-- The vnode of a file, if it is set and has operations.
abbrev pub usable_vnode : Vfs → ℕ → Option ℕ
usable_vnode s f = elim (file_at s f).vnode [
  | none ↦ none
  | some v ↦ if is_set (vnode_at s v).ops then some v else none
]

abbrev pub read_vnode : Vfs → ℕ → (ℕ → ℕ) → ℕ → Option ℕ → Option (ℕ × (ℕ → ℕ)) × Vfs
read_vnode s f buf count none = (none, s)
read_vnode s f buf count (some v) =
    finish_read f (ramfs_vfs_read s v buf count (file_at s f).offset)

-- How many bytes were read, and the buffer.
unfoldable pub vfs_read : Vfs → Option ℕ → (ℕ → ℕ) → ℕ → Option (ℕ × (ℕ → ℕ)) × Vfs
vfs_read s none buf count = (none, s)
vfs_read s (some f) buf count =
    if access_mode (file_at s f).flags == o_wronly
    then (none, s)
    else read_vnode s f buf count (usable_vnode s f)

abbrev pub finish_vfs_write : ℕ → Option ℕ × Vfs → Option ℕ × Vfs
finish_vfs_write f (none, s) = (none, s)
finish_vfs_write f (some n, s) = (some n, advance s f n)

-- The offset of a file that is opened with `O_APPEND` is its end.
abbrev pub at_end : Vfs → ℕ → ℕ → Vfs
at_end s f v =
    if appends (file_at s f).flags
    then set_file s f (record (file_at s f) { offset = inode_size s v })
    else s

abbrev pub write_vnode : Vfs → ℕ → (ℕ → ℕ) → ℕ → Option ℕ → Option ℕ × Vfs
write_vnode s f src count none = (none, s)
write_vnode s f src count (some v) =
    let s' = at_end s f v in
    finish_vfs_write f (ramfs_vfs_write s' v src count (file_at s' f).offset)

unfoldable pub vfs_write : Vfs → Option ℕ → (ℕ → ℕ) → ℕ → Option ℕ × Vfs
vfs_write s none src count = (none, s)
vfs_write s (some f) src count =
    if access_mode (file_at s f).flags == o_rdonly
    then (none, s)
    else write_vnode s f src count (usable_vnode s f)
