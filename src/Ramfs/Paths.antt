-- ===== src/Ramfs/Paths.antt =====
-- `ramfs_lookup_path`, `ramfs_create_file` and `ramfs_create_dir` of kernel/fs/ramfs.c. Paths are
-- lists of bytes without a NUL.
use chanux.Common.{
  ℕ, zero, suc, ◌+◌, ◌-◌, not, ◌||◌, ◌==◌, leb, if◌then◌else◌, Option, none, some, add32, sub32,
  List, [], ◌∷◌, length, take,
}
use chanux.Ramfs.{
  Ramfs, set_inode, alloc_inode, free_inode, max_files, root_inode, type_file, type_dir,
}
use chanux.Ramfs.Dirs.{dir_lookup, dir_add_entry, max_filename, is_found}

abbrev pub slash : ℕ
slash = 47

-- The bytes up to the next slash or the end, and what follows them.
pub component : List ℕ → List ℕ × List ℕ
component [] = ([], [])
component (c ∷ cs) =
    let (name, rest) = component cs in if c == slash then ([], c ∷ cs) else (c ∷ name, rest)

abbrev skip_slash : List ℕ → List ℕ
skip_slash [] = []
skip_slash (c ∷ cs) = if c == slash then cs else c ∷ cs

-- The loop of `ramfs_lookup_path` over the rest of a path, on fuel; each round takes a byte at least.
unfoldable pub walk_path : ℕ → Ramfs → ℕ → List ℕ → Option ℕ
walk_path zero s current p = none
walk_path (suc fuel) s current [] = some current
walk_path (suc fuel) s current (c ∷ cs) =
    let (name, rest) = component (c ∷ cs) in
    let next : Option ℕ = elim (dir_lookup s current name) [
      | none ↦ none
      | some i ↦ walk_path fuel s i (skip_slash rest)
    ] in
    let empty = walk_path fuel s current cs in
    if leb max_filename (length name)
    then none
    else if length name == 0
    then empty
    else if leb max_files current || not ((s.inodes current).type == type_dir)
    then none
    else next

unfoldable pub lookup_path : Ramfs → List ℕ → Option ℕ
unfolding walk_path
lookup_path s [] = none
lookup_path s (c ∷ cs) = if c == slash then walk_path (length cs + 1) s root_inode cs else none

-- Whether a path has a slash, and its parts around the last one.
pub split_last : List ℕ → Option (List ℕ × List ℕ)
split_last [] = none
split_last (c ∷ cs) = elim (split_last cs) [
  | some (parent, name) ↦ some (c ∷ parent, name)
  | none ↦ if c == slash then some ([], cs) else none
]

-- `parent_path`, which holds 255 bytes, and `filename`, which holds 59.
abbrev pub parent_and_name : List ℕ → Option (List ℕ × List ℕ)
parent_and_name path = elim (split_last path) [
  | none ↦ none
  | some (parent, name) ↦
      if length parent == 0
      then some (slash ∷ [], take (max_filename - 1) name)
      else if leb 256 (length parent)
      then none
      else some (parent, take (max_filename - 1) name)
]

-- The parent directory and the name of a path that can be created.
unfoldable pub new_place : Ramfs → List ℕ → Option (ℕ × List ℕ)
unfolding split_last
new_place s [] = none
new_place s (c ∷ cs) =
    let place : Option (ℕ × List ℕ) = elim (parent_and_name (c ∷ cs)) [
      | none ↦ none
      | some (parent_path, name) ↦ elim (lookup_path s parent_path) [
        | none ↦ none
        | some parent ↦
            if length name == 0
            then none
            else if leb max_files parent || not ((s.inodes parent).type == type_dir)
            then none
            else if is_found (dir_lookup s parent name)
            then none
            else some (parent, name)
      ]
    ] in
    if c == slash then place else none

-- The new entry of a file, or the inode freed again.
unfoldable pub link_file : Ramfs → ℕ → List ℕ → ℕ → Option ℕ × Ramfs
link_file s parent name i =
    let named = set_inode s i (record (s.inodes i) { parent = parent }) in
    let (ok, s') = dir_add_entry named parent name i type_file in
    if ok then (some i, s') else (none, free_inode s' i)

-- A directory has two links, and its parent one more.
unfoldable pub link_dir : Ramfs → ℕ → List ℕ → ℕ → Option ℕ × Ramfs
link_dir s parent name i =
    let named = set_inode s i (record (s.inodes i) { parent = parent; link_count = 2 }) in
    let counted =
      set_inode named parent
        (record (named.inodes parent) { link_count = add32 (named.inodes parent).link_count 1 }) in
    let (ok, s') = dir_add_entry counted parent name i type_dir in
    let freed = free_inode s' i in
    if ok then (some i, s') else (
      none,
      set_inode freed parent
          (record (freed.inodes parent) { link_count = sub32 (freed.inodes parent).link_count 1 }),
    )

-- The new inode linked, if there is one.
abbrev pub link_new : (Ramfs → ℕ → Option ℕ × Ramfs) → Option ℕ × Ramfs → Option ℕ × Ramfs
link_new link (none, s) = (none, s)
link_new link (some i, s) = link s i

-- The end of `ramfs_create_file` and `ramfs_create_dir`, given how they link an inode.
abbrev pub create_at :
    Ramfs → ℕ → (Ramfs → ℕ → List ℕ → ℕ → Option ℕ × Ramfs) → Option (ℕ × List ℕ) → Option ℕ × Ramfs
create_at s type link none = (none, s)
create_at s type link (some (parent, name)) =
    link_new (λ t i. link t parent name i) (alloc_inode s type)

unfoldable pub create_file : Ramfs → List ℕ → Option ℕ × Ramfs
create_file s path = create_at s type_file link_file (new_place s path)

unfoldable pub create_dir : Ramfs → List ℕ → Option ℕ × Ramfs
create_dir s path = create_at s type_dir link_dir (new_place s path)
