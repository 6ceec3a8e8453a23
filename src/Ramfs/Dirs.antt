-- ===== src/Ramfs/Dirs.antt =====
-- The directories of kernel/fs/ramfs.c: entries of 64 bytes in the blocks of a directory. Names are
-- lists of bytes without a NUL.
use chanux.Common.{
  ℕ, zero, suc, ◌+◌, ◌-◌, ◌*◌, ◌/◌, ◌%◌, ◌^◌, Bool, true, false, not, ◌&&◌, ◌||◌, ◌==◌, leb,
  if◌then◌else◌, Option, none, some, update, add64, sub64, List, [], ◌∷◌, length,
}
use chanux.Memory.{Mem}
use chanux.Ramfs.{Ramfs, write_bytes, clear_bytes, block_size, direct_blocks, type_dir}
use chanux.Ramfs.Files.{ensure_block}

abbrev pub dirent_size : ℕ
dirent_size = 64

-- `RAMFS_MAX_FILENAME`
abbrev pub max_filename : ℕ
max_filename = 60

abbrev pub dirents_per_block : ℕ
dirents_per_block = 64

abbrev pub dot : ℕ
dot = 46

-- A `uint32_t` at an address, the lowest byte first.
abbrev pub read32 : Mem → ℕ → ℕ
read32 disk a = disk a + 256 * disk (a + 1) + 65536 * disk (a + 2) + 16777216 * disk (a + 3)

abbrev pub write32 : Mem → ℕ → ℕ → Mem
write32 disk a value = write_bytes disk a (λ k. value / 256 ^ k % 256) 4

-- The fields of `ramfs_dirent_t` at the address `e`.
abbrev pub entry_inode : Mem → ℕ → ℕ
entry_inode disk e = read32 disk e

abbrev pub entry_name_len : Mem → ℕ → ℕ
entry_name_len disk e = disk (e + 6)

-- `strncmp(at, name, name_len) == 0`, for a name without a NUL.
unfoldable pub name_matches : Mem → ℕ → List ℕ → Bool
name_matches disk a [] = true
name_matches disk a (c ∷ cs) = disk a == c && name_matches disk (a + 1) cs

-- Whether the entry is in use and has the name.
unfoldable pub entry_matches : Mem → List ℕ → ℕ → Bool
unfolding name_matches
entry_matches disk name e =
    not (entry_inode disk e == 0)
    && (entry_name_len disk e == length name && name_matches disk (e + 8) name)

-- The first of `n` entries from the address `e` on that passes a test.
unfoldable pub search_entries : (ℕ → Bool) → ℕ → ℕ → Option ℕ
search_entries test zero e = none
search_entries test (suc n) e =
    let rest = search_entries test n (e + dirent_size) in if test e then some e else rest

abbrev pub search_block : Ramfs → (ℕ → Bool) → ℕ → Option ℕ
search_block s test b =
    if b == 0
    then none
    else if leb s.disk_blocks b
    then none
    else search_entries test dirents_per_block (b * block_size)

-- The first entry that passes a test in the blocks of a directory, `n` of them from `i` on.
unfoldable pub search_blocks : Ramfs → (ℕ → ℕ) → (ℕ → Bool) → ℕ → ℕ → Option ℕ
search_blocks s blocks test zero i = none
search_blocks s blocks test (suc n) i = elim (search_block s test (blocks i)) [
  | some e ↦ some e
  | none ↦ search_blocks s blocks test n (i + 1)
]

abbrev pub find_entry : Ramfs → ℕ → List ℕ → Option ℕ
find_entry s dir name =
    search_blocks s (s.inodes dir).blocks (entry_matches s.disk name) direct_blocks 0

abbrev pub is_dot : List ℕ → Bool
is_dot [] = false
is_dot (c ∷ []) = c == dot
is_dot (c ∷ d ∷ cs) = false

abbrev pub is_dot_dot : List ℕ → Bool
is_dot_dot (c ∷ d ∷ []) = c == dot && d == dot
is_dot_dot other = false

abbrev pub entry_result : Mem → Option ℕ → Option ℕ
entry_result disk none = none
entry_result disk (some e) = some (entry_inode disk e)

-- The inode number, if the name is found.
unfoldable pub dir_lookup : Ramfs → ℕ → List ℕ → Option ℕ
dir_lookup s dir name =
    if not ((s.inodes dir).type == type_dir)
    then none
    else if is_dot name
    then none
    else if is_dot_dot name
    then some (s.inodes dir).parent
    else entry_result s.disk (find_entry s dir name)

-- The bytes of a name, and then NULs.
abbrev pub name_bytes : List ℕ → ℕ → ℕ
name_bytes [] k = 0
name_bytes (c ∷ cs) k = if k == 0 then c else name_bytes cs (k - 1)

-- The record length 64, the name's length and the type.
abbrev pub entry_head : ℕ → ℕ → ℕ → ℕ
entry_head name_len type k =
    if k == 0
    then dirent_size
    else if k == 1
    then 0
    else if k == 2
    then name_len % 256
    else type % 256

-- The fields of a new entry, in the order in which they are written; the name with its NUL.
unfoldable pub put_entry : Mem → ℕ → List ℕ → ℕ → ℕ → Mem
put_entry disk e name inode type =
    let named = write_bytes (write32 disk e inode) (e + 4) (entry_head (length name) type) 4 in
    write_bytes named (e + 8) (name_bytes name) (length name + 1)

-- What is written when a free entry is found.
abbrev pub use_entry : Ramfs → ℕ → ℕ → List ℕ → ℕ → ℕ → Ramfs
use_entry s dir e name inode type = record s {
  disk = put_entry s.disk e name inode type;
  inodes =
      update s.inodes dir (record (s.inodes dir) {
        size = add64 (s.inodes dir).size dirent_size;
        modified = s.ticks;
      });
}

-- The loop of `ramfs_dir_add_entry` over `n` blocks from `i` on.
unfoldable pub add_loop : Ramfs → ℕ → List ℕ → ℕ → ℕ → ℕ → ℕ → Bool × Ramfs
add_loop s dir name inode type zero i = (false, s)
add_loop s dir name inode type (suc n) i = elim (ensure_block s dir i) [
  | none ↦ (false, s)
  | some s' ↦ elim (search_block s' (λ e. entry_inode s'.disk e == 0) ((s'.inodes dir).blocks i)) [
    | some e ↦ (true, use_entry s' dir e name inode type)
    | none ↦ add_loop s' dir name inode type n (i + 1)
  ]
]

abbrev pub is_found : Option ℕ → Bool
is_found none = false
is_found (some i) = true

unfoldable pub dir_add_entry : Ramfs → ℕ → List ℕ → ℕ → ℕ → Bool × Ramfs
dir_add_entry s dir name inode type =
    if not ((s.inodes dir).type == type_dir)
    then (false, s)
    else if length name == 0 || leb max_filename (length name)
    then (false, s)
    else if is_found (dir_lookup s dir name)
    then (false, s)
    else add_loop s dir name inode type direct_blocks 0

abbrev pub clear_entry : Ramfs → ℕ → Option ℕ → Bool × Ramfs
clear_entry s dir none = (false, s)
clear_entry s dir (some e) = (
  true,
  record s {
    disk = clear_bytes s.disk e dirent_size;
    inodes = update s.inodes dir (record (s.inodes dir) {
      size = sub64 (s.inodes dir).size dirent_size;
      modified = s.ticks;
    });
  },
)

unfoldable pub dir_remove_entry : Ramfs → ℕ → List ℕ → Bool × Ramfs
dir_remove_entry s dir name =
    if not ((s.inodes dir).type == type_dir)
    then (false, s)
    else clear_entry s dir (find_entry s dir name)

-- The entries in use among `n` from `e` on.
pub used_entries : Mem → ℕ → ℕ → List ℕ
used_entries disk zero e = []
used_entries disk (suc n) e =
    let rest = used_entries disk n (e + dirent_size) in
    if entry_inode disk e == 0 then rest else e ∷ rest

-- The two loops of `ramfs_dir_read_entry`, with the entries in use that are still to be skipped.
pub read_entries : Mem → ℕ → ℕ → ℕ → Option ℕ × ℕ
read_entries disk zero e skip = (none, skip)
read_entries disk (suc n) e skip =
    let used = not (entry_inode disk e == 0) in
    let rest = read_entries disk n (e + dirent_size) (if used then skip - 1 else skip) in
    if used && skip == 0 then (some e, 0) else rest

pub read_blocks : Ramfs → (ℕ → ℕ) → ℕ → ℕ → ℕ → Option ℕ
read_blocks s blocks zero i skip = none
read_blocks s blocks (suc n) i skip =
    let b = blocks i in
    let (found, left) =
      if b == 0 || leb s.disk_blocks b
      then (none, skip)
      else read_entries s.disk dirents_per_block (b * block_size) skip in
    elim found [ some e ↦ some e | none ↦ read_blocks s blocks n (i + 1) left ]

-- The 64 bytes of the entry with an index among the entries in use.
unfoldable pub dir_read_entry : Ramfs → ℕ → ℕ → Option (ℕ → ℕ)
unfolding read_blocks
dir_read_entry s dir index =
    if not ((s.inodes dir).type == type_dir)
    then none
    else elim (read_blocks s (s.inodes dir).blocks direct_blocks 0 index) [
      | none ↦ none
      | some e ↦ some (λ k. s.disk (e + k))
    ]
