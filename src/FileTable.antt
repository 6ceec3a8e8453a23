-- ===== src/FileTable.antt =====
-- kernel/fs/file.c: the table of open files and the file descriptors of a process.
pub mod Descriptors
pub mod Refs
pub mod Slots
pub mod Clone
mod Tests
use chanux.Common.{
  ℕ, zero, suc, ◌+◌, ◌-◌, Bool, true, false, ◌==◌, ltb, leb, if◌then◌else◌, Option, none, some,
  update, add32, sub32, ℤ, pos, negsuc,
}
use chanux.Vnode.{Vnodes, vnode_unref}

-- `MAX_OPEN_FILES` and `MAX_FD_PER_PROCESS`
abbrev pub max_open_files : ℕ
max_open_files = 256

abbrev pub max_fd : ℕ
max_fd = 16

-- `O_RDONLY`, `O_WRONLY`; `FILE_TYPE_REGULAR`, `FILE_TYPE_CONSOLE`
abbrev pub o_rdonly : ℕ
o_rdonly = 1

abbrev pub o_wronly : ℕ
o_wronly = 2

abbrev pub file_type_regular : ℕ
file_type_regular = 0

abbrev pub file_type_console : ℕ
file_type_console = 2

-- `file_t`
pub record File : Type 0 where
  pub ref_count : ℕ
  pub flags : ℕ
  pub offset : ℕ
  pub inode : ℕ
  pub type : ℕ
  pub vnode : Option ℕ

-- A pointer to a `file_t` is its place: below 256 in `open_file_table`, then the console entries.
abbrev pub console_stdin : ℕ
console_stdin = 256

abbrev pub console_stdout : ℕ
console_stdout = 257

abbrev pub console_stderr : ℕ
console_stderr = 258

abbrev pub file_is_console : ℕ → Bool
file_is_console f =
    if f == console_stdin then true else if f == console_stdout then true else f == console_stderr

pub record FileTable : Type 0 where
  pub files : ℕ → File
  pub vnodes : Vnodes
  pub initialized : Bool

-- `fd_table_t`; no entry is `NULL`.
pub record FdTable : Type 0 where
  pub entries : ℕ → Option ℕ
  pub num_open : ℕ

abbrev pub blank_file : File
blank_file = record { ref_count = 0; flags = 0; offset = 0; inode = 0; type = 0; vnode = none }

abbrev pub console_file : ℕ → File
console_file flags = record blank_file { ref_count = 1; flags = flags; type = file_type_console }

-- `init_file_table`: every slot is blank and the console entries are set, once.
unfoldable pub init_file_table : FileTable → FileTable
init_file_table s =
    let blank = λ (f : ℕ). if ltb f max_open_files then blank_file else s.files f in
    let files =
      update
        (update (update blank console_stdin (console_file o_rdonly)) console_stdout
          (console_file o_wronly))
        console_stderr (console_file o_wronly) in
    if s.initialized then s else record s { files = files; initialized = true }

unfoldable pub file_free : FileTable → Option ℕ → FileTable
file_free s none = s
file_free s (some f) = if file_is_console f then s else record s {
  files = update s.files f blank_file;
  vnodes = vnode_unref s.vnodes (s.files f).vnode;
}

unfoldable pub file_ref : FileTable → Option ℕ → FileTable
file_ref s none = s
file_ref s (some f) = record s {
  files = update s.files f (record (s.files f) { ref_count = add32 (s.files f).ref_count 1 });
}

unfoldable pub file_unref : FileTable → Option ℕ → FileTable
unfolding file_free
file_unref s none = s
file_unref s (some f) =
    let left = (s.files f).ref_count - 1 in
    let less = record s { files = update s.files f (record (s.files f) { ref_count = left }) } in
    if file_is_console f
    then s
    else if ltb 0 (s.files f).ref_count
    then if left == 0 then file_free less (some f) else less
    else s

-- The first slot that no one references, among the `n` from `i` on.
unfoldable pub find_slot : (ℕ → File) → ℕ → ℕ → Option ℕ
find_slot t zero i = none
find_slot t (suc n) i =
    let rest = find_slot t n (i + 1) in if (t i).ref_count == 0 then some i else rest

abbrev pub fresh_file : File
fresh_file = record blank_file { ref_count = 1; type = file_type_regular }

unfoldable pub file_alloc : FileTable → Option ℕ × FileTable
file_alloc s =
    let s' = init_file_table s in
    elim (find_slot s'.files max_open_files 0) [
      | none ↦ (none, s')
      | some f ↦ (some f, record s' { files = update s'.files f fresh_file })
    ]

abbrev pub empty_table : FdTable
empty_table = record { entries = λ _. none; num_open = 0 }

-- `kmalloc` gives the memory of the table, or it does not.
unfoldable pub fd_table_create : Bool → FileTable → Option FdTable × FileTable
fd_table_create allocated s = (if allocated then some empty_table else none, init_file_table s)

-- Closing the `n` entries from `i` on.
pub close_entries : ℕ → ℕ → FdTable → FileTable → FdTable × FileTable
close_entries zero i t s = (t, s)
close_entries (suc n) i t s =
    close_entries n (i + 1) (record t { entries = update t.entries i none })
      (file_unref s (t.entries i))

-- The table's memory is given back by `kfree`, so only the open files are left.
unfoldable pub fd_table_destroy : Option FdTable → FileTable → FileTable
fd_table_destroy none s = s
fd_table_destroy (some t) s = (close_entries max_fd 0 t s).1

pub copy_entry : ℕ → FdTable → FdTable → FdTable
copy_entry i src dst = elim (src.entries i) [
  | none ↦ dst
  | some f ↦ record dst { entries = update dst.entries i (some f) }
]

-- Copying the `n` entries from `i` on, with a reference for each.
pub copy_entries : ℕ → ℕ → FdTable → FdTable → FileTable → FdTable × FileTable
copy_entries zero i src dst s = (dst, s)
copy_entries (suc n) i src dst s =
    copy_entries n (i + 1) src (copy_entry i src dst) (file_ref s (src.entries i))

abbrev clone_into : FdTable → Option FdTable × FileTable → Option FdTable × FileTable
clone_into src (none, s) = (none, s)
clone_into src (some dst, s) =
    let (dst', s') = copy_entries max_fd 0 src dst s in
    (some (record dst' { num_open = src.num_open }), s')

unfoldable pub fd_table_clone : Bool → Option FdTable → FileTable → Option FdTable × FileTable
unfolding fd_table_create
fd_table_clone allocated none s = (none, s)
fd_table_clone allocated (some src) s = clone_into src (fd_table_create allocated s)

-- The lowest closed entry among the `n` from `i` on; `none` stands for -1.
pub find_fd : (ℕ → Option ℕ) → ℕ → ℕ → Option ℕ
find_fd entries zero i = none
find_fd entries (suc n) i =
    let rest = find_fd entries n (i + 1) in elim (entries i) [ none ↦ some i | some _ ↦ rest ]

unfoldable pub fd_alloc : Option FdTable → Option ℕ
fd_alloc none = none
fd_alloc (some t) = find_fd t.entries max_fd 0

-- `fd_free` at a descriptor that is in range.
pub close_fd : FdTable → ℕ → FileTable → FdTable × FileTable
close_fd t fd s = elim (t.entries fd) [
  | none ↦ (t, s)
  | some f ↦ (
    record {
      entries = update t.entries fd none;
      num_open = if ltb 0 t.num_open then t.num_open - 1 else t.num_open;
    },
    file_unref s (some f),
  )
]

unfoldable pub fd_free : FdTable → ℤ → FileTable → FdTable × FileTable
unfolding close_fd
fd_free t (negsuc _) s = (t, s)
fd_free t (pos fd) s = if leb max_fd fd then (t, s) else close_fd t fd s

unfoldable pub fd_get_file : FdTable → ℤ → Option ℕ
fd_get_file t (negsuc _) = none
fd_get_file t (pos fd) = if leb max_fd fd then none else t.entries fd

abbrev is_open : Option ℕ → Bool
is_open none = false
is_open (some _) = true

-- The count after an old file is dropped, then after the new one is put in.
abbrev dropped : FdTable → ℕ → ℕ
dropped t fd = if is_open (t.entries fd) then sub32 t.num_open 1 else t.num_open

-- `true` stands for 0, `false` for -1.
unfoldable pub fd_set_file : FdTable → ℤ → Option ℕ → FileTable → Bool × FdTable × FileTable
fd_set_file t (negsuc _) file s = (false, t, s)
fd_set_file t (pos fd) file s = if leb max_fd fd then (false, t, s) else (
  true,
  record {
    entries = update t.entries fd file;
    num_open = if is_open file then add32 (dropped t fd) 1 else dropped t fd;
  },
  file_unref s (t.entries fd),
)

unfoldable pub fd_init_stdio : FdTable → FileTable → FdTable × FileTable
fd_init_stdio t s = (
  record {
    entries =
        update (update (update t.entries 0 (some console_stdin)) 1 (some console_stdout)) 2
          (some console_stderr);
    num_open = 3;
  },
  init_file_table s,
)

unfoldable pub file_get_console : ℤ → Option ℕ
file_get_console (negsuc _) = none
file_get_console (pos fd) =
    if fd == 0
    then some console_stdin
    else if fd == 1
    then some console_stdout
    else if fd == 2
    then some console_stderr
    else none
