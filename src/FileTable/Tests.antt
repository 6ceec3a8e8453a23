-- ===== src/FileTable/Tests.antt =====
-- A process with its three console descriptors and one open file, in slot 7.
use chanux.Common.{◌≡◌, refl, true, ◌==◌, if◌then◌else◌, some, arith, update}
use chanux.Vnode.{Vnodes, fresh_vnode}
use chanux.FileTable.{
  FileTable, FdTable, blank_file, fresh_file, empty_table, fd_table_clone, fd_table_destroy,
}
use chanux.FileTable.Refs.{refs, table_refs, ref_count}
use chanux.FileTable.Clone.{fd_table_destroy-clone}
use chanux.FileTable.Descriptors.{IsCounted, count_open}

-- No vnode is in use but the root, at place 0.
abbrev vnodes : Vnodes
vnodes = record {
  table = λ i. if i == 0 then fresh_vnode else record fresh_vnode { ref_count = 0 };
  root = some 0;
}

abbrev files : FileTable
files = record {
  files = λ f. if f == 7 then fresh_file else blank_file;
  vnodes = vnodes;
  initialized = true;
}

-- Descriptors 3 and 5 share the file in slot 7, which has a second reference.
abbrev shared : FileTable
shared = record files { files = update files.files 7 (record fresh_file { ref_count = 2 }) }

abbrev table : FdTable
table = record { entries = update (update empty_table.entries 3 (some 7)) 5 (some 7); num_open = 2 }

table_counts_7 : table_refs table 7 ≡ 2
unfolding refs
table_counts_7 = refl

table-IsCounted : IsCounted table
unfolding count_open
table-IsCounted = refl

fd_table_destroy-clone_example :
    let (dst, s') = fd_table_clone true (some table) shared in
    ref_count (fd_table_destroy dst s') 7 ≡ ref_count shared 7
fd_table_destroy-clone_example =
    fd_table_destroy-clone table shared 7 (omega arith) refl (omega (arith, table_counts_7))

-- Place 4 holds a vnode with one reference.
abbrev in_use : Vnodes
in_use = record vnodes { table = update vnodes.table 4 fresh_vnode }
