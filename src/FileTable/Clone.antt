-- ===== src/FileTable/Clone.antt =====
-- `fd_table_destroy` and `fd_table_clone`, over all entries of a table.
use chanux.Common.{
  ℕ, zero, suc, ◌+◌, ◌^◌, ◌<◌, ◌≤◌, ◌≡◌, refl, true, ◌==◌, ltb, leb, ◌&&◌, if◌then◌else◌, Option,
  none, some, update, arith, Bool-cases, inl, inr, ==→eq, ap,
}
use chanux.FileTable.{
  FileTable, FdTable, max_open_files, max_fd, file_ref, file_unref, close_entries, copy_entries,
  fd_table_destroy, fd_table_clone, init_file_table, empty_table, copy_entry,
}
use chanux.FileTable.Refs.{
  hits, refs, table_refs, ref_count, refs-update_below, file_unref_count, file_ref_count,
}

module _ (f : ℕ) (slot : f < max_open_files) where
  close_entries_count :
      (n i : ℕ) (t : FdTable) (s : FileTable)
      → refs t.entries f n i ≤ ref_count s f
      → ref_count (close_entries n i t s).1 f + refs t.entries f n i ≡ ref_count s f
  unfolding close_entries refs
  close_entries_count zero i t s h = omega arith
  close_entries_count (suc n) i t s h =
      let rest = refs-update_below t.entries i f n (i + 1) none (omega arith) in
      let head = file_unref_count s f slot (t.entries i) (omega arith) in
      omega (
        arith,
        head,
        rest,
        close_entries_count n (i + 1) (record t { entries = update t.entries i none })
            (file_unref s (t.entries i)) (omega (arith, rest, head)),
      )

  copy_entries_count :
      (n i : ℕ) (src dst : FdTable) (s : FileTable)
      → ref_count s f + refs src.entries f n i + 1 < 2 ^ 32
      → ref_count (copy_entries n i src dst s).1 f ≡ ref_count s f + refs src.entries f n i
  unfolding copy_entries refs
  copy_entries_count zero i src dst s h = omega arith
  copy_entries_count (suc n) i src dst s h =
      let head = file_ref_count s f slot (src.entries i) (omega arith) in
      omega (
        arith,
        head,
        copy_entries_count n (i + 1) src _ (file_ref s (src.entries i)) (omega (arith, head)),
      )

abbrev or_else : Option ℕ → Option ℕ → Option ℕ
or_else none y = y
or_else (some x) y = some x

or_else-none : (o : Option ℕ) → or_else o none ≡ o
or_else-none none = refl
or_else-none (some x) = refl

copy_entry-entries :
    (i : ℕ) (src dst : FdTable) (j : ℕ)
    → (copy_entry i src dst).entries j
      ≡ (if i == j then or_else (src.entries j) (dst.entries j) else dst.entries j)
unfolding copy_entry
copy_entry-entries i src dst j = elim (Bool-cases (i == j)) [
  | inl same ↦ rw (← ==→eq i j same) (ground arith)
  | inr other ↦ ground arith
]

copy_entries-entries :
    (n i : ℕ) (src dst : FdTable) (s : FileTable) (j : ℕ)
    → (copy_entries n i src dst s).0.entries j ≡ (
        if leb i j && ltb j (i + n) then or_else (src.entries j) (dst.entries j) else dst.entries j)
unfolding copy_entries
copy_entries-entries zero i src dst s j = ground arith
copy_entries-entries (suc n) i src dst s j = ground (
  arith,
  copy_entry-entries i src dst j,
  copy_entries-entries n (i + 1) src (copy_entry i src dst) (file_ref s (src.entries i)) j,
)

module _ (src : FdTable) (s : FileTable) (f : ℕ) (slot : f < max_open_files) where
  -- fd_table_destroy lowers the reference count of a file of the table by the number of descriptors
  -- that point to it, if the count is at least that number.
  pub fd_table_destroy_refs :
      table_refs src f ≤ ref_count s f
      → ref_count (fd_table_destroy (some src) s) f + table_refs src f ≡ ref_count s f
  unfolding fd_table_destroy
  fd_table_destroy_refs h = close_entries_count f slot max_fd 0 src s h

init_file_table-ready : (s : FileTable) → s.initialized ≡ true → init_file_table s ≡ s
unfolding init_file_table
init_file_table-ready s h = rw h

-- The copy that `fd_table_clone` makes.
copied : FdTable → FileTable → FdTable
copied src s = record (copy_entries max_fd 0 src empty_table s).0 { num_open = src.num_open }

clone_ready :
    (src : FdTable) (s : FileTable)
    → s.initialized ≡ true
    → fd_table_clone true (some src) s
      ≡ (some (copied src s), (copy_entries max_fd 0 src empty_table s).1)
unfolding fd_table_clone copied
clone_ready src s ready = rw (init_file_table-ready s ready)

copied-entries :
    (src : FdTable) (s : FileTable) (fd : ℕ)
    → fd < max_fd
    → (copied src s).entries fd ≡ src.entries fd
unfolding copied
copied-entries src s fd h =
    ground
      (arith, copy_entries-entries max_fd 0 src empty_table s fd, or_else-none (src.entries fd))

-- If the file table is initialized, memory is given and the count of file f leaves room,
-- fd_table_clone returns a table with the same entry at each descriptor and the same number of open
-- ones, and raises the count of f by the number of descriptors that point to it.
pub fd_table_clone_lem :
    (src : FdTable) (s : FileTable) (f fd : ℕ)
    → f < max_open_files
    → fd < max_fd
    → s.initialized ≡ true
    → ref_count s f + table_refs src f + 1 < 2 ^ 32
    → (dst : FdTable) × ((fd_table_clone true (some src) s).0 ≡ some dst)
      × (dst.entries fd ≡ src.entries fd)
      × (dst.num_open ≡ src.num_open)
      × (ref_count (fd_table_clone true (some src) s).1 f ≡ ref_count s f + table_refs src f)
unfolding copied
fd_table_clone_lem src s f fd slot inside ready small = rw (clone_ready src s ready) (
  copied src s,
  refl,
  copied-entries src s fd inside,
  refl,
  copy_entries_count f slot max_fd 0 src empty_table s small,
)

refs-ext :
    (d e : ℕ → Option ℕ) (f n i : ℕ)
    → ((j : ℕ) → i ≤ j → j < i + n → d j ≡ e j)
    → refs d f n i ≡ refs e f n i
unfolding refs
refs-ext d e f zero i h = refl
refs-ext d e f (suc n) i h =
    let here = h i (omega arith) (omega arith) in
    omega (
      arith,
      ap (λ o. hits o f) here,
      refs-ext d e f n (i + 1) (λ j a b. h j (omega arith) (omega arith)),
    )

-- If the file table is initialized, file f is in it and its count leaves room for the references of
-- the table, destroying a clone of a descriptor table gives back the reference count that the file
-- had before the cloning.
pub fd_table_destroy-clone :
    (src : FdTable) (s : FileTable) (f : ℕ)
    → f < max_open_files
    → s.initialized ≡ true
    → ref_count s f + table_refs src f + 1 < 2 ^ 32
    → let (dst, s') = fd_table_clone true (some src) s in
      ref_count (fd_table_destroy dst s') f ≡ ref_count s f
fd_table_destroy-clone src s f slot ready small = rw (clone_ready src s ready) (
    omega (
      arith,
      copies,
      same,
      fd_table_destroy_refs (copied src s) s' f slot (omega (arith, copies, same)),
    ))
  where
    s' : FileTable
    s' = (copy_entries max_fd 0 src empty_table s).1

    same : table_refs (copied src s) f ≡ table_refs src f
    same = refs-ext _ _ f max_fd 0 (λ j a b. copied-entries src s j (omega arith))

    copies : ref_count s' f ≡ ref_count s f + table_refs src f
    copies = copy_entries_count f slot max_fd 0 src empty_table s small
