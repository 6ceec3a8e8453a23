-- ===== src/FileTable/Refs.antt =====
-- How the operations on descriptors change the reference count of an open file.
use chanux.Common.{
  ℕ, zero, suc, ◌+◌, ◌^◌, ◌<◌, ◌≤◌, ◌≡◌, refl, ◌==◌, leb, if◌then◌else◌, Option, none, some, update,
  arith, ℤ, pos, negsuc, Bool-cases, Option-cases, ==→eq, ap, inl, inr,
}
use chanux.FileTable.{
  FileTable, FdTable, max_open_files, max_fd, file_ref, file_unref, close_fd, fd_free, fd_set_file,
}
use chanux.FileTable.Descriptors.{closed, close_fd-none, close_fd-some}

-- 1 if the entry points to file `f`.
abbrev pub hits : Option ℕ → ℕ → ℕ
hits none f = 0
hits (some g) f = if g == f then 1 else 0

-- How many of the `n` entries from `i` on point to file `f`.
unfoldable pub refs : (ℕ → Option ℕ) → ℕ → ℕ → ℕ → ℕ
refs e f zero i = 0
refs e f (suc n) i = hits (e i) f + refs e f n (i + 1)

abbrev pub table_refs : FdTable → ℕ → ℕ
table_refs t f = refs t.entries f max_fd 0

abbrev pub ref_count : FileTable → ℕ → ℕ
ref_count s f = (s.files f).ref_count

pub refs-update_below :
    (e : ℕ → Option ℕ) (j f n i : ℕ) (x : Option ℕ)
    → j < i
    → refs (update e j x) f n i ≡ refs e f n i
unfolding refs
refs-update_below e j f zero i x h = refl
refs-update_below e j f (suc n) i x h = ground (arith, refs-update_below e j f n (i + 1) x)

refs-update :
    (e : ℕ → Option ℕ) (j f n i : ℕ) (x : Option ℕ)
    → i ≤ j
    → j < i + n
    → refs (update e j x) f n i + hits (e j) f ≡ refs e f n i + hits x f
unfolding refs
refs-update e j f zero i x a b = absurd (omega arith)
refs-update e j f (suc n) i x a b = elim (Bool-cases (i == j)) [
  | inl here ↦
      let same : i ≡ j = ==→eq i j here in
      ground (arith, ap e same, refs-update_below e j f n (i + 1) x)
  | inr later ↦ ground (arith, refs-update e j f n (i + 1) x)
]

module _ (s : FileTable) (f : ℕ) (slot : f < max_open_files) where
  pub file_unref_count :
      (o : Option ℕ)
      → hits o f ≤ ref_count s f
      → ref_count (file_unref s o) f + hits o f ≡ ref_count s f
  unfolding file_unref
  file_unref_count none h = omega arith
  file_unref_count (some g) h = ground arith

  pub file_ref_count :
      (o : Option ℕ)
      → ref_count s f + 1 < 2 ^ 32
      → ref_count (file_ref s o) f ≡ ref_count s f + hits o f
  unfolding file_ref
  file_ref_count none h = omega arith
  file_ref_count (some g) h = ground arith

  unref_entry :
      (t : FdTable) (fd : ℕ) (x : Option ℕ)
      → fd < max_fd
      → table_refs t f ≤ ref_count s f
      → hits (t.entries fd) f ≤ table_refs t f
  unref_entry t fd x h c =
      omega (arith, refs-update t.entries fd f max_fd 0 none (omega arith) (omega arith))

  -- Closing a descriptor takes away exactly its own reference.
  close_fd_refs :
      (t : FdTable) (fd : ℕ)
      → fd < max_fd
      → table_refs t f ≤ ref_count s f
      → let (t', s') = close_fd t fd s in
        ref_count s' f + table_refs t f ≡ ref_count s f + table_refs t' f
  unfolding closed
  close_fd_refs t fd h c = elim (Option-cases (t.entries fd)) [
    | inl unused ↦ rw (close_fd-none t fd s unused) refl
    | inr (g, opened) ↦ rw (close_fd-some t fd s g opened) (
        omega (
          arith,
          refs-update t.entries fd f max_fd 0 none (omega arith) (omega arith),
          file_unref_count (some g) (omega (arith, rw opened at (unref_entry t fd none h c))),
          ap (λ o. hits o f) opened,
        ))
  ]

-- fd_free keeps the balance between the reference count of a file and the descriptors of the table
-- that point to it.
pub fd_free_refs :
    (t : FdTable) (fd : ℤ) (s : FileTable) (f : ℕ)
    → f < max_open_files
    → table_refs t f ≤ ref_count s f
    → let (t', s') = fd_free t fd s in
      ref_count s' f + table_refs t f ≡ ref_count s f + table_refs t' f
unfolding fd_free
fd_free_refs t (negsuc n) s f slot c = refl
fd_free_refs t (pos fd) s f slot c = elim (Bool-cases (leb max_fd fd)) [
  | inl outside ↦ rw outside refl
  | inr inside ↦ rw inside (close_fd_refs s f slot t fd (ground arith) c)
]

-- fd_set_file, which takes over the caller's reference if it succeeds, keeps the balance between
-- the reference count of a file and the descriptors of the table that point to it.
pub fd_set_file_refs :
    (t : FdTable) (fd : ℤ) (file : Option ℕ) (s : FileTable) (f : ℕ)
    → f < max_open_files
    → table_refs t f ≤ ref_count s f
    → let (done, t', s') = fd_set_file t fd file s in
      ref_count s' f + table_refs t f + (if done then hits file f else 0)
      ≡ ref_count s f + table_refs t' f
unfolding fd_set_file
fd_set_file_refs t (negsuc n) file s f slot c = omega arith
fd_set_file_refs t (pos fd) file s f slot c = elim (Bool-cases (leb max_fd fd)) [
  | inl outside ↦ rw outside (omega arith)
  | inr inside ↦ rw inside (
      omega (
        arith,
        refs-update t.entries fd f max_fd 0 file (omega arith) (ground arith),
        file_unref_count s f slot (t.entries fd)
            (omega (arith, unref_entry s f slot t fd none (ground arith) c)),
      ))
]
