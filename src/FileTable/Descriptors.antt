-- ===== src/FileTable/Descriptors.antt =====
-- Which descriptors are open, and their number.
use chanux.Common.{
  ℕ, zero, suc, ◌+◌, ◌-◌, ◌<◌, ◌≤◌, ◌≡◌, refl, ◌==◌, ltb, leb, if◌then◌else◌, Option, none, some,
  update, arith, Bool-cases, Option-cases, inl, inr, ==→eq, ap, ℤ, pos, negsuc,
}
use chanux.FileTable.{
  FileTable, FdTable, max_fd, is_open, find_fd, fd_alloc, close_fd, fd_free, fd_set_file,
  file_unref,
}

-- The entry and the count after the close of an open descriptor.
unfoldable pub closed : FdTable → ℕ → FdTable
closed t fd = record {
  entries = update t.entries fd none;
  num_open = if ltb 0 t.num_open then t.num_open - 1 else t.num_open;
}

module _ (t : FdTable) (fd : ℕ) (s : FileTable) where
  pub close_fd-none : t.entries fd ≡ none → close_fd t fd s ≡ (t, s)
  unfolding close_fd
  close_fd-none h = ground arith

  pub close_fd-some :
      (g : ℕ) → t.entries fd ≡ some g → close_fd t fd s ≡ (closed t fd, file_unref s (some g))
  unfolding close_fd closed
  close_fd-some g h = ground arith

-- How many of the `n` entries from `i` on are open.
unfoldable pub count_open : (ℕ → Option ℕ) → ℕ → ℕ → ℕ
count_open e zero i = 0
count_open e (suc n) i = (if is_open (e i) then 1 else 0) + count_open e n (i + 1)

-- `num_open` counts the open entries.
abbrev pub IsCounted : FdTable → Type 0
IsCounted t = t.num_open ≡ count_open t.entries max_fd 0

count_open-le : (e : ℕ → Option ℕ) (n i : ℕ) → count_open e n i ≤ n
unfolding count_open
count_open-le e zero i = omega arith
count_open-le e (suc n) i = ground (arith, count_open-le e n (i + 1))

count_open-update_below :
    (e : ℕ → Option ℕ) (j n i : ℕ) (x : Option ℕ)
    → j < i
    → count_open (update e j x) n i ≡ count_open e n i
unfolding count_open
count_open-update_below e j zero i x h = refl
count_open-update_below e j (suc n) i x h = ground (arith, count_open-update_below e j n (i + 1) x)

abbrev one : Option ℕ → ℕ
one o = if is_open o then 1 else 0

count_open-update :
    (e : ℕ → Option ℕ) (j n i : ℕ) (x : Option ℕ)
    → i ≤ j
    → j < i + n
    → count_open (update e j x) n i + one (e j) ≡ count_open e n i + one x
unfolding count_open
count_open-update e j zero i x a b = absurd (omega arith)
count_open-update e j (suc n) i x a b = elim (Bool-cases (i == j)) [
  | inl here ↦
      let same : i ≡ j = ==→eq i j here in
      ground (arith, ap e same, count_open-update_below e j n (i + 1) x)
  | inr later ↦ ground (arith, count_open-update e j n (i + 1) x)
]

-- fd_set_file keeps num_open the number of open descriptors, for every descriptor number and file.
pub fd_set_file-IsCounted :
    (t : FdTable) (fd : ℤ) (file : Option ℕ) (s : FileTable)
    → IsCounted t
    → IsCounted (fd_set_file t fd file s).1
unfolding fd_set_file
fd_set_file-IsCounted t (negsuc n) file s c = c
fd_set_file-IsCounted t (pos fd) file s c = elim (Bool-cases (leb max_fd fd)) [
  | inl outside ↦ rw outside c
  | inr inside ↦ rw inside (
      ground (
        arith,
        c,
        count_open-update t.entries fd max_fd 0 file (omega arith) (ground arith),
        count_open-le t.entries max_fd 0,
        count_open-le (update t.entries fd file) max_fd 0,
      ))
]

close_fd-IsCounted :
    (t : FdTable) (fd : ℕ) (s : FileTable)
    → fd < max_fd
    → IsCounted t
    → IsCounted (close_fd t fd s).0
unfolding closed
close_fd-IsCounted t fd s h c = elim (Option-cases (t.entries fd)) [
  | inl unused ↦ rw (close_fd-none t fd s unused) c
  | inr (g, opened) ↦ rw (close_fd-some t fd s g opened) (
      ground (
        arith,
        c,
        opened,
        ap one opened,
        count_open-update t.entries fd max_fd 0 none (omega arith) (omega arith),
      ))
]

-- fd_free keeps num_open the number of open descriptors, for every descriptor number.
pub fd_free-IsCounted :
    (t : FdTable) (fd : ℤ) (s : FileTable) → IsCounted t → IsCounted (fd_free t fd s).0
unfolding fd_free
fd_free-IsCounted t (negsuc n) s c = c
fd_free-IsCounted t (pos fd) s c = elim (Bool-cases (leb max_fd fd)) [
  | inl outside ↦ rw outside c
  | inr inside ↦ rw inside (close_fd-IsCounted t fd s (ground arith) c)
]

-- What `fd_alloc` returns: the lowest closed descriptor, or -1 when all are open.
abbrev pub AllocOutcome : FdTable → Option ℕ → Type 0
AllocOutcome t none = count_open t.entries max_fd 0 ≡ max_fd
AllocOutcome t (some fd) = (fd < max_fd) × (t.entries fd ≡ none) × (count_open t.entries fd 0 ≡ fd)

find_fd-none : (e : ℕ → Option ℕ) (n i : ℕ) → find_fd e n i ≡ none → count_open e n i ≡ n
unfolding find_fd count_open
find_fd-none e zero i h = refl
find_fd-none e (suc n) i h = ground (arith, find_fd-none e n (i + 1))

find_fd-some :
    (e : ℕ → Option ℕ) (n i fd : ℕ)
    → find_fd e n i ≡ some fd
    → (i ≤ fd) × (fd < i + n) × (e fd ≡ none)
unfolding find_fd
find_fd-some e zero i fd h = absurd (ground arith)
find_fd-some e (suc n) i fd h = ground (arith, find_fd-some e n (i + 1) fd)

-- All of the `k` entries below the one that is found are open.
find_fd-lowest :
    (e : ℕ → Option ℕ) (n i k fd : ℕ) → find_fd e n i ≡ some fd → i + k ≡ fd → count_open e k i ≡ k
unfolding find_fd count_open
find_fd-lowest e n i zero fd h r = refl
find_fd-lowest e zero i (suc k) fd h r = absurd (ground arith)
find_fd-lowest e (suc n) i (suc k) fd h r = ground (arith, find_fd-lowest e n (i + 1) k fd)

-- fd_alloc returns a descriptor that is closed while all below it are open; or it returns -1, and
-- then all descriptors are open.
pub fd_alloc_lem : (t : FdTable) → AllocOutcome t (fd_alloc (some t))
unfolding fd_alloc
fd_alloc_lem t = elim (Option-cases (find_fd t.entries max_fd 0)) [
  | inl full ↦ rw full (find_fd-none t.entries max_fd 0 full)
  | inr (fd, found) ↦
      let f = find_fd-some t.entries max_fd 0 fd found in
      rw found (omega (arith, f), f.2, find_fd-lowest t.entries max_fd 0 fd fd found (omega arith))
]
