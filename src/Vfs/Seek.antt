-- ===== src/Vfs/Seek.antt =====
-- `vfs_lseek` of kernel/fs/vfs.c, and the same on integers without a bound.
use chanux.Common.{
  ℕ, zero, suc, ◌+◌, ◌-◌, ◌^◌, ◌≤◌, ◌<◌, ◌≡◌, refl, ap, ◌∙◌, true, false, ◌==◌, ltb, leb,
  if◌then◌else◌, Option, none, some, add64, u64_mod, ℤ, pos, negsuc, arith, Bool-cases, inl, inr,
}
use chanux.FileTable.{file_type_console}
use chanux.Vfs.{Vfs, vnode_at}
use chanux.Vfs.Calls.{file_at, set_file}

-- The offset that `SEEK_SET`, `SEEK_CUR` and `SEEK_END` count from.
abbrev pub seek_base : Vfs → ℕ → ℕ → Option ℕ
seek_base s f whence =
    let end : Option ℕ = elim (file_at s f).vnode [
      | none ↦ none
      | some v ↦ elim (vnode_at s v).inode [ none ↦ none | some i ↦ some (s.fs.inodes i).size ]
    ] in
    if whence == 0
    then some 0
    else if whence == 1
    then some (file_at s f).offset
    else if whence == 2
    then end
    else none

-- A sum beyond the range of `int64_t`, which C leaves undefined, wraps as the machine's addition does.
abbrev pub seek_to : Vfs → ℕ → ℕ → Option ℕ → Option ℕ × Vfs
seek_to s f offset none = (none, s)
seek_to s f offset (some base) =
    let new_offset = add64 base offset in
    if leb (2 ^ 63) new_offset
    then (none, s)
    else (some new_offset, set_file s f (record (file_at s f) { offset = new_offset }))

unfoldable pub vfs_lseek : Vfs → Option ℕ → ℕ → ℕ → Option ℕ × Vfs
vfs_lseek s none offset whence = (none, s)
vfs_lseek s (some f) offset whence =
    if (file_at s f).type == file_type_console
    then (none, s)
    else seek_to s f offset (seek_base s f whence)

-- The pattern of an `int64_t`.
abbrev pub to_word : ℤ → ℕ
to_word (pos n) = n
to_word (negsuc n) = u64_mod - 1 - n

abbrev pub IsInt64 : ℤ → Type 0
IsInt64 (pos n) = n < 2 ^ 63
IsInt64 (negsuc n) = n < 2 ^ 63

-- The place that a seek counts from, `none` where there is none to count from.
pub data Origin (s : Vfs) (f : ℕ) : ℕ → Option ℕ → Type 0 where
  console : (whence : ℕ) → ((file_at s f).type == file_type_console) ≡ true → Origin s f whence none
  seek_set : ((file_at s f).type == file_type_console) ≡ false → Origin s f 0 (some 0)
  seek_cur :
      ((file_at s f).type == file_type_console) ≡ false → Origin s f 1 (some (file_at s f).offset)
  seek_end :
      (v i : ℕ)
      → ((file_at s f).type == file_type_console) ≡ false
      → (file_at s f).vnode ≡ some v
      → (vnode_at s v).inode ≡ some i
      → Origin s f 2 (some (s.fs.inodes i).size)
  unset_vnode : (file_at s f).vnode ≡ none → Origin s f 2 none
  unset_inode :
      (v : ℕ) → (file_at s f).vnode ≡ some v → (vnode_at s v).inode ≡ none → Origin s f 2 none
  unknown : (whence : ℕ) → 3 ≤ whence → Origin s f whence none

module _ (s : Vfs) (f : ℕ) where
  -- There is an origin in each case.
  abbrev HasOrigin : ℕ → Type 0
  HasOrigin whence = (origin : Option ℕ) × Origin s f whence origin

  module _ (seekable : ((file_at s f).type == file_type_console) ≡ false) where
    inode_origin :
        (v : ℕ) (o : Option ℕ)
        → (file_at s f).vnode ≡ some v
        → (vnode_at s v).inode ≡ o
        → HasOrigin 2
    inode_origin v none vnode e = (none, unset_inode v vnode e)
    inode_origin v (some i) vnode e = (_, seek_end v i seekable vnode e)

    vnode_origin : (o : Option ℕ) → (file_at s f).vnode ≡ o → HasOrigin 2
    vnode_origin none e = (none, unset_vnode e)
    vnode_origin (some v) e = inode_origin v (vnode_at s v).inode e refl

    whence_origin : (whence : ℕ) → HasOrigin whence
    whence_origin zero = (_, seek_set seekable)
    whence_origin (suc zero) = (_, seek_cur seekable)
    whence_origin (suc (suc zero)) = vnode_origin (file_at s f).vnode refl
    whence_origin (suc (suc (suc n))) = (none, unknown (suc (suc (suc n))) (omega arith))

  find_origin : (whence : ℕ) → HasOrigin whence
  find_origin whence = elim (Bool-cases ((file_at s f).type == file_type_console)) [
    | inl at_console ↦ (none, console whence at_console)
    | inr seekable ↦ whence_origin seekable whence
  ]

-- The exact sum, if it is not negative.
abbrev pub exact_sum : ℕ → ℤ → Option ℕ
exact_sum base (pos n) = some (base + n)
exact_sum base (negsuc n) = if ltb n base then some (base - (n + 1)) else none

abbrev pub target : Option ℕ → ℤ → Option ℕ
target none offset = none
target (some base) offset = exact_sum base offset

abbrev pub move_to : Vfs → ℕ → Option ℕ → Option ℕ × Vfs
move_to s f none = (none, s)
move_to s f (some p) = (some p, set_file s f (record (file_at s f) { offset = p }))

-- The place and its sum with the offset are `int64_t` values.
abbrev pub InRange : Option ℕ → ℤ → Type 0
InRange none offset = Unit
InRange (some base) (pos n) = base + n < 2 ^ 63
InRange (some base) (negsuc n) = base < 2 ^ 63

seek_to-exact :
    (s : Vfs) (f : ℕ) (offset : ℤ) (base : Option ℕ)
    → IsInt64 offset
    → InRange base offset
    → seek_to s f (to_word offset) base ≡ move_to s f (target base offset)
seek_to-exact s f (pos n) none small fits = refl
seek_to-exact s f (negsuc n) none small fits = refl
seek_to-exact s f (pos n) (some base) small fits =
    let e : add64 base n ≡ base + n = omega arith in
    let no : leb (2 ^ 63) (base + n) ≡ false = ground arith in rw (e, no) refl
seek_to-exact s f (negsuc n) (some base) small low = elim (Bool-cases (ltb n base)) [
  | inl fits ↦
      let lt : n < base = ground arith in
      let e : add64 base (u64_mod - 1 - n) ≡ base - (n + 1) = omega arith in
      let no : leb (2 ^ 63) (base - (n + 1)) ≡ false = ground arith in rw (e, fits, no) refl
  | inr over ↦
      let le : base ≤ n = ground arith in
      let yes : leb (2 ^ 63) (add64 base (u64_mod - 1 - n)) ≡ true = ground arith in
      rw (over, yes) refl
]

-- Without a place to count from, whatever the file is.
refused :
    (s : Vfs) (f : ℕ)
    → (if (file_at s f).type == file_type_console then (none, s) else (none, s)) ≡ move_to s f none
refused s f = elim (Bool-cases ((file_at s f).type == file_type_console)) [
  | inl at_console ↦ rw at_console refl
  | inr other ↦ rw other refl
]

-- What vfs_lseek counts from is the origin.
vfs_lseek-Origin :
    (s : Vfs) (f offset whence : ℕ) (origin : Option ℕ)
    → Origin s f whence origin
    → vfs_lseek s (some f) offset whence ≡ seek_to s f offset origin
unfolding vfs_lseek
vfs_lseek-Origin s f offset w o (console whence is_console) = rw is_console refl
vfs_lseek-Origin s f offset w o (seek_set seekable) = rw seekable refl
vfs_lseek-Origin s f offset w o (seek_cur seekable) = rw seekable refl
vfs_lseek-Origin s f offset w o (seek_end v i seekable vnode inode) =
    let e : seek_base s f 2 ≡ some (s.fs.inodes i).size = rw (vnode, inode) refl in
    rw seekable (ap (seek_to s f offset) e)
vfs_lseek-Origin s f offset w o (unset_vnode vnode) = rw vnode (refused s f)
vfs_lseek-Origin s f offset w o (unset_inode v vnode inode) = rw (vnode, inode) (refused s f)
vfs_lseek-Origin s f offset w o (unknown whence le) =
    let not_set : (whence == 0) ≡ false = ground (arith, le) in
    let not_cur : (whence == 1) ≡ false = ground (arith, le) in
    let not_end : (whence == 2) ≡ false = ground (arith, le) in
    rw (not_set, not_cur, not_end) (refused s f)

-- vfs_lseek moves the offset of a file to the exact sum of the 64-bit signed offset and the place
-- that it counts from, if that sum is not negative, and else returns -1 and changes nothing.
-- SEEK_SET counts from 0, SEEK_CUR from the offset of the file and SEEK_END from the size of its
-- inode; for a console, a file without a vnode or an inode at SEEK_END, and any other number there
-- is no place to count from, and it returns -1 and changes nothing. The place and the sum are below
-- 2^63, so that no signed addition overflows.
pub vfs_lseek-exact :
    (s : Vfs) (f : ℕ) (offset : ℤ) (whence : ℕ) (origin : Option ℕ)
    → Origin s f whence origin
    → IsInt64 offset
    → InRange origin offset
    → vfs_lseek s (some f) (to_word offset) whence ≡ move_to s f (target origin offset)
vfs_lseek-exact s f offset whence origin from small fits =
    vfs_lseek-Origin s f (to_word offset) whence origin from
    ∙ seek_to-exact s f offset origin small fits
