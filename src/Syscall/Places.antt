-- ===== src/Syscall/Places.antt =====
-- Where the results of the system calls are put, and that this is not in the kernel's memory.
use chanux.Common.{
  ℕ, zero, suc, ◌+◌, ◌%◌, ◌/◌, ◌≤◌, ◌<◌, ◌≡◌, ◌≢◌, ◌∙◌, refl, Bool, true, ◌&&◌, ◌==◌, leb, Option,
  none, some, update, u64_mod, List, [], ◌∷◌, length, ℤ, pos, negsuc, arith, Bool-cases, inl, inr,
  ne→==, ==→eq,
}
use chanux.Memory.{Mem}
use chanux.Ramfs.{write_bytes}
use chanux.Vfs.Tree.{Stat}
use chanux.SysFs.{
  SysState, Caller, cwd_result, user_space_end, validate_user_ptr_read, dirent_bytes, stat_bytes,
}
use chanux.SysIo.{IoState}
use chanux.SysIo.Bounds.{WritesUser}
use chanux.Syscall.{
  Kernel, CallResult, returned, gone, stopped, put_result, put_write, put_read, put_stat, put_fstat,
  put_dirent, put_cwd,
}
use chanux.Syscall.Structs.{put_number, put_fields, put_string}

-- No byte of the kernel's half is another.
abbrev pub High : Mem → Mem → Type 0
High mem mem' = (a : ℕ) → user_space_end ≤ a → mem' a ≡ mem a

-- The outcome of a call on a state with the memory `mem`.
abbrev pub IsSafe : Mem → CallResult → Type 0
IsSafe mem (returned r k) = High mem k.memory
IsSafe mem (gone k) = High mem k.memory
IsSafe mem stopped = Unit

kept : (mem : Mem) (at c a : ℕ) → at < a → update mem at c a ≡ mem a
kept mem at c a lt = let ne : at ≢ a = λ e. absurd (omega (arith, e)) in rw (ne→== at a ne) refl

put_number-kept :
    (n : ℕ) (mem : Mem) (at value a : ℕ) → at + n ≤ a → put_number n mem at value a ≡ mem a
unfolding put_number
put_number-kept zero mem at value a le = refl
put_number-kept (suc n) mem at value a le =
    put_number-kept n (update mem at (value % 256)) (at + 1) (value / 256) a (omega arith)
    ∙ kept mem at (value % 256) a (omega arith)

put_string-kept :
    (l : List ℕ) (mem : Mem) (at a : ℕ) → at + length l < a → put_string mem at l a ≡ mem a
unfolding put_string
put_string-kept [] mem at a lt = kept mem at 0 a (omega arith)
put_string-kept (c ∷ l) mem at a lt =
    put_string-kept l (update mem at c) (at + 1) a (omega arith) ∙ kept mem at c a (omega arith)

-- Every field lies within the first `n` bytes of the struct.
fits : ℕ → List (ℕ × ℕ × ℕ) → Bool
fits n [] = true
fits n ((offset, size, value) ∷ l) = let rest = fits n l in leb (offset + size) n && rest

put_fields-kept :
    (l : List (ℕ × ℕ × ℕ)) (n : ℕ) (mem : Mem) (ptr a : ℕ)
    → fits n l ≡ true
    → ptr + n ≤ a
    → put_fields mem ptr l a ≡ mem a
unfolding put_fields fits
put_fields-kept [] n mem ptr a f le = refl
put_fields-kept ((offset, size, value) ∷ l) n mem ptr a f le =
    put_fields-kept l n (put_number size mem (ptr + offset) value) ptr a (ground (arith, f)) le
    ∙ put_number-kept size mem (ptr + offset) value a (ground (arith, f))

-- A range that `validate_user_ptr_read` accepts ends in user space.
pub accepted_end :
    (addr len : ℕ)
    → addr < u64_mod
    → len < u64_mod
    → validate_user_ptr_read addr len ≡ true
    → addr + len ≤ user_space_end
unfolding validate_user_ptr_read
accepted_end addr len low low' h = ground (arith, h)

pub result-IsSafe : (k : Kernel) (r : ℤ × SysState) → IsSafe k.memory (put_result k r)
result-IsSafe k (r, s) = λ a high. refl

pub write-IsSafe : (k : Kernel) (r : ℤ × IoState) → IsSafe k.memory (put_write k r)
write-IsSafe k (r, s) = λ a high. refl

pub read-IsSafe :
    (k : Kernel) (buf len : ℕ) (r : ℤ × Mem × IoState)
    → WritesUser k.memory buf len r
    → IsSafe k.memory (put_read k r)
read-IsSafe k buf len (r, mem, s) w = λ a high. elim (Bool-cases (mem a == k.memory a)) [
  | inl same ↦ ==→eq (mem a) (k.memory a) same
  | inr other ↦
      let ne : mem a ≢ k.memory a = λ e. absurd (ground (arith, other, e)) in
      let user = w.1 a ne in absurd (omega (arith, user, high))
]

pub stat-IsSafe :
    (k : Kernel) (ptr : ℕ) (r : ℤ × Stat × SysState)
    → ptr + stat_bytes ≤ user_space_end
    → IsSafe k.memory (put_stat k ptr r)
unfolding fits
stat-IsSafe k ptr (negsuc e, st, s) le = λ a high. refl
stat-IsSafe k ptr (pos r, st, s) le = λ a high.
    put_fields-kept _ stat_bytes _ ptr a refl (omega (arith, high))
    ∙ put_fields-kept _ stat_bytes _ ptr a refl (omega (arith, high))
    ∙ put_fields-kept _ stat_bytes _ ptr a refl (omega (arith, high))

pub fstat-IsSafe :
    (k : Kernel) (ptr : ℕ) (r : ℤ × Stat)
    → ptr + stat_bytes ≤ user_space_end
    → IsSafe k.memory (put_fstat k ptr r)
unfolding fits
fstat-IsSafe k ptr (negsuc e, st) le = λ a high. refl
fstat-IsSafe k ptr (pos r, st) le =
    λ a high. put_fields-kept _ stat_bytes _ ptr a refl (omega (arith, high))

pub dirent-IsSafe :
    (k : Kernel) (ptr : ℕ) (r : ℤ × (ℕ → ℕ))
    → ptr + dirent_bytes ≤ user_space_end
    → IsSafe k.memory (put_dirent k ptr r)
unfolding write_bytes
dirent-IsSafe k ptr (negsuc e, entry) le = λ a high. refl
dirent-IsSafe k ptr (pos r, entry) le = λ a high. ground (arith, high)

pub cwd-IsSafe :
    (k : Kernel) (ptr size : ℕ) (p : Option Caller)
    → ptr + size ≤ user_space_end
    → IsSafe k.memory (put_cwd k ptr (cwd_result size p))
cwd-IsSafe k ptr size none le = λ a high. refl
cwd-IsSafe k ptr size (some p) le = elim (Bool-cases (leb size (length p.cwd))) [
  | inl long ↦ rw long (λ a high. refl)
  | inr fits_in ↦
      rw fits_in
        (λ a high. put_string-kept p.cwd k.memory ptr a (ground (arith, fits_in, high, le)))
]
