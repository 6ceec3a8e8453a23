-- ===== src/Memory/Strings.antt =====
-- `strlen`, `strcpy` and `strncpy` on a string in memory.
use chanux.Common.{
  ℕ, zero, suc, ◌+◌, ◌≤◌, ◌<◌, ◌≡◌, ◌≢◌, ◌∙◌, sym, ap, subst, refl, true, ◌==◌, if◌then◌else◌,
  update, arith, Bool-cases, inl, inr, ◌⊎◌, ==→eq, eq→==, ne→==,
}
use chanux.Memory.{
  Mem, len_loop, strlen, copy_until, pad_loop, strncpy, byte_loop, copy_string, strcpy,
}
use chanux.Memory.Copied.{inside, Copied, IsForward, byte_loop-Copied}

-- A string of `n` bytes, and its NUL.
pub record IsString (mem : Mem) (str n : ℕ) : Type 0 where
  pub bytes : (i : ℕ) → i < n → mem (str + i) ≢ 0
  pub ends : mem (str + n) ≡ 0

len_loop-ends :
    (fuel n : ℕ) (mem : Mem) (str len : ℕ)
    → len ≤ n
    → n < len + fuel
    → IsString mem str n
    → len_loop fuel mem str len ≡ n
unfolding len_loop
len_loop-ends zero n mem str len le lt h = absurd (omega arith)
len_loop-ends (suc fuel) n mem str len le lt h = elim (Bool-cases (len == n)) [
  | inl here ↦ let e = ==→eq len n here in rw (e, h.ends) refl
  | inr before ↦
      let ne : len ≢ n = λ e. absurd (ground (arith, eq→== len n e)) in
      let byte = h.bytes len (omega (arith, ne)) in
      rw (ne→== (mem (str + len)) 0 byte)
        (len_loop-ends fuel n mem str (len + 1) (omega (arith, ne)) (omega arith) h)
]

-- strlen returns the number of bytes before the first NUL, on fuel of more than that number.
pub strlen_lem :
    (fuel n : ℕ) (mem : Mem) (str : ℕ) → n < fuel → IsString mem str n → strlen fuel mem str ≡ n
unfolding strlen
strlen_lem fuel n mem str lt h = len_loop-ends fuel n mem str 0 (omega arith) (omega arith) h

pad_loop-inside :
    (n : ℕ) (mem : Mem) (d a : ℕ) → pad_loop n mem d a ≡ (if inside d n a then 0 else mem a)
unfolding pad_loop
pad_loop-inside zero mem d a = ground arith
pad_loop-inside (suc n) mem d a = pad_loop-inside n (update mem d 0) (d + 1) a ∙ split n mem d a
  where
    split :
        (n : ℕ) (mem : Mem) (d a : ℕ)
        → (if inside (d + 1) n a then 0 else update mem d 0 a)
          ≡ (if inside d (suc n) a then 0 else mem a)
    split n mem d a = ground arith

kept : (mem : Mem) (d c a : ℕ) → d ≢ a → update mem d c a ≡ mem a
kept mem d c a ne = rw (ne→== d a ne) refl

-- Writing at `d` leaves the bytes from `s + 1` to `s + n` alone.
abbrev IsApart : ℕ → ℕ → ℕ → Type 0
IsApart d s n = (d ≤ s) ⊎ (s + n < d)

apart_ne : (d s n i : ℕ) → IsApart d s n → i < n → d ≢ s + 1 + i
apart_ne d s n i (inl up) lt e = absurd (omega (arith, e))
apart_ne d s n i (inr down) lt e = absurd (omega (arith, e))

IsApart-next : (d s n : ℕ) → IsApart d s (suc n) → IsApart (d + 1) (s + 1) n
IsApart-next d s n (inl up) = inl (omega arith)
IsApart-next d s n (inr down) = inr (omega arith)

-- The string after one byte of it has been copied.
IsString-update :
    (mem : Mem) (d s n : ℕ)
    → IsApart d s (suc n)
    → IsString mem s (suc n)
    → IsString (update mem d (mem s)) (s + 1) n
IsString-update mem d s n f h = record {
  bytes = λ i lt e.
      let place : s + 1 + i ≡ s + suc i = omega arith in
      h.bytes (suc i) (omega arith) (
        ap mem (sym place)
        ∙ sym (kept mem d (mem s) (s + 1 + i) (apart_ne d s (suc n) i f (omega arith)))
        ∙ e);
  ends =
      let place : s + 1 + n ≡ s + suc n = omega arith in
      kept mem d (mem s) (s + 1 + n) (apart_ne d s (suc n) n f (omega arith))
      ∙ ap mem place
      ∙ h.ends;
}

copy_until-stops :
    (n len : ℕ) (mem : Mem) (d s : ℕ)
    → len < n
    → IsApart d s len
    → IsString mem s len
    → ((copy_until n mem d s).count + len ≡ n) × ((copy_until n mem d s).d ≡ d + len + 1)
unfolding copy_until
copy_until-stops zero len mem d s lt f h = absurd (omega arith)
copy_until-stops (suc n) zero mem d s lt f h =
    let e : s + 0 ≡ s = omega arith in
    let nul : mem s ≡ 0 = ap mem (sym e) ∙ h.ends in
    rw (eq→== (mem s) 0 nul) (omega arith, omega arith)
copy_until-stops (suc n) (suc len) mem d s lt f h =
    let e : s + 0 ≡ s = omega arith in
    let byte : mem s ≢ 0 = λ z. h.bytes 0 (omega arith) (ap mem e ∙ z) in
    let (c, p) =
      copy_until-stops n len (update mem d (mem s)) (d + 1) (s + 1) (omega arith)
        (IsApart-next d s len f) (IsString-update mem d s len f h) in
    rw (ne→== (mem s) 0 byte) (omega arith, omega arith)

-- For a source string shorter than n that a copy upwards does not overwrite, strncpy writes a NUL
-- also one byte past the n bytes of the target.
pub strncpy_overrun :
    (mem : Mem) (d s n len : ℕ)
    → len < n
    → (d ≤ s) ⊎ (s + len < d)
    → IsString mem s len
    → strncpy mem d s n (d + n) ≡ 0
unfolding strncpy
strncpy_overrun mem d s n len lt f h =
    let (c, p) = copy_until-stops n len mem d s lt f h in
    let last : inside (copy_until n mem d s).d (copy_until n mem d s).count (d + n) ≡ true =
      ground arith in
    pad_loop-inside (copy_until n mem d s).count (copy_until n mem d s).mem (copy_until n mem d s).d
      (d + n)
    ∙ rw last refl

copy_string-byte_loop :
    (n fuel : ℕ) (mem : Mem) (d s : ℕ)
    → n < fuel
    → IsApart d s n
    → IsString mem s n
    → copy_string fuel mem d s ≡ byte_loop (suc n) mem d s
unfolding copy_string byte_loop
copy_string-byte_loop n zero mem d s lt f h = absurd (omega arith)
copy_string-byte_loop zero (suc fuel) mem d s lt f h =
    let e : s + 0 ≡ s = omega arith in
    let nul : mem s ≡ 0 = ap mem (sym e) ∙ h.ends in rw (eq→== (mem s) 0 nul) refl
copy_string-byte_loop (suc n) (suc fuel) mem d s lt f h =
    let e : s + 0 ≡ s = omega arith in
    let byte : mem s ≢ 0 = λ z. h.bytes 0 (omega arith) (ap mem e ∙ z) in
    rw (ne→== (mem s) 0 byte) (
      copy_string-byte_loop n fuel (update mem d (mem s)) (d + 1) (s + 1) (omega arith)
        (IsApart-next d s n f) (IsString-update mem d s n f h))

-- strcpy copies a string of `len` bytes with its NUL and leaves every other byte as it was, on fuel of
-- more than its length, if the target does not start among the source's bytes.
pub strcpy_lem :
    (fuel : ℕ) (mem : Mem) (d s len : ℕ)
    → len < fuel
    → (d ≤ s) ⊎ (s + len < d)
    → IsString mem s len
    → Copied mem (strcpy fuel mem d s) d s (suc len)
unfolding strcpy
strcpy_lem fuel mem d s len lt f h =
    subst (λ m. Copied mem m d s (suc len)) (sym (copy_string-byte_loop len fuel mem d s lt f h))
      (byte_loop-Copied (suc len) mem d s (forward d s len f))
  where
    forward : (d s len : ℕ) → (d ≤ s) ⊎ (s + len < d) → IsForward d s (suc len)
    forward d s len (inl up) = inl up
    forward d s len (inr down) = inr (omega arith)
