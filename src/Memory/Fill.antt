-- ===== src/Memory/Fill.antt =====
-- `memset` of kernel/lib/string.c writes the byte to each address of its range, by words where it can.
use chanux.Common.{
  ℕ, zero, suc, ◌+◌, ◌*◌, ◌/◌, ◌%◌, ◌≡◌, refl, ◌==◌, leb, if◌then◌else◌, update, arith, Bool-cases,
  inl, inr, subst,
}
use chanux.Memory.{Mem, fill_word, Filled, fill_align, fill_words, fill_bytes, fill_rest, memset}
use chanux.Memory.Copied.{inside}

-- `mem'` is `mem` with the `n` bytes from `d` on set to `byte`.
abbrev pub IsFilled : Mem → Mem → ℕ → ℕ → ℕ → Type 0
IsFilled mem mem' byte d n = (a : ℕ) → mem' a ≡ (if inside d n a then byte else mem a)

join-IsFilled :
    (mem mem1 mem2 : Mem) (byte d k n : ℕ)
    → IsFilled mem mem1 byte d k
    → IsFilled mem1 mem2 byte (d + k) n
    → IsFilled mem mem2 byte d (k + n)
join-IsFilled mem mem1 mem2 byte d k n f g a = ground (arith, f a, g a)

update-IsFilled : (mem : Mem) (byte d : ℕ) → IsFilled mem (update mem d byte) byte d 1
update-IsFilled mem byte d a = ground arith

word-IsFilled : (mem : Mem) (byte d : ℕ) → IsFilled mem (fill_word mem byte d) byte d 8
unfolding fill_word
word-IsFilled mem byte d a = refl

bytes-IsFilled : (n : ℕ) (mem : Mem) (byte d : ℕ) → IsFilled mem (fill_bytes n mem byte d) byte d n
unfolding fill_bytes
bytes-IsFilled zero mem byte d = λ a. ground arith
bytes-IsFilled (suc n) mem byte d =
    subst (IsFilled mem (fill_bytes n (update mem d byte) byte (d + 1)) byte d) {x = 1 + n}
      (omega arith)
      (join-IsFilled mem (update mem d byte) (fill_bytes n (update mem d byte) byte (d + 1)) byte d
        1 n (update-IsFilled mem byte d) (bytes-IsFilled n (update mem d byte) byte (d + 1)))

words-IsFilled :
    (n : ℕ) (mem : Mem) (byte d : ℕ) → IsFilled mem (fill_words n mem byte d) byte d (8 * n)
unfolding fill_words
words-IsFilled zero mem byte d = λ a. ground arith
words-IsFilled (suc n) mem byte d =
    subst (IsFilled mem (fill_words n (fill_word mem byte d) byte (d + 8)) byte d) {x = 8 + 8 * n}
      (omega arith)
      (join-IsFilled mem (fill_word mem byte d) (fill_words n (fill_word mem byte d) byte (d + 8))
        byte d 8 (8 * n) (word-IsFilled mem byte d)
        (words-IsFilled n (fill_word mem byte d) byte (d + 8)))

rest-filled : (byte : ℕ) (f : Filled) → IsFilled f.mem (fill_rest byte f) byte f.ptr f.count
rest-filled byte f =
    let n = f.count / 8 in
    let w = fill_words n f.mem byte f.ptr in
    subst (IsFilled f.mem (fill_rest byte f) byte f.ptr) {x = 8 * n + f.count % 8} (omega arith) (
      join-IsFilled f.mem w (fill_rest byte f) byte f.ptr (8 * n) (f.count % 8)
        (words-IsFilled n f.mem byte f.ptr) (bytes-IsFilled (f.count % 8) w byte (f.ptr + 8 * n)))

align-IsFilled :
    (n : ℕ) (mem : Mem) (byte d : ℕ)
    → IsFilled mem (fill_rest byte (fill_align n mem byte d)) byte d n
unfolding fill_align
align-IsFilled zero mem byte d = rest-filled byte (record { mem = mem; ptr = d; count = 0 })
align-IsFilled (suc n) mem byte d = elim (Bool-cases (d % 8 == 0)) [
  | inl aligned ↦
      let start : Filled = record { mem = mem; ptr = d; count = suc n } in
      rw aligned (rest-filled byte start)
  | inr later ↦
      let rest = fill_rest byte (fill_align n (update mem d byte) byte (d + 1)) in
      rw later (
        subst (IsFilled mem rest byte d) {x = 1 + n} (omega arith) (
          join-IsFilled mem (update mem d byte) rest byte d 1 n (update-IsFilled mem byte d)
            (align-IsFilled n (update mem d byte) byte (d + 1))))
]

-- memset, which fills by words of 8 bytes where it can, leaves the low byte of its argument in each
-- of the given places and every other place as it was.
pub memset-IsFilled :
    (mem : Mem) (dest val count : ℕ)
    → IsFilled mem (memset mem dest val count) (val % 256) dest count
unfolding memset
memset-IsFilled mem dest val count = elim (Bool-cases (leb 8 count)) [
  | inl words ↦ rw words (align-IsFilled count mem (val % 256) dest)
  | inr few ↦ rw few (bytes-IsFilled count mem (val % 256) dest)
]
