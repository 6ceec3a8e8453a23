-- ===== src/Memory/Move.antt =====
-- `memcpy` and `memmove` copy a range, `memmove` also onto a range that overlaps it.
use chanux.Common.{
  ℕ, zero, suc, ◌+◌, ◌-◌, ◌*◌, ◌/◌, ◌%◌, ◌≤◌, ◌≡◌, subst, refl, true, ◌&&◌, ◌||◌, ◌==◌, ltb, leb,
  if◌then◌else◌, update, arith, Bool-cases, inl, inr, ==→eq,
}
use chanux.Memory.{Mem, Copy, align_loop, word_loop, copy_words, memcpy, memmove}
use chanux.Memory.Copied.{
  inside, Copied, IsForward, Copied-nil, Copied-trans, Copied-byte, byte_loop-Copied,
  word_loop-Copied, back_loop-Copied, less, shifted,
}

-- The loop has copied `k` bytes.
abbrev Aligned : Mem → ℕ → ℕ → ℕ → Copy → Type 0
Aligned mem d s n c =
    (k : ℕ) × Copied mem c.mem d s k × (c.d ≡ d + k) × (c.s ≡ s + k) × (c.count + k ≡ n)

align_loop-Aligned :
    (n : ℕ) (mem : Mem) (d s : ℕ) → IsForward d s n → Aligned mem d s n (align_loop n mem d s)
unfolding align_loop
align_loop-Aligned zero mem d s f = (0, Copied-nil mem d s, omega arith, omega arith, omega arith)
align_loop-Aligned (suc n) mem d s f = elim (Bool-cases (d % 8 == 0)) [
  | inl done ↦ rw done (0, Copied-nil mem d s, omega arith, omega arith, omega arith)
  | inr more ↦ rw more (
      further
        (align_loop-Aligned n (update mem d (mem s)) (d + 1) (s + 1) (shifted d s n 1 (forward f))))
]
  where
    forward : IsForward d s (suc n) → IsForward d s (1 + n)
    forward (inl up) = inl up
    forward (inr down) = inr (omega arith)

    further :
        Aligned
          (update mem d (mem s))
          (d + 1)
          (s + 1)
          n
          (align_loop n (update mem d (mem s)) (d + 1) (s + 1))
        → Aligned mem d s (suc n) (align_loop n (update mem d (mem s)) (d + 1) (s + 1))
    further (k, c, ed, es, en) = (
      1 + k,
      Copied-trans mem (update mem d (mem s)) _ d s 1 k (less d s (suc n) (1 + k) (omega arith) f)
          (Copied-byte mem d s) c,
      omega arith,
      omega arith,
      omega arith,
    )

copy_words-Copied :
    (c : Copy) → IsForward c.d c.s c.count → Copied c.mem (copy_words c) c.d c.s c.count
copy_words-Copied c f =
    let n = 8 * (c.count / 8) in
    let e : n + c.count % 8 ≡ c.count = omega arith in
    let f' : IsForward c.d c.s (n + c.count % 8) = rw e f in
    subst (λ m. Copied c.mem (copy_words c) c.d c.s m) e
      (Copied-trans c.mem (word_loop (c.count / 8) c.mem c.d c.s) (copy_words c) c.d c.s n
        (c.count % 8) f'
        (word_loop-Copied (c.count / 8) c.mem c.d c.s (less c.d c.s c.count n (omega arith) f))
        (byte_loop-Copied (c.count % 8) (word_loop (c.count / 8) c.mem c.d c.s) (c.d + n) (c.s + n)
          (shifted c.d c.s (c.count % 8) n f')))

copy_words-Aligned :
    (mem : Mem) (d s n : ℕ) (c : Copy)
    → IsForward d s n
    → Aligned mem d s n c
    → Copied mem (copy_words c) d s n
copy_words-Aligned mem d s n c f (k, c1, ed, es, en) =
    let e : k + c.count ≡ n = omega arith in
    let f' : IsForward d s (k + c.count) = rw e f in
    let f'' : IsForward c.d c.s c.count = rw (ed, es) (shifted d s c.count k f') in
    subst (λ m. Copied mem (copy_words c) d s m) e
      (Copied-trans mem c.mem (copy_words c) d s k c.count f' c1
        (rw (← ed, ← es) (copy_words-Copied c f'')))

module _ (mem : Mem) (d s n : ℕ) where
  -- memcpy leaves memory as it was but for the target range, which holds what the source range held
  -- before the call, if the target does not start above the source or starts at its end or later.
  pub memcpy_lem : IsForward d s n → Copied mem (memcpy mem d s n) d s n
  unfolding memcpy
  memcpy_lem f = elim (Bool-cases (leb 8 n && d % 8 == s % 8)) [
    | inl wide ↦
        rw wide
          (copy_words-Aligned mem d s n (align_loop n mem d s) f (align_loop-Aligned n mem d s f))
    | inr narrow ↦ rw narrow (byte_loop-Copied n mem d s f)
  ]

  nothing_to_move : (d == s || n == 0) ≡ true → Copied mem mem d s n
  nothing_to_move h a = elim (Bool-cases (d == s)) [
    | inl same ↦ inside_same (==→eq d s same) a
    | inr other ↦ let e = ==→eq n 0 (ground arith) in rw e (Copied-nil mem d s a)
  ]
    where
      inside_same : d ≡ s → (a : ℕ) → mem a ≡ (if inside d n a then mem (s + (a - d)) else mem a)
      inside_same e a = elim (Bool-cases (inside d n a)) [
        | inl within ↦
            let low : d ≤ a = ground arith in
            let place : s + (a - d) ≡ a = omega arith in rw (within, place) refl
        | inr outside ↦ rw outside refl
      ]

  -- memmove leaves memory as it was but for the target range, which holds what the source range
  -- held before the call, however the two ranges overlap.
  pub memmove_lem : Copied mem (memmove mem d s n) d s n
  unfolding memmove
  memmove_lem = elim (Bool-cases (d == s || n == 0)) [
    | inl still ↦ rw still (nothing_to_move still)
    | inr moves ↦ elim (Bool-cases (ltb d s || leb (s + n) d)) [
      | inl forward ↦ rw (moves, forward) (memcpy_lem (forward_of forward))
      | inr backward ↦ rw (moves, backward) (back_loop-Copied n mem d s (ground arith))
    ]
  ]
    where
      forward_of : (ltb d s || leb (s + n) d) ≡ true → IsForward d s n
      forward_of h = elim (Bool-cases (ltb d s)) [
        | inl below ↦ inl (ground arith)
        | inr above ↦ inr (ground arith)
      ]
