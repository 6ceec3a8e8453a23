-- ===== src/Memory/Copied.antt =====
-- What it means that a range of bytes has been copied, and how copies compose.
use chanux.Common.{
  ℕ, zero, suc, ◌+◌, ◌-◌, ◌*◌, ◌≤◌, ◌<◌, ◌≡◌, ◌≢◌, ◌∙◌, refl, Bool, true, false, ◌&&◌, ◌==◌, ltb,
  leb, if◌then◌else◌, update, arith, Bool-cases, inl, inr, ◌⊎◌, ==→eq, eq→==, ne→==,
}
use chanux.Memory.{Mem, copy_word, word_loop, byte_loop, back_loop}

-- The `n` bytes from `d` on.
abbrev pub inside : ℕ → ℕ → ℕ → Bool
inside d n a = leb d a && ltb a (d + n)

-- `mem'` is `mem`, with its `n` bytes from `s` on at `d`.
abbrev pub Copied : Mem → Mem → ℕ → ℕ → ℕ → Type 0
Copied mem mem' d s n = (a : ℕ) → mem' a ≡ (if inside d n a then mem (s + (a - d)) else mem a)

-- A copy upwards does not write what it has yet to read.
abbrev pub IsForward : ℕ → ℕ → ℕ → Type 0
IsForward d s n = (d ≤ s) ⊎ (s + n ≤ d)

pub Copied-nil : (mem : Mem) (d s : ℕ) → Copied mem mem d s 0
Copied-nil mem d s a = ground arith

same_place : (d s k a : ℕ) → d + k ≤ a → s + k + (a - (d + k)) ≡ s + (a - d)
same_place d s k a h = omega arith

untouched :
    (d s k m a : ℕ)
    → IsForward d s (k + m)
    → d + k ≤ a
    → a < d + k + m
    → inside d k (s + (a - d)) ≡ false
untouched d s k m a (inl up) h lt = ground arith
untouched d s k m a (inr down) h lt = ground arith

inside_bounds : (d n a : ℕ) → inside d n a ≡ true → (d ≤ a) × (a < d + n)
inside_bounds d n a h = (ground arith, ground arith)

inside_intro : (d n a : ℕ) → d ≤ a → a < d + n → inside d n a ≡ true
inside_intro d n a h k = ground arith

inside_first : (d k m a : ℕ) → inside (d + k) m a ≡ false → inside d (k + m) a ≡ inside d k a
inside_first d k m a h = ground arith

pub Copied-trans :
    (mem mem1 mem2 : Mem) (d s k m : ℕ)
    → IsForward d s (k + m)
    → Copied mem mem1 d s k
    → Copied mem1 mem2 (d + k) (s + k) m
    → Copied mem mem2 d s (k + m)
Copied-trans mem mem1 mem2 d s k m f c1 c2 a = elim (Bool-cases (inside (d + k) m a)) [
  | inl second ↦
      let (low, high) = inside_bounds (d + k) m a second in
      let place = same_place d s k a low in
      let out = untouched d s k m a f low high in
      let whole : inside d (k + m) a ≡ true =
        inside_intro d (k + m) a (omega arith) (omega arith) in
      c2 a ∙ rw (second, place, whole) (c1 (s + (a - d)) ∙ rw out refl)
  | inr first ↦ let same = inside_first d k m a first in c2 a ∙ rw (first, same) (c1 a)
]

pub Copied-byte : (mem : Mem) (d s : ℕ) → Copied mem (update mem d (mem s)) d s 1
Copied-byte mem d s a = elim (Bool-cases (d == a)) [
  | inl here ↦
      let e : s + (a - d) ≡ s = let same = ==→eq d a here in omega arith in
      let inner =
        inside_intro d 1 a (let same = ==→eq d a here in omega arith)
          (let same = ==→eq d a here in omega arith) in
      rw (here, inner, e) refl
  | inr other ↦
      let ne : d ≢ a = λ e. absurd (ground (arith, eq→== d a e)) in
      let outer : inside d 1 a ≡ false = ground (arith, ne) in rw (other, outer) refl
]

pub Copied-word : (mem : Mem) (d s : ℕ) → Copied mem (copy_word mem d s) d s 8
unfolding copy_word
Copied-word mem d s a = refl

pub less : (d s n k : ℕ) → k ≤ n → IsForward d s n → IsForward d s k
less d s n k h (inl up) = inl up
less d s n k h (inr down) = inr (omega arith)

pub shifted : (d s n k : ℕ) → IsForward d s (k + n) → IsForward (d + k) (s + k) n
shifted d s n k (inl up) = inl (omega arith)
shifted d s n k (inr down) = inr (omega arith)

pub byte_loop-Copied :
    (n : ℕ) (mem : Mem) (d s : ℕ) → IsForward d s n → Copied mem (byte_loop n mem d s) d s n
unfolding byte_loop
byte_loop-Copied zero mem d s f = Copied-nil mem d s
byte_loop-Copied (suc n) mem d s f =
    let e : 1 + n ≡ suc n = omega arith in
    rw (← e) (
      Copied-trans mem (update mem d (mem s)) _ d s 1 n (rw e f) (Copied-byte mem d s)
        (byte_loop-Copied n (update mem d (mem s)) (d + 1) (s + 1) (shifted d s n 1 (rw e f))))

pub word_loop-Copied :
    (n : ℕ) (mem : Mem) (d s : ℕ)
    → IsForward d s (8 * n)
    → Copied mem (word_loop n mem d s) d s (8 * n)
unfolding word_loop
word_loop-Copied zero mem d s f = Copied-nil mem d s
word_loop-Copied (suc n) mem d s f =
    let e : 8 + 8 * n ≡ 8 * suc n = omega arith in
    rw (← e) (
      Copied-trans mem (copy_word mem d s) _ d s 8 (8 * n) (rw e f) (Copied-word mem d s)
        (word_loop-Copied n (copy_word mem d s) (d + 8) (s + 8) (shifted d s (8 * n) 8 (rw e f))))

-- A copy from the end down, for a target above the source.
pub back_loop-Copied :
    (n : ℕ) (mem : Mem) (d s : ℕ) → s ≤ d → Copied mem (back_loop n mem d s) d s n
unfolding back_loop
back_loop-Copied zero mem d s h a = Copied-nil mem d s a
back_loop-Copied (suc n) mem d s h a =
    back_loop-Copied n (update mem (d + n) (mem (s + n))) d s h a
    ∙ elim (Bool-cases (inside d n a)) [
      | inl early ↦
          let (low, high) = inside_bounds d n a early in
          let ne : d + n ≢ s + (a - d) = omega arith in
          let whole = inside_intro d (suc n) a low (omega arith) in
          rw (early, whole, ne→== (d + n) (s + (a - d)) ne) refl
      | inr late ↦ elim (Bool-cases (d + n == a)) [
        | inl last ↦
            let same = ==→eq (d + n) a last in
            let whole = inside_intro d (suc n) a (omega arith) (omega arith) in
            let e : s + (a - d) ≡ s + n = omega arith in rw (late, last, whole, e) refl
        | inr other ↦
            let ne : d + n ≢ a = λ e. absurd (ground (arith, eq→== (d + n) a e)) in
            let outer : inside d (suc n) a ≡ false = ground (arith, ne) in
            rw (late, other, outer) refl
      ]
    ]
