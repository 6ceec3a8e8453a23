-- ===== src/Bitmap/Search.antt =====
-- What the search for a clear bit returns.
use chanux.Common.{
  ℕ, zero, suc, ◌+◌, ◌≤◌, ◌<◌, ◌≡◌, true, false, Bool-cases, ==→eq, ltb, refl, ◌==◌, inl, inr, none,
  some, arith,
}
use chanux.Bitmap.{Bitmap, bitmap_test, find_free, count_free}

-- The bits from `i` up to `j` are set.
abbrev pub AllSet : Bitmap → ℕ → ℕ → Type 0
AllSet bm i j = (r : ℕ) → i ≤ r → r < j → bitmap_test bm r ≡ true

-- The first clear bit.
pub record IsFirstFree (bm : Bitmap) (i j q : ℕ) : Type 0 where
  pub after : i ≤ q
  pub before : q < j
  pub free : bitmap_test bm q ≡ false
  pub below : AllSet bm i q

find_free_bounds :
    (bm : Bitmap) (n i q : ℕ)
    → find_free bm n i ≡ some q
    → (i ≤ q) × (q < i + n) × (bitmap_test bm q ≡ false)
unfolding find_free
find_free_bounds bm zero i q h = absurd (ground arith)
find_free_bounds bm (suc n) i q h = ground (arith, find_free_bounds bm n (i + 1) q)

find_free-below :
    (bm : Bitmap) (n i q : ℕ)
    → find_free bm n i ≡ some q
    → (r : ℕ) → i ≤ r
    → r < q
    → bitmap_test bm r ≡ true
unfolding find_free
find_free-below bm zero i q h r a b = absurd (ground arith)
find_free-below bm (suc n) i q h r a b = elim (Bool-cases (i == r)) [
  | inl here ↦ rw (← ==→eq i r here) (ground arith)
  | inr later ↦ find_free-below bm n (i + 1) q (ground arith) r (ground arith) b
]

pub find_free-some :
    (bm : Bitmap) (n i q : ℕ) → find_free bm n i ≡ some q → IsFirstFree bm i (i + n) q
find_free-some bm n i q h =
    let b = find_free_bounds bm n i q h in
    record { after = b.0; before = b.1; free = b.2; below = find_free-below bm n i q h }

pub find_free-none : (bm : Bitmap) (n i : ℕ) → find_free bm n i ≡ none → AllSet bm i (i + n)
unfolding find_free
find_free-none bm zero i h r a b = absurd (omega arith)
find_free-none bm (suc n) i h r a b = elim (Bool-cases (i == r)) [
  | inl here ↦ rw (← ==→eq i r here) (ground arith)
  | inr later ↦ find_free-none bm n (i + 1) (ground arith) r (ground arith) (omega arith)
]

pub AllSet-append : (bm : Bitmap) (i j k : ℕ) → AllSet bm i j → AllSet bm j k → AllSet bm i k
AllSet-append bm i j k p q r a b = elim (Bool-cases (ltb r j)) [
  | inl low ↦ p r a (ground arith)
  | inr high ↦ q r (ground arith) b
]

pub count_free-AllSet : (bm : Bitmap) (n : ℕ) → AllSet bm 0 n → count_free bm n ≡ 0
unfolding count_free
count_free-AllSet bm zero h = refl
count_free-AllSet bm (suc n) h =
    ground (
      arith,
      h n (omega arith) (omega arith),
      count_free-AllSet bm n (λ r a b. h r a (omega arith)),
    )
