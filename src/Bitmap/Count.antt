-- ===== src/Bitmap/Count.antt =====
-- How setting and clearing a bit change the number of clear bits.
use chanux.Common.{ℕ, zero, suc, ◌+◌, ◌≤◌, ◌<◌, ◌≡◌, refl, true, false, arith}
use chanux.Bitmap.{Bitmap, IsBytes, bitmap_test, bitmap_set, bitmap_clear, count_free}
use chanux.Bitmap.Laws.{test-set, test-clear}

module _ (bm : Bitmap) (v : IsBytes bm) (i : ℕ) where
  count_free-set_above : (n : ℕ) → n ≤ i → count_free (bitmap_set bm i) n ≡ count_free bm n
  unfolding count_free
  count_free-set_above zero h = refl
  count_free-set_above (suc n) h = ground (arith, count_free-set_above n, test-set bm v i n)

  pub count_free-set :
      (n : ℕ)
      → i < n
      → bitmap_test bm i ≡ false
      → count_free (bitmap_set bm i) n + 1 ≡ count_free bm n
  unfolding count_free
  count_free-set zero h free = absurd (omega arith)
  count_free-set (suc n) h free =
      ground (arith, count_free-set n, count_free-set_above n, test-set bm v i n)

  count_free-clear_above : (n : ℕ) → n ≤ i → count_free (bitmap_clear bm i) n ≡ count_free bm n
  unfolding count_free
  count_free-clear_above zero h = refl
  count_free-clear_above (suc n) h = ground (arith, count_free-clear_above n, test-clear bm v i n)

  pub count_free-clear :
      (n : ℕ)
      → i < n
      → bitmap_test bm i ≡ true
      → count_free (bitmap_clear bm i) n ≡ count_free bm n + 1
  unfolding count_free
  count_free-clear zero h used = absurd (omega arith)
  count_free-clear (suc n) h used =
      ground (arith, count_free-clear n, count_free-clear_above n, test-clear bm v i n)

pub count_free-le : (bm : Bitmap) (n : ℕ) → count_free bm n ≤ n
unfolding count_free
count_free-le bm zero = omega arith
count_free-le bm (suc n) = ground (arith, count_free-le bm n)

-- A clear bit is counted.
pub count_free_pos :
    (bm : Bitmap) (n i : ℕ) → i < n → bitmap_test bm i ≡ false → 0 < count_free bm n
unfolding count_free
count_free_pos bm zero i h free = absurd (omega arith)
count_free_pos bm (suc n) i h free = ground (arith, count_free_pos bm n i)
