-- ===== src/Bitmap/Laws.antt =====
-- Setting and clearing a bit of a bitmap changes that bit and no other.
use chanux.Common.{ℕ, ◌/◌, ◌%◌, ◌≡◌, true, false, ◌==◌, if◌then◌else◌, arith}
use chanux.Bitmap.{Bitmap, IsBytes, bitmap_test, bitmap_set, bitmap_clear}
use chanux.Bitmap.Bytes.{bit_test-set, bit_test-clear, bit_set-lt, bit_clear-lt}

module _ (bm : Bitmap) (v : IsBytes bm) (i : ℕ) where
  pub bitmap_set-IsBytes : IsBytes (bitmap_set bm i)
  unfolding bitmap_set
  bitmap_set-IsBytes n =
      ground (arith, v n, bit_set-lt (bm (i / 8)) (i % 8) (v (i / 8)) (omega arith))

  pub bitmap_clear-IsBytes : IsBytes (bitmap_clear bm i)
  unfolding bitmap_clear
  bitmap_clear-IsBytes n =
      ground (arith, v n, bit_clear-lt (bm (i / 8)) (i % 8) (v (i / 8)) (omega arith))

  pub test-set :
      (j : ℕ) → bitmap_test (bitmap_set bm i) j ≡ (if i == j then true else bitmap_test bm j)
  unfolding bitmap_test bitmap_set
  test-set j =
      ground
        (arith, bit_test-set (bm (i / 8)) (i % 8) (j % 8) (v (i / 8)) (omega arith) (omega arith))

  pub test-clear :
      (j : ℕ) → bitmap_test (bitmap_clear bm i) j ≡ (if i == j then false else bitmap_test bm j)
  unfolding bitmap_test bitmap_clear
  test-clear j =
      ground
        (arith, bit_test-clear (bm (i / 8)) (i % 8) (j % 8) (v (i / 8)) (omega arith) (omega arith))
