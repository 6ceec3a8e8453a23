-- ===== src/Bitmap.antt =====
-- The allocation bitmaps: `BITMAP_SET`, `BITMAP_CLEAR` and `BITMAP_TEST` of kernel/mm/pmm.c, which
-- are `bitmap_set`, `bitmap_clear` and `bitmap_test` of kernel/fs/ramfs.c.
pub mod Bytes
pub mod Laws
pub mod Count
pub mod Search
use Prim.Native.Nat.{bit_and, bit_or}
use chanux.Common.{
  ℕ, zero, suc, ◌+◌, ◌-◌, ◌/◌, ◌%◌, ◌^◌, ◌<◌, Bool, not, ◌==◌, if◌then◌else◌, Option, none, some,
  update,
}

-- The byte at each index.
abbrev pub Bitmap : Type 0
Bitmap = ℕ → ℕ

abbrev pub IsBytes : Bitmap → Type 0
IsBytes bm = (n : ℕ) → bm n < 256

-- `byte & (1 << k)`, as a truth value
unfoldable pub bit_test : ℕ → ℕ → Bool
bit_test b k = not (bit_and b (2 ^ k) == 0)

-- `byte | (1 << k)`
unfoldable pub bit_set : ℕ → ℕ → ℕ
bit_set b k = bit_or b (2 ^ k)

-- `byte & ~(1 << k)`, in 8 bits
unfoldable pub bit_clear : ℕ → ℕ → ℕ
bit_clear b k = bit_and b (255 - 2 ^ k)

unfoldable pub bitmap_test : Bitmap → ℕ → Bool
bitmap_test bm i = bit_test (bm (i / 8)) (i % 8)

unfoldable pub bitmap_set : Bitmap → ℕ → Bitmap
bitmap_set bm i = update bm (i / 8) (bit_set (bm (i / 8)) (i % 8))

unfoldable pub bitmap_clear : Bitmap → ℕ → Bitmap
bitmap_clear bm i = update bm (i / 8) (bit_clear (bm (i / 8)) (i % 8))

-- The first clear bit among the `n` from `i` on. The loops of the allocators stop there.
unfoldable pub find_free : Bitmap → ℕ → ℕ → Option ℕ
find_free bm zero i = none
find_free bm (suc n) i =
    let rest = find_free bm n (i + 1) in if bitmap_test bm i then rest else some i

-- How many of the bits below `n` are clear.
unfoldable pub count_free : Bitmap → ℕ → ℕ
count_free bm zero = 0
count_free bm (suc n) = count_free bm n + (if bitmap_test bm n then 0 else 1)
