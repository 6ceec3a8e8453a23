-- ===== src/Common/Int.antt =====
-- Signed integers, for `int` and `int64_t` arguments.
use Prim.Native.Nat.{ℕ}

-- `negsuc n` is -(n + 1).
pub data ℤ : Type 0 where
  pos : ℕ → ℤ
  negsuc : ℕ → ℤ
