-- ===== src/Common/Int.antt =====
-- Python's signed integers, which the billing code stores and compares with zero.
use Prim.Native.Nat.{ℕ}

-- `negsuc n` is -(n + 1).
pub data ℤ : Type 0 where
  pos : ℕ → ℤ
  negsuc : ℕ → ℤ
