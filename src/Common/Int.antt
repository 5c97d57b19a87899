-- ===== src/Common/Int.antt =====
-- Go's signed integers, where the program's values can be negative; no operation on them is needed
-- that could overflow.
use Prim.Native.Nat.{ℕ}

-- `negsuc n` is -(n + 1).
pub data ℤ : Type 0 where
  pos : ℕ → ℤ
  negsuc : ℕ → ℤ
