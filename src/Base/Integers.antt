-- ===== src/Base/Integers.antt =====
-- The integers over the native numbers: the values of an `int`.
use Prim.Native.Nat.{ℕ}

pub data ℤ : Type 0 where
  pos : ℕ → ℤ
  negsuc : ℕ → ℤ
