-- ===== src/Prelude/Integers.antt =====
-- The integers that Python's `int` reads.
use Prim.Native.Nat.{ℕ}

-- `negsuc n` is -(n + 1).
pub data ℤ : Type 0 where
  pos negsuc : ℕ → ℤ
