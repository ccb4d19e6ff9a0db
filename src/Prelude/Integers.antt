-- ===== src/Prelude/Integers.antt =====
-- Integers over the native numbers: Go's `int`, where its bounds play no part.
use Prim.Native.Nat.{ℕ}

pub data ℤ : Type 0 where
  pos : ℕ → ℤ
  negsuc : ℕ → ℤ
