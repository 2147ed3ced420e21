-- ===== src/Prelude/Ints.antt =====
-- Integers over the native numbers, for the `i64` instants of the program.
use Prim.Native.Nat.{ℕ}

pub data ℤ : Type 0 where
  pos negsuc : ℕ → ℤ
