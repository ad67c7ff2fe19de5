-- ===== src/Prelude/Int.antt =====
-- The integers over the native numbers, as much as a C `int` needs here.
use Prim.Native.Nat.{ℕ}

pub data ℤ : Type 0 where
  pos : ℕ → ℤ
  negsuc : ℕ → ℤ
