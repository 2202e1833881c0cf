-- ===== src/Prelude/Int.antt =====
-- Signed machine integers `i32` and `i64`, as integers over the machine numbers.
use Prim.Native.Nat.{ℕ}

-- `negsuc n` is -(n + 1).
pub data ℤ : Type 0 where
  pos : ℕ → ℤ
  negsuc : ℕ → ℤ
