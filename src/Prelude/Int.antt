-- ===== src/Prelude/Int.antt =====
-- Signed numbers, which the program only carries: `negsuc n` is -(n + 1).
use Prim.Native.Nat.{ℕ}

pub data ℤ : Type 0 where
  pos : ℕ → ℤ
  negsuc : ℕ → ℤ
