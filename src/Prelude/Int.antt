-- ===== src/Prelude/Int.antt =====
-- Integers, for the numbers of the protocol that may be negative. `negsuc n` is -(n + 1).
use Prim.Native.Nat.{ℕ}

pub data ℤ : Type 0 where
  pos : ℕ → ℤ
  negsuc : ℕ → ℤ
