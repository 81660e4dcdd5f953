-- ===== src/Prelude/Signed.antt =====
-- The signed numbers, over the native ℕ.
use Prim.Native.Nat.{ℕ}

pub data ℤ : Type 0 where
  pos negsuc : ℕ → ℤ
