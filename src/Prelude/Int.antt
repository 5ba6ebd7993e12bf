-- ===== src/Prelude/Int.antt =====
-- Signed integers, under the library's name and constructors. `negsuc n` is -(n + 1).
use Prim.Native.Nat.{ℕ}

pub data ℤ : Type 0 where
  pos negsuc : ℕ → ℤ
