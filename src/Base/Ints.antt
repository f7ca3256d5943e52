-- ===== src/Base/Ints.antt =====
-- C's `int` where it can be negative, on the native numbers, under the library's names.
use Prim.Native.Nat.{ℕ}

pub data ℤ : Type 0 where
  pos negsuc : ℕ → ℤ
