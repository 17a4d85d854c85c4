-- ===== src/Prelude/Integers.antt =====
-- The integers over the native numbers, as far as return codes need them.
use Prim.Native.Nat.{ℕ, zero, suc}

pub data ℤ : Type 0 where
  pos negsuc : ℕ → ℤ

abbrev pub neg : ℕ → ℤ
neg zero = pos 0
neg (suc n) = negsuc n
