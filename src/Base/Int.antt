-- ===== src/Base/Int.antt =====
-- Signed machine integers as far as the program tests them: `negsuc n` is -(n + 1).
use Prim.Native.Nat.{ℕ, zero, suc}
use mathlib.Core.Bool.{Bool, true, false}

pub data ℤ : Type 0 where
  pos : ℕ → ℤ
  negsuc : ℕ → ℤ

-- `n > 0`
abbrev pub is_positive : ℤ → Bool
is_positive (pos zero) = false
is_positive (pos (suc n)) = true
is_positive (negsuc n) = false

-- The number of milliseconds that a positive integer stands for.
abbrev pub to_millis : ℤ → ℕ
to_millis (pos n) = n
to_millis (negsuc n) = 0
