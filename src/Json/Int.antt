-- ===== src/Json/Int.antt =====
-- Integers over the native numbers, as far as JSON values need them.
use recordlane.Base.{ℕ, suc, ◌*◌, ◌-◌, Bool, false, ◌==◌}

-- `negsuc n` is -(n + 1).
pub data ℤ : Type 0 where
  pos : ℕ → ℤ
  negsuc : ℕ → ℤ

abbrev pub int_eq : ℤ → ℤ → Bool
int_eq (pos m) (pos n) = m == n
int_eq (negsuc m) (negsuc n) = m == n
int_eq _ _ = false

-- A multiple by a positive number.
abbrev pub scale : ℤ → ℕ → ℤ
scale (pos m) k = pos (m * k)
scale (negsuc m) k = negsuc (suc m * k - 1)
