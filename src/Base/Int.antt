-- ===== src/Base/Int.antt =====
-- C's signed results: `negsuc n` is -(n + 1).
use Prim.Native.Nat.{ℕ, zero, suc}
use mathlib.Core.Path.{◌≡◌}
use mathlib.Core.Bool.{Bool, true, false}

pub data ℤ : Type 0 where
  pos : ℕ → ℤ
  negsuc : ℕ → ℤ

-- `rc < 0`
abbrev pub is_neg : ℤ → Bool
is_neg (pos n) = false
is_neg (negsuc n) = true

-- `rc == 0`
abbrev pub is_zero : ℤ → Bool
is_zero (pos zero) = true
is_zero (pos (suc n)) = false
is_zero (negsuc n) = false

abbrev pub IsNeg : ℤ → Type 0
IsNeg rc = is_neg rc ≡ true

-- `-e` for an errno `e`, which is not 0
abbrev pub neg : ℕ → ℤ
neg zero = pos 0
neg (suc n) = negsuc n

pub not_neg_zero : (rc : ℤ) → is_neg rc ≡ true → is_zero rc ≡ true → ⊥
not_neg_zero (pos n) h z = cc
not_neg_zero (negsuc n) h z = cc
