-- ===== src/Base/Float.antt =====
-- A float64 of the program as the real number that it stands for, a fraction of integers. What the
-- hardware rounds is not modelled: coordinates are exact in a float64, uncertainties are not.
use Prim.Native.Nat.{ℕ, zero, suc, ◌*◌}
use mathlib.Core.Bool.{Bool}
use vectorcore_gmlc.Base.Tests.{ltb}

-- `negsuc n` is -(n + 1).
pub data ℤ : Type 0 where
  pos : ℕ → ℤ
  negsuc : ℕ → ℤ

abbrev pub pos_part : ℤ → ℕ
pos_part (pos n) = n
pos_part (negsuc n) = 0

abbrev pub neg_part : ℤ → ℕ
neg_part (pos n) = 0
neg_part (negsuc n) = suc n

-- -n
abbrev pub neg_ℕ : ℕ → ℤ
neg_ℕ zero = pos 0
neg_ℕ (suc n) = negsuc n

-- num / den, with den above 0
pub record Float64 : Type 0 where
  pub num : ℤ
  pub den : ℕ

-- x < -b and b < x, for a whole number b
abbrev pub below_neg : Float64 → ℕ → Bool
below_neg x b = ltb (b * x.den) (neg_part x.num)

abbrev pub above_pos : Float64 → ℕ → Bool
above_pos x b = ltb (b * x.den) (pos_part x.num)
