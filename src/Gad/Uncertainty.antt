-- ===== src/Gad/Uncertainty.antt =====
-- EncodeUncertaintyValue of internal/gad/gad.go.
use vectorcore_gmlc.Base.{ℕ, if◌then◌else◌, ltb, ◌==◌}
use vectorcore_gmlc.Base.Float.{ℤ, pos, negsuc, Float64, pos_part}

-- The clamp to seven bits.
abbrev pub seven_bits : ℤ → ℕ
seven_bits (negsuc k) = 0
seven_bits (pos k) = if ltb 127 k then 127 else k

-- `floor_log` is math.Floor(math.Log(x/10+1) / math.Log(1.1)), as package math and the hardware round it.
unfoldable pub encode_uncertainty_value : (Float64 → ℤ) → Float64 → ℕ
encode_uncertainty_value floor_log meters =
    if pos_part meters.num == 0 then 0 else seven_bits (floor_log meters)
