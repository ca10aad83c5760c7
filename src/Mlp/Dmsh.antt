-- ===== src/Mlp/Dmsh.antt =====
-- internal/mlp/dtd.go: encodeDMSH and decodeDMSH, on exact fractions. A coordinate is small enough for the
-- int64 of the code.
pub mod RoundTrip
use vectorcore_gmlc.Base.{
  ℕ, zero, suc, ◌+◌, ◌-◌, ◌*◌, ◌/◌, ◌%◌, ◌^◌, Bool, true, false, ◌&&◌, ◌||◌, not, Option, none,
  some, List, [], ◌∷◌, ◌++◌, if◌then◌else◌, ltb, ◌==◌, length, Result, ok, err, ◌>>=◌,
}
use vectorcore_gmlc.Base.Text.{Text, is_digit, is_empty, trim_space}
use vectorcore_gmlc.Base.Float.{ℤ, pos, negsuc, neg_ℕ, pos_part, neg_part, Float64}
use vectorcore_gmlc.Base.Decimal.{decimal, number_from, span_digits}
use vectorcore_gmlc.Errors.{Error}

abbrev pub is_negative : ℤ → Bool
is_negative (pos n) = false
is_negative (negsuc n) = true

abbrev pub magnitude : ℤ → ℕ
magnitude z = pos_part z + neg_part z

-- math.Round(v * 3600 * 1000), of a v that is not negative: a half is rounded up.
abbrev pub milli_arc_seconds : Float64 → ℕ
milli_arc_seconds x = (2 * (magnitude x.num * 3600000) + x.den) / (2 * x.den)

-- %.3f of a whole number of thousandths.
abbrev pub thousandths : ℕ → Text
thousandths n =
    decimal (n / 1000) ++ 46 ∷ (48 + n % 1000 / 100) ∷ (48 + n % 100 / 10) ∷ (48 + n % 10) ∷ []

-- The hemispheres are one byte each.
unfoldable pub encode_dmsh : Float64 → ℕ → ℕ → Text
encode_dmsh x positive_hemi negative_hemi =
    let total = milli_arc_seconds x in
    let rem = total % 3600000 in
    decimal (total / 3600000)
    ++ 32 ∷ decimal (rem / 60000)
    ++ 32 ∷ thousandths (rem % 60000)
    ++ (if is_negative x.num then negative_hemi else positive_hemi) ∷ []

-- One or more digits, and what follows them.
abbrev pub some_digits : Text × Text → Option (Text × Text)
some_digits ([], rest) = none
some_digits (c ∷ s, rest) = some (c ∷ s, rest)

abbrev pub digits_then : Text → Option (Text × Text)
digits_then s = some_digits (span_digits s)

-- A byte that must come next.
abbrev pub after_byte : ℕ → Text → Option Text
after_byte b [] = none
after_byte b (c ∷ s) = if c == b then some s else none

infixl 5 ◌>?◌
abbrev pub ◌>?◌ {ℓ κ} : {A : Type ℓ} {B : Type κ} → Option A → (A → Option B) → Option B
none >? f = none
some a >? f = f a

-- The optional fraction of the seconds.
abbrev pub fraction_after : Option Text → Text → Option (Text × Text)
fraction_after none rest = some ([], rest)
fraction_after (some s) rest = digits_then s

-- The hemisphere, which ends the text.
abbrev pub hemisphere : Text → Option ℕ
hemisphere (h ∷ []) = if h == 78 || h == 83 || h == 69 || h == 87 then some h else none
hemisphere _ = none

abbrev pub signed : Bool → ℕ → ℤ
signed true n = neg_ℕ n
signed false n = pos n

-- deg + min / 60 + sec / 3600, of the texts that the pattern found.
abbrev pub degrees_of : Text → Text → Text → Text → ℕ → Float64
degrees_of deg min sec frac hemi =
    let scale = 10 ^ length frac in
    record {
      num = signed (hemi == 83 || hemi == 87) (
          (number_from 0 deg * 3600 + number_from 0 min * 60 + number_from 0 sec) * scale
          + number_from 0 frac);
      den = 3600 * scale;
    }

-- What follows the seconds, the minutes and the degrees.
abbrev pub after_seconds : Text → Text → Text × Text → Option Float64
after_seconds deg min (sec, rest) = fraction_after (after_byte 46 rest) rest >? λ frac.
    hemisphere frac.1 >? λ hemi. some (degrees_of deg min sec frac.0 hemi)

abbrev pub after_minutes : Text → Text × Text → Option Float64
after_minutes deg (min, rest) = after_byte 32 rest >? λ s. digits_then s >? after_seconds deg min

abbrev pub after_degrees : Text × Text → Option Float64
after_degrees (deg, rest) = after_byte 32 rest >? λ s. digits_then s >? after_minutes deg

-- The pattern `^(\d+) (\d+) (\d+(?:\.\d+)?)([NSEW])$`.
unfoldable pub match_dmsh : Text → Option Float64
match_dmsh s = digits_then s >? after_degrees

abbrev pub or_invalid : Option Float64 → Result Error Float64
or_invalid none = err Error.other
or_invalid (some x) = ok x

unfoldable pub decode_dmsh : Text → Result Error Float64
unfolding match_dmsh
decode_dmsh s = or_invalid (match_dmsh (trim_space s))
