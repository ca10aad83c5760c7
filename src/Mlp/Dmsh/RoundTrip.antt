-- ===== src/Mlp/Dmsh/RoundTrip.antt =====
-- internal/mlp/dtd.go: a coordinate that is written and read again.
use mathlib.Core.List.{append_assoc}
use native.Mathlib.Nat.{div-add-mod', mod-lt}
use vectorcore_gmlc.Base.{
  ℕ, ◌+◌, ◌*◌, ◌/◌, ◌%◌, ◌≤◌, ◌<◌, ◌≡◌, refl, sym, ap, subst, ◌∙◌, Bool, true, false, ◌||◌, Option,
  some, [], ◌∷◌, ◌++◌, if◌then◌else◌, leb, ◌==◌, ok, arith,
}
use vectorcore_gmlc.Base.Text.{Text, is_digit, trim_space, trim_space-kept}
use vectorcore_gmlc.Base.Float.{Float64}
use vectorcore_gmlc.Base.Decimal.{
  decimal, number_from, span_digits-append, decimal-AllDigits, digit-is_digit, decimal-cons,
  number_from-decimal, AllDigits,
}
use vectorcore_gmlc.Mlp.Dmsh.{
  encode_dmsh, decode_dmsh, match_dmsh, milli_arc_seconds, thousandths, digits_then, some_digits,
  after_byte, ◌>?◌, fraction_after, hemisphere, signed, degrees_of, after_degrees, after_minutes,
  after_seconds, or_invalid, is_negative, magnitude,
}

-- A number before another byte.
digits_then-decimal :
    (n c : ℕ) (t : Text)
    → is_digit c ≡ false
    → digits_then (decimal n ++ c ∷ t) ≡ some (decimal n, c ∷ t)
digits_then-decimal n c t h =
    let (d, s, e) = decimal-cons n in
    ap some_digits (span_digits-append (decimal n) c t (decimal-AllDigits n) h)
    ∙ ap (λ x. some_digits (x, c ∷ t)) e
    ∙ ap (λ x. some (x, c ∷ t)) (sym e)

-- The digits of the fraction.
abbrev three : ℕ → Text
three n = (48 + n % 1000 / 100) ∷ (48 + n % 100 / 10) ∷ (48 + n % 10) ∷ []

three-AllDigits : (n : ℕ) → AllDigits (three n)
three-AllDigits n = (
  digit-is_digit (n % 1000 / 100) (omega arith),
  (digit-is_digit (n % 100 / 10) (omega arith), (digit-is_digit (n % 10) (omega arith), tt)),
)

number_from-three : (n : ℕ) → number_from 0 (three n) ≡ n % 1000
number_from-three n = omega arith

-- Any degrees, minutes and thousandths of a second, written as encodeDMSH writes them.
abbrev written : ℕ → ℕ → ℕ → ℕ → Text
written deg min ms hemi = decimal deg ++ 32 ∷ decimal min ++ 32 ∷ thousandths ms ++ hemi ∷ []

-- The fraction of the seconds, before the hemisphere.
fraction_after-three :
    (ms hemi : ℕ) (t : Text)
    → is_digit hemi ≡ false
    → fraction_after (after_byte 46 (46 ∷ three ms ++ hemi ∷ [])) t ≡ some (three ms, hemi ∷ [])
fraction_after-three ms hemi t d =
    ap some_digits (span_digits-append (three ms) hemi [] (three-AllDigits ms) d)

-- The number that the written groups stand for.
degrees_of-decimal :
    (deg min ms hemi : ℕ)
    → degrees_of (decimal deg) (decimal min) (decimal (ms / 1000)) (three ms) hemi ≡ record {
      num = signed (hemi == 83 || hemi == 87) (deg * 3600000 + min * 60000 + ms);
      den = 3600000;
    }
degrees_of-decimal deg min ms hemi =
    ap (λ n. record { num = signed (hemi == 83 || hemi == 87) n; den = 3600000 })
      (rw
        (
          number_from-decimal deg,
          number_from-decimal min,
          number_from-decimal (ms / 1000),
          number_from-three ms,
        )
        (omega arith))

-- The same groups, from the left.
grouped :
    (deg min ms hemi : ℕ)
    → written deg min ms hemi
      ≡ decimal deg ++ (32 ∷ decimal min ++ (32 ∷ thousandths ms ++ hemi ∷ []))
grouped deg min ms hemi =
    append_assoc (decimal deg ++ 32 ∷ decimal min) (32 ∷ thousandths ms) (hemi ∷ [])
    ∙ append_assoc (decimal deg) (32 ∷ decimal min) (32 ∷ thousandths ms ++ hemi ∷ [])

-- A step of the pattern that finds what it wants.
found {ℓ κ} :
    {A : Type ℓ} {B : Type κ} (o : Option A) (a : A) (f : A → Option B) (r : Option B)
    → o ≡ some a
    → f a ≡ r
    → (o >? f) ≡ r
found o a f r e h = ap (λ x. x >? f) e ∙ h

match_dmsh-written :
    (deg min ms hemi : ℕ)
    → is_digit hemi ≡ false
    → hemisphere (hemi ∷ []) ≡ some hemi
    → match_dmsh (written deg min ms hemi)
      ≡ some (record {
        num = signed (hemi == 83 || hemi == 87) (deg * 3600000 + min * 60000 + ms);
        den = 3600000;
      })
unfolding match_dmsh
match_dmsh-written deg min ms hemi d h =
    let sec_rest = 46 ∷ three ms ++ hemi ∷ [] in
    let min_rest = thousandths ms ++ hemi ∷ [] in
    let sec : digits_then min_rest ≡ some (decimal (ms / 1000), sec_rest) =
      ap digits_then (append_assoc (decimal (ms / 1000)) (46 ∷ three ms) (hemi ∷ []))
      ∙ digits_then-decimal (ms / 1000) 46 (three ms ++ hemi ∷ []) refl in
    let deg_rest = 32 ∷ decimal min ++ 32 ∷ min_rest in
    let deg_found : digits_then (written deg min ms hemi) ≡ some (decimal deg, deg_rest) =
      ap digits_then (grouped deg min ms hemi)
      ∙ digits_then-decimal deg 32 (decimal min ++ 32 ∷ min_rest) refl in
    found _ _ after_degrees _ deg_found (
      found _ _ (after_minutes (decimal deg)) _ (digits_then-decimal min 32 min_rest refl) (
        found _ _ (after_seconds (decimal deg) (decimal min)) _ sec (
          found _ _ _ _ (fraction_after-three ms hemi sec_rest d)
            (found _ _ _ _ h (ap some (degrees_of-decimal deg min ms hemi))))))

-- What `encode_dmsh` writes, in its groups.
encode_dmsh-written :
    (x : Float64) (p n : ℕ)
    → encode_dmsh x p n
      ≡ written
          (milli_arc_seconds x / 3600000)
          (milli_arc_seconds x % 3600000 / 60000)
          (milli_arc_seconds x % 3600000 % 60000)
          (if is_negative x.num then n else p)
unfolding encode_dmsh
encode_dmsh-written x p n = refl

-- The groups neither begin nor end with white space.
trim_space-written :
    (deg min ms hemi : ℕ)
    → leb 33 hemi ≡ true
    → trim_space (written deg min ms hemi) ≡ written deg min ms hemi
trim_space-written deg min ms hemi h =
    let (d, s, e) = decimal-cons deg in
    let digit : is_digit d ≡ true = (subst AllDigits e (decimal-AllDigits deg)).0 in
    let rest = 32 ∷ decimal min ++ 32 ∷ thousandths ms in
    subst
      (λ t.
        trim_space (t ++ 32 ∷ decimal min ++ 32 ∷ thousandths ms ++ hemi ∷ [])
        ≡ t ++ 32 ∷ decimal min ++ 32 ∷ thousandths ms ++ hemi ∷ [])
      (sym e)
      (trim_space-kept d (s ++ 32 ∷ decimal min ++ 32 ∷ thousandths ms) hemi (ground (arith, digit))
        h)

decode_dmsh-written :
    (deg min ms hemi : ℕ)
    → is_digit hemi ≡ false
    → hemisphere (hemi ∷ []) ≡ some hemi
    → leb 33 hemi ≡ true
    → decode_dmsh (written deg min ms hemi)
      ≡ ok (record {
        num = signed (hemi == 83 || hemi == 87) (deg * 3600000 + min * 60000 + ms);
        den = 3600000;
      })
unfolding decode_dmsh
decode_dmsh-written deg min ms hemi d f h =
    ap (λ t. or_invalid (match_dmsh t)) (trim_space-written deg min ms hemi h)
    ∙ ap or_invalid (match_dmsh-written deg min ms hemi d f)

-- N and S of a latitude, E and W of a longitude.
pub data Axis : Type 0 where
  latitude longitude : Axis

abbrev pub positive_hemi : Axis → ℕ
positive_hemi latitude = 78
positive_hemi longitude = 69

abbrev pub negative_hemi : Axis → ℕ
negative_hemi latitude = 83
negative_hemi longitude = 87

decode_dmsh-hemi_of :
    (a : Axis) (b : Bool) (deg min ms : ℕ)
    → decode_dmsh (written deg min ms (if b then negative_hemi a else positive_hemi a))
      ≡ ok (record { num = signed b (deg * 3600000 + min * 60000 + ms); den = 3600000 })
decode_dmsh-hemi_of latitude true deg min ms = decode_dmsh-written deg min ms 83 refl refl refl
decode_dmsh-hemi_of latitude false deg min ms = decode_dmsh-written deg min ms 78 refl refl refl
decode_dmsh-hemi_of longitude true deg min ms = decode_dmsh-written deg min ms 87 refl refl refl
decode_dmsh-hemi_of longitude false deg min ms = decode_dmsh-written deg min ms 69 refl refl refl

-- What is written is read as the coordinate, rounded to a thousandth of a second.
decode_dmsh-encode_dmsh :
    (a : Axis) (x : Float64)
    → decode_dmsh (encode_dmsh x (positive_hemi a) (negative_hemi a))
      ≡ ok (record { num = signed (is_negative x.num) (milli_arc_seconds x); den = 3600000 })
decode_dmsh-encode_dmsh a x =
    let total = milli_arc_seconds x in
    ap decode_dmsh (encode_dmsh-written x (positive_hemi a) (negative_hemi a))
    ∙ decode_dmsh-hemi_of a (is_negative x.num) (total / 3600000) (total % 3600000 / 60000)
        (total % 3600000 % 60000)
    ∙ ap (λ n. ok (record { num = signed (is_negative x.num) n; den = 3600000 })) (omega arith)

-- A half of the last unit.
milli_arc_seconds-bounds :
    (x : Float64)
    → 0 < x.den
    → (2 * (milli_arc_seconds x * x.den) ≤ 2 * (magnitude x.num * 3600000) + x.den)
      × (2 * (magnitude x.num * 3600000) < 2 * (milli_arc_seconds x * x.den) + x.den)
milli_arc_seconds-bounds x h =
    let q = milli_arc_seconds x in
    let a = 2 * (magnitude x.num * 3600000) + x.den in
    let whole : q * (2 * x.den) + a % (2 * x.den) ≡ a = div-add-mod' a (2 * x.den) in
    let part : a % (2 * x.den) < 2 * x.den = mod-lt a {m = 2 * x.den} (omega (arith, h)) in
    let twice : q * (2 * x.den) ≡ 2 * (q * x.den) = omega arith in
    (omega (arith, whole, part, twice), omega (arith, whole, part, twice))

-- A coordinate that is written with its hemisphere is read back with its sign, as a whole number of
-- thousandths of an arc second that is at most half a thousandth away from it.
pub encode_dmsh-decode_dmsh :
    (a : Axis) (x : Float64)
    → 0 < x.den
    → (total : ℕ) × (decode_dmsh (encode_dmsh x (positive_hemi a) (negative_hemi a))
        ≡ ok (record { num = signed (is_negative x.num) total; den = 3600000 }))
      × (2 * (total * x.den) ≤ 2 * (magnitude x.num * 3600000) + x.den)
      × (2 * (magnitude x.num * 3600000) < 2 * (total * x.den) + x.den)
encode_dmsh-decode_dmsh a x h =
    let (low, high) = milli_arc_seconds-bounds x h in
    (milli_arc_seconds x, decode_dmsh-encode_dmsh a x, low, high)
