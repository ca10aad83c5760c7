-- ===== src/Gad/Bounds.antt =====
-- The range tests of `decodePoint` in internal/gad/gad.go.
use vectorcore_gmlc.Base.{
  ℕ, zero, suc, ◌-◌, ◌*◌, ◌%◌, ◌^◌, ◌≤◌, ◌<◌, ◌≡◌, refl, List, [], ◌∷◌, arith, All, get_or, ok,
}
use vectorcore_gmlc.Base.Float.{pos_part, neg_part, neg_ℕ, Float64}
use vectorcore_gmlc.Gad.{Point, octets24, latitude_of, longitude_of, decode_point}

abbrev pub AreBytes : List ℕ → Type 0
AreBytes = All (λ o. o < 256)

-- |x| ≤ b
abbrev pub Within : Float64 → ℕ → Type 0
Within x b = (pos_part x.num ≤ b * x.den) × (neg_part x.num ≤ b * x.den)

parts-neg_ℕ : (n : ℕ) → (pos_part (neg_ℕ n) ≡ 0) × (neg_part (neg_ℕ n) ≡ n)
parts-neg_ℕ zero = (refl, refl)
parts-neg_ℕ (suc n) = (refl, refl)

latitude_of-Within : (raw : ℕ) → Within (latitude_of raw) 90
unfolding latitude_of
latitude_of-Within raw = ground (arith, parts-neg_ℕ (raw % 0x800000 * 90))

longitude_of-Within : (raw : ℕ) → raw < 2 ^ 24 → Within (longitude_of raw) 180
unfolding longitude_of
longitude_of-Within raw h = ground (arith, parts-neg_ℕ ((2 ^ 24 - raw) * 360))

get_or-lt : (bytes : List ℕ) (i : ℕ) → AreBytes bytes → get_or bytes i 0 < 256
get_or-lt [] i h = omega arith
get_or-lt (o ∷ bytes) zero h = h.0
get_or-lt (o ∷ bytes) (suc i) h = get_or-lt bytes i h.1

-- The octets at six positions, as `decodePoint` joins them.
abbrev pub latitude_raw : List ℕ → ℕ
latitude_raw bytes = octets24 (get_or bytes 0 0) (get_or bytes 1 0) (get_or bytes 2 0)

abbrev pub longitude_raw : List ℕ → ℕ
longitude_raw bytes = octets24 (get_or bytes 3 0) (get_or bytes 4 0) (get_or bytes 5 0)

longitude_raw-lt : (bytes : List ℕ) → AreBytes bytes → longitude_raw bytes < 2 ^ 24
longitude_raw-lt bytes h =
    omega (arith, get_or-lt bytes 3 h, get_or-lt bytes 4 h, get_or-lt bytes 5 h)

-- The point that six octets code, with no test.
abbrev pub point_of : List ℕ → Point
point_of bytes = record {
  latitude_degrees = latitude_of (latitude_raw bytes);
  longitude_degrees = longitude_of (longitude_raw bytes);
}

pub decode_point-point_of :
    (bytes : List ℕ) → AreBytes bytes → decode_point bytes ≡ ok (point_of bytes)
unfolding decode_point
decode_point-point_of bytes h =
    let lat = latitude_of-Within (latitude_raw bytes) in
    let lon = longitude_of-Within (longitude_raw bytes) (longitude_raw-lt bytes h) in ground arith

-- Octets always decode to a point, with -90 ≤ latitude ≤ 90 and -180 ≤ longitude ≤ 180: the errors
-- for a latitude and for a longitude never occur.
pub decode_point_total :
    (bytes : List ℕ)
    → AreBytes bytes
    → (p : Point) × (decode_point bytes ≡ ok p)
      × Within p.latitude_degrees 90
      × Within p.longitude_degrees 180
decode_point_total bytes h = (
  point_of bytes,
  decode_point-point_of bytes h,
  latitude_of-Within (latitude_raw bytes),
  longitude_of-Within (longitude_raw bytes) (longitude_raw-lt bytes h),
)
