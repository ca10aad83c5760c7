-- ===== src/Gad.antt =====
-- internal/gad/gad.go: the decoder of geographic area descriptions (TS 23.032 clause 7). Bytes are
-- numbers below 256; `x & 0x0f` is `x % 16`, `x & 0x7f` is `x % 128`, `x >> 4` is `x / 16`.
pub mod Bounds
pub mod Uncertainty
pub mod Shapes
pub mod Encoding
mod Examples
use vectorcore_gmlc.Base.{
  ℕ, zero, suc, ◌+◌, ◌-◌, ◌*◌, ◌/◌, ◌%◌, ◌^◌, Bool, true, false, ◌||◌, not, Option, none, some,
  List, [], ◌∷◌, if◌then◌else◌, ltb, leb, ◌==◌, length, get_or, take, drop, Result, ok, err, ◌>>=◌,
}
use vectorcore_gmlc.Base.Float.{ℤ, pos, negsuc, neg_ℕ, Float64, below_neg, above_pos}

pub data GadError : Type 0 where
  empty unsupported bad_length bad_latitude bad_longitude : GadError
  bad_orientation bad_polygon_points : GadError

pub data ShapeType : Type 0 where
  ellipsoid_point ellipsoid_point_uncertainty_circle : ShapeType
  ellipsoid_point_uncertainty_ellipse polygon : ShapeType

pub record Point : Type 0 where
  pub latitude_degrees : Float64
  pub longitude_degrees : Float64

pub record Ellipse : Type 0 where
  pub semi_major_meters : Float64
  pub semi_minor_meters : Float64
  pub orientation_degrees : Float64
  pub confidence_percent : ℕ

-- gad.Result
pub record Area : Type 0 where
  pub shape : ShapeType
  pub point : Option Point
  pub uncertainty_meters : Option Float64
  pub ellipse : Option Ellipse
  pub polygon : List Point

abbrev byte_at : List ℕ → ℕ → ℕ
byte_at bytes i = get_or bytes i 0

-- Three octets as one number, the first the highest.
abbrev pub octets24 : ℕ → ℕ → ℕ → ℕ
octets24 a b c = a * 65536 + b * 256 + c

-- `latRaw & 0x800000 != 0`
abbrev pub top_bit : ℕ → Bool
top_bit raw = (raw / 0x800000) % 2 == 1

-- float64(mag) * 90.0 / float64(1<<23), with the sign
pub latitude_of : ℕ → Float64
latitude_of raw =
    let mag = raw % 0x800000 in
    record { num = if top_bit raw then neg_ℕ (mag * 90) else pos (mag * 90); den = 2 ^ 23 }

-- float64(lonRaw) * 360.0 / float64(1<<24), with lonRaw - 1<<24 where the top bit is set
pub longitude_of : ℕ → Float64
longitude_of raw = record {
  num = if top_bit raw then neg_ℕ ((2 ^ 24 - raw) * 360) else pos (raw * 360);
  den = 2 ^ 24;
}

-- Callers hand over six octets.
unfoldable pub decode_point : List ℕ → Result GadError Point
unfolding latitude_of longitude_of
decode_point bytes =
    let lat = latitude_of (octets24 (byte_at bytes 0) (byte_at bytes 1) (byte_at bytes 2)) in
    let lon = longitude_of (octets24 (byte_at bytes 3) (byte_at bytes 4) (byte_at bytes 5)) in
    if below_neg lat 90 || above_pos lat 90
    then err bad_latitude
    else if below_neg lon 180 || above_pos lon 180
    then err bad_longitude
    else ok (record { latitude_degrees = lat; longitude_degrees = lon })

-- 10.0 * (math.Pow(1.1, k) - 1.0) for k = octet & 0x7f, as a fraction
unfoldable pub decode_uncertainty_value : ℕ → Float64
decode_uncertainty_value octet =
    let k = octet % 128 in record { num = pos (10 * (11 ^ k - 10 ^ k)); den = 10 ^ k }

unfoldable pub decode_ellipsoid_point : List ℕ → Result GadError Area
decode_ellipsoid_point bytes = if not (length bytes == 7) then err bad_length else do
  p ← decode_point (take 6 (drop 1 bytes))
  ok (record {
    shape = ellipsoid_point;
    point = some p;
    uncertainty_meters = none;
    ellipse = none;
    polygon = [];
  })

unfoldable pub decode_uncertainty_circle : List ℕ → Result GadError Area
decode_uncertainty_circle bytes = if not (length bytes == 8) then err bad_length else do
  p ← decode_point (take 6 (drop 1 bytes))
  ok (record {
    shape = ellipsoid_point_uncertainty_circle;
    point = some p;
    uncertainty_meters = some (decode_uncertainty_value (byte_at bytes 7));
    ellipse = none;
    polygon = [];
  })

unfoldable pub decode_uncertainty_ellipse : List ℕ → Result GadError Area
decode_uncertainty_ellipse bytes = if not (length bytes == 11) then err bad_length else do
  p ← decode_point (take 6 (drop 1 bytes))
  if leb 180 (byte_at bytes 9)
      then err bad_orientation
      else ok (record {
        shape = ellipsoid_point_uncertainty_ellipse;
        point = some p;
        uncertainty_meters = none;
        ellipse = some (record {
          semi_major_meters = decode_uncertainty_value (byte_at bytes 7);
          semi_minor_meters = decode_uncertainty_value (byte_at bytes 8);
          orientation_degrees = record { num = pos (byte_at bytes 9); den = 1 };
          confidence_percent = byte_at bytes 10 % 128;
        });
        polygon = [];
      })

-- The loop of `decodePolygon`: `n` points, six octets each.
decode_points : ℕ → List ℕ → Result GadError (List Point)
decode_points zero bytes = ok []
decode_points (suc n) bytes =
    let rest = decode_points n (drop 6 bytes) in
    (decode_point (take 6 bytes) >>= λ p. (rest >>= λ ps. ok (p ∷ ps)))

unfoldable pub decode_polygon : List ℕ → Result GadError Area
unfolding decode_points
decode_polygon bytes =
    let n = byte_at bytes 0 / 16 in
    if ltb n 3 || ltb 15 n
    then err bad_polygon_points
    else if not (length bytes == 1 + 6 * n)
    then err bad_length
    else do
      ps ← decode_points n (drop 1 bytes)
      ok (record {
        shape = polygon;
        point = none;
        uncertainty_meters = none;
        ellipse = none;
        polygon = ps;
      })

unfoldable pub decode : List ℕ → Result GadError Area
decode [] = err empty
decode (b ∷ bytes) =
    let shape = b % 16 in
    if shape == 0x0
    then decode_ellipsoid_point (b ∷ bytes)
    else if shape == 0x1
    then decode_uncertainty_circle (b ∷ bytes)
    else if shape == 0x3
    then decode_uncertainty_ellipse (b ∷ bytes)
    else if shape == 0x5
    then decode_polygon (b ∷ bytes)
    else err unsupported
