-- ===== src/Gad/Encoding.antt =====
-- An encoder after TS 23.032 clauses 6 and 7, written from the standard and not from the program.
use vectorcore_gmlc.Base.{
  ℕ, suc, ◌+◌, ◌-◌, ◌*◌, ◌%◌, ◌/◌, ◌^◌, ◌≤◌, ◌<◌, ◌≡◌, refl, Bool, some, none, List, [], ◌∷◌, map,
  arith, All, ok, length, if◌then◌else◌, ap,
}
use vectorcore_gmlc.Base.Float.{ℤ, pos, negsuc, neg_ℕ, Float64, pos_part, neg_part}
use native.Mathlib.Nat.{mod-eq_of_lt}
use vectorcore_gmlc.Gad.Bounds.{AreBytes, decode_point-point_of}
use vectorcore_gmlc.Gad.{
  Area, Point, ShapeType, latitude_of, longitude_of, octets24, decode_point, decode_ellipsoid_point,
  decode_uncertainty_circle, decode_uncertainty_ellipse, decode_points, decode_polygon, decode,
  decode_uncertainty_value,
}

-- A place on the grid: the latitude's magnitude in steps of 90 / 2^23 degrees with its sign, the
-- longitude in steps of 360 / 2^24 degrees.
pub record Place : Type 0 where
  pub south : Bool
  pub latitude : ℕ
  pub longitude : ℤ

pub record IsPlace (p : Place) : Type 0 where
  pub latitude_lt : p.latitude < 2 ^ 23
  pub west : neg_part p.longitude ≤ 2 ^ 23
  pub east : pos_part p.longitude < 2 ^ 23

-- The number of an integer in 24-bit two's complement.
abbrev pub complement24 : ℤ → ℕ
complement24 (pos n) = n
complement24 (negsuc n) = 2 ^ 24 - suc n

abbrev pub octets_of : ℕ → List ℕ → List ℕ
octets_of x rest = (x / 65536) ∷ (x / 256 % 256) ∷ (x % 256) ∷ rest

abbrev pub encode_place : Place → List ℕ → List ℕ
encode_place p rest =
    octets_of (if p.south then p.latitude + 2 ^ 23 else p.latitude)
      (octets_of (complement24 p.longitude) rest)

abbrev pub scale : ℤ → ℕ → ℤ
scale (pos n) k = pos (n * k)
scale (negsuc n) k = neg_ℕ (suc n * k)

-- The degrees of a place.
abbrev pub place_point : Place → Point
place_point p = record {
  latitude_degrees = record {
    num = if p.south then neg_ℕ (p.latitude * 90) else pos (p.latitude * 90);
    den = 2 ^ 23;
  };
  longitude_degrees = record { num = scale p.longitude 360; den = 2 ^ 24 };
}

octets24_of : (x : ℕ) → x < 2 ^ 24 → octets24 (x / 65536) (x / 256 % 256) (x % 256) ≡ x
octets24_of x h = omega arith

module _ (p : Place) (h : IsPlace p) where
  abbrev north_bit : ℕ
  north_bit = if p.south then p.latitude + 2 ^ 23 else p.latitude

  north_bit-lt : north_bit < 2 ^ 24
  north_bit-lt = ground (arith, h.latitude_lt)

  complement24-lt : complement24 p.longitude < 2 ^ 24
  complement24-lt = ground (arith, h.west, h.east)

  latitude_of-north_bit : latitude_of north_bit ≡ (place_point p).latitude_degrees
  unfolding latitude_of
  latitude_of-north_bit = ground (arith, h.latitude_lt)

  longitude_of-complement24 :
      longitude_of (complement24 p.longitude) ≡ (place_point p).longitude_degrees
  unfolding longitude_of
  longitude_of-complement24 = ground (arith, h.west, h.east)

  AreBytes-encode_place : AreBytes (encode_place p [])
  AreBytes-encode_place = omega (arith, north_bit-lt, complement24-lt)

  -- Whatever follows the six octets.
  decode_point-encode_place : decode_point (encode_place p []) ≡ ok (place_point p)
  decode_point-encode_place = rw (decode_point-point_of (encode_place p []) AreBytes-encode_place) (
      rw (
        octets24_of north_bit north_bit-lt,
        octets24_of (complement24 p.longitude) complement24-lt,
        latitude_of-north_bit,
        longitude_of-complement24,
      ))

-- The four shapes. Uncertainty codes and confidences have seven bits.
pub data Shape : Type 0 where
  point : Place → Shape
  circle : Place → ℕ → Shape
  ellipse : Place → ℕ → ℕ → ℕ → ℕ → Shape
  polygon : List Place → Shape

abbrev pub IsShape : Shape → Type 0
IsShape (point p) = IsPlace p
IsShape (circle p k) = IsPlace p × (k < 128)
IsShape (ellipse p a b o c) = IsPlace p × (a < 128) × (b < 128) × (o < 180) × (c < 128)
IsShape (polygon ps) = All IsPlace ps × (3 ≤ length ps) × (length ps ≤ 15)

abbrev pub encode_places : List Place → List ℕ
encode_places [] = []
encode_places (p ∷ ps) = encode_place p (encode_places ps)

unfoldable pub encode_shape : Shape → List ℕ
encode_shape (point p) = 0 ∷ encode_place p []
encode_shape (circle p k) = 1 ∷ encode_place p (k ∷ [])
encode_shape (ellipse p a b o c) = 3 ∷ encode_place p (a ∷ b ∷ o ∷ c ∷ [])
encode_shape (polygon ps) = (5 + 16 * length ps) ∷ encode_places ps

-- r = C((1 + x)^k - 1) metres with C = 10 and x = 0.1
abbrev pub uncertainty : ℕ → Float64
uncertainty k = record { num = pos (10 * (11 ^ k - 10 ^ k)); den = 10 ^ k }

unfoldable pub shape_area : Shape → Area
shape_area (point p) = record {
  shape = ShapeType.ellipsoid_point;
  point = some (place_point p);
  uncertainty_meters = none;
  ellipse = none;
  polygon = [];
}
shape_area (circle p k) = record {
  shape = ShapeType.ellipsoid_point_uncertainty_circle;
  point = some (place_point p);
  uncertainty_meters = some (uncertainty k);
  ellipse = none;
  polygon = [];
}
shape_area (ellipse p a b o c) = record {
  shape = ShapeType.ellipsoid_point_uncertainty_ellipse;
  point = some (place_point p);
  uncertainty_meters = none;
  ellipse = some (record {
    semi_major_meters = uncertainty a;
    semi_minor_meters = uncertainty b;
    orientation_degrees = record { num = pos o; den = 1 };
    confidence_percent = c;
  });
  polygon = [];
}
shape_area (polygon ps) = record {
  shape = ShapeType.polygon;
  point = none;
  uncertainty_meters = none;
  ellipse = none;
  polygon = map place_point ps;
}

uncertainty-code : (k : ℕ) → k < 128 → decode_uncertainty_value k ≡ uncertainty k
unfolding decode_uncertainty_value
uncertainty-code k h = ap uncertainty (mod-eq_of_lt h)

decode_points-encode_places :
    (ps : List Place)
    → All IsPlace ps
    → decode_points (length ps) (encode_places ps) ≡ ok (map place_point ps)
unfolding decode_points
decode_points-encode_places [] h = refl
decode_points-encode_places (p ∷ ps) h =
    rw (decode_point-encode_place p h.0) (rw (decode_points-encode_places ps h.1))

length-encode_places : (ps : List Place) → length (encode_places ps) ≡ 6 * length ps
length-encode_places [] = refl
length-encode_places (p ∷ ps) = omega (arith, length-encode_places ps)

decode_polygon-encode_places :
    (ps : List Place)
    → IsShape (polygon ps)
    → decode_polygon (encode_shape (polygon ps)) ≡ ok (shape_area (polygon ps))
unfolding decode_polygon encode_shape shape_area
decode_polygon-encode_places ps h =
    let n : (5 + 16 * length ps) / 16 ≡ length ps = omega arith in
    ground (arith, n, length-encode_places ps, decode_points-encode_places ps h.0)

-- Every shape that the standard codes is decoded from its octets: centre, uncertainty radius or
-- ellipse, orientation and confidence, or all the corners of the polygon in their order.
pub decode-encode_shape : (s : Shape) → IsShape s → decode (encode_shape s) ≡ ok (shape_area s)
unfolding decode encode_shape shape_area decode_ellipsoid_point decode_uncertainty_circle
    decode_uncertainty_ellipse
decode-encode_shape (point p) h = rw (decode_point-encode_place p h)
decode-encode_shape (circle p k) h = rw (decode_point-encode_place p h.0, uncertainty-code k h.1)
decode-encode_shape (ellipse p a b o c) h = ground (
  arith,
  decode_point-encode_place p h.0,
  uncertainty-code a h.1,
  uncertainty-code b h.2,
  mod-eq_of_lt h.4,
)
decode-encode_shape (polygon ps) h = ground (arith, decode_polygon-encode_places ps h)
