-- ===== src/Gad/Shapes.antt =====
-- Which octet strings `Decode` accepts.
use vectorcore_gmlc.Base.{
  ℕ, zero, suc, ◌*◌, ◌%◌, ◌/◌, ◌≤◌, ◌<◌, ◌≡◌, refl, ◌↔◌, true, List, [], ◌∷◌, arith, drop, take,
  get_or, ok, length, ◌==◌, ltb, leb, ◌&&◌, is_ok, ok_of,
}
use vectorcore_gmlc.Gad.{
  Area, Point, decode_point, decode_ellipsoid_point, decode_uncertainty_circle,
  decode_uncertainty_ellipse, decode_points, decode_polygon, decode,
}
use vectorcore_gmlc.Gad.Bounds.{AreBytes, decode_point_total}

-- TS 23.032 clause 7.3: a first octet with the shape in its low nibble, then the shape's octets. An
-- orientation is below 180 degrees, and a polygon has 3 to 15 points.
pub data IsArea : List ℕ → Type 0 where
  point : {b : ℕ} {r : List ℕ} → b % 16 ≡ 0 → length r ≡ 6 → IsArea (b ∷ r)
  circle : {b : ℕ} {r : List ℕ} → b % 16 ≡ 1 → length r ≡ 7 → IsArea (b ∷ r)
  ellipse : {b : ℕ} {r : List ℕ} → b % 16 ≡ 3 → length r ≡ 10 → get_or r 8 0 < 180 → IsArea (b ∷ r)
  polygon :
      {b : ℕ} {r : List ℕ} → b % 16 ≡ 5 → 3 ≤ b / 16 → length r ≡ 6 * (b / 16) → IsArea (b ∷ r)

AreBytes-drop : (n : ℕ) (bytes : List ℕ) → AreBytes bytes → AreBytes (drop n bytes)
AreBytes-drop zero bytes h = h
AreBytes-drop (suc n) [] h = h
AreBytes-drop (suc n) (o ∷ bytes) h = AreBytes-drop n bytes h.1

AreBytes-take : (n : ℕ) (bytes : List ℕ) → AreBytes bytes → AreBytes (take n bytes)
AreBytes-take zero bytes h = tt
AreBytes-take (suc n) [] h = h
AreBytes-take (suc n) (o ∷ bytes) h = (h.0, AreBytes-take n bytes h.1)

decode_points_total :
    (n : ℕ) (bytes : List ℕ)
    → AreBytes bytes
    → (ps : List Point) × (decode_points n bytes ≡ ok ps) × (length ps ≡ n)
unfolding decode_points
decode_points_total zero bytes h = ([], refl, refl)
decode_points_total (suc n) bytes h =
    let (p, e, _, _) = decode_point_total (take 6 bytes) (AreBytes-take 6 bytes h) in
    let (ps, f, l) = decode_points_total n (drop 6 bytes) (AreBytes-drop 6 bytes h) in
    (p ∷ ps, ground arith, omega arith)

abbrev Decodes : List ℕ → Type 0
Decodes bytes = (a : Area) × (decode bytes ≡ ok a)

module _ (b : ℕ) (r : List ℕ) (h : AreBytes (b ∷ r)) where
  -- The point of the three shapes with one point.
  centre_total : (p : Point) × (decode_point (take 6 r) ≡ ok p)
  centre_total = let (p, e, _, _) = decode_point_total (take 6 r) (AreBytes-take 6 r h.1) in (p, e)

  decode_ellipsoid_point_ok : is_ok (decode_ellipsoid_point (b ∷ r)) ≡ (length r == 6)
  unfolding decode_ellipsoid_point
  decode_ellipsoid_point_ok = let (p, e) = centre_total in ground arith

  decode_uncertainty_circle_ok : is_ok (decode_uncertainty_circle (b ∷ r)) ≡ (length r == 7)
  unfolding decode_uncertainty_circle
  decode_uncertainty_circle_ok = let (p, e) = centre_total in ground arith

  decode_uncertainty_ellipse_ok :
      is_ok (decode_uncertainty_ellipse (b ∷ r)) ≡ (length r == 10 && ltb (get_or r 8 0) 180)
  unfolding decode_uncertainty_ellipse
  decode_uncertainty_ellipse_ok = let (p, e) = centre_total in ground arith

  decode_polygon_ok : is_ok (decode_polygon (b ∷ r)) ≡ (leb 3 (b / 16) && length r == 6 * (b / 16))
  unfolding decode_polygon
  decode_polygon_ok = let (ps, e, _) = decode_points_total (b / 16) r h.1 in ground arith

IsArea-is_ok : (bytes : List ℕ) → AreBytes bytes → IsArea bytes → is_ok (decode bytes) ≡ true
unfolding decode
IsArea-is_ok [] h x = elim x [ ]
IsArea-is_ok (b ∷ r) h (point s l) = ground (arith, decode_ellipsoid_point_ok b r h)
IsArea-is_ok (b ∷ r) h (circle s l) = ground (arith, decode_uncertainty_circle_ok b r h)
IsArea-is_ok (b ∷ r) h (ellipse s l o) = ground (arith, decode_uncertainty_ellipse_ok b r h)
IsArea-is_ok (b ∷ r) h (polygon s lo l) = ground (arith, decode_polygon_ok b r h)

ok-IsArea : (bytes : List ℕ) → AreBytes bytes → is_ok (decode bytes) ≡ true → IsArea bytes
unfolding decode
ok-IsArea [] h e = cc
ok-IsArea (b ∷ r) h e = grind (
  arith,
  point,
  circle,
  ellipse,
  polygon,
  decode_ellipsoid_point_ok b r h,
  decode_uncertainty_circle_ok b r h,
  decode_uncertainty_ellipse_ok b r h,
  decode_polygon_ok b r h,
)

-- `Decode` accepts exactly the octet strings that TS 23.032 describes for the four shapes.
pub decode_iff :
    (bytes : List ℕ) → AreBytes bytes → ((a : Area) × (decode bytes ≡ ok a)) ↔ IsArea bytes
decode_iff bytes h =
    (λ d. ok-IsArea bytes h (rw d.1), λ x. ok_of (decode bytes) (IsArea-is_ok bytes h x))
