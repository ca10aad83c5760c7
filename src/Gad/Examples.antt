-- ===== src/Gad/Examples.antt =====
-- Tests of the decoder, and the theorems at concrete inputs.
use vectorcore_gmlc.Base.{ℕ, ◌≡◌, refl, ◌↔◌, true, List, [], ◌∷◌, ok, err, arith}
use vectorcore_gmlc.Base.Float.{negsuc}
use vectorcore_gmlc.Gad.{Area, GadError, decode, decode_polygon}
use vectorcore_gmlc.Gad.Shapes.{IsArea, decode_iff}
use vectorcore_gmlc.Gad.Encoding.{Place, circle, encode_shape, shape_area, decode-encode_shape}

-- 45 degrees south, 90 degrees west.
abbrev place : Place
place = record { south = true; latitude = 0x400000; longitude = negsuc 0x3fffff }

decode-encode_shape_example :
    decode (encode_shape (circle place 18)) ≡ ok (shape_area (circle place 18))
decode-encode_shape_example = decode-encode_shape (circle place 18) (omega arith)

abbrev octets : List ℕ
octets = 0x10 ∷ 0xc0 ∷ 0x00 ∷ 0x00 ∷ 0xc0 ∷ 0x00 ∷ 0x00 ∷ []

decode_iff_example : ((a : Area) × (decode octets ≡ ok a)) ↔ IsArea octets
decode_iff_example = decode_iff octets (omega arith)

two_corners : decode (0x25 ∷ []) ≡ err GadError.bad_polygon_points
unfolding decode decode_polygon
two_corners = refl
