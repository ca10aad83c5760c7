-- ===== src/Slh/Msisdn/Examples.antt =====
-- Tests of the packing, and the theorems at concrete inputs.
use vectorcore_gmlc.Base.{ℕ, ◌≡◌, refl, List, [], ◌∷◌, ok, arith}
use vectorcore_gmlc.Base.Text.{codes}
use vectorcore_gmlc.Slh.Msisdn.{encode_msisdn, decode_msisdn}
use vectorcore_gmlc.Slh.Msisdn.RoundTrip.{decode_msisdn-encode_msisdn}

packed : encode_msisdn (codes "15551234567") ≡ ok (0x51 ∷ 0x55 ∷ 0x21 ∷ 0x43 ∷ 0x65 ∷ 0xf7 ∷ [])
unfolding encode_msisdn
packed = refl

unpacked : decode_msisdn (0x21 ∷ 0xf3 ∷ []) ≡ ok (codes "123")
unfolding decode_msisdn
unpacked = refl

decode_msisdn-encode_msisdn_example :
    (b : List ℕ) × (encode_msisdn (codes "123") ≡ ok b) × (decode_msisdn b ≡ ok (codes "123"))
decode_msisdn-encode_msisdn_example =
    decode_msisdn-encode_msisdn (codes "123") refl (omega arith) (omega arith)
