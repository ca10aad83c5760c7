-- ===== src/Slh/Msisdn/RoundTrip.antt =====
-- EncodeMSISDN after DecodeMSISDN, and the other way round.
use vectorcore_gmlc.Base.{
  ℕ, ◌+◌, ◌-◌, ◌*◌, ◌≤◌, ◌<◌, ◌≡◌, refl, sym, subst, ◌∙◌, true, ◌||◌, List, [], ◌∷◌, length, ok,
  arith, All, ok_injective, bind_ok, Bool-cases, inl, inr, ltb, ◌==◌,
}
use vectorcore_gmlc.Base.Text.{Text, is_digit, all_digits}
use vectorcore_gmlc.Slh.Msisdn.{encode_octets, encode_msisdn, decode_msisdn}

encode_octets-decode :
    (s : Text)
    → all_digits s ≡ true
    → (b : List ℕ) × (encode_octets s ≡ ok b) × (decode_msisdn b ≡ ok s)
unfolding encode_octets decode_msisdn
encode_octets-decode [] h = ([], refl, refl)
encode_octets-decode (lo ∷ []) h = ((lo - b'0' + 16 * 0x0f) ∷ [], ground arith, ground arith)
encode_octets-decode (lo ∷ hi ∷ s) h =
    let (b, e, d) = encode_octets-decode s (ground arith) in
    ((lo - b'0' + 16 * (hi - b'0')) ∷ b, ground arith, ground arith)

-- Every number of 1 to 15 digits is encoded, and its octets decode to it.
pub decode_msisdn-encode_msisdn :
    (s : Text)
    → all_digits s ≡ true
    → 0 < length s
    → length s ≤ 15
    → (b : List ℕ) × (encode_msisdn s ≡ ok b) × (decode_msisdn b ≡ ok s)
unfolding encode_msisdn
decode_msisdn-encode_msisdn s h lo hi =
    let (b, e, d) = encode_octets-decode s h in (b, ground arith, d)

abbrev pub AreBytes : List ℕ → Type 0
AreBytes = All (λ o. o < 256)

decode-encode_octets :
    (b : List ℕ) (s : Text) → AreBytes b → decode_msisdn b ≡ ok s → encode_octets s ≡ ok b
unfolding encode_octets decode_msisdn
decode-encode_octets [] s h d = ground arith
decode-encode_octets (o ∷ []) [] h d = ground arith
decode-encode_octets (o ∷ p ∷ b) [] h d = ground arith
decode-encode_octets (o ∷ []) (x ∷ []) h d = ground arith
decode-encode_octets (o ∷ p ∷ b) (x ∷ []) h d = ground arith
decode-encode_octets (o ∷ []) (x ∷ y ∷ s) h d = ground arith
decode-encode_octets (o ∷ p ∷ b) (x ∷ y ∷ s) h d =
    ground (arith, decode-encode_octets (p ∷ b) s h.1)

-- Octets that decode to a number of 1 to 15 digits are the encoding of that number: there is one
-- encoding of each.
pub encode_msisdn-decode_msisdn :
    (b : List ℕ) (s : Text)
    → AreBytes b
    → decode_msisdn b ≡ ok s
    → 0 < length s
    → length s ≤ 15
    → encode_msisdn s ≡ ok b
unfolding encode_msisdn
encode_msisdn-decode_msisdn b s h d lo hi = ground (arith, decode-encode_octets b s h d)

-- Whatever decodes is a number.
pub decode_msisdn-all_digits :
    (b : List ℕ) (s : Text) → decode_msisdn b ≡ ok s → all_digits s ≡ true
unfolding decode_msisdn
decode_msisdn-all_digits [] s d = ground arith
decode_msisdn-all_digits (o ∷ b) [] d = refl
decode_msisdn-all_digits (o ∷ b) (x ∷ []) d = ground arith
decode_msisdn-all_digits (o ∷ b) (x ∷ y ∷ s) d = ground (arith, decode_msisdn-all_digits b s)

encode_octets-all_digits : (s : Text) (b : List ℕ) → encode_octets s ≡ ok b → all_digits s ≡ true
unfolding encode_octets
encode_octets-all_digits [] b e = refl
encode_octets-all_digits (lo ∷ []) b e = elim (Bool-cases (is_digit lo)) [
  | inl t ↦ rw t refl
  | inr t ↦ cc (rw t at e)
]
encode_octets-all_digits (lo ∷ hi ∷ s) b e = elim (Bool-cases (is_digit lo)) [
  | inl t ↦ elim (Bool-cases (is_digit hi)) [
    | inl u ↦
        let (out, rest, h) = bind_ok (encode_octets s) _ b (rw u at (rw t at e)) in
        rw t (rw u (encode_octets-all_digits s out rest))
    | inr u ↦ cc (rw u at (rw t at e))
  ]
  | inr t ↦ cc (rw t at e)
]

-- Whatever is encoded decodes to itself.
pub decode_msisdn-encoded :
    (s : Text) (b : List ℕ) → encode_msisdn s ≡ ok b → decode_msisdn b ≡ ok s
unfolding encode_msisdn
decode_msisdn-encoded s b e = elim (Bool-cases (length s == 0 || ltb 15 (length s))) [
  | inl t ↦ cc (rw t at e)
  | inr t ↦
      let e' : encode_octets s ≡ ok b = rw t at e in
      let (c, encoded, decoded) = encode_octets-decode s (encode_octets-all_digits s b e') in
      let same : c ≡ b = ok_injective c b (sym encoded ∙ e') in
      subst (λ x. decode_msisdn x ≡ ok s) same decoded
]
