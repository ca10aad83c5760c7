-- ===== src/Slg/Lrr/Reports.antt =====
-- internal/slg/slg.go: DecodeLRR reads back what a report carries, in whatever order.
use vectorcore_gmlc.Base.{
  ℕ, ◌≡◌, ◌≤◌, refl, true, not, Option, none, some, List, [], ◌∷◌, arith, length, ok, ◌⊎◌, inl, inr,
}
use vectorcore_gmlc.Base.Text.{Text, is_empty}
use vectorcore_gmlc.Domain.{LocationReport, GeographicPosition}
use vectorcore_gmlc.Gad.{Area, decode}
use vectorcore_gmlc.Diameter.Message.{
  utf8, octets, unsigned, enumerated, Avp, avp, Data, value, grouped, Message, mbit, vmbit, find,
  user_name, location_estimate, when, optional,
}
use vectorcore_gmlc.Slh.Msisdn.{decode_msisdn}
use vectorcore_gmlc.Slg.{
  vendor_id, avp_msisdn, avp_client_name, avp_location_event, avp_lcs_reference_number, avp_ecgi,
  avp_velocity_estimate, avp_eutran_positioning_data, avp_accuracy_fulfilment,
  avp_age_of_location_estimate, last_of, raw_estimate, as_octets, as_ecgi, as_enumerated,
  as_unsigned, some_of, decode_positioning_payload, position_from_gad,
}
use vectorcore_gmlc.Slg.Plr.{vendor_avp, lcs_name_group}
use vectorcore_gmlc.Slg.Lrr.{
  is_lrr, location_event_of, as_utf8, as_msisdn, as_reference, client_name_of, report_position,
  decode_lrr,
}

-- Octets that are sent if there are any.
abbrev pub sent_octets : ℕ → ℕ → List ℕ → List (Avp Data)
sent_octets code vendor [] = []
sent_octets code vendor (b ∷ bytes) = avp code vmbit vendor (value (octets (b ∷ bytes))) ∷ []

abbrev pub Located : List ℕ → Option GeographicPosition → Type 0
Located [] position = position ≡ none
Located (b ∷ raw) position =
    (g : Area) × (decode (b ∷ raw) ≡ ok g) × (position ≡ position_from_gad g)

-- A Location-Report request with the AVPs of the report, `b` being the octets of its MSISDN.
abbrev pub Carries : Message → LocationReport → List ℕ → Type 0
Carries m r b =
    (is_lrr m ≡ true)
    × (find avp_location_event vendor_id m.avps
        ≡ vendor_avp avp_location_event (value (enumerated r.location_event)) ∷ [])
    × (find user_name 0 m.avps
        ≡ when (not (is_empty r.target.imsi)) (avp user_name mbit 0 (value (utf8 r.target.imsi))))
    × (find avp_msisdn vendor_id m.avps
        ≡ when (not (is_empty r.target.msisdn)) (vendor_avp avp_msisdn (value (octets b))))
    × (find avp_client_name vendor_id m.avps
        ≡ when (not (is_empty r.client_name))
            (vendor_avp avp_client_name (grouped (lcs_name_group r.client_name))))
    × (find avp_lcs_reference_number vendor_id m.avps
        ≡ optional (λ ref. vendor_avp avp_lcs_reference_number (value (octets (ref ∷ []))))
            r.lcs_reference_number)
    × (find location_estimate 0 m.avps ≡ sent_octets location_estimate 0 r.raw_location_estimate)
    × (find avp_ecgi vendor_id m.avps ≡ sent_octets avp_ecgi vendor_id r.ecgi)
    × (find avp_velocity_estimate vendor_id m.avps
        ≡ sent_octets avp_velocity_estimate vendor_id r.raw_velocity_estimate)
    × (find avp_eutran_positioning_data vendor_id m.avps
        ≡ sent_octets avp_eutran_positioning_data vendor_id r.eutran_positioning_data)
    × (find avp_accuracy_fulfilment vendor_id m.avps
        ≡ optional (λ n. vendor_avp avp_accuracy_fulfilment (value (enumerated n)))
            r.accuracy_fulfilment)
    × (find avp_age_of_location_estimate vendor_id m.avps
        ≡ optional (λ n. vendor_avp avp_age_of_location_estimate (value (unsigned n)))
            r.age_of_location_estimate)

imsi_read :
    (s : Text)
    → last_of as_utf8 [] (when (not (is_empty s)) (avp user_name mbit 0 (value (utf8 s)))) ≡ ok s
unfolding last_of
imsi_read [] = refl
imsi_read (c ∷ s) = refl

msisdn_read :
    (s : Text) (b : List ℕ)
    → (is_empty s ≡ true) ⊎ (decode_msisdn b ≡ ok s)
    → last_of as_msisdn [] (when (not (is_empty s)) (vendor_avp avp_msisdn (value (octets b))))
      ≡ ok s
unfolding last_of
msisdn_read [] b h = refl
msisdn_read (c ∷ s) b (inl e) = cc
msisdn_read (c ∷ s) b (inr e) = rw (e, last_of) refl

client_read :
    (s : Text)
    → client_name_of []
        (when (not (is_empty s)) (vendor_avp avp_client_name (grouped (lcs_name_group s))))
      ≡ ok s
unfolding client_name_of
client_read [] = refl
client_read (c ∷ s) = refl

reference_read :
    (o : Option ℕ)
    → last_of as_reference none
        (optional (λ ref. vendor_avp avp_lcs_reference_number (value (octets (ref ∷ [])))) o)
      ≡ ok o
unfolding last_of
reference_read none = refl
reference_read (some ref) = refl

octets_read :
    (code vendor : ℕ) (b : List ℕ) → last_of as_octets [] (sent_octets code vendor b) ≡ ok b
unfolding last_of
octets_read code vendor [] = refl
octets_read code vendor (c ∷ b) = refl

ecgi_read :
    (b : List ℕ)
    → (b ≡ []) ⊎ (length b ≡ 7)
    → last_of as_ecgi [] (sent_octets avp_ecgi vendor_id b) ≡ ok b
unfolding last_of
ecgi_read [] h = refl
ecgi_read (c ∷ b) (inl e) = cc
ecgi_read (c ∷ b) (inr e) = rw (e, last_of) refl

raw_read :
    (b : List ℕ) → length b ≤ 8192 → raw_estimate [] (sent_octets location_estimate 0 b) ≡ ok b
unfolding raw_estimate
raw_read [] h = refl
raw_read (c ∷ b) h = ground (arith, h)

enumerated_read :
    (code : ℕ) (o : Option ℕ)
    → last_of
        (some_of as_enumerated)
        none
        (optional (λ n. vendor_avp code (value (enumerated n))) o)
      ≡ ok o
unfolding last_of
enumerated_read code none = refl
enumerated_read code (some n) = refl

unsigned_read :
    (code : ℕ) (o : Option ℕ)
    → last_of (some_of as_unsigned) none (optional (λ n. vendor_avp code (value (unsigned n))) o)
      ≡ ok o
unfolding last_of
unsigned_read code none = refl
unsigned_read code (some n) = refl

position_read :
    (raw : List ℕ) (position : Option GeographicPosition)
    → Located raw position
    → report_position raw ≡ ok position
unfolding report_position
position_read [] position h = rw h refl
position_read (b ∷ raw) position (g, d, e) = rw d (rw e refl)

-- A report that a request carries is decoded to itself, whatever the order of the AVPs: with an MSISDN that its octets
-- decode to, an estimate of at most 8192 octets that its position comes from, and an ECGI of seven.
pub decode_lrr-Carries :
    (m : Message) (r : LocationReport) (b : List ℕ)
    → Carries m r b
    → (is_empty r.target.msisdn ≡ true) ⊎ (decode_msisdn b ≡ ok r.target.msisdn)
    → length r.raw_location_estimate ≤ 8192
    → (r.ecgi ≡ []) ⊎ (length r.ecgi ≡ 7)
    → Located r.raw_location_estimate r.position
    → decode_lrr (some m) ≡ ok r
unfolding decode_lrr decode_positioning_payload location_event_of
decode_lrr-Carries m r b c msisdn short cell located = rw (
  c.0,
  c.1,
  c.2,
  imsi_read r.target.imsi,
  c.3,
  msisdn_read r.target.msisdn b msisdn,
  c.4,
  client_read r.client_name,
  c.5,
  reference_read r.lcs_reference_number,
  c.6,
  raw_read r.raw_location_estimate short,
  c.7,
  ecgi_read r.ecgi cell,
  c.8,
  octets_read avp_velocity_estimate vendor_id r.raw_velocity_estimate,
  c.9,
  octets_read avp_eutran_positioning_data vendor_id r.eutran_positioning_data,
  c.10,
  enumerated_read avp_accuracy_fulfilment r.accuracy_fulfilment,
  c.11,
  unsigned_read avp_age_of_location_estimate r.age_of_location_estimate,
  position_read r.raw_location_estimate r.position located,
)
