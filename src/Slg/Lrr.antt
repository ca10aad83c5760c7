-- ===== src/Slg/Lrr.antt =====
-- internal/slg/slg.go: DecodeLRR and BuildLRA, the Location-Report request and its answer.
pub mod Reports
pub mod Answers
use vectorcore_gmlc.Base.{
  ℕ, Bool, true, false, ◌&&◌, ◌||◌, not, Option, none, some, List, [], ◌∷◌, ◌++◌, if◌then◌else◌,
  ◌==◌, length, Result, ok, err, ◌>>=◌, ◌>>◌, guard,
}
use vectorcore_gmlc.Base.Text.{Text}
use vectorcore_gmlc.Errors.{Error, slg_error}
use vectorcore_gmlc.Errors.SlgKind.{malformed_lrr}
use vectorcore_gmlc.Domain.{LocationReport, GeographicPosition}
use vectorcore_gmlc.Gad.{GadError, Area, decode}
use vectorcore_gmlc.Diameter.Message.{
  Value, utf8, identity, octets, enumerated, Avp, avp, Data, value, grouped, Message, Diam, mbit,
  find, session_id, auth_session_state, origin_host, origin_realm, user_name,
}
use vectorcore_gmlc.Slh.Msisdn.{decode_msisdn}
use vectorcore_gmlc.Slg.{
  application_id, command_location_report, vendor_id, avp_msisdn, avp_client_name,
  avp_location_event, avp_lcs_reference_number, avp_lcs_name_string, fail, PayloadError,
  PositioningPayload, last_of, as_enumerated, decode_positioning_payload, position_from_gad,
  some_of,
}
use vectorcore_gmlc.Slg.Plr.{Config}

abbrev pub is_lrr : Message → Bool
is_lrr m =
    m.header.application_id == application_id
    && m.header.command_code == command_location_report
    && m.header.request

-- *Error{Kind: ErrMalformedLRR} in place of whatever was wrong.
abbrev pub or_malformed {ℓ κ} : {E : Type κ} {A : Type ℓ} → Result E A → Result Error A
or_malformed (ok a) = ok a
or_malformed (err e) = fail malformed_lrr

-- The one Location-Event.
unfoldable pub location_event_of : List (Avp Data) → Result Error ℕ
location_event_of (a ∷ []) = elim (as_enumerated a.data_) [
  | none ↦ fail malformed_lrr
  | some v ↦ ok v
]
location_event_of _ = fail malformed_lrr

abbrev pub as_utf8 : Data → Option Text
as_utf8 (value (utf8 s)) = some s
as_utf8 _ = none

abbrev text_or_none : Result Error Text → Option Text
text_or_none (ok s) = some s
text_or_none (err e) = none

abbrev pub as_msisdn : Data → Option Text
as_msisdn (value (octets b)) = text_or_none (decode_msisdn b)
as_msisdn _ = none

-- The LCS-Reference-Number is one octet.
abbrev one_octet : List ℕ → Option (Option ℕ)
one_octet (b ∷ []) = some (some b)
one_octet _ = none

abbrev pub as_reference : Data → Option (Option ℕ)
as_reference (value (octets b)) = one_octet b
as_reference _ = none

-- The name in a client group, or what there was before.
abbrev name_or : Text → List (Avp Value) → Text
name_or so_far (a ∷ []) = elim a.data_ [ utf8 s ↦ s | _ ↦ so_far ]
name_or so_far _ = so_far

abbrev pub client_name_in : Text → Data → Option Text
client_name_in so_far (grouped g) = some (name_or so_far (find avp_lcs_name_string vendor_id g))
client_name_in so_far (value v) = none

-- The loop over the client names.
unfoldable pub client_name_of : Text → List (Avp Data) → Result PayloadError Text
client_name_of so_far [] = ok so_far
client_name_of so_far (a ∷ avps) = elim (client_name_in so_far a.data_) [
  | none ↦ err PayloadError.malformed
  | some s ↦ client_name_of s avps
]

abbrev placed : Result GadError Area → Result Error (Option GeographicPosition)
placed (err e) = fail malformed_lrr
placed (ok g) = ok (position_from_gad g)

unfoldable pub report_position : List ℕ → Result Error (Option GeographicPosition)
report_position [] = ok none
report_position (b ∷ raw) = placed (decode (b ∷ raw))

-- The fields of the report, once they are read.
abbrev pub report_of :
    ℕ
    → Text
    → Text
    → Text
    → Option ℕ
    → PositioningPayload
    → Option GeographicPosition
    → LocationReport
report_of event imsi msisdn client ref p position = record {
  location_event = event;
  target = record { imsi = imsi; msisdn = msisdn };
  client_name = client;
  lcs_reference_number = ref;
  raw_location_estimate = p.raw;
  ecgi = p.ecgi;
  raw_velocity_estimate = p.velocity;
  eutran_positioning_data = p.eutran;
  accuracy_fulfilment = p.accuracy_fulfilment;
  age_of_location_estimate = p.age_of_location_estimate;
  position = position;
}

unfoldable pub decode_lrr : Option Message → Result Error LocationReport
unfolding location_event_of client_name_of report_position
decode_lrr none = fail malformed_lrr
decode_lrr (some m) = do
  guard (is_lrr m) (slg_error malformed_lrr 0 0)
  event ← location_event_of (find avp_location_event vendor_id m.avps)
  imsi ← or_malformed (last_of as_utf8 [] (find user_name 0 m.avps))
  msisdn ← or_malformed (last_of as_msisdn [] (find avp_msisdn vendor_id m.avps))
  client ← or_malformed (client_name_of [] (find avp_client_name vendor_id m.avps))
  ref ← or_malformed (last_of as_reference none (find avp_lcs_reference_number vendor_id m.avps))
  p ← or_malformed (decode_positioning_payload m.avps)
  position ← report_position p.raw
  ok (report_of event imsi msisdn client ref p position)

abbrev pub answered : Diam → Config → Message → ℕ → List (Avp Data) → Result Error Message
answered lib cfg req rc (s ∷ []) =
    let a = lib.answer req rc in
    ok (record a {
      avps =
          a.avps
          ++ avp session_id mbit 0 s.data_
            ∷ avp auth_session_state mbit 0 (value (enumerated 1))
            ∷ avp origin_host mbit 0 (value (identity cfg.origin_host))
            ∷ avp origin_realm mbit 0 (value (identity cfg.origin_realm))
            ∷ [];
    })
answered lib cfg req rc _ = fail malformed_lrr

unfoldable pub build_lra : Diam → Config → Option Message → ℕ → Result Error Message
build_lra lib cfg none rc = fail malformed_lrr
build_lra lib cfg (some req) rc =
    guard (is_lrr req) (slg_error malformed_lrr 0 0)
    >> answered lib cfg req rc (find session_id 0 req.avps)
