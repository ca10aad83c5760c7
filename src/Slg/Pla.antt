-- ===== src/Slg/Pla.antt =====
-- internal/slg/slg.go: DecodePLA, the Provide-Location answer.
pub mod Outcomes
use vectorcore_gmlc.Base.{
  ℕ, Bool, true, false, ◌&&◌, ◌||◌, not, Option, none, some, List, [], ◌∷◌, if◌then◌else◌, ◌==◌,
  length, Result, ok, err, ◌>>=◌, ◌>>◌, guard,
}
use vectorcore_gmlc.Errors.{Error, slg_error}
use vectorcore_gmlc.Errors.SlgKind.{
  malformed_pla, contradictory_pla, positioning_denied, positioning_failed, ue_unreachable,
  unknown_subscriber, base_failure, experimental_failure,
}
use vectorcore_gmlc.Domain.{PositioningResult, ResultKind, GeographicPosition}
use vectorcore_gmlc.Gad.{GadError, Area, decode}
use vectorcore_gmlc.Diameter.Message.{
  Value, unsigned, Avp, Data, value, grouped, Message, find, result_code, experimental_result,
  experimental_result_code, success,
}
use vectorcore_gmlc.Slg.{
  application_id, command_provide_location, fail, PayloadError, PositioningPayload,
  decode_positioning_payload, position_from_gad,
}

-- The header of an answer to a request of this command.
abbrev pub is_pla : Message → Bool
is_pla ans =
    ans.header.application_id == application_id
    && ans.header.command_code == command_provide_location
    && not ans.header.request

abbrev pub answers : Option Message → Message → Bool
answers none ans = true
answers (some req) ans =
    req.header.hop_by_hop == ans.header.hop_by_hop && req.header.end_to_end == ans.header.end_to_end

unfoldable pub experimental_error : ℕ → Error
experimental_error code =
    if code == 5001
    then slg_error unknown_subscriber 0 code
    else if code == 4221
    then slg_error ue_unreachable 0 code
    else if code == 4224
    then slg_error positioning_denied 0 code
    else if code == 4225
    then slg_error positioning_failed 0 code
    else slg_error experimental_failure 0 code

-- The one Result-Code.
unfoldable pub base_outcome : Data → Result Error (Unit {0})
base_outcome (value (unsigned code)) =
    if code == success then ok tt else err (slg_error base_failure code 0)
base_outcome _ = fail malformed_pla

unfoldable pub code_outcome : Value → Result Error (Unit {0})
unfolding experimental_error
code_outcome (unsigned code) = err (experimental_error code)
code_outcome _ = fail malformed_pla

abbrev one_code : List (Avp Value) → Result Error (Unit {0})
unfolding code_outcome
one_code (a ∷ []) = code_outcome a.data_
one_code _ = fail malformed_pla

-- The one Experimental-Result.
unfoldable pub experimental_outcome : Data → Result Error (Unit {0})
unfolding one_code
experimental_outcome (grouped g) = one_code (find experimental_result_code 0 g)
experimental_outcome (value v) = fail malformed_pla

-- Exactly one AVP of the two.
unfoldable pub outcome_of : List (Avp Data) → List (Avp Data) → Result Error (Unit {0})
unfolding base_outcome experimental_outcome
outcome_of (a ∷ []) [] = base_outcome a.data_
outcome_of [] (a ∷ []) = experimental_outcome a.data_
outcome_of _ _ = fail malformed_pla

abbrev pub payload_error : PayloadError → Error
payload_error PayloadError.malformed = slg_error malformed_pla 0 0
payload_error PayloadError.contradiction = slg_error contradictory_pla 0 0

abbrev pub payload_or {ℓ} : {A : Type ℓ} → Result PayloadError A → Result Error A
payload_or (ok a) = ok a
payload_or (err e) = err (payload_error e)

-- The result with the payload copied, of the kind and with the position found.
abbrev pub result_of :
    PositioningPayload → ResultKind → Option GeographicPosition → PositioningResult
result_of p kind position = record {
  kind = kind;
  raw_location_estimate = p.raw;
  raw_velocity_estimate = p.velocity;
  ecgi = p.ecgi;
  eutran_positioning_data = p.eutran;
  accuracy_fulfilment = p.accuracy_fulfilment;
  age_of_location_estimate = p.age_of_location_estimate;
  result_code = success;
  experimental_code = 0;
  position = position;
}

abbrev located : PositioningPayload → Result GadError Area → Result Error PositioningResult
located p (err e) = fail malformed_pla
located p (ok g) = ok (result_of p ResultKind.location_estimate (position_from_gad g))

abbrev without_estimate : PositioningPayload → List ℕ → PositioningResult
without_estimate p [] = result_of p ResultKind.no_immediate_result none
without_estimate p (b ∷ ecgi) = result_of p ResultKind.additional_information none

-- The last `if` of the function, on the raw estimate.
unfoldable pub classify : PositioningPayload → List ℕ → Result Error PositioningResult
classify p [] = ok (without_estimate p p.ecgi)
classify p (b ∷ raw) = located p (decode (b ∷ raw))

-- `none` is a nil message.
unfoldable pub decode_pla : Option Message → Option Message → Result Error PositioningResult
unfolding outcome_of classify
decode_pla req none = fail malformed_pla
decode_pla req (some ans) =
    guard (is_pla ans && answers req ans) (slg_error malformed_pla 0 0)
    >> outcome_of (find result_code 0 ans.avps) (find experimental_result 0 ans.avps)
    >> (payload_or (decode_positioning_payload ans.avps) >>= λ p. classify p p.raw)
