-- ===== src/Slg.antt =====
-- internal/slg/slg.go: the GMLC's side of the SLg interface (TS 29.172), what its messages share.
pub mod Plr
pub mod Pla
pub mod Lrr
pub mod Provide
pub mod Examples
use vectorcore_gmlc.Base.{
  ℕ, Bool, true, false, ◌&&◌, not, Option, none, some, List, [], ◌∷◌, if◌then◌else◌, ltb, ◌==◌,
  length, Result, ok, err, ◌>>=◌, String,
}
use vectorcore_gmlc.Base.Text.{Text}
use vectorcore_gmlc.Errors.{Error, SlgKind, slg_error}
use vectorcore_gmlc.Domain.{GeographicPosition}
use vectorcore_gmlc.Gad
use vectorcore_gmlc.Gad.{ShapeType, Area, Ellipse, Point}
use vectorcore_gmlc.Diameter.Message.{
  Value, octets, unsigned, enumerated, Avp, Data, value, grouped, Message, find, location_estimate,
}

abbrev pub application_id : ℕ
application_id = 16777255

abbrev pub command_provide_location : ℕ
command_provide_location = 8388620

abbrev pub command_location_report : ℕ
command_location_report = 8388621

abbrev pub vendor_id : ℕ
vendor_id = 10415

abbrev pub avp_msisdn : ℕ
avp_msisdn = 701

-- The codes of TS 29.172 clause 7.4.
abbrev pub avp_location_type : ℕ
avp_location_type = 2500

abbrev pub avp_client_name : ℕ
avp_client_name = 2501

abbrev pub avp_requestor_name : ℕ
avp_requestor_name = 2502

abbrev pub avp_priority : ℕ
avp_priority = 2503

abbrev pub avp_qos : ℕ
avp_qos = 2504

abbrev pub avp_horizontal_accuracy : ℕ
avp_horizontal_accuracy = 2505

abbrev pub avp_vertical_accuracy : ℕ
avp_vertical_accuracy = 2506

abbrev pub avp_vertical_requested : ℕ
avp_vertical_requested = 2507

abbrev pub avp_velocity_requested : ℕ
avp_velocity_requested = 2508

abbrev pub avp_response_time : ℕ
avp_response_time = 2509

abbrev pub avp_supported_gad_shapes : ℕ
avp_supported_gad_shapes = 2510

abbrev pub avp_privacy_check : ℕ
avp_privacy_check = 2512

abbrev pub avp_accuracy_fulfilment : ℕ
avp_accuracy_fulfilment = 2513

abbrev pub avp_age_of_location_estimate : ℕ
avp_age_of_location_estimate = 2514

abbrev pub avp_velocity_estimate : ℕ
avp_velocity_estimate = 2515

abbrev pub avp_eutran_positioning_data : ℕ
avp_eutran_positioning_data = 2516

abbrev pub avp_ecgi : ℕ
avp_ecgi = 2517

abbrev pub avp_location_event : ℕ
avp_location_event = 2518

abbrev pub avp_service_type_id : ℕ
avp_service_type_id = 2520

abbrev pub avp_privacy_check_non_session : ℕ
avp_privacy_check_non_session = 2521

abbrev pub avp_qos_class : ℕ
avp_qos_class = 2523

abbrev pub avp_lcs_reference_number : ℕ
avp_lcs_reference_number = 2531

abbrev pub avp_lcs_format_indicator : ℕ
avp_lcs_format_indicator = 1237

abbrev pub avp_lcs_name_string : ℕ
avp_lcs_name_string = 1238

abbrev pub avp_lcs_requestor_id_string : ℕ
avp_lcs_requestor_id_string = 1240

-- 1<<0 | 1<<1 | 1<<2 | 1<<3
abbrev pub supported_gad_shapes_mask : ℕ
supported_gad_shapes_mask = 15

abbrev pub max_raw : ℕ
max_raw = 8192

-- &Error{Kind: kind}
abbrev pub fail {ℓ} : {A : Type ℓ} → SlgKind → Result Error A
fail kind = err (slg_error kind 0 0)

-- `malformed` or `contradiction` of decodePositioningPayload.
pub data PayloadError : Type 0 where
  malformed contradiction : PayloadError

pub record PositioningPayload : Type 0 where
  pub raw : List ℕ
  pub ecgi : List ℕ
  pub velocity : List ℕ
  pub eutran : List ℕ
  pub accuracy_fulfilment : Option ℕ
  pub age_of_location_estimate : Option ℕ

-- a.Data.(datatype.OctetString) and so on.
abbrev pub as_octets : Data → Option (List ℕ)
as_octets (value (octets b)) = some b
as_octets _ = none

abbrev pub as_unsigned : Data → Option ℕ
as_unsigned (value (unsigned n)) = some n
as_unsigned _ = none

abbrev pub as_enumerated : Data → Option ℕ
as_enumerated (value (enumerated n)) = some n
as_enumerated _ = none

-- A loop over AVPs of one code that keeps the last; `read` is the type assertion.
module _ {ℓ} {A : Type ℓ} (read : Data → Option A) where
  unfoldable pub last_of : A → List (Avp Data) → Result PayloadError A
  last_of so_far [] = ok so_far
  last_of so_far (a ∷ avps) = elim (read a.data_) [ none ↦ err malformed | some v ↦ last_of v avps ]

abbrev is_set : List ℕ → Bool
is_set [] = false
is_set (b ∷ bytes) = true

-- The first loop: a second estimate is a contradiction.
unfoldable pub raw_estimate : List ℕ → List (Avp Data) → Result PayloadError (List ℕ)
raw_estimate so_far [] = ok so_far
raw_estimate so_far (a ∷ avps) = elim (as_octets a.data_) [
  | none ↦ err malformed
  | some v ↦
      let rest = raw_estimate v avps in
      if ltb max_raw (length v)
      then err malformed
      else if is_set so_far
      then err contradiction
      else rest
]

-- An ECGI has seven octets.
abbrev as_ecgi : Data → Option (List ℕ)
as_ecgi (value (octets b)) = if length b == 7 then some b else none
as_ecgi _ = none

abbrev pub some_of {ℓ} : {A : Type ℓ} → (Data → Option A) → Data → Option (Option A)
some_of read d = elim (read d) [ none ↦ none | some v ↦ some (some v) ]

unfoldable pub decode_positioning_payload : List (Avp Data) → Result PayloadError PositioningPayload
unfolding raw_estimate last_of
decode_positioning_payload avps = do
  raw ← raw_estimate [] (find location_estimate 0 avps)
  ecgi ← last_of as_ecgi [] (find avp_ecgi vendor_id avps)
  velocity ← last_of as_octets [] (find avp_velocity_estimate vendor_id avps)
  eutran ← last_of as_octets [] (find avp_eutran_positioning_data vendor_id avps)
  accuracy ← last_of (some_of as_enumerated) none (find avp_accuracy_fulfilment vendor_id avps)
  age ← last_of (some_of as_unsigned) none (find avp_age_of_location_estimate vendor_id avps)
  ok (record {
    raw = raw;
    ecgi = ecgi;
    velocity = velocity;
    eutran = eutran;
    accuracy_fulfilment = accuracy;
    age_of_location_estimate = age;
  })

unfoldable pub gad_shape_name : ShapeType → String
gad_shape_name ShapeType.ellipsoid_point_uncertainty_circle = "ellipsoid_point_uncertainty_circle"
gad_shape_name ShapeType.ellipsoid_point_uncertainty_ellipse = "ellipsoid_point_uncertainty_ellipse"
gad_shape_name ShapeType.polygon = "polygon"
gad_shape_name ShapeType.ellipsoid_point = "ellipsoid_point"

abbrev in_ellipse {ℓ} : {A : Type ℓ} → (Ellipse → A) → Option Ellipse → Option A
in_ellipse field none = none
in_ellipse field (some e) = some (field e)

abbrev position_at : Area → Option Point → Option GeographicPosition
position_at g none = none
position_at g (some p) = some (record {
  shape = gad_shape_name g.shape;
  latitude = p.latitude_degrees;
  longitude = p.longitude_degrees;
  uncertainty_meters = g.uncertainty_meters;
  semi_major_meters = in_ellipse (λ e. e.semi_major_meters) g.ellipse;
  semi_minor_meters = in_ellipse (λ e. e.semi_minor_meters) g.ellipse;
  orientation_degrees = in_ellipse (λ e. e.orientation_degrees) g.ellipse;
  confidence_percent = in_ellipse (λ e. e.confidence_percent) g.ellipse;
})

-- A polygon has no point, and so no position.
unfoldable pub position_from_gad : Area → Option GeographicPosition
unfolding gad_shape_name
position_from_gad g = position_at g g.point
