-- ===== src/Delivery/Payload.antt =====
-- internal/delivery/payload.go: what the callback of a finished request carries. encoding/json writes it.
use vectorcore_gmlc.Base.{
  ℕ, Bool, true, Option, none, some, List, [], ◌∷◌, ◌++◌, if◌then◌else◌, ◌==◌, String,
}
use vectorcore_gmlc.Base.Text.{Text, codes}
use vectorcore_gmlc.Base.Float.{Float64}
use vectorcore_gmlc.Domain.{Time, ServiceType, State, state_eq, QosRequest, Request, LocationResult}

-- A value that is no object.
pub data Value : Type 0 where
  text : Text → Value
  literal : String → Value
  number : ℕ → Value
  float : Float64 → Value
  boolean : Bool → Value
  time : Time → Value
  octets : List ℕ → Value
  service : ServiceType → Value
  state : State → Value

abbrev pub Fields : Type 0
Fields = List (Text × Value)

-- The object, with the two objects that it may hold.
pub record Payload : Type 0 where
  pub fields : Fields
  pub qos : Option Fields
  pub result : Option Fields

abbrev field {ℓ} : {A : Type ℓ} → Text → (A → Value) → Option A → Fields
field key f none = []
field key f (some a) = (key, f a) ∷ []

-- A number without a name is the empty text, as the map has it.
abbrev pub qos_class_name : ℕ → Text
qos_class_name n = if n == 0 then codes "assured" else if n == 1 then codes "best_effort" else []

abbrev pub response_time_name : ℕ → Text
response_time_name n =
    if n == 0 then codes "low_delay" else if n == 1 then codes "delay_tolerant" else []

abbrev pub location_type_name : ℕ → Text
location_type_name n =
    if n == 0 then codes "current" else if n == 1 then codes "current_or_last_known" else []

unfoldable pub qos_from_domain : Option QosRequest → Option Fields
qos_from_domain none = none
qos_from_domain (some q) = some (
    field (codes "class") (λ n. text (qos_class_name n)) q.class
    ++ field (codes "horizontal_accuracy_meters") float q.horizontal_accuracy_meters
    ++ field (codes "vertical_accuracy_meters") float q.vertical_accuracy_meters
    ++ (if q.vertical_requested then (codes "vertical_requested", boolean true) ∷ [] else [])
    ++ field (codes "response_time") (λ n. text (response_time_name n)) q.response_time_class)

-- Both coordinates, or neither.
abbrev pub point_fields : Option Float64 → Option Float64 → Fields
point_fields (some lat) (some lon) =
    (codes "latitude", float lat) ∷ (codes "longitude", float lon) ∷ []
point_fields _ _ = []

abbrev bytes_field : Text → List ℕ → Fields
bytes_field key [] = []
bytes_field key (b ∷ bs) = (key, octets (b ∷ bs)) ∷ []

-- `is_empty` is of a shape.
unfoldable pub result_fields : (String → Bool) → LocationResult → Fields
result_fields is_empty v =
    (codes "created_at", time v.created_at) ∷ []
    ++ (if is_empty v.shape then [] else (codes "shape", literal v.shape) ∷ [])
    ++ point_fields v.latitude v.longitude
    ++ bytes_field (codes "ecgi") v.ecgi
    ++ field (codes "uncertainty_meters") float v.uncertainty_meters
    ++ field (codes "semi_major_meters") float v.semi_major_meters
    ++ field (codes "semi_minor_meters") float v.semi_minor_meters
    ++ field (codes "orientation_degrees") float v.orientation_degrees
    ++ field (codes "confidence_percent") number v.confidence_percent
    ++ field (codes "age_of_location_estimate_minutes") number v.age_of_location_estimate
    ++ field (codes "accuracy_fulfilment") number v.accuracy_fulfilment

unfoldable pub request_json : (String → Bool) → Request → LocationResult → Payload
unfolding qos_from_domain result_fields
request_json is_empty r v = record {
  fields =
      (codes "id", text r.id)
      ∷ (codes "service_type", service r.service)
      ∷ (codes "state", state r.state)
      ∷ (codes "failure_code", literal r.failure_code)
      ∷ (codes "location_type", text (location_type_name r.location_type))
      ∷ (codes "created_at", time r.created_at)
      ∷ (codes "updated_at", time r.updated_at)
      ∷ field (codes "priority") number r.priority;
  qos = qos_from_domain r.qos;
  result = if state_eq r.state State.completed then some (result_fields is_empty v) else none;
}
