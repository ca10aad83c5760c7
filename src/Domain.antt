-- ===== src/Domain.antt =====
-- internal/domain: requests, their states, targets, and what positioning returns.
pub mod Transitions
mod Examples
use vectorcore_gmlc.Base.{
  ℕ, Bool, true, false, ◌&&◌, ◌||◌, not, Option, String, if◌then◌else◌, ltb, ◌==◌, length, List,
  Result, guard, ◌>>◌,
}
use vectorcore_gmlc.Base.Text.{Text, is_empty, all_digits, trim_space}
use vectorcore_gmlc.Base.Float.{Float64}
use vectorcore_gmlc.Errors.{Error}

-- A time is a number of nanoseconds.
abbrev pub Time : Type 0
Time = ℕ

pub data ServiceType : Type 0 where
  immediate : ServiceType
  -- any other value that a caller sends; `""` is the empty one
  empty_service other_service : ServiceType

abbrev pub service_eq : ServiceType → ServiceType → Bool
service_eq immediate immediate = true
service_eq empty_service empty_service = true
service_eq other_service other_service = true
service_eq _ _ = false

pub data State : Type 0 where
  queued resolving locating completed failed cancelled expired indeterminate : State

abbrev pub state_number : State → ℕ
state_number queued = 0
state_number resolving = 1
state_number locating = 2
state_number completed = 3
state_number failed = 4
state_number cancelled = 5
state_number expired = 6
state_number indeterminate = 7

-- The Go comparison of two states.
abbrev pub state_eq : State → State → Bool
state_eq s t = state_number s == state_number t

unfoldable pub terminal : State → Bool
terminal s =
    state_eq s completed
    || state_eq s failed
    || state_eq s cancelled
    || state_eq s expired
    || state_eq s indeterminate

-- The `switch` of `CanTransition`.
next_allowed : State → State → Bool
next_allowed queued to =
    state_eq to resolving
    || state_eq to cancelled
    || state_eq to expired
    || state_eq to failed
    || state_eq to indeterminate
next_allowed resolving to =
    state_eq to locating
    || state_eq to queued
    || state_eq to cancelled
    || state_eq to expired
    || state_eq to failed
    || state_eq to indeterminate
next_allowed locating to =
    state_eq to completed
    || state_eq to queued
    || state_eq to cancelled
    || state_eq to expired
    || state_eq to failed
    || state_eq to indeterminate
next_allowed _ to = false

unfoldable pub can_transition : State → State → Bool
unfolding terminal next_allowed
can_transition from to =
    if state_eq from to then false else if terminal from then false else next_allowed from to

pub record Target : Type 0 where
  pub imsi : Text
  pub msisdn : Text

-- The loop's body in `Validate`, for one identity.
identity_ok : Text → Bool
identity_ok v = is_empty v || (not (ltb 15 (length v)) && all_digits v)

unfoldable pub validate : Target → Result Error (Unit {0})
unfolding identity_ok
validate t =
    let imsi = trim_space t.imsi in
    let msisdn = trim_space t.msisdn in
    guard (not (is_empty imsi && is_empty msisdn)) Error.invalid_target
    >> guard (identity_ok imsi && identity_ok msisdn) Error.invalid_target

unfoldable pub value : Target → Text
value t = if not (is_empty t.imsi) then t.imsi else t.msisdn

pub data TargetKind : Type 0 where
  imsi msisdn : TargetKind

abbrev pub kind_eq : TargetKind → TargetKind → Bool
kind_eq imsi imsi = true
kind_eq msisdn msisdn = true
kind_eq _ _ = false

unfoldable pub kind : Target → TargetKind
kind t = if not (is_empty t.imsi) then TargetKind.imsi else TargetKind.msisdn

-- LocationType, LCS-Client-Type and LCS-Privacy-Check are the uint32 values of TS 29.172.
abbrev pub location_current : ℕ
location_current = 0

abbrev pub location_current_or_last_known : ℕ
location_current_or_last_known = 1

abbrev pub client_type_value_added_services : ℕ
client_type_value_added_services = 1

pub record QosRequest : Type 0 where
  pub class : Option ℕ
  pub horizontal_accuracy_meters : Option Float64
  pub vertical_accuracy_meters : Option Float64
  pub vertical_requested : Bool
  pub response_time_class : Option ℕ

pub record LocationRequest : Type 0 where
  pub target : Target
  pub location_type : ℕ
  pub client_type : ℕ
  pub client_name : Text
  pub requestor_name : Text
  pub service_type_id : Option ℕ
  pub priority : Option ℕ
  pub velocity_requested : Bool
  pub qos : Option QosRequest
  pub privacy_check : Option ℕ

pub record GeographicPosition : Type 0 where
  pub shape : String
  pub latitude : Float64
  pub longitude : Float64
  pub uncertainty_meters : Option Float64
  pub semi_major_meters : Option Float64
  pub semi_minor_meters : Option Float64
  pub orientation_degrees : Option Float64
  pub confidence_percent : Option ℕ

pub data ResultKind : Type 0 where
  location_estimate additional_information deferred no_immediate_result : ResultKind

-- An octet string that was not received is `[]`, as a nil slice is.
pub record PositioningResult : Type 0 where
  pub kind : ResultKind
  pub raw_location_estimate : List ℕ
  pub raw_velocity_estimate : List ℕ
  pub ecgi : List ℕ
  pub eutran_positioning_data : List ℕ
  pub accuracy_fulfilment : Option ℕ
  pub age_of_location_estimate : Option ℕ
  pub result_code : ℕ
  pub experimental_code : ℕ
  pub position : Option GeographicPosition

pub record LocationReport : Type 0 where
  pub location_event : ℕ
  pub target : Target
  pub client_name : Text
  pub lcs_reference_number : Option ℕ
  pub raw_location_estimate : List ℕ
  pub ecgi : List ℕ
  pub raw_velocity_estimate : List ℕ
  pub eutran_positioning_data : List ℕ
  pub accuracy_fulfilment : Option ℕ
  pub age_of_location_estimate : Option ℕ
  pub position : Option GeographicPosition

pub record ServingNode : Type 0 where
  pub node_type : String
  pub mme_host : Text
  pub mme_realm : Text
  pub source : String
  pub resolved_at : Time

pub record Request : Type 0 where
  pub id : Text
  pub client_id : Text
  pub target_kind : TargetKind
  pub target_value : Text
  pub idempotency_key : Text
  pub service : ServiceType
  pub state : State
  pub failure_code : String
  pub created_at : Time
  pub updated_at : Time
  pub attempt_count : ℕ
  pub next_attempt_at : Option Time
  pub location_type : ℕ
  pub priority : Option ℕ
  pub qos : Option QosRequest
  pub subscription_id : Option Text

-- domain.Result
pub record LocationResult : Type 0 where
  pub request_id : Text
  pub raw_gad : List ℕ
  pub shape : String
  pub created_at : Time
  pub latitude : Option Float64
  pub longitude : Option Float64
  pub uncertainty_meters : Option Float64
  pub semi_major_meters : Option Float64
  pub semi_minor_meters : Option Float64
  pub orientation_degrees : Option Float64
  pub confidence_percent : Option ℕ
  pub age_of_location_estimate : Option ℕ
  pub accuracy_fulfilment : Option ℕ
  pub raw_velocity_estimate : List ℕ
  pub eutran_positioning_data : List ℕ
  pub ecgi : List ℕ
  pub source : String
