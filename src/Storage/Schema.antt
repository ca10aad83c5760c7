-- ===== src/Storage/Schema.antt =====
-- The tables of internal/storage/sqlite/migrations and the records of internal/storage/storage.go. A
-- TEXT column that holds a time is kept as the time and compared through `Stamp.utc`.
use vectorcore_gmlc.Base.{ℕ, Bool, Option, List, String}
use vectorcore_gmlc.Base.Text.{Text}
use vectorcore_gmlc.Base.Float.{Float64}
use vectorcore_gmlc.Domain.{Time, ServiceType, State, TargetKind, ServingNode, LocationResult}

-- storage.Client
pub record Client : Type 0 where
  pub id : Text
  pub credential_hash : List ℕ
  pub services : List ServiceType
  pub target_prefixes : List Text
  pub enabled : Bool
  pub lcs_client_type : ℕ
  pub lcs_privacy_check : ℕ

-- lcs_clients
pub record ClientRow : Type 0 where
  pub id : Text
  pub credential_hash : List ℕ
  pub enabled : Bool
  pub lcs_client_type : ℕ
  pub lcs_privacy_check : ℕ

-- The five qos_ columns of location_requests.
pub record QosColumns : Type 0 where
  pub class : Option ℕ
  pub horizontal_accuracy_meters : Option Float64
  pub vertical_accuracy_meters : Option Float64
  pub vertical_requested : ℕ
  pub response_time : Option ℕ

-- location_requests
pub record RequestRow : Type 0 where
  pub id : Text
  pub client_id : Text
  pub idempotency_key : Text
  pub service : ServiceType
  pub target_kind : TargetKind
  pub target_value : Text
  pub state : State
  pub failure_code : String
  pub failure_description : String
  pub attempt_count : ℕ
  pub next_attempt_at : Option Time
  pub location_type : ℕ
  pub priority : Option ℕ
  pub qos : QosColumns
  pub subscription_id : Option Text
  pub created_at : Time
  pub updated_at : Time

pub record AuditEvent : Type 0 where
  pub request_id : Text
  pub client_id : Text
  pub event_type : String
  pub detail : String
  pub at : Time

pub record Subscription : Type 0 where
  pub id : Text
  pub client_id : Text
  pub callback_url : Text
  pub callback_secret : List ℕ
  pub created_at : Time

pub data DeliveryState : Type 0 where
  pending in_flight delivered failed : DeliveryState

pub record Delivery : Type 0 where
  pub id : Text
  pub subscription_id : Text
  pub payload : List ℕ
  pub state : DeliveryState
  pub attempt_count : ℕ
  pub next_attempt_at : Option Time
  pub last_response_code : Option ℕ
  pub created_at : Time
  pub updated_at : Time

pub data DeferredState : Type 0 where
  pending reported expired : DeferredState

pub record DeferredLocationSubscription : Type 0 where
  pub lcs_reference_number : ℕ
  pub client_id : Text
  pub target_kind : TargetKind
  pub target_value : Text
  pub state : DeferredState
  pub created_at : Time
  pub updated_at : Time

-- storage.LocationReport; the two target columns together, `none` where the report had no target
pub record ReportRow : Type 0 where
  pub id : Text
  pub lcs_reference_number : Option ℕ
  pub location_event : ℕ
  pub target : Option (TargetKind × Text)
  pub raw_gad : List ℕ
  pub ecgi : List ℕ
  pub accuracy_fulfilment : Option ℕ
  pub age_of_location_estimate : Option ℕ
  pub raw_velocity_estimate : List ℕ
  pub eutran_positioning_data : List ℕ
  pub received_at : Time

-- location_history
pub record HistoryRow : Type 0 where
  pub id : Text
  pub target_kind : TargetKind
  pub target_value : Text
  pub shape : String
  pub latitude : Option Float64
  pub longitude : Option Float64
  pub uncertainty_meters : Option Float64
  pub recorded_at : Time

pub record Db : Type 0 where
  pub clients : List ClientRow
  pub client_services : List (Text × ServiceType)
  pub client_target_prefixes : List (Text × Text)
  pub requests : List RequestRow
  pub serving_nodes : List (Text × ServingNode)
  pub results : List LocationResult
  pub audit_events : List AuditEvent
  pub subscriptions : List Subscription
  pub deliveries : List Delivery
  pub deferred : List DeferredLocationSubscription
  pub reports : List ReportRow
  pub history : List HistoryRow
