-- ===== src/Orchestrator.antt =====
-- internal/orchestrator/orchestrator.go: one turn of the worker. What other goroutines do to the store while the worker waits for an answer
-- (a cancellation, a new request, a purge) is a function on the store.
pub mod Loop
pub mod Outcome
pub mod Retries
mod Examples
use vectorcore_gmlc.Base.{
  ℕ, ◌+◌, ◌-◌, ◌*◌, ◌^◌, Bool, true, false, ◌&&◌, ◌||◌, Option, none, some, List, [], String,
  if◌then◌else◌, leb, Result, ok, err,
}
use vectorcore_gmlc.Base.Text.{Text}
use vectorcore_gmlc.Base.Float.{Float64}
use vectorcore_gmlc.Errors.{Error, unavailable, connection_lost, deadline_exceeded, canceled}
use vectorcore_gmlc.Domain.{
  Time, State, Target, TargetKind, ServingNode, LocationRequest, PositioningResult,
  GeographicPosition, Request, LocationResult, ResultKind, client_type_value_added_services,
}
use vectorcore_gmlc.Storage.Stamp.{second}
use vectorcore_gmlc.Storage.Schema.{Client, Db}
use vectorcore_gmlc.Storage.Requests.{
  claim_next_queued, save_serving_node_and_locate, requeue, fail_request, complete_request,
}
use vectorcore_gmlc.Storage.Clients.{get_client_credential}
use vectorcore_gmlc.Storage.History.{record_history}

abbrev pub max_attempts : ℕ
max_attempts = 3

-- What one turn meets outside the store: the answers of the resolver and of the provider, whether
-- the context of the request was cancelled at each use, what others do to the store meanwhile, the
-- new id of a history row, and the times that are read.
pub record Turn : Type 0 where
  pub resolve_serving_node : Target → Result Error ServingNode
  pub provide_location : ServingNode → LocationRequest → Result Error PositioningResult
  pub cancelled_at_resolve : Bool
  pub cancelled_at_save : Bool
  pub cancelled_at_client : Bool
  pub cancelled_at_locate : Bool
  pub cancelled_at_complete : Bool
  pub cancelled_at_history : Bool
  pub during_resolve : Db → Db
  pub during_locate : Db → Db
  pub history_id : Text
  pub claimed_at : Time
  pub now : Time

-- A call of the store with a cancelled context is an error.
abbrev pub with_context {ℓ} :
    {A : Type ℓ} → Bool → (Db → Result Error A × Db) → Db → Result Error A × Db
with_context cancelled call db = if cancelled then (err canceled, db) else call db

-- domain.Result{}
abbrev pub empty_result : LocationResult
empty_result = record {
  request_id = [];
  raw_gad = [];
  shape = "";
  created_at = 0;
  latitude = none;
  longitude = none;
  uncertainty_meters = none;
  semi_major_meters = none;
  semi_minor_meters = none;
  orientation_degrees = none;
  confidence_percent = none;
  age_of_location_estimate = none;
  accuracy_fulfilment = none;
  raw_velocity_estimate = [];
  eutran_positioning_data = [];
  ecgi = [];
  source = "";
}

-- What the completion hook is called with.
abbrev pub Notice : Type 0
Notice = Option (Request × LocationResult)

unfoldable pub notify_completion : Request → State → String → LocationResult → Time → Notice
notify_completion r s failure_code v now =
    some (record r { state = s; failure_code = failure_code; updated_at = now }, v)

-- The hook is called only after a FailRequest without an error.
unfoldable pub notify_failed : Request → String → Time → Result Error (Unit {0}) × Db → Notice × Db
unfolding notify_completion
notify_failed r code now (err e, db) = (none, db)
notify_failed r code now (ok _, db) = (notify_completion r State.failed code empty_result now, db)

-- errors.Is of the three errors after which a request is tried again
unfoldable pub transient : Error → Bool
transient unavailable = true
transient connection_lost = true
transient deadline_exceeded = true
transient _ = false

-- The delay before the next attempt; a claim makes `attempts` at least 1.
unfoldable pub retry_delay : ℕ → ℕ
retry_delay attempts = second * 2 ^ (attempts - 1)

unfoldable pub handle_error : Request → ℕ → State → Error → Time → Db → Notice × Db
unfolding transient notify_failed retry_delay
handle_error r attempts from e now db =
    if transient e
    then (if leb max_attempts attempts
        then notify_failed r "temporarily_unavailable" now (
            fail_request r.id from "temporarily_unavailable"
              "location service temporarily unavailable" now db)
        else (
          none,
          (requeue r.id from (now + retry_delay attempts) "temporarily_unavailable" now db).1,
        ))
    else notify_failed r "network_failure" now
        (fail_request r.id from "network_failure" "location request failed" now db)

unfoldable pub request_target : Request → Target
request_target r = elim r.target_kind [
  | TargetKind.imsi ↦ record { imsi = r.target_value; msisdn = [] }
  | TargetKind.msisdn ↦ record { imsi = []; msisdn = r.target_value }
]

-- The client type and the privacy check of the client, or the defaults when it is not read.
unfoldable pub client_attributes : Result Error Client → ℕ × Option ℕ
client_attributes (err e) = (client_type_value_added_services, none)
client_attributes (ok c) = (c.lcs_client_type, some c.lcs_privacy_check)

unfoldable pub location_request : Request → ℕ × Option ℕ → LocationRequest
unfolding request_target
location_request r attributes = record {
  target = request_target r;
  location_type = r.location_type;
  client_type = attributes.0;
  client_name = r.client_id;
  requestor_name = [];
  service_type_id = none;
  priority = r.priority;
  velocity_requested = false;
  qos = r.qos;
  privacy_check = attributes.1;
}

unfoldable pub at_position {ℓ} :
    {A : Type ℓ} → (GeographicPosition → Option A) → Option GeographicPosition → Option A
at_position field none = none
at_position field (some p) = field p

abbrev shape_of : Option GeographicPosition → String
shape_of none = ""
shape_of (some p) = p.shape

unfoldable pub result_of : Request → ServingNode → PositioningResult → Time → LocationResult
unfolding at_position
result_of r n out now = record {
  request_id = r.id;
  raw_gad = out.raw_location_estimate;
  shape = shape_of out.position;
  created_at = now;
  latitude = at_position (λ p. some p.latitude) out.position;
  longitude = at_position (λ p. some p.longitude) out.position;
  uncertainty_meters = at_position (λ p. p.uncertainty_meters) out.position;
  semi_major_meters = at_position (λ p. p.semi_major_meters) out.position;
  semi_minor_meters = at_position (λ p. p.semi_minor_meters) out.position;
  orientation_degrees = at_position (λ p. p.orientation_degrees) out.position;
  confidence_percent = at_position (λ p. p.confidence_percent) out.position;
  age_of_location_estimate = out.age_of_location_estimate;
  accuracy_fulfilment = out.accuracy_fulfilment;
  raw_velocity_estimate = out.raw_velocity_estimate;
  eutran_positioning_data = out.eutran_positioning_data;
  ecgi = out.ecgi;
  source = n.source;
}

-- RecordHistory, of a result with a position.
unfoldable pub remember : Turn → Request → LocationResult → Option GeographicPosition → Db → Db
remember t r v none db = db
remember t r v (some p) db =
    if t.cancelled_at_history
    then db
    else record_history t.history_id r.target_kind r.target_value v db

unfoldable pub completed_with :
    Turn
    → Request
    → LocationResult
    → Option GeographicPosition
    → Result Error (Unit {0}) × Db
    → Notice × Db
unfolding notify_completion remember
completed_with t r v position (err e, db) = (none, db)
completed_with t r v position (ok _, db) =
    (notify_completion r State.completed "" v t.now, remember t r v position db)

-- out.Kind == "no_immediate_result" || out.Kind == "deferred"
unfoldable pub no_result : ResultKind → Bool
no_result ResultKind.no_immediate_result = true
no_result ResultKind.deferred = true
no_result _ = false

unfoldable pub located :
    Turn → Request → ServingNode → Result Error PositioningResult → Db → Notice × Db
unfolding handle_error notify_failed result_of completed_with no_result
located t r n (err e) db =
    if t.cancelled_at_locate
    then (none, (requeue r.id State.locating t.now "shutdown_interrupted" t.now db).1)
    else handle_error r r.attempt_count State.locating e t.now db
located t r n (ok out) db =
    let v = result_of r n out t.now in
    if no_result out.kind
    then notify_failed r "no_immediate_result" t.now (
        fail_request r.id State.locating "no_immediate_result"
          "PLA returned no immediate positioning result" t.now db)
    else completed_with t r v out.position
        (with_context t.cancelled_at_complete (complete_request r.id v t.now) db)

-- After SaveServingNodeAndLocate: the provider is asked.
unfoldable pub saved : Turn → Request → ServingNode → Result Error (Unit {0}) × Db → Notice × Db
unfolding located client_attributes location_request
saved t r n (err e, db) = (none, db)
saved t r n (ok _, db) =
    let client =
      if t.cancelled_at_client then err canceled else get_client_credential r.client_id db in
    let answer = t.provide_location n (location_request r (client_attributes client)) in
    located t r n answer (t.during_locate db)

unfoldable pub resolved : Turn → Request → Result Error ServingNode → Db → Notice × Db
unfolding handle_error saved
resolved t r (err e) db =
    if t.cancelled_at_resolve
    then (none, (requeue r.id State.resolving t.now "shutdown_interrupted" t.now db).1)
    else handle_error r r.attempt_count State.resolving e t.now db
resolved t r (ok n) db =
    saved t r n (with_context t.cancelled_at_save (save_serving_node_and_locate r.id n t.now) db)

unfoldable pub one_claimed : Turn → Result Error (Option Request) × Db → Bool × Notice × Db
unfolding resolved request_target
one_claimed t (err e, db) = (false, none, db)
one_claimed t (ok none, db) = (false, none, db)
one_claimed t (ok (some r), db) =
    let end = resolved t r (t.resolve_serving_node (request_target r)) (t.during_resolve db) in
    (true, end.0, end.1)

-- Whether there was a request to work on, the call of the hook, and the store after the turn.
unfoldable pub one : Turn → Db → Bool × Notice × Db
unfolding one_claimed
one t db = one_claimed t (claim_next_queued t.claimed_at db)
