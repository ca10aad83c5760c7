-- ===== src/Storage/Requests/Examples.antt =====
-- Tests of the operations on requests, and the theorems at concrete inputs.
use vectorcore_gmlc.Base.{ℕ, ◌*◌, ◌≡◌, refl, false, List, [], ◌∷◌, some, none}
use vectorcore_gmlc.Base.Text.{Text, codes, text_eq}
use vectorcore_gmlc.Domain.{ServiceType, State, TargetKind, ServingNode, LocationResult, terminal}
use vectorcore_gmlc.Storage.Stamp.{second}
use vectorcore_gmlc.Storage.Schema.{RequestRow, Db}
use vectorcore_gmlc.Storage.Requests.{
  claim_next_queued, complete_request, requeue, fail_request, save_serving_node_and_locate,
}
use vectorcore_gmlc.Storage.Requests.Rows.{Unique, find_row}
use vectorcore_gmlc.Storage.Requests.Lifecycle.{
  Op, claim, locate, complete, recover_all, run_op, Follows, run_op-Follows,
}
use vectorcore_gmlc.Storage.Requests.Outcomes.{Guarded, writes-Guarded}
use vectorcore_gmlc.Storage.Requests.Claims.{Claim, claim_next_queued-Claim}
use vectorcore_gmlc.Storage.Requests.Invariant.{run_ops, run_ops-terminal}

abbrev pub request : Text → State → ℕ → RequestRow
request id s created = record {
  id = id;
  client_id = codes "police";
  idempotency_key = id;
  service = ServiceType.immediate;
  target_kind = TargetKind.msisdn;
  target_value = codes "15551234567";
  state = s;
  failure_code = "";
  failure_description = "";
  attempt_count = 0;
  next_attempt_at = none;
  location_type = 0;
  priority = none;
  qos = record {
    class = none;
    horizontal_accuracy_meters = none;
    vertical_accuracy_meters = none;
    vertical_requested = 0;
    response_time = none;
  };
  subscription_id = none;
  created_at = created;
  updated_at = created;
}

abbrev pub database : List RequestRow → Db
database rows = record {
  clients = [];
  client_services = [];
  client_target_prefixes = [];
  requests = rows;
  serving_nodes = [];
  results = [];
  audit_events = [];
  subscriptions = [];
  deliveries = [];
  deferred = [];
  reports = [];
  history = [];
}

abbrev pub two_requests : Db
two_requests =
    database (request (codes "b") State.queued 7 ∷ request (codes "a") State.cancelled 5 ∷ [])

pub two_requests-Unique : Unique two_requests.requests
unfolding text_eq
two_requests-Unique = ((refl, tt), (tt, tt))

abbrev pub node : ServingNode
node = record {
  node_type = "mme";
  mme_host = codes "mme1";
  mme_realm = codes "epc";
  source = "slh";
  resolved_at = 9;
}

abbrev pub result : LocationResult
result = record {
  request_id = [];
  raw_gad = [];
  shape = "";
  created_at = 9;
  latitude = none;
  longitude = none;
  uncertainty_meters = none;
  semi_major_meters = none;
  semi_minor_meters = none;
  orientation_degrees = none;
  confidence_percent = none;
  age_of_location_estimate = none;
  accuracy_fulfilment = none;
  raw_velocity_estimate = [];
  eutran_positioning_data = [];
  ecgi = 1 ∷ [];
  source = "slh";
}

run_op-Follows_example :
    Follows false
      (find_row (codes "b") two_requests.requests)
      (find_row (codes "b") (run_op (claim 8) two_requests).requests)
run_op-Follows_example = run_op-Follows (claim 8) two_requests (codes "b") two_requests-Unique tt

abbrev late_calls : List Op
late_calls = locate (codes "a") node 9 ∷ complete (codes "a") result 9 ∷ recover_all 10 ∷ []

run_ops-terminal_example :
    (x : RequestRow) × (find_row (codes "a") (run_ops late_calls two_requests).requests ≡ some x)
    × (x.state ≡ State.cancelled)
unfolding text_eq
run_ops-terminal_example =
    run_ops-terminal late_calls two_requests (codes "a") (request (codes "a") State.cancelled 5)
      two_requests-Unique (tt, (tt, (tt, tt))) (tt, (tt, (tt, tt))) refl (unfold terminal in refl)

claim_next_queued-Claim_example : Claim 8 two_requests (claim_next_queued 8 two_requests)
claim_next_queued-Claim_example = claim_next_queued-Claim 8 two_requests two_requests-Unique

writes-Guarded_example :
    Guarded
      (codes "b")
      State.resolving
      (λ x. record x { state = State.locating; updated_at = 9 })
      two_requests.requests
      (save_serving_node_and_locate (codes "b") node 9 two_requests).0
      (save_serving_node_and_locate (codes "b") node 9 two_requests).1.requests
    × Guarded
        (codes "b")
        State.locating
        (λ x. record x { state = State.completed; updated_at = 9 })
        two_requests.requests
        (complete_request (codes "b") result 9 two_requests).0
        (complete_request (codes "b") result 9 two_requests).1.requests
    × Guarded
        (codes "b")
        State.queued
        (λ x. record x {
          state = State.queued;
          next_attempt_at = some 20;
          failure_code = "again";
          updated_at = 9;
        })
        two_requests.requests
        (requeue (codes "b") State.queued 20 "again" 9 two_requests).0
        (requeue (codes "b") State.queued 20 "again" 9 two_requests).1.requests
    × Guarded
        (codes "b")
        State.queued
        (λ x. record x {
          state = State.failed;
          failure_code = "again";
          failure_description = "later";
          updated_at = 9;
        })
        two_requests.requests
        (fail_request (codes "b") State.queued "again" "later" 9 two_requests).0
        (fail_request (codes "b") State.queued "again" "later" 9 two_requests).1.requests
writes-Guarded_example =
    writes-Guarded (codes "b") two_requests two_requests-Unique 9 20 node result State.queued
      "again" "later"

-- Due at second 5, read half a second later.
abbrev retried : RequestRow
retried = record (request (codes "c") State.queued 1) { next_attempt_at = some (5 * second) }
