-- ===== src/Storage/Requests.antt =====
-- The operations on location_requests and location_results of internal/storage/sqlite/sqlite.go. An
-- operation returns its result and the database; an operation in a transaction that fails leaves the
-- database as it was. Faults of the database itself (input/output, a full disk) are not modelled.
pub mod Keys
pub mod KeysKept
pub mod Rows
pub mod Lifecycle
pub mod Outcomes
pub mod Claims
pub mod Invariant
pub mod Examples
use vectorcore_gmlc.Base.{
  ℕ, suc, ◌+◌, Bool, true, false, ◌&&◌, ◌||◌, not, Option, none, some, List, [], ◌∷◌, ◌++◌, String,
  if◌then◌else◌, ltb, ◌==◌, is_none, is_some, Result, ok, err, first, keep,
}
use vectorcore_gmlc.Base.Text.{Text, text_eq, text_leb}
use vectorcore_gmlc.Base.Float.{Float64}
use vectorcore_gmlc.Errors.{Error}
use vectorcore_gmlc.Domain.{
  Time, ServiceType, State, state_eq, can_transition, terminal, QosRequest, Request, ServingNode,
  LocationResult,
}
use vectorcore_gmlc.Storage.Stamp.{utc, stamp_leb, stamp_ltb}
use vectorcore_gmlc.Storage.Sql.{update, affected, least}
use vectorcore_gmlc.Storage.Schema.{QosColumns, RequestRow, ClientRow, Db}

abbrev bool_int : Bool → ℕ
bool_int true = 1
bool_int false = 0

unfoldable pub qos_columns : Option QosRequest → QosColumns
qos_columns none = record {
  class = none;
  horizontal_accuracy_meters = none;
  vertical_accuracy_meters = none;
  vertical_requested = 0;
  response_time = none;
}
qos_columns (some q) = record {
  class = q.class;
  horizontal_accuracy_meters = q.horizontal_accuracy_meters;
  vertical_accuracy_meters = q.vertical_accuracy_meters;
  vertical_requested = bool_int q.vertical_requested;
  response_time = q.response_time_class;
}

unfoldable pub scan_qos : QosColumns → Option QosRequest
scan_qos c =
    if is_none c.class
      && is_none c.horizontal_accuracy_meters
      && is_none c.vertical_accuracy_meters
      && is_none c.response_time
      && c.vertical_requested == 0
    then none
    else some (record {
      class = c.class;
      horizontal_accuracy_meters = c.horizontal_accuracy_meters;
      vertical_accuracy_meters = c.vertical_accuracy_meters;
      vertical_requested = c.vertical_requested == 1;
      response_time_class = c.response_time;
    })

-- The columns that the SELECTs read; next_attempt_at is not one of them.
unfoldable pub scan_request : RequestRow → Request
scan_request r = record {
  id = r.id;
  client_id = r.client_id;
  target_kind = r.target_kind;
  target_value = r.target_value;
  idempotency_key = r.idempotency_key;
  service = r.service;
  state = r.state;
  failure_code = r.failure_code;
  created_at = r.created_at;
  updated_at = r.updated_at;
  attempt_count = r.attempt_count;
  next_attempt_at = none;
  location_type = r.location_type;
  priority = r.priority;
  qos = scan_qos r.qos;
  subscription_id = r.subscription_id;
}

abbrev pub has_id : Text → RequestRow → Bool
has_id id r = text_eq r.id id

-- WHERE id=? AND state=?
abbrev pub has_id_state : Text → State → RequestRow → Bool
has_id_state id s r = text_eq r.id id && state_eq r.state s

abbrev pub has_key : Text → Text → RequestRow → Bool
has_key client key r = text_eq r.client_id client && text_eq r.idempotency_key key

abbrev pub scan_found : Option RequestRow → Result Error Request
scan_found none = err Error.not_found
scan_found (some r) = ok (scan_request r)

-- GetRequest and getRequestTx
unfoldable pub get_request : Text → Db → Result Error Request
get_request id db = scan_found (first (has_id id) db.requests)

unfoldable pub by_client_key : Text → Text → Db → Result Error Request
by_client_key client key db = scan_found (first (has_key client key) db.requests)

-- The row of the INSERT. `created_at` and `updated_at` are set before, and the attempts default to 0.
unfoldable pub request_row : Request → RequestRow
request_row r = record {
  id = r.id;
  client_id = r.client_id;
  idempotency_key = r.idempotency_key;
  service = r.service;
  target_kind = r.target_kind;
  target_value = r.target_value;
  state = r.state;
  failure_code = r.failure_code;
  failure_description = "";
  attempt_count = 0;
  next_attempt_at = none;
  location_type = r.location_type;
  priority = r.priority;
  qos = qos_columns r.qos;
  subscription_id = r.subscription_id;
  created_at = r.created_at;
  updated_at = r.updated_at;
}

-- The INSERT breaks the primary key, UNIQUE(client_id, idempotency_key) or the reference to
-- lcs_clients; SQLite reports ErrConstraint for each.
unfoldable pub constraint_violated : Request → Db → Bool
constraint_violated r db =
    is_some (first (has_id r.id) db.requests)
    || is_some (first (has_key r.client_id r.idempotency_key) db.requests)
    || is_none (first (λ c. text_eq c.id r.client_id) db.clients)

abbrev pub stamped : Request → Time → Request
stamped r now = record r { created_at = now; updated_at = now }

abbrev pub not_created : Result Error Request → Result Error (Request × Bool)
not_created (ok r) = ok (r, false)
not_created (err e) = err e

unfoldable pub create_request : Request → Time → Db → Result Error (Request × Bool) × Db
create_request r now db =
    let r' = stamped r now in
    if constraint_violated r' db
    then (not_created (by_client_key r.client_id r.idempotency_key db), db)
    else (ok (r', true), record db { requests = db.requests ++ request_row r' ∷ [] })

unfoldable pub set_request_subscription : Text → Text → Db → Result Error (Unit {0}) × Db
set_request_subscription id subscription_id db = (
  ok tt,
  record db {
    requests =
        update (has_id id) (λ r. record r { subscription_id = some subscription_id }) db.requests;
  },
)

-- An UPDATE of location_requests WHERE id=? AND state=?, outside a transaction.
abbrev pub update_request :
    Text → State → (RequestRow → RequestRow) → Db → Result Error (Unit {0}) × Db
update_request id from f db =
    let p = has_id_state id from in
    (
      if affected p db.requests == 1 then ok tt else err Error.conflict,
      record db { requests = update p f db.requests },
    )

-- The same in a transaction that goes on with `next`; a conflict rolls it back.
abbrev pub update_request_tx {ℓ} :
    {A : Type ℓ}
    → Text
    → State
    → (RequestRow → RequestRow)
    → (Db → Result Error A × Db)
    → Db
    → Result Error A × Db
update_request_tx id from f next db =
    let p = has_id_state id from in
    if affected p db.requests == 1
    then next (record db { requests = update p f db.requests })
    else (err Error.conflict, db)

-- The columns that each UPDATE sets.
abbrev pub set_transition : State → String → Time → RequestRow → RequestRow
set_transition to code now x = record x { state = to; failure_code = code; updated_at = now }

abbrev pub set_claimed : Time → RequestRow → RequestRow
set_claimed now x = record x {
  state = State.resolving;
  attempt_count = x.attempt_count + 1;
  updated_at = now;
}

abbrev pub set_locating : Time → RequestRow → RequestRow
set_locating now x = record x { state = State.locating; updated_at = now }

abbrev pub set_queued : Time → String → Time → RequestRow → RequestRow
set_queued next code now x = record x {
  state = State.queued;
  next_attempt_at = some next;
  failure_code = code;
  updated_at = now;
}

abbrev pub set_failed : String → String → Time → RequestRow → RequestRow
set_failed code desc now x = record x {
  state = State.failed;
  failure_code = code;
  failure_description = desc;
  updated_at = now;
}

abbrev pub set_completed : Time → RequestRow → RequestRow
set_completed now x = record x { state = State.completed; updated_at = now }

abbrev pub set_recovered : Time → RequestRow → RequestRow
set_recovered now x = record x {
  state = State.queued;
  next_attempt_at = some now;
  updated_at = now;
}

abbrev pub transitioned : RequestRow → State → String → Time → Db → Result Error Request × Db
transitioned r to code now db =
    (ok (record (scan_request r) { state = to; failure_code = code; updated_at = now }), db)

-- TransitionRequest from the row that its SELECT found.
unfoldable pub transition_found :
    Option RequestRow → Text → State → String → Time → Db → Result Error Request × Db
transition_found none id to code now db = (err Error.not_found, db)
transition_found (some r) id to code now db =
    if not (can_transition r.state to)
    then (err Error.conflict, db)
    else update_request_tx id r.state (set_transition to code now) (transitioned r to code now) db

unfoldable pub transition_request : Text → State → String → Time → Db → Result Error Request × Db
unfolding transition_found
transition_request id to code now db =
    transition_found (first (has_id id) db.requests) id to code now db

-- state='queued' AND (next_attempt_at IS NULL OR next_attempt_at<=?)
abbrev due_at : Option Time → Time → Bool
due_at none now = true
due_at (some t) now = stamp_leb (utc t) (utc now)

unfoldable pub claimable : Time → RequestRow → Bool
claimable now r = state_eq r.state State.queued && due_at r.next_attempt_at now

-- ORDER BY created_at,id
unfoldable pub created_before : RequestRow → RequestRow → Bool
created_before a b =
    stamp_ltb (utc a.created_at) (utc b.created_at)
    || (stamp_leb (utc a.created_at) (utc b.created_at) && text_leb a.id b.id)

-- The row read back after the UPDATE.
unfoldable pub claimed : Option RequestRow → Db → Result Error (Option Request) × Db
claimed none db = (err Error.not_found, db)
claimed (some x) db = (ok (some (record (scan_request x) { state = State.resolving })), db)

unfoldable pub read_claimed : Text → Db → Result Error (Option Request) × Db
read_claimed id db = claimed (first (has_id id) db.requests) db

unfoldable pub claim_found : Option RequestRow → Time → Db → Result Error (Option Request) × Db
claim_found none now db = (ok none, db)
claim_found (some r) now db =
    update_request_tx r.id State.queued (set_claimed now) (read_claimed r.id) db

-- `ok none` is the Go result `(Request{}, false, nil)`: nothing is due.
unfoldable pub claim_next_queued : Time → Db → Result Error (Option Request) × Db
unfolding claim_found read_claimed claimed
claim_next_queued now db =
    claim_found (least created_before (keep (claimable now) db.requests)) now db

-- INSERT ... ON CONFLICT(request_id) DO UPDATE, by the key of a row.
abbrev pub upsert {ℓ} : {A : Type ℓ} → (A → Bool) → A → List A → List A
upsert same x rows = keep (λ r. not (same r)) rows ++ x ∷ []

unfoldable pub save_serving_node : Text → ServingNode → Db → Result Error (Unit {0}) × Db
save_serving_node id n db =
    (ok tt, record db { serving_nodes = upsert (λ p. text_eq p.0 id) (id, n) db.serving_nodes })

unfoldable pub save_serving_node_and_locate :
    Text → ServingNode → Time → Db → Result Error (Unit {0}) × Db
unfolding save_serving_node
save_serving_node_and_locate id n now db =
    update_request_tx id State.resolving (set_locating now) (save_serving_node id n) db

unfoldable pub requeue : Text → State → Time → String → Time → Db → Result Error (Unit {0}) × Db
requeue id from next code now db = update_request id from (set_queued next code now) db

unfoldable pub fail_request :
    Text → State → String → String → Time → Db → Result Error (Unit {0}) × Db
fail_request id from code desc now db = update_request id from (set_failed code desc now) db

unfoldable pub store_result : Text → LocationResult → Db → Result Error (Unit {0}) × Db
store_result id v db = (
  ok tt,
  record db {
    results = upsert (λ r. text_eq r.request_id id) (record v { request_id = id }) db.results;
  },
)

unfoldable pub complete_request : Text → LocationResult → Time → Db → Result Error (Unit {0}) × Db
unfolding store_result
complete_request id v now db =
    update_request_tx id State.locating (set_completed now) (store_result id v) db

abbrev pub found_result : Option LocationResult → Result Error LocationResult
found_result none = err Error.not_found
found_result (some v) = ok v

unfoldable pub get_result : Text → Db → Result Error LocationResult
get_result id db = found_result (first (λ r. text_eq r.request_id id) db.results)

-- WHERE state IN ('resolving','locating')
abbrev pub is_active : RequestRow → Bool
is_active r = state_eq r.state State.resolving || state_eq r.state State.locating

unfoldable pub recover : Time → Db → Db
recover now db = record db { requests = update is_active (set_recovered now) db.requests }

abbrev pub retained : Time → RequestRow → Bool
retained before r = not (stamp_ltb (utc r.created_at) (utc before) && terminal r.state)

-- A deleted request takes its result and its serving node along (ON DELETE CASCADE).
unfoldable pub purge : Time → Time → Db → Db
purge request_before result_before db =
    let kept = keep (retained request_before) db.requests in
    let fresh = keep (λ v. not (stamp_ltb (utc v.created_at) (utc result_before))) db.results in
    record db {
      requests = kept;
      results = keep (λ v. is_some (first (has_id v.request_id) kept)) fresh;
      serving_nodes = keep (λ p. is_some (first (has_id p.0) kept)) db.serving_nodes;
      audit_events = keep (λ e. not (stamp_ltb (utc e.at) (utc request_before))) db.audit_events;
    }
