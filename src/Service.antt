-- ===== src/Service.antt =====
-- internal/service/service.go: the use cases that the MLP handler calls.
pub mod Ownership
pub mod Batch
pub mod Idempotency
pub mod Examples
use vectorcore_gmlc.Base.{
  ℕ, suc, ◌+◌, ◌/◌, ◌%◌, zero, Bool, true, false, ◌&&◌, ◌||◌, not, Option, none, some, List, [],
  ◌∷◌, ◌++◌, if◌then◌else◌, ltb, ◌==◌, length, Result, ok, err, guard, ◌>>◌, ◌>>=◌, String,
}
use vectorcore_gmlc.Base.Text.{Text, codes, text_eq, is_empty, trim_space}
use vectorcore_gmlc.Errors.{
  Error, idempotency_required, unsupported_service, invalid_location_type, callback_requires_secret,
  delivery_not_configured, invalid_callback_url, empty_batch, not_found,
}
use vectorcore_gmlc.Domain.{
  Time, ServiceType, State, state_eq, Target, validate, value, kind, QosRequest, Request,
  LocationResult, location_current, location_current_or_last_known,
}
use vectorcore_gmlc.Storage.Schema.{Client, AuditEvent, Subscription, HistoryRow, Db}
use vectorcore_gmlc.Storage.Requests.{
  create_request, set_request_subscription, get_request, get_result, transition_request,
}
use vectorcore_gmlc.Storage.Deliveries.{create_subscription}
use vectorcore_gmlc.Storage.History.{query_history}
use vectorcore_gmlc.Auth.{authenticate, authorize}

-- What net/url reads in an address.
pub record Url : Type 0 where
  pub scheme : Text
  pub host : Text

-- The functions of other libraries: the digest of a token and the parser of addresses; the encryptor
-- of callback secrets if delivery is configured; new uuids and the time of a call.
pub record Env : Type 0 where
  pub sha256 : Text → List ℕ
  pub parse_url : Text → Option Url
  pub encrypt_secret : Option (Text → Result Error (List ℕ))
  pub new_id : ℕ → Text
  pub subscription_id : Text
  pub now : Time

-- A batch has many targets; a single submission is of one.
pub record Submission : Type 0 where
  pub client_id : Text
  pub token : Text
  pub idempotency_key : Text
  pub service : ServiceType
  pub location_type : ℕ
  pub priority : Option ℕ
  pub qos : Option QosRequest
  pub callback_url : Text
  pub callback_secret : Text

unfoldable pub service_ok : ServiceType → Bool
service_ok ServiceType.immediate = true
service_ok ServiceType.empty_service = true
service_ok ServiceType.other_service = false

-- The checks before the authentication; the service is `immediate` from then on.
unfoldable pub prepare : Env → Submission → Db → Result Error Client
unfolding service_ok
prepare env i db =
    guard (service_ok i.service) unsupported_service
    >> guard
        (i.location_type == location_current || i.location_type == location_current_or_last_known)
        invalid_location_type
    >> guard (not (is_empty (trim_space i.idempotency_key) || ltb 255 (length i.idempotency_key)))
        idempotency_required
    >> authenticate env.sha256 i.client_id i.token db

unfoldable pub url_ok : Option Url → Bool
url_ok none = false
url_ok (some u) =
    (text_eq u.scheme (codes "http") || text_eq u.scheme (codes "https")) && not (is_empty u.host)

abbrev is_configured : Option (Text → Result Error (List ℕ)) → Bool
is_configured none = false
is_configured (some f) = true

unfoldable pub validate_callback : Env → Text → Text → Result Error (Unit {0})
unfolding url_ok
validate_callback env url secret =
    if is_empty url && is_empty secret
    then ok tt
    else guard (not (is_empty url || is_empty secret)) callback_requires_secret
      >> guard (url_ok (env.parse_url url)) invalid_callback_url
      >> guard (is_configured env.encrypt_secret) delivery_not_configured

abbrev subscribed : Result Error Subscription × Db → Result Error Text × Db
subscribed (err e, db) = (err e, db)
subscribed (ok sub, db) = (ok sub.id, db)

abbrev pub subscribe : Env → Text → Text → Result Error (List ℕ) → Db → Result Error Text × Db
subscribe env client_id url (err e) db = (err e, db)
subscribe env client_id url (ok ciphertext) db =
    subscribed (create_subscription env.subscription_id client_id url ciphertext env.now db)

-- Without an encryptor the call panics; `validate_callback` is before it.
unfoldable pub register_callback : Env → Text → Text → Text → Db → Result Error Text × Db
register_callback env client_id url secret db = elim env.encrypt_secret [
  | none ↦ (err Error.other, db)
  | some encrypt ↦ subscribe env client_id url (encrypt secret) db
]

unfoldable pub record_audit : AuditEvent → Db → Db
record_audit e db = record db { audit_events = db.audit_events ++ e ∷ [] }

-- The request that is stored, under its new id and its key.
unfoldable pub new_request : Submission → Text → Text → Client → Target → Request
new_request i id key c t = record {
  id = id;
  client_id = c.id;
  target_kind = kind t;
  target_value = value t;
  idempotency_key = key;
  service = ServiceType.immediate;
  state = State.queued;
  failure_code = "";
  created_at = 0;
  updated_at = 0;
  attempt_count = 0;
  next_attempt_at = none;
  location_type = i.location_type;
  priority = i.priority;
  qos = i.qos;
  subscription_id = none;
}

unfoldable pub accepted_event : Env → Request → Client → Bool → String → AuditEvent
accepted_event env r c created detail = record {
  request_id = r.id;
  client_id = c.id;
  event_type = if created then "request_accepted" else "request_idempotent";
  detail = detail;
  at = env.now;
}

-- After the callback is attached: the audit.
abbrev pub accepted :
    Env → Client → String → Request → Bool → Db → Result Error (Request × Bool) × Db
accepted env c detail r created db =
    (ok (r, created), record_audit (accepted_event env r c created detail) db)

-- SetRequestSubscription, with the subscription that was registered.
abbrev pub attached :
    Env → Client → String → Request → Result Error Text × Db → Result Error (Request × Bool) × Db
attached env c detail r (err e, db) = (err e, db)
attached env c detail r (ok sub_id, db) =
    accepted env c detail (record r { subscription_id = some sub_id }) true
      (set_request_subscription r.id sub_id db).1

-- After CreateRequest. A callback is registered only for a new request.
unfoldable pub submitted :
    Env
    → Submission
    → Client
    → String
    → Result Error (Request × Bool) × Db
    → Result Error (Request × Bool) × Db
unfolding register_callback accepted_event record_audit
submitted env i c detail (err e, db) = (err e, db)
submitted env i c detail (ok (r, created), db) =
    if created && not (is_empty i.callback_url)
    then attached env c detail r (register_callback env c.id i.callback_url i.callback_secret db)
    else accepted env c detail r created db

unfoldable pub create :
    Env → Submission → Target → Result Error Client → Db → Result Error (Request × Bool) × Db
unfolding submitted new_request
create env i t (err e) db = (err e, db)
create env i t (ok c) db =
    submitted env i c "immediate location request"
      (create_request (new_request i (env.new_id 0) i.idempotency_key c t) env.now db)

abbrev pub authorized : ServiceType → Target → Client → Result Error Client
authorized service t c = authorize c service t >> ok c

-- The Go result with an error; a new request wakes the worker when it is returned as created.
unfoldable pub submit : Env → Submission → Target → Db → Result Error (Request × Bool) × Db
unfolding create validate_callback prepare
submit env i t db =
    let checked =
      validate t
      >> validate_callback env i.callback_url i.callback_secret
      >> prepare env i db
      >>= authorized ServiceType.immediate t in
    create env i t checked db

-- The request is read by the client that owns it alone.
unfoldable pub owned : Client → Request → Result Error Request
owned c r = if text_eq r.client_id c.id then ok r else err not_found

unfoldable pub get : Env → Text → Text → Text → Db → Result Error Request
unfolding owned
get env client_id token id db =
    authenticate env.sha256 client_id token db >>= λ c. get_request id db >>= owned c

-- Without a completed request there is no result yet.
unfoldable pub result_if_completed :
    Text → Db → Request → Result Error (Request × Option LocationResult)
result_if_completed id db r =
    if state_eq r.state State.completed
    then (get_result id db >>= λ v. ok (r, some v))
    else ok (r, none)

unfoldable pub get_request_result :
    Env → Text → Text → Text → Db → Result Error (Request × Option LocationResult)
unfolding result_if_completed get
get_request_result env client_id token id db =
    get env client_id token id db >>= result_if_completed id db

unfoldable pub query_target_history :
    Env → Text → Text → Target → Time → Time → ℕ → ℕ → Db → Result Error (List HistoryRow)
query_target_history env client_id token t start stop interval limit db =
    validate t
    >> authenticate env.sha256 client_id token db
    >>= authorized ServiceType.immediate t
    >>= λ c. ok (query_history (kind t) (value t) start stop interval limit db)

unfoldable pub cancelled_event : Env → Text → Request → AuditEvent
cancelled_event env client_id r = record {
  request_id = r.id;
  client_id = client_id;
  event_type = "request_cancelled";
  detail = "cancelled by client";
  at = env.now;
}

-- After TransitionRequest.
unfoldable pub cancelled_audit : Env → Text → Result Error Request × Db → Result Error Request × Db
unfolding record_audit cancelled_event
cancelled_audit env client_id (err e, db) = (err e, db)
cancelled_audit env client_id (ok r, db) = (ok r, record_audit (cancelled_event env client_id r) db)

unfoldable pub cancel_found : Env → Text → Result Error Request → Db → Result Error Request × Db
unfolding cancelled_audit
cancel_found env client_id (err e) db = (err e, db)
cancel_found env client_id (ok r) db =
    cancelled_audit env client_id
      (transition_request r.id State.cancelled "cancelled_by_client" env.now db)

-- A cancellation without an error also cancels the context of the worker's turn.
unfoldable pub cancel : Env → Text → Text → Text → Db → Result Error Request × Db
unfolding cancel_found
cancel env client_id token id db = cancel_found env client_id (get env client_id token id db) db
