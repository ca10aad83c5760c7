-- ===== src/Storage/Deliveries.antt =====
-- Subscriptions and deliveries in internal/storage/sqlite/sqlite.go: the outbox of callbacks.
pub mod Lifecycle
mod Examples
use vectorcore_gmlc.Base.{
  ℕ, ◌+◌, Bool, true, false, ◌&&◌, ◌||◌, not, Option, none, some, List, [], ◌∷◌, ◌++◌,
  if◌then◌else◌, ◌==◌, keep, first, Result, ok, err, is_some,
}
use vectorcore_gmlc.Base.Text.{Text, text_eq, text_leb}
use vectorcore_gmlc.Errors.{Error}
use vectorcore_gmlc.Domain.{Time}
use vectorcore_gmlc.Storage.Stamp.{utc, stamp_leb, stamp_ltb}
use vectorcore_gmlc.Storage.Sql.{update, affected, least}
use vectorcore_gmlc.Storage.Schema.{Subscription, DeliveryState, Delivery, Db}
use vectorcore_gmlc.Storage.Schema.DeliveryState.{pending, in_flight, delivered, failed}

abbrev pub subscription_id_is : Text → Subscription → Bool
subscription_id_is id s = text_eq s.id id

-- `id` is the new uuid. A client that is not stored violates the foreign key.
unfoldable pub create_subscription :
    Text → Text → Text → List ℕ → Time → Db → Result Error Subscription × Db
create_subscription id client_id callback_url callback_secret now db =
    let sub : Subscription = record {
      id = id;
      client_id = client_id;
      callback_url = callback_url;
      callback_secret = callback_secret;
      created_at = now;
    } in
    if is_some (first (λ c. text_eq c.id client_id) db.clients)
      && not (is_some (first (subscription_id_is id) db.subscriptions))
    then (ok sub, record db { subscriptions = db.subscriptions ++ sub ∷ [] })
    else (err Error.other, db)

unfoldable found {ℓ} : {A : Type ℓ} → Option A → Result Error A
found none = err Error.not_found
found (some x) = ok x

unfoldable pub get_subscription : Text → Db → Result Error Subscription
unfolding found
get_subscription id db = found (first (subscription_id_is id) db.subscriptions)

abbrev pub delivery_id_is : Text → Delivery → Bool
delivery_id_is id d = text_eq d.id id

unfoldable pub get_delivery : Text → Db → Result Error Delivery
unfolding found
get_delivery id db = found (first (delivery_id_is id) db.deliveries)

abbrev pub delivery_state_eq : DeliveryState → DeliveryState → Bool
delivery_state_eq pending pending = true
delivery_state_eq in_flight in_flight = true
delivery_state_eq delivered delivered = true
delivery_state_eq failed failed = true
delivery_state_eq _ _ = false

abbrev pub new_delivery : Text → Text → List ℕ → Time → Delivery
new_delivery id subscription_id payload now = record {
  id = id;
  subscription_id = subscription_id;
  payload = payload;
  state = pending;
  attempt_count = 0;
  next_attempt_at = none;
  last_response_code = none;
  created_at = now;
  updated_at = now;
}

-- An unknown subscription violates the foreign key, a known id the primary key.
unfoldable pub create_delivery : Text → Text → List ℕ → Time → Db → Result Error Delivery × Db
create_delivery id subscription_id payload now db =
    let d = new_delivery id subscription_id payload now in
    if is_some (first (subscription_id_is subscription_id) db.subscriptions)
      && not (is_some (first (delivery_id_is id) db.deliveries))
    then (ok d, record db { deliveries = db.deliveries ++ d ∷ [] })
    else (err Error.other, db)

abbrev pub delivery_due_at : Option Time → Time → Bool
delivery_due_at none now = true
delivery_due_at (some t) now = stamp_leb (utc t) (utc now)

-- state='pending' AND (next_attempt_at IS NULL OR next_attempt_at<=?)
unfoldable pub delivery_due : Time → Delivery → Bool
delivery_due now d = delivery_state_eq d.state pending && delivery_due_at d.next_attempt_at now

-- ORDER BY created_at,id
unfoldable pub delivery_before : Delivery → Delivery → Bool
delivery_before a b =
    stamp_ltb (utc a.created_at) (utc b.created_at)
    || (stamp_leb (utc a.created_at) (utc b.created_at) && text_leb a.id b.id)

-- WHERE id=? AND state=?
abbrev pub delivery_in : Text → DeliveryState → Delivery → Bool
delivery_in id from d = text_eq d.id id && delivery_state_eq d.state from

abbrev pub set_in_flight : Time → Delivery → Delivery
set_in_flight now d = record d {
  state = in_flight;
  attempt_count = d.attempt_count + 1;
  updated_at = now;
}

abbrev pub set_pending : Time → Time → Delivery → Delivery
set_pending next now d = record d { state = pending; next_attempt_at = some next; updated_at = now }

abbrev pub set_finished : DeliveryState → ℕ → Time → Delivery → Delivery
set_finished to code now d = record d {
  state = to;
  last_response_code = some code;
  updated_at = now;
}

-- getDeliveryTx after the UPDATE, in the same transaction.
abbrev pub delivery_read : Option Delivery → Db → Db → Result Error (Option Delivery) × Db
delivery_read none before after = (err Error.not_found, before)
delivery_read (some d) before after = (ok (some (record d { state = in_flight })), after)

unfoldable pub claim_delivery_found :
    Option Delivery → Time → Db → Result Error (Option Delivery) × Db
claim_delivery_found none now db = (ok none, db)
claim_delivery_found (some d) now db =
    let p = delivery_in d.id pending in
    let after = record db { deliveries = update p (set_in_flight now) db.deliveries } in
    if affected p db.deliveries == 1
    then delivery_read (first (delivery_id_is d.id) after.deliveries) db after
    else (err Error.conflict, db)

-- `ok none` is the Go result `(Delivery{}, false, nil)`.
unfoldable pub claim_next_delivery : Time → Db → Result Error (Option Delivery) × Db
unfolding claim_delivery_found
claim_next_delivery now db =
    claim_delivery_found (least delivery_before (keep (delivery_due now) db.deliveries)) now db

-- UPDATE deliveries ... WHERE id=? AND state='in_flight'
abbrev pub update_delivery : Text → (Delivery → Delivery) → Db → Result Error (Unit {0}) × Db
update_delivery id f db =
    let p = delivery_in id in_flight in
    (
      if affected p db.deliveries == 1 then ok tt else err Error.conflict,
      record db { deliveries = update p f db.deliveries },
    )

unfoldable pub requeue_delivery : Text → Time → Time → Db → Result Error (Unit {0}) × Db
requeue_delivery id next now db = update_delivery id (set_pending next now) db

unfoldable pub fail_delivery : Text → ℕ → Time → Db → Result Error (Unit {0}) × Db
fail_delivery id response_code now db =
    update_delivery id (set_finished failed response_code now) db

unfoldable pub mark_delivered : Text → ℕ → Time → Db → Result Error (Unit {0}) × Db
mark_delivered id response_code now db =
    update_delivery id (set_finished delivered response_code now) db
