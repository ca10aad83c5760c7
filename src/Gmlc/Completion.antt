-- ===== src/Gmlc/Completion.antt =====
-- cmd/gmlc/main.go: what the completion hook leaves in the store.
use vectorcore_gmlc.Base.{
  ℕ, ◌≡◌, Bool, true, false, Option, some, is_some, List, [], ◌∷◌, ◌++◌, first, String,
}
use vectorcore_gmlc.Base.Text.{Text}
use vectorcore_gmlc.Domain.{Time, Request, LocationResult}
use vectorcore_gmlc.Storage.Schema.{Db}
use vectorcore_gmlc.Storage.Deliveries.{new_delivery, subscription_id_is, delivery_id_is}
use vectorcore_gmlc.Delivery.Payload.{Payload, request_json}
use vectorcore_gmlc.Gmlc.{on_completion}

module _ (is_empty : String → Bool) (marshal : Payload → Option (List ℕ)) (id : Text) (now : Time)
    (r : Request) (v : LocationResult) (db : Db) where
  -- The request has a callback that the store knows, its payload can be written, and the id is new.
  abbrev pub Due : Text → List ℕ → Type 0
  Due sub payload =
      (r.subscription_id ≡ some sub)
      × (marshal (request_json is_empty r v) ≡ some payload)
      × (is_some (first (subscription_id_is sub) db.subscriptions) ≡ true)
      × (is_some (first (delivery_id_is id) db.deliveries) ≡ false)

  abbrev pub Queued : Type 0
  Queued =
      (sub : Text) × (payload : List ℕ) × Due sub payload
      × (on_completion is_empty marshal id now r v db ≡ (
        true,
        record db { deliveries = db.deliveries ++ new_delivery id sub payload now ∷ [] },
      ))

  abbrev pub Ignored : Type 0
  Ignored =
      (on_completion is_empty marshal id now r v db ≡ (false, db))
      × ((sub : Text) (payload : List ℕ) → ¬ Due sub payload)
