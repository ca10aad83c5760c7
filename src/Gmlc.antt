-- ===== src/Gmlc.antt =====
-- cmd/gmlc/main.go: how the program starts, what it does when a request has finished, and the retention.
-- Flags, signals, listeners and goroutines stay outside.
pub mod Bootstrap
pub mod Completion
mod Examples
use vectorcore_gmlc.Base.{
  ℕ, ◌-◌, Bool, true, false, Option, none, some, List, [], ◌∷◌, Result, ok, err, String,
}
use vectorcore_gmlc.Base.Text.{Text}
use vectorcore_gmlc.Errors.{Error}
use vectorcore_gmlc.Domain.{Time, Request, LocationResult}
use vectorcore_gmlc.Storage.Schema.{Db}
use vectorcore_gmlc.Storage.Clients.{upsert_client}
use vectorcore_gmlc.Storage.Requests.{recover, purge}
use vectorcore_gmlc.Storage.Deliveries.{create_delivery}
use vectorcore_gmlc.Auth.{hash_token}
use vectorcore_gmlc.Config
use vectorcore_gmlc.Config.{client_type_value, privacy_check_value}
use vectorcore_gmlc.Delivery.Payload.{Payload, request_json}
use vectorcore_gmlc.Storage.Schema

abbrev pub or_0 : Option ℕ → ℕ
or_0 none = 0
or_0 (some n) = n

-- The client that UpsertClient stores. The maps of names give 0 for a name that they do not have.
unfoldable pub client_of : (Text → List ℕ) → Config.Client → Schema.Client
client_of sha256 c = record {
  id = c.id;
  credential_hash = hash_token sha256 c.bearer_token;
  services = c.services;
  target_prefixes = c.target_prefixes;
  enabled = true;
  lcs_client_type = or_0 (client_type_value c.lcs_client_type);
  lcs_privacy_check = or_0 (privacy_check_value c.lcs_privacy_check);
}

-- The loop over the clients, which ends the program at the first error.
abbrev pub and_then :
    Result Error (Unit {0}) × Db
    → (Db → Result Error (Unit {0}) × Db)
    → Result Error (Unit {0}) × Db
and_then (err e, db) rest = (err e, db)
and_then (ok u, db) rest = rest db

unfoldable pub bootstrap : (Text → List ℕ) → List Config.Client → Db → Result Error (Unit {0}) × Db
unfolding client_of
bootstrap sha256 [] db = (ok tt, db)
bootstrap sha256 (c ∷ cs) db =
    and_then (upsert_client (client_of sha256 c) db) (bootstrap sha256 cs)

-- One turn of the retention, at a time after the windows. A time that is before the first is the first.
unfoldable pub purge_at : Config.Retention → Time → Db → Db
purge_at r now db = purge (now - r.request) (now - r.result) db

-- The store that the program starts with: `recovered` and `purged` are the times of the two calls.
unfoldable pub opened :
    (Text → List ℕ) → Config.Config → Time → Time → Db → Result Error (Unit {0}) × Db
unfolding bootstrap purge_at
opened sha256 cfg recovered purged db =
    and_then (bootstrap sha256 cfg.clients db)
      (λ d. (ok tt, purge_at cfg.retention purged (recover recovered d)))

-- The ticks of the retention while the program runs.
abbrev pub retention_ticks : Config.Retention → List Time → Db → Db
retention_ticks r [] db = db
retention_ticks r (now ∷ ticks) db = retention_ticks r ticks (purge_at r now db)

abbrev woken : Result Error Schema.Delivery × Db → Bool × Db
woken (err e, d) = (false, d)
woken (ok a, d) = (true, d)

abbrev pub hooked : Text → Time → Option Text → Option (List ℕ) → Db → Bool × Db
hooked id now (some sub_id) (some payload) db = woken (create_delivery id sub_id payload now db)
hooked id now _ _ db = (false, db)

-- The completion hook. `marshal` is that of encoding/json, and `id` the new uuid of the delivery. The flag
-- is whether the delivery worker is woken, if there is one.
unfoldable pub on_completion :
    (String → Bool)
    → (Payload → Option (List ℕ))
    → Text
    → Time
    → Request
    → LocationResult
    → Db
    → Bool × Db
on_completion is_empty marshal id now r v db =
    hooked id now r.subscription_id (marshal (request_json is_empty r v)) db
