-- ===== src/Storage/Clients.antt =====
-- The tables of clients: UpsertClient, GetClientCredential and GetClientAuthzData of
-- internal/storage/sqlite/sqlite.go.
pub mod Stored
use vectorcore_gmlc.Base.{
  Bool, true, false, ◌||◌, not, Option, none, some, List, [], ◌∷◌, ◌++◌, map, if◌then◌else◌, Result,
  ok, err, first, keep,
}
use vectorcore_gmlc.Base.Text.{Text, text_eq, text_leb}
use vectorcore_gmlc.Errors.{Error}
use vectorcore_gmlc.Domain.{ServiceType, immediate, empty_service, other_service, service_eq}
use vectorcore_gmlc.Storage.Sql.{sort_by}
use vectorcore_gmlc.Storage.Schema.{Client, ClientRow, Db}

-- The credential half of a client, with no authorization data.
unfoldable pub scan_client : ClientRow → Client
scan_client r = record {
  id = r.id;
  credential_hash = r.credential_hash;
  services = [];
  target_prefixes = [];
  enabled = r.enabled;
  lcs_client_type = r.lcs_client_type;
  lcs_privacy_check = r.lcs_privacy_check;
}

abbrev pub found_client : Option ClientRow → Result Error Client
found_client none = err Error.not_found
found_client (some r) = ok (scan_client r)

unfoldable pub get_client_credential : Text → Db → Result Error Client
get_client_credential id db = found_client (first (λ r. text_eq r.id id) db.clients)

-- The texts of the services in their order, with the other ones last.
abbrev pub service_leb : ServiceType → ServiceType → Bool
service_leb empty_service s = true
service_leb immediate empty_service = false
service_leb immediate s = true
service_leb other_service other_service = true
service_leb other_service s = false

-- Neither SELECT has an ORDER BY: the rows come in the order of the index of the primary key, which is that of
-- the second column.
unfoldable pub get_client_authz_data : Text → Db → List ServiceType × List Text
unfolding sort_by
get_client_authz_data id db = (
  sort_by service_leb (map (λ p. p.1) (keep (λ p. text_eq p.0 id) db.client_services)),
  sort_by text_leb (map (λ p. p.1) (keep (λ p. text_eq p.0 id) db.client_target_prefixes)),
)

abbrev contains {ℓ} : {A : Type ℓ} → (A → A → Bool) → A → List A → Bool
contains same x [] = false
contains same x (y ∷ ys) = same x y || contains same x ys

-- PRIMARY KEY(client_id, service) and PRIMARY KEY(client_id, prefix): no value twice.
abbrev pub repeated {ℓ} : {A : Type ℓ} → (A → A → Bool) → List A → Bool
repeated same [] = false
repeated same (x ∷ xs) = contains same x xs || repeated same xs

abbrev pub credential_row : Client → ClientRow
credential_row c = record {
  id = c.id;
  credential_hash = c.credential_hash;
  enabled = c.enabled;
  lcs_client_type = c.lcs_client_type;
  lcs_privacy_check = c.lcs_privacy_check;
}

-- A repeated service or prefix breaks its table's key and rolls the transaction back.
unfoldable pub upsert_client : Client → Db → Result Error (Unit {0}) × Db
upsert_client c db =
    if repeated service_eq c.services || repeated text_eq c.target_prefixes
    then (err Error.other, db)
    else (
      ok tt,
      record db {
        clients = keep (λ r. not (text_eq r.id c.id)) db.clients ++ credential_row c ∷ [];
        client_services =
            keep (λ p. not (text_eq p.0 c.id)) db.client_services
            ++ map (λ s. (c.id, s)) c.services;
        client_target_prefixes =
            keep (λ p. not (text_eq p.0 c.id)) db.client_target_prefixes
            ++ map (λ p. (c.id, p)) c.target_prefixes;
      },
    )
