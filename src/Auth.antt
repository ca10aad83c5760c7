-- ===== src/Auth.antt =====
-- internal/auth/auth.go: who a client is, and what it may ask for. SHA-256 is a parameter.
pub mod Grants
mod Examples
use vectorcore_gmlc.Base.{
  Bool, true, false, ◌&&◌, ◌||◌, not, Option, none, some, List, [], ◌∷◌, ℕ, if◌then◌else◌, Result,
  ok, err,
}
use vectorcore_gmlc.Base.Text.{Text, codes, text_eq, has_prefix}
use vectorcore_gmlc.Errors.{Error, unauthenticated, forbidden}
use vectorcore_gmlc.Domain.{ServiceType, service_eq, Target, value}
use vectorcore_gmlc.Storage.Schema.{Client, Db}
use vectorcore_gmlc.Storage.Clients.{get_client_credential, get_client_authz_data}

module _ (sha256 : Text → List ℕ) where
  abbrev pub hash_token : Text → List ℕ
  hash_token token = sha256 token

  abbrev dummy_credential_hash : List ℕ
  dummy_credential_hash = hash_token (codes "constant-time-comparison-placeholder")

  abbrev pub is_valid : Result Error Client → Bool
  is_valid (err e) = false
  is_valid (ok c) = c.enabled

  abbrev pub hash_of : Result Error Client → List ℕ
  hash_of (err e) = dummy_credential_hash
  hash_of (ok c) = if c.enabled then c.credential_hash else dummy_credential_hash

  -- The client, with its services and target prefixes read once the token is verified.
  abbrev pub granted : Result Error Client → List ServiceType × List Text → Result Error Client
  granted (err e) authz = err unauthenticated
  granted (ok c) authz = ok (record c { services = authz.0; target_prefixes = authz.1 })

  unfoldable pub authenticate : Text → Text → Db → Result Error Client
  authenticate client_id token db =
      let c = get_client_credential client_id db in
      if not (is_valid c) || not (text_eq (hash_of c) (hash_token token))
      then err unauthenticated
      else granted c (get_client_authz_data client_id db)

abbrev pub has_service : ServiceType → List ServiceType → Bool
has_service service [] = false
has_service service (s ∷ services) = service_eq s service || has_service service services

abbrev pub matches_prefix : Text → List Text → Bool
matches_prefix v [] = false
matches_prefix v (p ∷ prefixes) = has_prefix v p || matches_prefix v prefixes

unfoldable pub authorize : Client → ServiceType → Target → Result Error (Unit {0})
authorize c service target =
    if not (has_service service c.services)
    then err forbidden
    else if matches_prefix (value target) c.target_prefixes
    then ok tt
    else err forbidden
