-- ===== src/Config/Validation.antt =====
-- internal/config/config.go: EncryptionKeyBytes, Validate and Load.
use vectorcore_gmlc.Base.{
  ℕ, ◌+◌, ◌-◌, ◌*◌, Bool, true, false, ◌&&◌, ◌||◌, not, Option, none, some, List, [], ◌∷◌, ◌++◌,
  if◌then◌else◌, leb, ◌==◌, length, is_some, Result, ok, err, ◌>>=◌, ◌>>◌, guard,
}
use vectorcore_gmlc.Base.Text.{Text, codes, text_eq, is_empty, to_lower, all_digits}
use vectorcore_gmlc.Errors.{Error}
use vectorcore_gmlc.Config.{
  MlpReporting, Delivery, DiameterPeer, Diameter, Client, Config, apply_defaults, client_type_value,
  privacy_check_value,
}

-- `if bad { return fmt.Errorf(...) }`, with the test that must hold.
abbrev pub require : Bool → Result Error (Unit {0})
require b = guard b Error.other

-- A hex digit of either case.
abbrev pub hex_digit : ℕ → Option ℕ
hex_digit c =
    if leb 48 c && leb c 57
    then some (c - 48)
    else if leb 97 c && leb c 102
    then some (c - 87)
    else if leb 65 c && leb c 70
    then some (c - 55)
    else none

abbrev pub hex_byte : Option ℕ → Option ℕ → Result Error (List ℕ) → Result Error (List ℕ)
hex_byte (some h) (some l) (ok rest) = ok ((16 * h + l) ∷ rest)
hex_byte _ _ _ = err Error.other

-- hex.DecodeString
unfoldable pub decode_hex : Text → Result Error (List ℕ)
decode_hex [] = ok []
decode_hex (h ∷ []) = err Error.other
decode_hex (h ∷ l ∷ s) = hex_byte (hex_digit h) (hex_digit l) (decode_hex s)

unfoldable pub encryption_key_bytes : Delivery → Result Error (List ℕ)
unfolding decode_hex
encryption_key_bytes d =
    decode_hex d.encryption_key >>= λ key. (require (length key == 32) >> ok key)

abbrev pub positive : ℕ → Bool
positive n = not (n == 0)

-- A map from texts to true, as the list of its keys.
abbrev pub seen_in : Text → List Text → Bool
seen_in k [] = false
seen_in k (s ∷ seen) = text_eq k s || seen_in k seen

abbrev pub is_level : Text → Bool
is_level l =
    text_eq l (codes "debug")
    || text_eq l (codes "info")
    || text_eq l (codes "warn")
    || text_eq l (codes "error")

-- Both set, or neither.
abbrev pub together : Text → Text → Bool
together u c = if is_empty u then is_empty c else not (is_empty c)

unfoldable pub check_reporting : MlpReporting → Result Error (Unit {0})
check_reporting r =
    require (not (is_empty r.standard_report_url && is_empty r.emergency_report_url))
    >> require (together r.standard_report_url r.standard_report_client_id)
    >> require (together r.emergency_report_url r.emergency_report_client_id)
    >> require (positive r.timeout)

abbrev pub timers_ok : Diameter → Bool
timers_ok d =
    positive d.connection_timeout
    && positive d.request_timeout
    && positive d.reconnect_min
    && leb d.reconnect_min d.reconnect_max
    && positive d.watchdog_interval
    && positive d.watchdog_timeout
    && positive d.shutdown_timeout

abbrev pub peer_key : DiameterPeer → Text
peer_key p = to_lower p.transport ++ 0 ∷ to_lower p.address

abbrev pub peer_ok : DiameterPeer → Bool
peer_ok p =
    not (is_empty p.name)
    && not (is_empty p.address)
    && (text_eq p.transport (codes "tcp") || text_eq p.transport (codes "sctp"))

-- The loop over the peers, with the maps `peers` and `names`.
unfoldable pub check_peers : List Text → List Text → List DiameterPeer → Result Error (Unit {0})
check_peers peers names [] = ok tt
check_peers peers names (p ∷ rest) =
    require (peer_ok p)
    >> require (not (seen_in (peer_key p) peers))
    >> require (not (seen_in (to_lower p.name) names))
    >> check_peers (peer_key p ∷ peers) (to_lower p.name ∷ names) rest

abbrev pub all_prefixes : List Text → Bool
all_prefixes [] = true
all_prefixes (p ∷ ps) = all_digits p && all_prefixes ps

abbrev pub client_ok : Client → Bool
client_ok v =
    not (length v.services == 0)
    && not (length v.target_prefixes == 0)
    && all_prefixes v.target_prefixes
    && is_some (client_type_value v.lcs_client_type)
    && is_some (privacy_check_value v.lcs_privacy_check)

unfoldable pub check_clients : List Text → List Client → Result Error (Unit {0})
check_clients seen [] = ok tt
check_clients seen (v ∷ rest) =
    require (not (is_empty v.id) && not (is_empty v.bearer_token) && not (seen_in v.id seen))
    >> require (client_ok v)
    >> check_clients (v.id ∷ seen) rest

abbrev pub when_enabled : Bool → Result Error (Unit {0}) → Result Error (Unit {0})
when_enabled true check = check
when_enabled false check = ok tt

unfoldable pub check_diameter : Diameter → Result Error (Unit {0})
unfolding check_peers
check_diameter d =
    require (
      not (is_empty d.origin_host)
      && not (is_empty d.origin_realm)
      && not (is_empty d.host_ip_address)
      && not (length d.peers == 0))
    >> require (timers_ok d)
    >> check_peers [] [] d.peers

-- The checks before those of Diameter.
unfoldable pub check_own : Config → Result Error (Unit {0})
unfolding check_reporting
check_own c =
    require (not (is_empty c.logging.file))
    >> require (is_level (to_lower c.logging.level))
    >> require (not (is_empty c.mlp.listen_address))
    >> require (
        positive c.mlp.sync_wait_timeout
        && positive c.mlp.max_sync_wait_timeout
        && leb c.mlp.sync_wait_timeout c.mlp.max_sync_wait_timeout)
    >> require (positive c.mlp.shutdown_timeout)
    >> when_enabled c.mlp_reporting.enabled (check_reporting c.mlp_reporting)
    >> require (not (is_empty c.database.path))
    >> require (positive c.database.checkpoint_pages)
    >> require (positive c.retention.request && positive c.retention.result)
    >> require (not (length c.clients == 0))

unfoldable pub validate : Config → Result Error (Unit {0})
unfolding check_own check_diameter check_clients encryption_key_bytes
validate c =
    check_own c
    >> check_diameter c.diameter
    >> check_clients [] c.clients
    >> when_enabled c.delivery.enabled (encryption_key_bytes c.delivery >>= λ _. ok tt)

-- After the YAML decoder. The configuration that is returned beside an error is not used.
unfoldable pub load : Config → Result Error Config
unfolding validate
load c = let c' = apply_defaults c in validate c' >> ok c'
