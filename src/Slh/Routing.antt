-- ===== src/Slh/Routing.antt =====
-- internal/slh/slh.go: the Routing-Info request (RIR) and what is read from its answer (RIA).
pub mod Answers
pub mod Requests
mod Examples
use text.Mathlib.Text.{◌==◌ as str_eq}
use vectorcore_gmlc.Base.{
  ℕ, ◌-◌, Bool, true, false, ◌&&◌, ◌||◌, not, Option, none, some, List, [], ◌∷◌, ◌++◌,
  if◌then◌else◌, ltb, ◌==◌, length, Result, ok, err, ◌>>=◌, ◌>>◌, guard, String, is_ok,
}
use vectorcore_gmlc.Base.Text.{Text, is_empty, trim_space, codes}
use vectorcore_gmlc.Errors.{Error, SlhKind, slh_error, deadline_exceeded, canceled}
use vectorcore_gmlc.Errors.SlhKind.{
  invalid_target, unknown_subscriber, no_serving_node, unauthorized, malformed, contradictory,
  unsupported_node, timeout, cancelled, base_failure, experimental_failure,
}
use vectorcore_gmlc.Domain.{Time, Target, validate, ServingNode}
use vectorcore_gmlc.Diameter.Message.{
  Value, utf8, identity, octets, unsigned, enumerated, Avp, avp, Data, value, grouped, Message,
  mbit, vmbit, session_id, auth_session_state, origin_host, origin_realm, destination_host,
  destination_realm, user_name, result_code, experimental_result, experimental_result_code, success,
  find, Diam, when,
}
use vectorcore_gmlc.Diameter.PeerTable.{RouteRequest}
use vectorcore_gmlc.Slh.Msisdn.{encode_msisdn}

abbrev pub application_id : ℕ
application_id = 16777291

abbrev pub command_routing_info : ℕ
command_routing_info = 8388622

abbrev pub vendor_3gpp : ℕ
vendor_3gpp = 10415

abbrev pub avp_msisdn : ℕ
avp_msisdn = 701

abbrev pub avp_serving_node : ℕ
avp_serving_node = 2401

abbrev pub avp_mme_name : ℕ
avp_mme_name = 2402

abbrev pub avp_mme_realm : ℕ
avp_mme_realm = 2408

pub record Config : Type 0 where
  pub origin_host : Text
  pub origin_realm : Text
  pub destination_realm : Text
  pub destination_host : Text
  pub request_timeout : ℕ
  pub source : String

-- &Error{Kind: kind}
abbrev pub fail {ℓ} : {A : Type ℓ} → SlhKind → Result Error A
fail kind = err (slh_error kind 0 0)

-- The three identities are required; a duration is in nanoseconds, and `source` "" becomes "slh".
unfoldable pub new : Config → Result Error Config
new cfg =
    if is_empty (trim_space cfg.origin_host)
      || is_empty (trim_space cfg.origin_realm)
      || is_empty (trim_space cfg.destination_realm)
    then err Error.other
    else ok (record cfg {
      request_timeout = if cfg.request_timeout == 0 then 5000000000 else cfg.request_timeout;
      source = if str_eq cfg.source "" then "slh" else cfg.source;
    })

unfoldable pub validate_target : Target → Result Error (Unit {0})
validate_target t =
    if not (is_ok (validate t))
    then fail invalid_target
    else if not (is_empty t.imsi) && (ltb (length t.imsi) 6 || ltb 15 (length t.imsi))
    then fail invalid_target
    else ok tt

-- b, _ := EncodeMSISDN(t.MSISDN)
abbrev pub octets_or_none : Result Error (List ℕ) → List ℕ
octets_or_none (ok b) = b
octets_or_none (err e) = []

-- The AVPs of the request, in their order; `session` is the new session id.
unfoldable pub rir_avps : Config → Text → Target → List (Avp Data)
rir_avps cfg session t =
    avp session_id mbit 0 (value (utf8 session))
      ∷ avp auth_session_state mbit 0 (value (enumerated 1))
      ∷ avp origin_host mbit 0 (value (identity cfg.origin_host))
      ∷ avp origin_realm mbit 0 (value (identity cfg.origin_realm))
      ∷ avp destination_realm mbit 0 (value (identity cfg.destination_realm))
      ∷ when (not (is_empty cfg.destination_host))
          (avp destination_host mbit 0 (value (identity cfg.destination_host)))
    ++ when (not (is_empty t.imsi)) (avp user_name mbit 0 (value (utf8 t.imsi)))
    ++ when (not (is_empty t.msisdn)) (
        avp avp_msisdn vmbit vendor_3gpp (value (octets (octets_or_none (encode_msisdn t.msisdn)))))

unfoldable pub build_rir : Diam → Config → Text → Target → Result Error Message
unfolding validate_target rir_avps
build_rir lib cfg session t = validate_target t >>= λ _. ok (
    let m = lib.new_request command_routing_info application_id in
    record m { avps = m.avps ++ rir_avps cfg session t })

-- The outcome of the Experimental-Result-Code.
unfoldable pub experimental_error : ℕ → Error
experimental_error code =
    if code == 5001
    then slh_error unknown_subscriber 0 code
    else if code == 4201
    then slh_error no_serving_node 0 code
    else if code == 5490
    then slh_error unauthorized 0 code
    else slh_error experimental_failure 0 code

-- The one Result-Code.
unfoldable pub base_result : Data → Result Error (Unit {0})
base_result (value (unsigned code)) =
    if code == success then ok tt else err (slh_error base_failure code 0)
base_result _ = fail malformed

-- The one Experimental-Result-Code, an error whatever it is.
unfoldable pub experimental_code_outcome : Value → Result Error (Unit {0})
unfolding experimental_error
experimental_code_outcome (unsigned code) = err (experimental_error code)
experimental_code_outcome _ = fail malformed

unfoldable pub experimental_code : List (Avp Value) → Result Error (Unit {0})
unfolding experimental_code_outcome
experimental_code (a ∷ []) = experimental_code_outcome a.data_
experimental_code _ = fail malformed

-- The one Experimental-Result.
unfoldable pub experimental_outcome : Data → Result Error (Unit {0})
unfolding experimental_code
experimental_outcome (grouped g) = experimental_code (find experimental_result_code 0 g)
experimental_outcome (value v) = fail malformed

-- `resultError`, of the AVPs with a Result-Code and of those with an Experimental-Result: exactly
-- one of either.
unfoldable pub result_error_of : List (Avp Data) → List (Avp Data) → Result Error (Unit {0})
unfolding base_result experimental_outcome
result_error_of (a ∷ []) [] = base_result a.data_
result_error_of [] (a ∷ []) = experimental_outcome a.data_
result_error_of _ _ = fail malformed

unfoldable pub result_error : Message → Result Error (Unit {0})
unfolding result_error_of
result_error m = result_error_of (find result_code 0 m.avps) (find experimental_result 0 m.avps)

-- A DiameterIdentity that is not blank.
unfoldable pub node_identity : Value → Result Error Text
node_identity (identity h) = if is_empty (trim_space h) then fail malformed else ok h
node_identity _ = fail malformed

abbrev pub realm_of : List (Avp Value) → Result Error Text
realm_of (a ∷ rest) = node_identity a.data_
realm_of [] = ok []

-- The name and the realm in the Serving-Node group.
unfoldable pub node_of : List (Avp Value) → List (Avp Value) → Result Error (Text × Text)
unfolding node_identity
node_of [] realms = fail unsupported_node
node_of (h ∷ hosts) realms =
    if not (length hosts == 0) || ltb 1 (length realms)
    then fail contradictory
    else (node_identity h.data_ >>= λ host. (realm_of realms >>= λ realm. ok (host, realm)))

unfoldable pub group_node : Data → Result Error (Text × Text)
unfolding node_of
group_node (grouped g) =
    node_of (find avp_mme_name vendor_3gpp g) (find avp_mme_realm vendor_3gpp g)
group_node (value v) = fail malformed

unfoldable pub serving_node_group : List (Avp Data) → Result Error (Text × Text)
unfolding group_node
serving_node_group (a ∷ []) = group_node a.data_
serving_node_group _ = fail no_serving_node

-- The header of an answer to a request of this command.
abbrev pub is_answer_to : Option Message → Message → Bool
is_answer_to none ans =
    ans.header.application_id == application_id
    && ans.header.command_code == command_routing_info
    && not ans.header.request
is_answer_to (some req) ans =
    ans.header.application_id == application_id
    && ans.header.command_code == command_routing_info
    && not ans.header.request
    && ans.header.hop_by_hop == req.header.hop_by_hop
    && ans.header.end_to_end == req.header.end_to_end

abbrev pub resolved_node : Config → Time → Text × Text → ServingNode
resolved_node cfg now p = record {
  node_type = "mme";
  mme_host = p.0;
  mme_realm = p.1;
  source = cfg.source;
  resolved_at = now;
}

-- `none` is a nil message.
unfoldable pub decode_ria :
    Config → Time → Option Message → Option Message → Result Error ServingNode
unfolding result_error serving_node_group
decode_ria cfg now req none = fail malformed
decode_ria cfg now req (some ans) =
    guard (is_answer_to req ans) (slh_error malformed 0 0)
    >> result_error ans
    >> (serving_node_group (find avp_serving_node vendor_3gpp ans.avps) >>= λ p.
        ok (resolved_node cfg now p))

-- What one resolution meets: the transport, or the registry that finds one; what became of the
-- context with the timeout; the new session id and the time of the answer.
pub record Exchange : Type 0 where
  pub registry : Option (RouteRequest → Result Error (Message → Result Error (Option Message)))
  pub transport : Message → Result Error (Option Message)
  pub deadline_passed : Bool
  pub context_cancelled : Bool
  pub session : Text
  pub now : Time

-- The error of a round trip.
unfoldable pub round_trip_error : Exchange → Error → Error
round_trip_error x deadline_exceeded = slh_error timeout 0 0
round_trip_error x canceled =
    if x.deadline_passed then slh_error timeout 0 0 else slh_error cancelled 0 0
round_trip_error x e =
    if x.deadline_passed
    then slh_error timeout 0 0
    else if x.context_cancelled
    then slh_error cancelled 0 0
    else e

abbrev pub trip :
    Config
    → Exchange
    → Message
    → Result Error (Message → Result Error (Option Message))
    → Result Error ServingNode
trip cfg x m (err e) = err e
trip cfg x m (ok send) = elim (send m) [
  | err e ↦ err (round_trip_error x e)
  | ok ans ↦ decode_ria cfg x.now (some m) ans
]

abbrev pub route : Config → Exchange → Result Error (Message → Result Error (Option Message))
route cfg x = elim x.registry [
  | none ↦ ok x.transport
  | some find_route ↦ find_route (record {
    application_id = application_id;
    destination_host = cfg.destination_host;
    destination_realm = cfg.destination_realm;
  })
]

unfoldable pub resolve_serving_node : Diam → Config → Exchange → Target → Result Error ServingNode
unfolding build_rir round_trip_error decode_ria
resolve_serving_node lib cfg x t = build_rir lib cfg x.session t >>= λ m. trip cfg x m (route cfg x)
