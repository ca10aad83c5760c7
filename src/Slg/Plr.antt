-- ===== src/Slg/Plr.antt =====
-- internal/slg/slg.go: BuildPLR, the Provide-Location request.
pub mod Contents
use vectorcore_gmlc.Base.{
  ℕ, Bool, true, false, ◌&&◌, ◌||◌, not, Option, none, some, List, [], ◌∷◌, ◌++◌, if◌then◌else◌,
  ◌==◌, length, Result, ok, err, ◌>>=◌, ◌>>◌, guard, is_ok, String,
}
use text.Mathlib.Text.{◌==◌ as str_eq}
use vectorcore_gmlc.Base.Text.{Text, is_empty, trim_space}
use vectorcore_gmlc.Errors.{Error, slg_error}
use vectorcore_gmlc.Errors.SlgKind.{invalid_request, route_unavailable}
use vectorcore_gmlc.Domain.{
  Target, validate, LocationRequest, QosRequest, ServingNode, location_current,
  location_current_or_last_known,
}
use vectorcore_gmlc.Gad.Uncertainty.{encode_uncertainty_value}
use vectorcore_gmlc.Diameter.Message.{
  Value, utf8, identity, octets, unsigned, enumerated, Avp, avp, Data, value, grouped, Message,
  Diam, mbit, vmbit, when, optional, session_id, auth_session_state, origin_host, origin_realm,
  destination_host, destination_realm, user_name, lcs_client_type,
}
use vectorcore_gmlc.Slh.Msisdn.{encode_msisdn}
use vectorcore_gmlc.Slg.{
  application_id, command_provide_location, vendor_id, avp_msisdn, avp_location_type,
  avp_client_name, avp_requestor_name, avp_priority, avp_qos, avp_horizontal_accuracy,
  avp_vertical_accuracy, avp_vertical_requested, avp_velocity_requested, avp_response_time,
  avp_supported_gad_shapes, avp_privacy_check, avp_privacy_check_non_session, avp_service_type_id,
  avp_qos_class, avp_lcs_format_indicator, avp_lcs_name_string, avp_lcs_requestor_id_string,
  supported_gad_shapes_mask, fail,
}

pub record Config : Type 0 where
  pub origin_host : Text
  pub origin_realm : Text
  pub request_timeout : ℕ

-- An AVP of the vendor.
abbrev pub vendor_avp {ℓ} : {A : Type ℓ} → ℕ → A → Avp A
vendor_avp code d = avp code vmbit vendor_id d

abbrev pub lcs_name_group : Text → List (Avp Value)
lcs_name_group name =
    vendor_avp avp_lcs_name_string (utf8 name)
    ∷ vendor_avp avp_lcs_format_indicator (enumerated 0)
    ∷ []

abbrev pub requestor_group : Text → List (Avp Value)
requestor_group name =
    vendor_avp avp_lcs_requestor_id_string (utf8 name)
    ∷ vendor_avp avp_lcs_format_indicator (enumerated 0)
    ∷ []

unfoldable pub qos_children : Diam → QosRequest → List (Avp Value)
qos_children lib q =
    optional (λ c. vendor_avp avp_qos_class (enumerated c)) q.class
    ++ optional
        (λ m.
          vendor_avp avp_horizontal_accuracy (unsigned (encode_uncertainty_value lib.floor_log m)))
        q.horizontal_accuracy_meters
    ++ optional
        (λ m.
          vendor_avp avp_vertical_accuracy (unsigned (encode_uncertainty_value lib.floor_log m)))
        q.vertical_accuracy_meters
    ++ when q.vertical_requested (vendor_avp avp_vertical_requested (enumerated 1))
    ++ optional (λ c. vendor_avp avp_response_time (enumerated c)) q.response_time_class

-- A group without children is not sent.
abbrev some_group : List (Avp Value) → Option (List (Avp Value))
some_group [] = none
some_group (a ∷ avps) = some (a ∷ avps)

unfoldable pub qos_group : Diam → Option QosRequest → Option (List (Avp Value))
unfolding qos_children
qos_group lib none = none
qos_group lib (some q) = some_group (qos_children lib q)

-- The AVPs up to the target, in their order; `session` is the new session id.
unfoldable pub plr_avps : Diam → Config → Text → ServingNode → LocationRequest → List (Avp Data)
unfolding qos_group
plr_avps lib cfg session n r =
    avp session_id mbit 0 (value (utf8 session))
      ∷ avp auth_session_state mbit 0 (value (enumerated 1))
      ∷ avp origin_host mbit 0 (value (identity cfg.origin_host))
      ∷ avp origin_realm mbit 0 (value (identity cfg.origin_realm))
      ∷ avp destination_host mbit 0 (value (identity n.mme_host))
      ∷ avp destination_realm mbit 0 (value (identity n.mme_realm))
      ∷ vendor_avp avp_location_type (value (enumerated r.location_type))
      ∷ vendor_avp avp_client_name (grouped (lcs_name_group r.client_name))
      ∷ when (not (is_empty (trim_space r.requestor_name)))
          (vendor_avp avp_requestor_name (grouped (requestor_group r.requestor_name)))
    ++ optional (λ p. vendor_avp avp_priority (value (unsigned p))) r.priority
    ++ optional (λ g. vendor_avp avp_qos (grouped g)) (qos_group lib r.qos)
    ++ optional
        (λ p.
          vendor_avp avp_privacy_check_non_session
            (grouped (vendor_avp avp_privacy_check (enumerated p) ∷ [])))
        r.privacy_check
    ++ when r.velocity_requested (vendor_avp avp_velocity_requested (value (enumerated 1)))
    ++ optional (λ i. vendor_avp avp_service_type_id (value (unsigned i))) r.service_type_id
    ++ vendor_avp avp_supported_gad_shapes (value (unsigned supported_gad_shapes_mask))
      ∷ avp lcs_client_type mbit 0 (value (enumerated r.client_type))
      ∷ when (not (is_empty r.target.imsi)) (avp user_name mbit 0 (value (utf8 r.target.imsi)))

-- The last AVP; an MSISDN that does not encode is an error here.
abbrev pub msisdn_avp : Result Error (List ℕ) → Result Error (List (Avp Data))
msisdn_avp (err e) = fail invalid_request
msisdn_avp (ok b) = ok (vendor_avp avp_msisdn (value (octets b)) ∷ [])

unfoldable pub msisdn_avps : Text → Result Error (List (Avp Data))
msisdn_avps msisdn = if is_empty msisdn then ok [] else msisdn_avp (encode_msisdn msisdn)

-- The checks of the node and of the request.
unfoldable pub check_plr : ServingNode → LocationRequest → Result Error (Unit {0})
check_plr n r =
    guard
      (str_eq n.node_type "mme"
        && not (is_empty (trim_space n.mme_host))
        && not (is_empty (trim_space n.mme_realm)))
      (slg_error route_unavailable 0 0)
    >> guard (is_ok (validate r.target) && not (is_empty (trim_space r.client_name)))
        (slg_error invalid_request 0 0)
    >> guard
        (r.location_type == location_current || r.location_type == location_current_or_last_known)
        (slg_error invalid_request 0 0)

-- A request with its P bit, and the AVPs.
abbrev pub plr_message : Diam → List (Avp Data) → Message
plr_message lib avps =
    let m = lib.new_request command_provide_location application_id in
    record { header = record m.header { proxiable = true }; avps = m.avps ++ avps }

unfoldable pub build_plr :
    Diam → Config → Text → ServingNode → LocationRequest → Result Error Message
unfolding check_plr plr_avps msisdn_avps
build_plr lib cfg session n r =
    check_plr n r
    >> (msisdn_avps r.target.msisdn >>= λ last.
        ok (plr_message lib (plr_avps lib cfg session n r ++ last)))
