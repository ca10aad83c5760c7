-- ===== src/Service/Examples.antt =====
-- A cancellation and a repeated submission at concrete inputs.
use vectorcore_gmlc.Base.{◌≡◌, refl, ok, true, List, [], ◌∷◌, none}
use vectorcore_gmlc.Base.Text.{codes, trim_space, is_space, text_eq, has_prefix}
use vectorcore_gmlc.Storage.Schema.{Db}
use vectorcore_gmlc.Storage.Requests.Examples.{two_requests}
use vectorcore_gmlc.Domain.{Target, TargetKind, State, Request, ServiceType, validate, value, kind}
use vectorcore_gmlc.Auth.{authenticate, authorize}
use vectorcore_gmlc.Storage.Clients.{get_client_credential, get_client_authz_data, scan_client}
use vectorcore_gmlc.Storage.Requests.{create_request, constraint_violated}
use vectorcore_gmlc.Storage.Requests.Lifecycle.{Op, claim, recover_all}
use vectorcore_gmlc.Storage.Requests.Invariant.{run_ops}
use vectorcore_gmlc.Service.Idempotency.{Repeated, submit-Repeated}
use vectorcore_gmlc.Service.{
  submit, create, submitted, new_request, prepare, service_ok, validate_callback, url_ok,
}
use vectorcore_gmlc.Service.{Env, Submission}

-- A digest that is the token itself.
abbrev pub env : Env
env = record {
  sha256 = λ token. token;
  parse_url = λ url. none;
  encrypt_secret = none;
  new_id = λ i. i ∷ [];
  subscription_id = codes "s1";
  now = 9;
}

abbrev pub stored : Db
stored = record two_requests {
  clients =
      record {
        id = codes "police";
        credential_hash = codes "token";
        enabled = true;
        lcs_client_type = 1;
        lcs_privacy_check = 0;
      }
      ∷ [];
}

abbrev submission : Submission
submission = record {
  client_id = codes "police";
  token = codes "token";
  idempotency_key = codes "k";
  service = ServiceType.immediate;
  location_type = 0;
  priority = none;
  qos = none;
  callback_url = [];
  callback_secret = [];
}

abbrev granted : Db
granted = record stored {
  client_services = (codes "police", ServiceType.immediate) ∷ [];
  client_target_prefixes = (codes "police", codes "1555") ∷ [];
}

abbrev target : Target
target = record { imsi = []; msisdn = codes "15551234567" }

abbrev created : Request
created = record {
  id = 0 ∷ [];
  client_id = codes "police";
  target_kind = TargetKind.msisdn;
  target_value = codes "15551234567";
  idempotency_key = codes "k";
  service = ServiceType.immediate;
  state = State.queued;
  failure_code = "";
  created_at = 9;
  updated_at = 9;
  attempt_count = 0;
  next_attempt_at = none;
  location_type = 0;
  priority = none;
  qos = none;
  subscription_id = none;
}

submitted_once : (submit env submission target granted).0 ≡ ok (created, true)
unfolding submit create submitted new_request create_request constraint_violated prepare service_ok
    validate_callback url_ok authenticate authorize get_client_credential get_client_authz_data
    scan_client validate value kind trim_space is_space text_eq has_prefix
submitted_once = refl

-- A worker claims the request, and all that is at work is put back.
abbrev between : List Op
between = claim 12 ∷ recover_all 15 ∷ []

submit-Repeated_example :
    Repeated
      (0 ∷ [])
      (run_ops between (submit env submission target granted).1)
      (submit env submission target (run_ops between (submit env submission target granted).1))
submit-Repeated_example =
    submit-Repeated env env submission submission target target granted
      (run_ops between (submit env submission target granted).1) between created true refl refl
      submitted_once (tt, (tt, tt)) refl
