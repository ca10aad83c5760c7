-- ===== src/Slg/Examples.antt =====
-- internal/slg/slg.go: a request for one subscriber and its answer, a report and its answer.
use vectorcore_gmlc.Base.{ℕ, ◌≡◌, refl, inl, ◌++◌, arith, false, none, some, List, [], ◌∷◌, ok}
use vectorcore_gmlc.Base.Text.{codes, trim_space}
use vectorcore_gmlc.Domain.{
  validate, ServingNode, LocationRequest, LocationReport, PositioningResult, ResultKind,
}
use vectorcore_gmlc.Diameter.Message.{
  avp, value, utf8, octets, unsigned, enumerated, Message, mbit, result_code, session_id, user_name,
}
use vectorcore_gmlc.Diameter.Sample.{sample}
use vectorcore_gmlc.Slh.Msisdn.{encode_msisdn}
use vectorcore_gmlc.Slg.{
  decode_positioning_payload, avp_ecgi, avp_location_event, avp_lcs_reference_number,
}
use vectorcore_gmlc.Slg.Plr.{Config, build_plr, plr_message, plr_avps, vendor_avp}
use vectorcore_gmlc.Slg.Pla.{decode_pla, result_of}
use vectorcore_gmlc.Slg.Provide.{Exchange}
use vectorcore_gmlc.Slg.Lrr.{decode_lrr}
use vectorcore_gmlc.Slg.Lrr.Reports.{decode_lrr-Carries}

abbrev pub config : Config
config = record {
  origin_host = codes "gmlc.example";
  origin_realm = codes "example";
  request_timeout = 1;
}

abbrev node : ServingNode
node = record {
  node_type = "mme";
  mme_host = codes "mme.example";
  mme_realm = codes "example";
  source = "slh";
  resolved_at = 7;
}

abbrev wanted : LocationRequest
wanted = record {
  target = record { imsi = codes "001010123456789"; msisdn = codes "123" };
  location_type = 0;
  client_type = 0;
  client_name = codes "police";
  requestor_name = [];
  service_type_id = none;
  priority = some 1;
  velocity_requested = false;
  qos = none;
  privacy_check = none;
}

abbrev request : Message
request = plr_message sample (
    plr_avps sample config (codes "s") node wanted
    ++ vendor_avp 701 (value (octets (0x21 ∷ 0xf3 ∷ []))) ∷ [])

built : build_plr sample config (codes "s") node wanted ≡ ok request
unfolding build_plr trim_space validate encode_msisdn
built = refl

-- An answer with a cell and no estimate.
abbrev cell : List ℕ
cell = 0 ∷ 0xf1 ∷ 0x10 ∷ 0 ∷ 0 ∷ 1 ∷ 2 ∷ []

abbrev pla : Message
pla = record (sample.answer request 2001) {
  avps =
      avp result_code mbit 0 (value (unsigned 2001))
      ∷ vendor_avp avp_ecgi (value (octets cell))
      ∷ [];
}

abbrev found : PositioningResult
found =
    result_of
      (record {
        raw = [];
        ecgi = cell;
        velocity = [];
        eutran = [];
        accuracy_fulfilment = none;
        age_of_location_estimate = none;
      })
      ResultKind.additional_information none

accepted : decode_pla (some request) (some pla) ≡ ok found
unfolding decode_pla decode_positioning_payload
accepted = refl

-- A deferred event of a subscription.
abbrev pub lrr : Message
lrr = record (sample.new_request 8388621 16777255) {
  avps =
      avp session_id mbit 0 (value (utf8 (codes "s")))
      ∷ vendor_avp avp_location_event (value (enumerated 4))
      ∷ avp user_name mbit 0 (value (utf8 (codes "001010123456789")))
      ∷ vendor_avp avp_lcs_reference_number (value (octets (7 ∷ [])))
      ∷ [];
}

abbrev pub report : LocationReport
report = record {
  location_event = 4;
  target = record { imsi = codes "001010123456789"; msisdn = [] };
  client_name = [];
  lcs_reference_number = some 7;
  raw_location_estimate = [];
  ecgi = [];
  raw_velocity_estimate = [];
  eutran_positioning_data = [];
  accuracy_fulfilment = none;
  age_of_location_estimate = none;
  position = none;
}

decode_lrr-Carries_example : decode_lrr (some lrr) ≡ ok report
decode_lrr-Carries_example =
    decode_lrr-Carries lrr report []
      (refl, refl, refl, refl, refl, refl, refl, refl, refl, refl, refl, refl) (inl refl)
      (omega arith) (inl refl) refl

abbrev exchange : Exchange
exchange = record { registry = none; transport = λ m. ok (some pla); session = codes "s" }
