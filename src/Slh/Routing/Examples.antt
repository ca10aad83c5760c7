-- ===== src/Slh/Routing/Examples.antt =====
-- internal/slh/slh.go: a request for one subscriber, and its answer.
use vectorcore_gmlc.Base.{ℕ, ◌≡◌, refl, ◌↔◌, ◌⊎◌, arith, true, some, List, [], ◌∷◌, ok}
use vectorcore_gmlc.Base.Text.{codes, is_empty, trim_space}
use vectorcore_gmlc.Domain.{Target, validate, ServingNode}
use vectorcore_gmlc.Diameter.Message.{
  avp, value, grouped, identity, unsigned, Message, mbit, vmbit, result_code,
}
use vectorcore_gmlc.Diameter.Sample.{sample, sample-IsRequest}
use vectorcore_gmlc.Slh.Msisdn.{decode_msisdn}
use vectorcore_gmlc.Slh.Routing.{
  Config, build_rir, rir_avps, validate_target, decode_ria, resolved_node, avp_serving_node,
  avp_mme_name, vendor_3gpp, result_error, result_error_of, base_result, serving_node_group,
  group_node, node_of, node_identity,
}
use vectorcore_gmlc.Slh.Routing.Answers.{Routed, decode_ria_iff}
use vectorcore_gmlc.Slh.Routing.Requests.{Asks, build_rir-Asks}

abbrev config : Config
config = record {
  origin_host = codes "gmlc.example";
  origin_realm = codes "example";
  destination_realm = codes "example";
  destination_host = [];
  request_timeout = 5000000000;
  source = "slh";
}

abbrev subscriber : Target
subscriber = record { imsi = []; msisdn = codes "15551234567" }

-- Blanks around the number are accepted and then do not encode.
abbrev padded : Target
padded = record { imsi = codes "001010123456789"; msisdn = codes " 1555 " }

abbrev request_for : Target → Message
request_for t =
    let m = sample.new_request 8388622 16777291 in record m { avps = rir_avps config (codes "s") t }

built : build_rir sample config (codes "s") subscriber ≡ ok (request_for subscriber)
unfolding build_rir validate_target validate trim_space
built = refl

built_padded : build_rir sample config (codes "s") padded ≡ ok (request_for padded)
unfolding build_rir validate_target validate trim_space
built_padded = refl

build_rir-Asks_example :
    (b : List ℕ) × Asks subscriber b (request_for subscriber)
    × ((is_empty subscriber.msisdn ≡ true) ⊎ (decode_msisdn b ≡ ok subscriber.msisdn))
build_rir-Asks_example =
    build_rir-Asks sample config (codes "s") subscriber (request_for subscriber) sample-IsRequest
      built refl (omega arith)

abbrev answer : Message
answer = record (sample.answer (request_for subscriber) 2001) {
  avps =
      avp result_code mbit 0 (value (unsigned 2001))
      ∷ avp avp_serving_node vmbit vendor_3gpp
          (grouped (avp avp_mme_name vmbit vendor_3gpp (identity (codes "mme.example")) ∷ []))
      ∷ [];
}

abbrev node : ServingNode
node = resolved_node config 7 (codes "mme.example", [])

decode_ria_iff_example :
    (decode_ria config 7 (some (request_for subscriber)) (some answer) ≡ ok node)
    ↔ Routed config 7 (some (request_for subscriber)) answer node
decode_ria_iff_example = decode_ria_iff config 7 (some (request_for subscriber)) answer node

decoded : decode_ria config 7 (some (request_for subscriber)) (some answer) ≡ ok node
unfolding decode_ria result_error result_error_of base_result serving_node_group group_node node_of
    node_identity trim_space
decoded = refl
