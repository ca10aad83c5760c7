-- ===== src/Gmlc/Examples.antt =====
-- cmd/gmlc/main.go: a start on a store that holds requests, and a request that has finished.
use vectorcore_gmlc.Base.{none, some, [], ◌∷◌, ◌≡◌, refl, ok, All}
use vectorcore_gmlc.Base.Text.{text_eq, codes}
use vectorcore_gmlc.Domain.{Request, TargetKind, ServiceType, State}
use vectorcore_gmlc.Storage.Schema.{Db}
use vectorcore_gmlc.Storage.Clients.{upsert_client}
use vectorcore_gmlc.Storage.Requests.Examples.{two_requests}
use vectorcore_gmlc.Config.{apply_defaults, Config}
use vectorcore_gmlc.Config.Examples.{file, loaded}
use vectorcore_gmlc.Gmlc.{client_of, bootstrap, opened}
use vectorcore_gmlc.Gmlc.Bootstrap.{Known, opened-Known}

abbrev configuration : Config
configuration = apply_defaults file

started : (opened (λ token. token) configuration 8 9 two_requests).0 ≡ ok tt
unfolding opened bootstrap upsert_client client_of text_eq apply_defaults
started = refl

opened-Known_example :
    All
      (Known (λ token. token) (opened (λ token. token) configuration 8 9 two_requests).1)
      configuration.clients
opened-Known_example =
    opened-Known (λ token. token) file configuration 8 9 two_requests loaded started

-- A request with a callback, and a store that knows it.
abbrev announced : Request
announced = record {
  id = codes "b";
  client_id = codes "police";
  target_kind = TargetKind.msisdn;
  target_value = codes "155";
  idempotency_key = codes "k";
  service = ServiceType.immediate;
  state = State.completed;
  failure_code = "";
  created_at = 7;
  updated_at = 8;
  attempt_count = 1;
  next_attempt_at = none;
  location_type = 0;
  priority = none;
  qos = none;
  subscription_id = some (codes "s1");
}

abbrev subscribed : Db
subscribed = record two_requests {
  subscriptions =
      record {
        id = codes "s1";
        client_id = codes "police";
        callback_url = codes "https://a";
        callback_secret = [];
        created_at = 7;
      }
      ∷ [];
}
