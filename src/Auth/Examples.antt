-- ===== src/Auth/Examples.antt =====
-- An authentication at a concrete input.
use vectorcore_gmlc.Base.{refl, true, [], ◌∷◌}
use vectorcore_gmlc.Base.Text.{codes, text_eq}
use vectorcore_gmlc.Storage.Schema.{Client, Db}
use vectorcore_gmlc.Storage.Clients.{get_client_credential, scan_client, get_client_authz_data}
use vectorcore_gmlc.Storage.Requests.Examples.{database}
use vectorcore_gmlc.Auth.{authenticate}
use vectorcore_gmlc.Auth.Grants.{Proved, authenticate-Proved}

abbrev stored : Db
stored = record (database []) {
  clients =
      record {
        id = codes "police";
        credential_hash = codes "token";
        enabled = true;
        lcs_client_type = 1;
        lcs_privacy_check = 0;
      }
      ∷ [];
}

abbrev police : Client
police = record {
  id = codes "police";
  credential_hash = codes "token";
  services = [];
  target_prefixes = [];
  enabled = true;
  lcs_client_type = 1;
  lcs_privacy_check = 0;
}

authenticate-Proved_example : Proved (λ token. token) (codes "police") (codes "token") stored police
unfolding authenticate get_client_credential scan_client get_client_authz_data text_eq
authenticate-Proved_example =
    authenticate-Proved (λ token. token) (codes "police") (codes "token") stored police refl
