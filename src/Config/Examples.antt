-- ===== src/Config/Examples.antt =====
-- internal/config/config.go: a small configuration, with the delivery worker enabled.
use vectorcore_gmlc.Base.{◌≡◌, refl, true, false, [], ◌∷◌, ◌++◌, ok}
use vectorcore_gmlc.Base.Text.{Text, codes, to_lower, text_eq}
use vectorcore_gmlc.Domain.{ServiceType}
use vectorcore_gmlc.Config.{Config, apply_defaults, client_type_value, privacy_check_value}
use vectorcore_gmlc.Config.Validation.{
  validate, load, check_own, check_diameter, check_peers, check_clients, encryption_key_bytes,
  decode_hex,
}
use vectorcore_gmlc.Config.Load.{Served, load-Served}

-- 32 octets of hex digits.
abbrev sixteen : Text
sixteen = codes "0123456789abcdef0123456789ABCDEF"

abbrev pub file : Config
file = record {
  database = record {
    path = codes "gmlc.db";
    busy_timeout = 0;
    synchronous = [];
    checkpoint_pages = 100;
  };
  retention = record { request = 1; result = 1; purge_interval = 0 };
  clients =
      record {
        id = codes "police";
        bearer_token = codes "token";
        services = ServiceType.immediate ∷ [];
        target_prefixes = codes "1" ∷ [];
        lcs_client_type = [];
        lcs_privacy_check = [];
      }
      ∷ [];
  diameter = record {
    origin_host = codes "gmlc.example";
    origin_realm = codes "example";
    host_ip_address = codes "10.0.0.2";
    hss_realm = [];
    hss_host = [];
    connection_timeout = 1;
    request_timeout = 1;
    reconnect_min = 1;
    reconnect_max = 3;
    watchdog_interval = 1;
    watchdog_timeout = 1;
    shutdown_timeout = 1;
    peers =
        record {
          name = codes "dra";
          address = codes "10.0.0.1:3868";
          transport = codes "tcp";
          expected_origin_host = [];
          expected_origin_realm = [];
        }
        ∷ [];
  };
  logging = record { file = codes "gmlc.log"; level = [] };
  delivery = record {
    enabled = true;
    max_attempts = 0;
    retry_backoff_min = 0;
    retry_backoff_max = 0;
    request_timeout = 0;
    encryption_key = sixteen ++ sixteen;
  };
  lrr_enabled = false;
  mlp = record {
    listen_address = codes ":9210";
    sync_wait_timeout = 0;
    max_sync_wait_timeout = 0;
    shutdown_timeout = 0;
  };
  mlp_reporting = record {
    enabled = false;
    standard_report_url = [];
    standard_report_client_id = [];
    emergency_report_url = [];
    emergency_report_client_id = [];
    timeout = 0;
  };
}

pub loaded : load file ≡ ok (apply_defaults file)
unfolding load validate check_own check_diameter check_peers check_clients encryption_key_bytes
    decode_hex to_lower text_eq apply_defaults client_type_value privacy_check_value
loaded = refl

load-Served_example : Served (apply_defaults file)
load-Served_example = load-Served file (apply_defaults file) loaded
