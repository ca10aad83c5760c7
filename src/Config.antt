-- ===== src/Config.antt =====
-- internal/config/config.go: the defaults, the checks, and the values of names. YAML stays outside: `load`
-- starts from the decoded file. Durations are nanoseconds; a negative one, which every test treats as
-- zero, is zero. Every error is the text of fmt.Errorf.
pub mod Validation
pub mod Uniqueness
pub mod Load
pub mod Examples
use vectorcore_gmlc.Base.{
  ℕ, ◌+◌, ◌-◌, ◌*◌, Bool, true, false, ◌&&◌, ◌||◌, not, Option, none, some, List, [], ◌∷◌, ◌++◌,
  map, if◌then◌else◌, ltb, leb, ◌==◌, length, is_some, Result, ok, err, ◌>>=◌, ◌>>◌, guard,
}
use vectorcore_gmlc.Base.Text.{Text, codes, text_eq, is_empty, to_lower, all_digits}
use vectorcore_gmlc.Errors.{Error}
use vectorcore_gmlc.Domain.{ServiceType}

pub record MlpReporting : Type 0 where
  pub enabled : Bool
  pub standard_report_url : Text
  pub standard_report_client_id : Text
  pub emergency_report_url : Text
  pub emergency_report_client_id : Text
  pub timeout : ℕ

pub record Mlp : Type 0 where
  pub listen_address : Text
  pub sync_wait_timeout : ℕ
  pub max_sync_wait_timeout : ℕ
  pub shutdown_timeout : ℕ

pub record Delivery : Type 0 where
  pub enabled : Bool
  pub max_attempts : ℕ
  pub retry_backoff_min : ℕ
  pub retry_backoff_max : ℕ
  pub request_timeout : ℕ
  pub encryption_key : Text

pub record Logging : Type 0 where
  pub file : Text
  pub level : Text

pub record DiameterPeer : Type 0 where
  pub name : Text
  pub address : Text
  pub transport : Text
  pub expected_origin_host : Text
  pub expected_origin_realm : Text

pub record Diameter : Type 0 where
  pub origin_host : Text
  pub origin_realm : Text
  pub host_ip_address : Text
  pub hss_realm : Text
  pub hss_host : Text
  pub connection_timeout : ℕ
  pub request_timeout : ℕ
  pub reconnect_min : ℕ
  pub reconnect_max : ℕ
  pub watchdog_interval : ℕ
  pub watchdog_timeout : ℕ
  pub shutdown_timeout : ℕ
  pub peers : List DiameterPeer

pub record Database : Type 0 where
  pub path : Text
  pub busy_timeout : ℕ
  pub synchronous : Text
  pub checkpoint_pages : ℕ

pub record Retention : Type 0 where
  pub request : ℕ
  pub result : ℕ
  pub purge_interval : ℕ

pub record Client : Type 0 where
  pub id : Text
  pub bearer_token : Text
  pub services : List ServiceType
  pub target_prefixes : List Text
  pub lcs_client_type : Text
  pub lcs_privacy_check : Text

pub record Config : Type 0 where
  pub database : Database
  pub retention : Retention
  pub clients : List Client
  pub diameter : Diameter
  pub logging : Logging
  pub delivery : Delivery
  pub lrr_enabled : Bool
  pub mlp : Mlp
  pub mlp_reporting : MlpReporting

abbrev second : ℕ
second = 1000000000

-- A value, or its default when there is none.
abbrev pub or_default : ℕ → ℕ → ℕ
or_default n d = if n == 0 then d else n

abbrev pub or_name : Text → Text → Text
or_name s d = if is_empty s then d else s

unfoldable pub client_defaults : Client → Client
client_defaults c = record c {
  lcs_client_type = or_name c.lcs_client_type (codes "value_added_services");
  lcs_privacy_check = or_name c.lcs_privacy_check (codes "allowed_without_notification");
}

unfoldable pub delivery_defaults : Delivery → Delivery
delivery_defaults d =
    let min = or_default d.retry_backoff_min second in
    record d {
      max_attempts = or_default d.max_attempts 5;
      retry_backoff_min = min;
      retry_backoff_max = if ltb d.retry_backoff_max min then 300 * second else d.retry_backoff_max;
      request_timeout = or_default d.request_timeout (10 * second);
    }

unfoldable pub apply_defaults : Config → Config
unfolding client_defaults delivery_defaults
apply_defaults c = record c {
  mlp = record c.mlp {
    sync_wait_timeout = or_default c.mlp.sync_wait_timeout (20 * second);
    max_sync_wait_timeout = or_default c.mlp.max_sync_wait_timeout (60 * second);
    shutdown_timeout = or_default c.mlp.shutdown_timeout (10 * second);
  };
  mlp_reporting = record c.mlp_reporting {
    timeout = or_default c.mlp_reporting.timeout (10 * second);
  };
  database = record c.database {
    busy_timeout = or_default c.database.busy_timeout (5 * second);
    synchronous = or_name c.database.synchronous (codes "FULL");
  };
  logging = record c.logging { level = or_name c.logging.level (codes "info") };
  retention = record c.retention {
    purge_interval = or_default c.retention.purge_interval (3600 * second);
  };
  diameter = record c.diameter { hss_realm = or_name c.diameter.hss_realm c.diameter.origin_realm };
  clients = map client_defaults c.clients;
  delivery = delivery_defaults c.delivery;
}

-- clientTypeValues and privacyCheckValues; `none` is a name that is not in the map.
unfoldable pub client_type_value : Text → Option ℕ
client_type_value s =
    if text_eq s (codes "emergency_services")
    then some 0
    else if text_eq s (codes "value_added_services")
    then some 1
    else if text_eq s (codes "plmn_operator_services")
    then some 2
    else if text_eq s (codes "lawful_intercept_services")
    then some 3
    else none

unfoldable pub privacy_check_value : Text → Option ℕ
privacy_check_value s =
    if text_eq s (codes "allowed_without_notification")
    then some 0
    else if text_eq s (codes "allowed_with_notification")
    then some 1
    else if text_eq s (codes "allowed_if_no_response")
    then some 2
    else if text_eq s (codes "restricted_if_no_response")
    then some 3
    else if text_eq s (codes "not_allowed")
    then some 4
    else none
