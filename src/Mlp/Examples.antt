-- ===== src/Mlp/Examples.antt =====
-- internal/mlp: a request for two identities, and one for the history of a target.
use vectorcore_gmlc.Base.{
  ℕ, ◌+◌, ◌*◌, ◌≤◌, ◌<◌, ◌≡◌, ◌↔◌, refl, false, All, map, some, Option, none, List, [], ◌∷◌, ok,
  arith,
}
use vectorcore_gmlc.Base.Text.{codes, text_eq, trim_space, is_space, has_prefix, text_leb}
use vectorcore_gmlc.Storage.Stamp.{stamp_leb, utc, fraction, fraction_digits}
use vectorcore_gmlc.Base.Float.{Float64, negsuc}
use vectorcore_gmlc.Domain.{ServiceType, Target, validate, kind, value, TargetKind}
use vectorcore_gmlc.Storage.Schema.{Db}
use vectorcore_gmlc.Storage.History.{history_row, query_history}
use vectorcore_gmlc.Storage.Sql.{insert_by, sort_by}
use vectorcore_gmlc.Storage.Requests.Examples.{result}
use vectorcore_gmlc.Service.Examples.{env, stored}
use vectorcore_gmlc.Mlp.{Library, Msid, msid_to_target}
use vectorcore_gmlc.Mlp.Positions.{PosOf}
use vectorcore_gmlc.Mlp.Dmsh.{encode_dmsh, decode_dmsh, signed, is_negative}
use vectorcore_gmlc.Mlp.Dmsh.RoundTrip.{latitude, encode_dmsh-decode_dmsh}
use vectorcore_gmlc.Mlp.Immediate.{Slir, Waits, Turn, resolve_immediate}
use vectorcore_gmlc.Mlp.Immediate.Answered.{Complete, resolve_immediate-Complete}
use vectorcore_gmlc.Mlp.{extract_targets_from}
use vectorcore_gmlc.Mlp.Targets.{Resolved, extract_targets_from_iff}
use vectorcore_gmlc.Mlp.Positions.{hlia, build_history_pos}
use vectorcore_gmlc.Mlp.History.{Hlir, Window, handle_hlir, parse_history_window}
use vectorcore_gmlc.Mlp.History.Asked.{Ordered, AsksFor}
use vectorcore_gmlc.Mlp.History.Answered.{Found, handle_hlir-Found}
use vectorcore_gmlc.Mlp.{
  Credentials, credentials_from_hdr, validate_geo_info, positive_element, positive_number,
}
use vectorcore_gmlc.Service.{query_target_history}
use vectorcore_gmlc.Auth.{authenticate, authorize}
use vectorcore_gmlc.Storage.Clients.{get_client_credential, get_client_authz_data, scan_client}

abbrev two_msids : List Msid
two_msids =
    record { msid_type = []; msid_value = codes " 15551234567" }
    ∷ record { msid_type = codes "IMSI"; msid_value = codes "001010123456789" }
    ∷ []

abbrev two_targets : List Target
two_targets =
    record { imsi = []; msisdn = codes "15551234567" }
    ∷ record { imsi = codes "001010123456789"; msisdn = [] }
    ∷ []

extract_targets_from_iff_example :
    (extract_targets_from two_msids ≡ ok two_targets) ↔ Resolved two_msids two_targets
extract_targets_from_iff_example = extract_targets_from_iff two_msids two_targets

abbrev library : Library
library = record { parse_float = λ s. none; parse_time = λ s. some 5; format_time = λ t. t ∷ [] }

abbrev slir : Slir
slir = record { msids = two_msids; loc_type = none; geo_info = none; eqop = none; prio = none }

abbrev waits : Waits
waits = record { sync_wait_default = 10; sync_wait_max = 30 }

-- A turn at a time, of a store that does not change.
abbrev turn : ℕ → Turn
turn t = record { db = stored; now = t; done = false; answered_at = t }

abbrev turns : List Turn
turns = turn 20 ∷ turn 45 ∷ turn 46 ∷ []

resolve_immediate-Complete_example :
    (a : _) × ((resolve_immediate library env waits
        (codes "police", codes "token")
        (codes "k")
        slir
        none
        9
        stored
        turns).0
      ≡ some a)
    × Complete two_msids a
resolve_immediate-Complete_example =
    resolve_immediate-Complete library env waits (codes "police", codes "token") (codes "k") slir
      none 9 stored turns (omega arith)

-- -30 degrees and a third.
abbrev south : Float64
south = record { num = negsuc 90; den = 3 }

encode_dmsh-decode_dmsh_example :
    (total : ℕ) × (decode_dmsh (encode_dmsh south 78 83)
      ≡ ok (record { num = signed (is_negative south.num) total; den = 3600000 }))
    × (2 * (total * 3) ≤ 2 * (91 * 3600000) + 3)
    × (2 * (91 * 3600000) < 2 * (total * 3) + 3)
encode_dmsh-decode_dmsh_example = encode_dmsh-decode_dmsh latitude south (omega arith)

abbrev visited : Db
visited = record stored {
  client_services = (codes "police", ServiceType.immediate) ∷ [];
  client_target_prefixes = (codes "police", codes "155") ∷ [];
  history = history_row (codes "h1") TargetKind.msisdn (codes "155") result ∷ [];
}

abbrev hlir : Hlir
hlir = record {
  msid = record { msid_type = []; msid_value = codes "155" };
  start_time = codes "0";
  stop_time = none;
  interval = none;
  no_of_reports = some (codes "2");
  geo_info = none;
}

abbrev police : Option Credentials
police = some (record { id = codes "police"; pwd = codes "token" })

visited_answer :
    handle_hlir library env police hlir 20 visited
    ≡ hlia (
        build_history_pos library hlir.msid
          (history_row (codes "h1") TargetKind.msisdn (codes "155") result)
        ∷ [])
unfolding handle_hlir parse_history_window credentials_from_hdr validate_geo_info msid_to_target
    positive_element positive_number query_target_history authenticate authorize
    get_client_credential get_client_authz_data scan_client query_history sort_by insert_by
    trim_space is_space text_eq value kind validate has_prefix stamp_leb utc text_leb fraction
    fraction_digits
visited_answer = refl

handle_hlir-Found_example :
    (t : Target) × (w : Window) × (rows : _) × (msid_to_target hlir.msid ≡ ok t)
    × Ordered 20 w
    × AsksFor library 20 hlir w
    × (query_history (kind t) (value t) w.start w.stop w.min_interval w.limit visited ≡ rows)
    × Found t w visited rows
    × (map (build_history_pos library hlir.msid) rows
        ≡ build_history_pos library hlir.msid
            (history_row (codes "h1") TargetKind.msisdn (codes "155") result)
          ∷ [])
    × All (PosOf hlir.msid) (
        build_history_pos library hlir.msid
          (history_row (codes "h1") TargetKind.msisdn (codes "155") result)
        ∷ [])
handle_hlir-Found_example = handle_hlir-Found library env police hlir 20 visited _ visited_answer
