-- ===== src/Mlp/History.antt =====
-- internal/mlp/handler.go: the Historic Location Immediate Service.
pub mod Asked
pub mod Answered
use vectorcore_gmlc.Base.{
  ℕ, Bool, true, false, not, Option, none, some, List, [], ◌∷◌, map, if◌then◌else◌, ltb, Result, ok,
  err, guard, ◌>>◌, ◌>>=◌,
}
use vectorcore_gmlc.Base.Text.{Text, is_empty, trim_space}
use vectorcore_gmlc.Errors.{Error}
use vectorcore_gmlc.Domain.{Time}
use vectorcore_gmlc.Storage.Schema.{HistoryRow, Db}
use vectorcore_gmlc.Service.{Env, query_target_history}
use vectorcore_gmlc.Mlp.{
  Library, Msid, Credentials, msid_to_target, validate_geo_info, credentials_from_hdr,
  positive_element, seconds,
}
use vectorcore_gmlc.Mlp.ResultCodes.{ResultCode, error_to_result_code}
use vectorcore_gmlc.Mlp.Positions.{Pos, Response, hlia, hlia_result, build_history_pos}

-- `none` is an absent element.
pub record Hlir : Type 0 where
  pub msid : Msid
  pub start_time : Text
  pub stop_time : Option Text
  pub interval : Option Text
  pub no_of_reports : Option Text
  pub geo_info : Option Text

-- The window of a query. An interval of 0 does not thin out, and a limit of 0 is none.
pub record Window : Type 0 where
  pub start : Time
  pub stop : Time
  pub min_interval : ℕ
  pub limit : ℕ

abbrev pub parse_mlp_time : Library → Text → Result ResultCode Time
parse_mlp_time lib s = elim (lib.parse_time (trim_space s)) [
  | none ↦ err ResultCode.invalid_protocol_element_value
  | some t ↦ ok t
]

-- The end of the window, which is not after the time now.
abbrev pub stop_of : Library → Time → Option Text → Result ResultCode Time
stop_of lib now none = ok now
stop_of lib now (some s) = parse_mlp_time lib s >>= λ t. ok (if ltb now t then now else t)

unfoldable pub parse_history_window : Library → Hlir → Time → Result ResultCode Window
unfolding positive_element
parse_history_window lib req now =
    guard (not (is_empty (trim_space req.start_time))) ResultCode.format_error
    >> parse_mlp_time lib req.start_time
    >>= λ start.
        (stop_of lib now req.stop_time >>= λ stop.
        guard (not (ltb stop start)) ResultCode.invalid_protocol_element_value
        >> positive_element seconds req.interval
        >>= λ interval.
            (positive_element (λ n. n) req.no_of_reports >>= λ limit.
            ok (record { start = start; stop = stop; min_interval = interval; limit = limit })))

-- After QueryHistory.
abbrev pub history_positions :
    Library → Msid → Result Error (List HistoryRow) → Result ResultCode (List Pos)
history_positions lib m (err e) = err (error_to_result_code e)
history_positions lib m (ok []) = err ResultCode.position_method_failure
history_positions lib m (ok (p ∷ ps)) = ok (map (build_history_pos lib m) (p ∷ ps))

abbrev pub hlia_of : Result ResultCode (List Pos) → Response
hlia_of (err rc) = hlia_result rc
hlia_of (ok ps) = hlia ps

unfoldable pub handle_hlir : Library → Env → Option Credentials → Hlir → Time → Db → Response
unfolding parse_history_window
handle_hlir lib env header req now db =
    let (client_id, token) = credentials_from_hdr header in
    hlia_of (
      validate_geo_info req.geo_info >> msid_to_target req.msid >>= λ t.
      (parse_history_window lib req now >>= λ w.
      history_positions lib req.msid
        (query_target_history env client_id token t w.start w.stop w.min_interval w.limit db)))
