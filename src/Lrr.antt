-- ===== src/Lrr.antt =====
-- internal/lrr/lrr.go: the handler of location reports.
pub mod Reports
pub mod Serving
mod Examples
use vectorcore_gmlc.Base.{
  ℕ, Bool, true, false, ◌&&◌, ◌||◌, not, Option, none, some, List, [], if◌then◌else◌, ◌==◌, Result,
  ok, err,
}
use vectorcore_gmlc.Base.Text.{Text, is_empty}
use vectorcore_gmlc.Errors.{Error}
use vectorcore_gmlc.Domain.{
  Time, Target, TargetKind, value, kind, GeographicPosition, LocationReport,
}
use vectorcore_gmlc.Diameter.Message.{Message, Diam, success, unable_to_comply}
use vectorcore_gmlc.Slg.Plr.{Config}
use vectorcore_gmlc.Slg.Lrr.{decode_lrr, build_lra}
use vectorcore_gmlc.Storage.Schema.{DeferredLocationSubscription, ReportRow, Db}
use vectorcore_gmlc.Storage.Deferred.{
  find_pending_deferred_location_subscription, mark_deferred_location_subscription_reported,
  create_location_report,
}

-- The two calls of the pusher.
pub data Push : Type 0 where
  standard_report : Target → Option GeographicPosition → Time → Push
  emergency_report : Target → ℕ → Option GeographicPosition → Time → Push

-- A pending subscription with the reference is marked as reported.
unfoldable pub correlate_found :
    Result Error DeferredLocationSubscription → ℕ → Time → Db → Option ℕ × Db
correlate_found (err e) ref now db = (none, db)
correlate_found (ok sub) ref now db =
    (some ref, (mark_deferred_location_subscription_reported ref now db).1)

unfoldable pub correlate : Option ℕ → Time → Db → Option ℕ × Db
unfolding correlate_found
correlate none now db = (none, db)
correlate (some ref) now db =
    correlate_found (find_pending_deferred_location_subscription ref db) ref now db

abbrev pub report_target : Target → Option (TargetKind × Text)
report_target t =
    if not (is_empty t.imsi) || not (is_empty t.msisdn) then some (kind t, value t) else none

unfoldable pub report_row : LocationReport → Option ℕ → Time → ReportRow
report_row r correlated now = record {
  id = [];
  lcs_reference_number = correlated;
  location_event = r.location_event;
  target = report_target r.target;
  raw_gad = r.raw_location_estimate;
  ecgi = r.ecgi;
  accuracy_fulfilment = r.accuracy_fulfilment;
  age_of_location_estimate = r.age_of_location_estimate;
  raw_velocity_estimate = r.raw_velocity_estimate;
  eutran_positioning_data = r.eutran_positioning_data;
  received_at = now;
}

unfoldable pub push : LocationReport → Time → Option Push
push r now =
    if r.location_event == 2
    then some (standard_report r.target r.position now)
    else if r.location_event == 0 || r.location_event == 1 || r.location_event == 3
    then some (emergency_report r.target r.location_event r.position now)
    else none

-- `id` is the new uuid of the row; a pusher is set.
unfoldable pub process : Text → LocationReport → Time → Db → Option Push × Db
unfolding correlate report_row push
process id r now db =
    let found = correlate r.lcs_reference_number now db in
    (push r now, (create_location_report id (report_row r found.0 now) now found.1).1)

-- What ServeDIAM leaves: the answer that is written, if one is built, the push, and the store.
pub record Served : Type 0 where
  pub answer : Option Message
  pub pushed : Option Push
  pub db : Db

abbrev pub answer_or_none : Result Error Message → Option Message
answer_or_none (ok a) = some a
answer_or_none (err e) = none

unfoldable pub serve_decoded :
    Diam → Config → Option Message → Text → Result Error LocationReport → Time → Db → Served
unfolding process
serve_decoded lib cfg m id (err e) now db = record {
  answer = answer_or_none (build_lra lib cfg m unable_to_comply);
  pushed = none;
  db = db;
}
serve_decoded lib cfg m id (ok r) now db =
    let done = process id r now db in
    record { answer = answer_or_none (build_lra lib cfg m success); pushed = done.0; db = done.1 }

-- `id` is the new uuid of the row; what the connection does with the answer is outside.
unfoldable pub serve_diam : Diam → Config → Option Message → Text → Time → Db → Served
unfolding serve_decoded
serve_diam lib cfg m id now db = serve_decoded lib cfg m id (decode_lrr m) now db
