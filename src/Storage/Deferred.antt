-- ===== src/Storage/Deferred.antt =====
-- Deferred location subscriptions and location reports in internal/storage/sqlite/sqlite.go.
use vectorcore_gmlc.Base.{
  ℕ, Bool, true, false, ◌&&◌, not, Option, none, some, List, [], ◌∷◌, ◌++◌, if◌then◌else◌, ◌==◌,
  first, Result, ok, err, is_some,
}
use vectorcore_gmlc.Base.Text.{Text, text_eq}
use vectorcore_gmlc.Errors.{Error}
use vectorcore_gmlc.Domain.{Time, TargetKind}
use vectorcore_gmlc.Storage.Sql.{update, affected}
use vectorcore_gmlc.Storage.Schema.{DeferredState, DeferredLocationSubscription, ReportRow, Db}
use vectorcore_gmlc.Storage.Schema.DeferredState.{pending, reported}

abbrev pub reference_is : ℕ → DeferredLocationSubscription → Bool
reference_is ref s = s.lcs_reference_number == ref

abbrev pub is_pending : DeferredState → Bool
is_pending pending = true
is_pending _ = false

-- WHERE lcs_reference_number=? AND state='pending'
abbrev pub pending_reference : ℕ → DeferredLocationSubscription → Bool
pending_reference ref s = reference_is ref s && is_pending s.state

-- The reference is the primary key, and the client a foreign one.
unfoldable pub create_deferred_location_subscription :
    Text → TargetKind → Text → ℕ → Time → Db → Result Error DeferredLocationSubscription × Db
create_deferred_location_subscription client_id kind value ref now db =
    let sub : DeferredLocationSubscription = record {
      lcs_reference_number = ref;
      client_id = client_id;
      target_kind = kind;
      target_value = value;
      state = pending;
      created_at = now;
      updated_at = now;
    } in
    if is_some (first (λ c. text_eq c.id client_id) db.clients)
      && not (is_some (first (reference_is ref) db.deferred))
    then (ok sub, record db { deferred = db.deferred ++ sub ∷ [] })
    else (err Error.other, db)

abbrev pub found_deferred :
    Option DeferredLocationSubscription → Result Error DeferredLocationSubscription
found_deferred none = err Error.not_found
found_deferred (some s) = ok s

unfoldable pub find_pending_deferred_location_subscription :
    ℕ → Db → Result Error DeferredLocationSubscription
find_pending_deferred_location_subscription ref db =
    found_deferred (first (pending_reference ref) db.deferred)

abbrev pub set_reported : Time → DeferredLocationSubscription → DeferredLocationSubscription
set_reported now s = record s { state = reported; updated_at = now }

unfoldable pub mark_deferred_location_subscription_reported :
    ℕ → Time → Db → Result Error (Unit {0}) × Db
mark_deferred_location_subscription_reported ref now db =
    let p = pending_reference ref in
    (
      if affected p db.deferred == 1 then ok tt else err Error.conflict,
      record db { deferred = update p (set_reported now) db.deferred },
    )

-- A report's reference is empty or one of the deferred subscriptions.
abbrev pub reference_known : Option ℕ → List DeferredLocationSubscription → Bool
reference_known none subs = true
reference_known (some ref) subs = is_some (first (reference_is ref) subs)

abbrev pub report_id_is : Text → ReportRow → Bool
report_id_is id r = text_eq r.id id

-- `id` is the new uuid, the primary key; a zero `received_at` becomes the time of the call.
unfoldable pub create_location_report : Text → ReportRow → Time → Db → Result Error ReportRow × Db
create_location_report id r now db =
    let r' = record r {
      id = id;
      received_at = if r.received_at == 0 then now else r.received_at;
    } in
    if reference_known r.lcs_reference_number db.deferred
      && not (is_some (first (report_id_is id) db.reports))
    then (ok r', record db { reports = db.reports ++ r' ∷ [] })
    else (err Error.other, db)
