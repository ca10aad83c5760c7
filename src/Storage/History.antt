-- ===== src/Storage/History.antt =====
-- RecordHistory and QueryHistory of internal/storage/sqlite/sqlite.go.
pub mod Window
pub mod Complete
pub mod Retention
pub mod Examples
use vectorcore_gmlc.Base.{
  ℕ, zero, suc, ◌+◌, ◌≤◌, Bool, true, false, ◌&&◌, ◌||◌, not, Option, none, some, List, [], ◌∷◌,
  ◌++◌, map, if◌then◌else◌, ltb, leb, length, take, keep,
}
use vectorcore_gmlc.Base.Text.{Text, text_eq}
use vectorcore_gmlc.Domain.{Time, TargetKind, kind_eq, LocationResult}
use vectorcore_gmlc.Storage.Sql.{sort_by}
use vectorcore_gmlc.Storage.Stamp.{utc, stamp_leb}
use vectorcore_gmlc.Storage.Schema.{HistoryRow, Db}

abbrev pub max_history_points_per_target : ℕ
max_history_points_per_target = 20

-- WHERE target_kind=? AND target_value=?
abbrev pub of_target : TargetKind → Text → HistoryRow → Bool
of_target kind value r = kind_eq r.target_kind kind && text_eq r.target_value value

abbrev pub newest_first : HistoryRow → HistoryRow → Bool
newest_first a b = stamp_leb (utc b.recorded_at) (utc a.recorded_at)

abbrev pub oldest_first : HistoryRow → HistoryRow → Bool
oldest_first a b = stamp_leb (utc a.recorded_at) (utc b.recorded_at)

abbrev pub id_in : List HistoryRow → Text → Bool
id_in [] id = false
id_in (r ∷ rows) id = text_eq id r.id || id_in rows id

-- The DELETE: the rows of the target that are not among the newest twenty.
unfoldable pub prune : TargetKind → Text → List HistoryRow → List HistoryRow
prune kind value rows =
    let newest =
      take max_history_points_per_target
        (sort_by newest_first (keep (of_target kind value) rows)) in
    keep (λ r. not (of_target kind value r) || id_in newest r.id) rows

-- The row of the INSERT; `id` is its new uuid.
abbrev pub history_row : Text → TargetKind → Text → LocationResult → HistoryRow
history_row id kind value v = record {
  id = id;
  target_kind = kind;
  target_value = value;
  shape = v.shape;
  latitude = v.latitude;
  longitude = v.longitude;
  uncertainty_meters = v.uncertainty_meters;
  recorded_at = v.created_at;
}

unfoldable pub record_history : Text → TargetKind → Text → LocationResult → Db → Db
record_history id kind value v db = record db {
  history = prune kind value (db.history ++ history_row id kind value v ∷ []);
}

-- The loop that thins the points out, after the point recorded at `last`.
unfoldable pub thin_after : ℕ → Time → List HistoryRow → List HistoryRow
thin_after interval last [] = []
thin_after interval last (p ∷ ps) =
    let kept = p ∷ thin_after interval p.recorded_at ps in
    let rest = thin_after interval last ps in
    if leb (last + interval) p.recorded_at then kept else rest

unfoldable pub thin : ℕ → List HistoryRow → List HistoryRow
unfolding thin_after
thin interval [] = []
thin interval (p ∷ ps) = p ∷ thin_after interval p.recorded_at ps

abbrev pub max_scan : ℕ
max_scan = 10000

abbrev pub in_window : TargetKind → Text → Time → Time → HistoryRow → Bool
in_window kind value start stop r =
    of_target kind value r
    && stamp_leb (utc start) (utc r.recorded_at)
    && stamp_leb (utc r.recorded_at) (utc stop)

-- The points are the rows with the columns that are read. `limit` 0 is no limit.
unfoldable pub query_history : TargetKind → Text → Time → Time → ℕ → ℕ → Db → List HistoryRow
query_history kind value start stop interval limit db =
    let all =
      take max_scan (sort_by oldest_first (keep (in_window kind value start stop) db.history)) in
    let out = if ltb 0 interval then thin interval all else all in
    if ltb 0 limit && ltb limit (length out) then take limit out else out
