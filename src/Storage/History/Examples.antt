-- ===== src/Storage/History/Examples.antt =====
-- The theorems about the history at concrete inputs.
use mathlib.Core.List.{Memᴰ}
use vectorcore_gmlc.Base.{ℕ, ◌≤◌, ◌<◌, ◌≡◌, refl, [], ◌∷◌, All, length, keep}
use vectorcore_gmlc.Base.Text.{codes, text_eq}
use vectorcore_gmlc.Domain.{TargetKind}
use vectorcore_gmlc.Storage.Schema.{HistoryRow, Db}
use vectorcore_gmlc.Storage.Requests.Examples.{database, result}
use vectorcore_gmlc.Storage.History.{of_target, history_row, record_history, query_history}
use vectorcore_gmlc.Storage.History.Complete.{Inside}
use vectorcore_gmlc.Storage.History.Window.{Spaced, StoredIn, query_history_lem}
use vectorcore_gmlc.Storage.History.Retention.{record_history-Retained}

abbrev visited : Db
visited = record (database []) {
  history =
      history_row (codes "h1") TargetKind.msisdn (codes "155") result
      ∷ history_row (codes "h2") TargetKind.imsi (codes "001") result
      ∷ [];
}

query_history_lem_example :
    All
      (StoredIn visited.history TargetKind.msisdn (codes "155") 0 20)
      (query_history TargetKind.msisdn (codes "155") 0 20 5 1 visited)
    × (0 < 5 → Spaced 5 (query_history TargetKind.msisdn (codes "155") 0 20 5 1 visited))
    × (0 < 1 → length (query_history TargetKind.msisdn (codes "155") 0 20 5 1 visited) ≤ 1)
    × (◌≡◌ {A = ℕ} 5 0
        → ◌≡◌ {A = ℕ} 1 0
        → length (keep (of_target TargetKind.msisdn (codes "155")) visited.history) ≤ 10000
        → (r : HistoryRow) → Memᴰ r visited.history
        → Inside TargetKind.msisdn (codes "155") 0 20 r
        → Memᴰ r (query_history TargetKind.msisdn (codes "155") 0 20 5 1 visited))
query_history_lem_example = query_history_lem TargetKind.msisdn (codes "155") 0 20 5 1 visited

record_history-Retained_example :
    length (
        keep
          (of_target TargetKind.msisdn (codes "155"))
          (record_history (codes "h3") TargetKind.msisdn (codes "155") result visited).history)
      ≤ 20
    × keep
        (of_target TargetKind.imsi (codes "001"))
        (record_history (codes "h3") TargetKind.msisdn (codes "155") result visited).history
      ≡ keep (of_target TargetKind.imsi (codes "001")) visited.history
unfolding text_eq
record_history-Retained_example =
    record_history-Retained (codes "h3") TargetKind.msisdn (codes "155") result visited
      ((refl, tt), (tt, tt)) (refl, (refl, tt)) TargetKind.imsi (codes "001") refl
