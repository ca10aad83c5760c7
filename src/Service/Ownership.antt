-- ===== src/Service/Ownership.antt =====
-- internal/service/service.go: Cancel, and the check of who owns a request.
use vectorcore_gmlc.Base.{◌≡◌, true, false, some, Result, is_ok, ◌⊎◌}
use vectorcore_gmlc.Base.Text.{Text}
use vectorcore_gmlc.Errors.{Error}
use vectorcore_gmlc.Domain.{Time, State, terminal, Request}
use vectorcore_gmlc.Storage.Schema.{RequestRow, Db}
use vectorcore_gmlc.Storage.Requests.{set_transition}
use vectorcore_gmlc.Storage.Requests.Rows.{find_row}

-- Either the request was the client's and not finished, and is now cancelled, or the call fails and
-- nothing has changed.
abbrev pub Cancelled : Text → Text → Time → Db → Result Error Request × Db → Type 0
Cancelled client_id id now db end =
    ((row : RequestRow) × (find_row id db.requests ≡ some row)
      × (row.client_id ≡ client_id)
      × (terminal row.state ≡ false)
      × (is_ok end.0 ≡ true)
      × (find_row id end.1.requests
          ≡ some (set_transition State.cancelled "cancelled_by_client" now row)))
    ⊎ ((is_ok end.0 ≡ false) × (end.1 ≡ db))
