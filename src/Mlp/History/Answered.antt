-- ===== src/Mlp/History/Answered.antt =====
-- internal/mlp/handler.go: what a request for the history is answered.
use vectorcore_gmlc.Base.{
  ◌≤◌, ◌<◌, ◌≡◌, refl, Option, List, [], ◌∷◌, map, All, length, Result, ok, err, ◌>>◌, bind_ok,
  ok_injective, subst, arith,
}
use vectorcore_gmlc.Base.Text.{Text}
use vectorcore_gmlc.Errors.{Error}
use vectorcore_gmlc.Domain.{Time, Target, kind, value}
use vectorcore_gmlc.Storage.Schema.{HistoryRow, Db}
use vectorcore_gmlc.Storage.History.{query_history}
use vectorcore_gmlc.Storage.History.Window.{Spaced, StoredIn, query_history_lem}
use vectorcore_gmlc.Service.{Env, query_target_history}
use vectorcore_gmlc.Mlp.{
  Library, Msid, Credentials, credentials_from_hdr, msid_to_target, validate_geo_info,
}
use vectorcore_gmlc.Mlp.ResultCodes.{ResultCode}
use vectorcore_gmlc.Mlp.Positions.{Pos, PosOf, hlia, build_history_pos, build_history_pos-PosOf}
use vectorcore_gmlc.Mlp.History.{
  Hlir, Window, parse_history_window, history_positions, hlia_of, handle_hlir,
}
use vectorcore_gmlc.Mlp.History.Asked.{Ordered, AsksFor, parse_history_window-AsksFor}

-- Points of the target that are stored in the window, spaced by the interval, one at least and at most as many
-- as were asked for.
abbrev pub Found : Target → Window → Db → List HistoryRow → Type 0
Found t w db rows =
    (0 < length rows)
    × All (StoredIn db.history (kind t) (value t) w.start w.stop) rows
    × (0 < w.min_interval → Spaced w.min_interval rows)
    × (0 < w.limit → length rows ≤ w.limit)

query_target_history-rows :
    (env : Env) (client_id token : Text) (t : Target) (w : Window) (db : Db)
    (rows : List HistoryRow)
    → query_target_history env client_id token t w.start w.stop w.min_interval w.limit db ≡ ok rows
    → query_history (kind t) (value t) w.start w.stop w.min_interval w.limit db ≡ rows
unfolding query_target_history
query_target_history-rows env client_id token t w db rows h =
    let (c, _, k) =
      bind_ok _
        (λ c. ok (query_history (kind t) (value t) w.start w.stop w.min_interval w.limit db)) rows
        h in
    ok_injective _ rows k

history_positions-rows :
    (lib : Library) (m : Msid) (a : Result Error (List HistoryRow)) (ps : List Pos)
    → history_positions lib m a ≡ ok ps
    → (rows : List HistoryRow) × (a ≡ ok rows)
      × (0 < length rows)
      × (map (build_history_pos lib m) rows ≡ ps)
history_positions-rows lib m (err e) ps h = cc
history_positions-rows lib m (ok []) ps h = cc
history_positions-rows lib m (ok (r ∷ rows)) ps h =
    (r ∷ rows, refl, omega arith, ok_injective _ ps h)

hlia_of-ok : (a : Result ResultCode (List Pos)) (ps : List Pos) → hlia_of a ≡ hlia ps → a ≡ ok ps
hlia_of-ok (err rc) ps h = cc
hlia_of-ok (ok qs) ps h = cc

map-PosOf :
    (lib : Library) (m : Msid) (rows : List HistoryRow)
    → All (PosOf m) (map (build_history_pos lib m) rows)
map-PosOf lib m [] = tt
map-PosOf lib m (r ∷ rows) = (build_history_pos-PosOf lib m r, map-PosOf lib m rows)

-- An answer of history is that of the target and the window of the request: its start is that which the
-- request gives, and its stop is that of the request or else the time of the call, the earlier of the two;
-- the start is not after the stop. It has one element for each point that the query of the store returns
-- for them. These points are rows of the table, of the target and, to the second, in the window; there is
-- at least one, no more than the number that the request asks for, if it does, and they are apart by at
-- least the seconds that it asks for, if it does and their nanoseconds fit in 63 bits. Each element is for
-- the identity of the request and has exactly one of `pd` and `poserr`.
pub handle_hlir-Found :
    (lib : Library) (env : Env) (header : Option Credentials) (req : Hlir) (now : Time) (db : Db)
    (ps : List Pos)
    → handle_hlir lib env header req now db ≡ hlia ps
    → (t : Target) × (w : Window) × (rows : List HistoryRow) × (msid_to_target req.msid ≡ ok t)
      × Ordered now w
      × AsksFor lib now req w
      × (query_history (kind t) (value t) w.start w.stop w.min_interval w.limit db ≡ rows)
      × Found t w db rows
      × (map (build_history_pos lib req.msid) rows ≡ ps)
      × All (PosOf req.msid) ps
unfolding handle_hlir
handle_hlir-Found lib env header req now db ps h =
    let (t, a, h1) =
      bind_ok (validate_geo_info req.geo_info >> msid_to_target req.msid) _ ps
        (hlia_of-ok _ ps h) in
    let (_, _, b) = bind_ok (validate_geo_info req.geo_info) (λ u. msid_to_target req.msid) t a in
    let (w, c, h2) = bind_ok (parse_history_window lib req now) _ ps h1 in
    let (rows, d, e, f) = history_positions-rows lib req.msid _ ps h2 in
    let credentials = credentials_from_hdr header in
    let same = query_target_history-rows env credentials.0 credentials.1 t w db rows d in
    let (ordered, asked) = parse_history_window-AsksFor lib req now w c in
    let (inside, spaced, few, _) =
      query_history_lem (kind t) (value t) w.start w.stop w.min_interval w.limit db in
    (
      t,
      w,
      rows,
      b,
      ordered,
      asked,
      same,
      (
        e,
        subst (All (StoredIn db.history (kind t) (value t) w.start w.stop)) same inside,
        λ k. subst (Spaced w.min_interval) same (spaced k),
        λ k. subst (λ l. length l ≤ w.limit) same (few k),
      ),
      f,
      subst (All (PosOf req.msid)) f (map-PosOf lib req.msid rows),
    )
