-- ===== src/Storage/Requests/Outcomes.antt =====
-- The guarded UPDATEs of internal/storage/sqlite/sqlite.go: the outcome and the rows after it.
use vectorcore_gmlc.Base.{
  ◌≡◌, refl, Bool, true, false, Option, none, some, List, if◌then◌else◌, arith, ◌==◌, Bool-cases,
  inl, inr, String, Result, ok, err,
}
use vectorcore_gmlc.Base.Text.{Text, text_eq, text_eq_iff}
use vectorcore_gmlc.Errors.{Error}
use vectorcore_gmlc.Domain.{Time, State, ServingNode, LocationResult}
use vectorcore_gmlc.Storage.Sql.{update, affected}
use vectorcore_gmlc.Storage.Schema.{RequestRow, Db}
use vectorcore_gmlc.Storage.Requests.{
  has_id_state, update_request, update_request_tx, save_serving_node_and_locate, requeue,
  fail_request, complete_request, set_locating, set_queued, set_failed, set_completed,
  save_serving_node, store_result,
}
use vectorcore_gmlc.Storage.Requests.Rows.{
  find_row, on_row, id-find_row, find_row-update, find_row-update_other, state_eq→≡, KeepsId,
  Unique, state_is, affected-find_row,
}

-- The outcome of a guarded UPDATE: either the row was in the expected state, the call succeeds and
-- the row is the updated one, or the call reports a conflict and no row changes.
pub data Guarded (id : Text) (from : State) (f : RequestRow → RequestRow) (before : List RequestRow)
    (outcome : Result Error (Unit {0})) (after : List RequestRow) : Type 0 where
  done :
      {r : RequestRow}
      → find_row id before ≡ some r
      → r.state ≡ from
      → outcome ≡ ok tt
      → find_row id after ≡ some (f r)
      → Guarded id from f before outcome after
  refused :
      state_is from (find_row id before) ≡ false
      → outcome ≡ err Error.conflict
      → ((j : Text) → find_row j after ≡ find_row j before)
      → Guarded id from f before outcome after

one_or_none : (b : Bool) → ((if b then 1 else 0) == 1) ≡ b
one_or_none b = ground arith

module _ (id : Text) (from : State) (f : RequestRow → RequestRow) (keeps : KeepsId f) (db : Db)
    (u : Unique db.requests) where
  abbrev hit : RequestRow → Bool
  hit = has_id_state id from

  affected_test : (affected hit db.requests == 1) ≡ state_is from (find_row id db.requests)
  affected_test =
      rw (affected-find_row id from db.requests u)
        (one_or_none (state_is from (find_row id db.requests)))

  hit_row :
      (o : Option RequestRow)
      → find_row id db.requests ≡ o
      → state_is from o ≡ true
      → (r : RequestRow) × (find_row id db.requests ≡ some r)
        × (r.state ≡ from)
        × (find_row id (update hit f db.requests) ≡ some (f r))
  hit_row none e t = cc
  hit_row (some r) e t =
      let q = id-find_row id db.requests r e in
      let same : hit r ≡ true = ground (arith, text_eq_iff r.id id) in
      (
        r,
        e,
        state_eq→≡ r.state from t,
        rw (find_row-update hit f keeps id db.requests) (rw e (rw same)),
      )

  missed_row : (o : Option RequestRow) → state_is from o ≡ false → on_row hit f o ≡ o
  missed_row none t = refl
  missed_row (some r) t = ground arith

  missed_rows :
      (j : Text)
      → state_is from (find_row id db.requests) ≡ false
      → find_row j (update hit f db.requests) ≡ find_row j db.requests
  missed_rows j t = elim (Bool-cases (text_eq id j)) [
    | inl e ↦
        let q : id ≡ j = (text_eq_iff id j).0 e in
        rw (← q)
          (rw (find_row-update hit f keeps id db.requests) (missed_row (find_row id db.requests) t))
    | inr e ↦ find_row-update_other j id from f db.requests keeps e
  ]

  pub update_request-Guarded :
      Guarded id from f db.requests
        (update_request id from f db).0
        (update_request id from f db).1.requests
  update_request-Guarded = elim (Bool-cases (state_is from (find_row id db.requests))) [
    | inl t ↦
        let (r, e, q, after) = hit_row (find_row id db.requests) refl t in
        done e q (rw (affected_test, t)) after
    | inr t ↦ refused t (rw (affected_test, t)) (λ j. missed_rows j t)
  ]

  pub update_request_tx-Guarded :
      (next : Db → Result Error (Unit {0}) × Db)
      → ((d : Db) → (next d).0 ≡ ok tt)
      → ((d : Db) → (next d).1.requests ≡ d.requests)
      → Guarded id from f db.requests
          (update_request_tx id from f next db).0
          (update_request_tx id from f next db).1.requests
  update_request_tx-Guarded next returns same =
      elim (Bool-cases (state_is from (find_row id db.requests))) [
        | inl t ↦
            let (r, e, q, after) = hit_row (find_row id db.requests) refl t in
            done e q (rw (affected_test, t) (returns _)) (rw (affected_test, t) (rw same after))
        | inr t ↦ refused t (rw (affected_test, t)) (λ j. rw (affected_test, t))
      ]

module _ (id : Text) (db : Db) (u : Unique db.requests) where
  -- The four writes of a worker, each guarded by the state that the worker saw: either the request was
  -- in that state, the call succeeds and sets the state and the time of the update, for a retry also the
  -- failure code and the time of the next attempt, for a failure also its code and description, and no
  -- other column; or the call reports a conflict and no request changes.
  pub writes-Guarded :
      (now next : Time) (n : ServingNode) (v : LocationResult) (from : State) (code desc : String)
      → Guarded id State.resolving
          (λ x. record x { state = State.locating; updated_at = now })
          db.requests
          (save_serving_node_and_locate id n now db).0
          (save_serving_node_and_locate id n now db).1.requests
        × Guarded id State.locating
            (λ x. record x { state = State.completed; updated_at = now })
            db.requests
            (complete_request id v now db).0
            (complete_request id v now db).1.requests
        × Guarded id from
            (λ x. record x {
              state = State.queued;
              next_attempt_at = some next;
              failure_code = code;
              updated_at = now;
            })
            db.requests
            (requeue id from next code now db).0
            (requeue id from next code now db).1.requests
        × Guarded id from
            (λ x. record x {
              state = State.failed;
              failure_code = code;
              failure_description = desc;
              updated_at = now;
            })
            db.requests
            (fail_request id from code desc now db).0
            (fail_request id from code desc now db).1.requests
  unfolding save_serving_node_and_locate complete_request requeue fail_request
  writes-Guarded now next n v from code desc = (
    update_request_tx-Guarded id State.resolving (set_locating now) (λ r. refl) db u
        (save_serving_node id n) (λ d. refl) (λ d. refl),
    update_request_tx-Guarded id State.locating (set_completed now) (λ r. refl) db u
        (store_result id v) (λ d. refl) (λ d. refl),
    update_request-Guarded id from (set_queued next code now) (λ r. refl) db u,
    update_request-Guarded id from (set_failed code desc now) (λ r. refl) db u,
  )
