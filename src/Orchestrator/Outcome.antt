-- ===== src/Orchestrator/Outcome.antt =====
-- internal/orchestrator/orchestrator.go: the completion hook and the store after a turn.
use vectorcore_gmlc.Base.{
  ℕ, ◌≡◌, refl, ap, Bool, true, false, Option, none, some, List, [], ◌∷◌, String, arith, leb, ◌==◌,
  Result, ok, err, ◌⊎◌, inl, inr, Bool-cases, first,
}
use vectorcore_gmlc.Base.Text.{Text, text_eq, text_eq_refl}
use vectorcore_gmlc.Storage.Sql.{affected}
use vectorcore_gmlc.Errors.{Error}
use vectorcore_gmlc.Domain.{
  Time, State, ServingNode, PositioningResult, GeographicPosition, Request, LocationResult,
}
use vectorcore_gmlc.Storage.Schema.{RequestRow, Db}
use vectorcore_gmlc.Storage.Requests.{
  claim_next_queued, save_serving_node_and_locate, fail_request, complete_request, store_result,
  set_failed, set_completed, get_result, found_result, upsert, has_id_state,
}
use vectorcore_gmlc.Storage.Requests.Rows.{find_row, Unique}
use vectorcore_gmlc.Storage.Requests.Outcomes.{
  Guarded, done, refused, update_request-Guarded, update_request_tx-Guarded,
}
use vectorcore_gmlc.Storage.Requests.Lifecycle.{claim, locate}
use vectorcore_gmlc.Storage.Requests.Invariant.{run_op-Unique}
use vectorcore_gmlc.Storage.History.{record_history}
use vectorcore_gmlc.Orchestrator.{
  Turn, Notice, with_context, notify_completion, notify_failed, transient, handle_error, result_of,
  remember, completed_with, no_result, located, saved, resolved, one_claimed, one, max_attempts,
  request_target,
}

-- The request of a notice is stored in the state that the notice gives: as failed, with its failure
-- code, or as completed, with its result.
abbrev pub Announced : Notice → Db → Type 0
Announced none db = Unit
Announced (some (r, v)) db =
    (row : RequestRow) × (find_row r.id db.requests ≡ some row)
    × (row.state ≡ r.state)
    × (((r.state ≡ State.failed) × (row.failure_code ≡ r.failure_code))
        ⊎ ((r.state ≡ State.completed) × (get_result r.id db ≡ ok v)))

announce_failed :
    (r : Request) (code desc : String) (from : State) (now : Time) (before : List RequestRow)
    (outcome : Result Error (Unit {0})) (after : Db)
    → Guarded r.id from (set_failed code desc now) before outcome after.requests
    → Announced
        (notify_failed r code now (outcome, after)).0
        (notify_failed r code now (outcome, after)).1
unfolding notify_failed notify_completion
announce_failed r code desc from now before (err e) after g = tt
announce_failed r code desc from now before (ok x) after (done {r = row} e s q h) =
    (set_failed code desc now row, h, refl, inl (refl, refl))
announce_failed r code desc from now before (ok x) after (refused t q h) = cc

fail_request-Announced :
    (r : Request) (code desc : String) (from : State) (now : Time) (db : Db)
    → Unique db.requests
    → Announced
        (notify_failed r code now (fail_request r.id from code desc now db)).0
        (notify_failed r code now (fail_request r.id from code desc now db)).1
unfolding fail_request
fail_request-Announced r code desc from now db u =
    announce_failed r code desc from now db.requests (fail_request r.id from code desc now db).0
      (fail_request r.id from code desc now db).1
      (update_request-Guarded r.id from (set_failed code desc now) (λ x. refl) db u)

handle_error-Announced :
    (r : Request) (attempts : ℕ) (from : State) (e : Error) (now : Time) (db : Db)
    → Unique db.requests
    → Announced (handle_error r attempts from e now db).0 (handle_error r attempts from e now db).1
unfolding handle_error
handle_error-Announced r attempts from e now db u = elim (Bool-cases (transient e)) [
  | inl a ↦ elim (Bool-cases (leb max_attempts attempts)) [
    | inl b ↦ rw a (rw b (fail_request-Announced r _ _ from now db u))
    | inr b ↦ rw a (rw b tt)
  ]
  | inr a ↦ rw a (fail_request-Announced r _ _ from now db u)
]

-- The result that CompleteRequest stores is the one that GetResult reads.
first-upsert :
    (id : Text) (v : LocationResult) (vs : List LocationResult)
    → text_eq v.request_id id ≡ true
    → first (λ r. text_eq r.request_id id) (upsert (λ r. text_eq r.request_id id) v vs) ≡ some v
first-upsert id v [] h = rw h refl
first-upsert id v (w ∷ vs) h = elim (Bool-cases (text_eq w.request_id id)) [
  | inl e ↦ rw e (first-upsert id v vs h)
  | inr e ↦ rw e (rw e (first-upsert id v vs h))
]

complete_result :
    (id : Text) (v : LocationResult) (now : Time) (db : Db)
    → (complete_request id v now db).0 ≡ ok tt
    → get_result id (complete_request id v now db).1 ≡ ok (record v { request_id = id })
unfolding complete_request store_result get_result
complete_result id v now db h =
    let p = has_id_state id State.locating in
    elim (Bool-cases (affected p db.requests == 1)) [
      | inl e ↦ rw e (
          ap found_result
            (first-upsert id (record v { request_id = id }) db.results (text_eq_refl id)))
      | inr e ↦ cc (rw e at h)
    ]

remember-requests :
    (t : Turn) (r : Request) (v : LocationResult) (p : Option GeographicPosition) (db : Db)
    → ((remember t r v p db).requests ≡ db.requests) × ((remember t r v p db).results ≡ db.results)
unfolding remember record_history
remember-requests t r v none db = (refl, refl)
remember-requests t r v (some p) db = ground arith

announce_completed :
    (t : Turn) (r : Request) (v : LocationResult) (p : Option GeographicPosition)
    (before : List RequestRow) (outcome : Result Error (Unit {0})) (after : Db)
    → Guarded r.id State.locating (set_completed t.now) before outcome after.requests
    → (outcome ≡ ok tt → get_result r.id after ≡ ok v)
    → Announced
        (completed_with t r v p (outcome, after)).0
        (completed_with t r v p (outcome, after)).1
unfolding completed_with notify_completion get_result
announce_completed t r v p before (err e) after g stored = tt
announce_completed t r v p before (ok x) after (done {r = row} e s q h) stored =
    let same = remember-requests t r v p after in
    (set_completed t.now row, rw same.0 h, refl, inr (refl, rw same.1 (stored (cc))))
announce_completed t r v p before (ok x) after (refused a q h) stored = cc

complete_request-Announced :
    (t : Turn) (r : Request) (v : LocationResult) (p : Option GeographicPosition) (db : Db)
    → Unique db.requests
    → Announced
        (completed_with t r (record v { request_id = r.id }) p (complete_request r.id v t.now db)).0
        (completed_with t r (record v { request_id = r.id }) p (complete_request r.id v t.now db)).1
unfolding complete_request store_result
complete_request-Announced t r v p db u =
    announce_completed t r (record v { request_id = r.id }) p db.requests
      (complete_request r.id v t.now db).0 (complete_request r.id v t.now db).1
      (update_request_tx-Guarded r.id State.locating (set_completed t.now) (λ x. refl) db u
        (store_result r.id v) (λ d. refl) (λ d. refl))
      (complete_result r.id v t.now db)

with_context-Announced :
    (t : Turn) (r : Request) (v : LocationResult) (p : Option GeographicPosition) (b : Bool)
    (call : Db → Result Error (Unit {0}) × Db) (db : Db)
    → Announced (completed_with t r v p (call db)).0 (completed_with t r v p (call db)).1
    → Announced
        (completed_with t r v p (with_context b call db)).0
        (completed_with t r v p (with_context b call db)).1
unfolding completed_with
with_context-Announced t r v p true call db h = tt
with_context-Announced t r v p false call db h = h

located-Announced :
    (t : Turn) (r : Request) (n : ServingNode) (answer : Result Error PositioningResult) (db : Db)
    → Unique db.requests
    → Announced (located t r n answer db).0 (located t r n answer db).1
unfolding located result_of
located-Announced t r n (err e) db u = elim (Bool-cases t.cancelled_at_locate) [
  | inl c ↦ rw c tt
  | inr c ↦ rw c (handle_error-Announced r r.attempt_count State.locating e t.now db u)
]
located-Announced t r n (ok out) db u = elim (Bool-cases (no_result out.kind)) [
  | inl c ↦ rw c (fail_request-Announced r _ _ State.locating t.now db u)
  | inr c ↦
      let v = result_of r n out t.now in
      rw c (
        with_context-Announced t r v out.position t.cancelled_at_complete
          (complete_request r.id v t.now) db (complete_request-Announced t r v out.position db u))
]

saved-Announced :
    (t : Turn) (r : Request) (n : ServingNode) (outcome : Result Error (Unit {0})) (db : Db)
    → Unique (t.during_locate db).requests
    → Announced (saved t r n (outcome, db)).0 (saved t r n (outcome, db)).1
unfolding saved
saved-Announced t r n (err e) db u = tt
saved-Announced t r n (ok x) db u = located-Announced t r n _ (t.during_locate db) u

-- Others keep the ids of the requests distinct.
abbrev pub KeepsUnique : (Db → Db) → Type 0
KeepsUnique f = (db : Db) → Unique db.requests → Unique (f db).requests

resolved-Announced :
    (t : Turn) (r : Request) (answer : Result Error ServingNode) (db : Db)
    → KeepsUnique t.during_locate
    → Unique db.requests
    → Announced (resolved t r answer db).0 (resolved t r answer db).1
unfolding resolved
resolved-Announced t r (err e) db k u = elim (Bool-cases t.cancelled_at_resolve) [
  | inl c ↦ rw c tt
  | inr c ↦ rw c (handle_error-Announced r r.attempt_count State.resolving e t.now db u)
]
resolved-Announced t r (ok n) db k u = elim (Bool-cases t.cancelled_at_save) [
  | inl c ↦ rw c tt
  | inr c ↦
      let save = save_serving_node_and_locate r.id n t.now db in
      rw c
        (saved-Announced t r n save.0 save.1 (k save.1 (run_op-Unique (locate r.id n t.now) db u)))
]

one_claimed-Announced :
    (t : Turn) (claimed : Result Error (Option Request)) (db : Db)
    → KeepsUnique t.during_resolve
    → KeepsUnique t.during_locate
    → Unique db.requests
    → Announced (one_claimed t (claimed, db)).1 (one_claimed t (claimed, db)).2
unfolding one_claimed
one_claimed-Announced t (err e) db k l u = tt
one_claimed-Announced t (ok none) db k l u = tt
one_claimed-Announced t (ok (some r)) db k l u =
    resolved-Announced t r (t.resolve_serving_node (request_target r)) (t.during_resolve db) l
      (k db u)

-- Whatever the resolver and the provider answer, and whatever others do to the store meanwhile
-- that keeps its ids distinct, a turn calls the completion hook only with a request that the store then
-- holds in that state: as failed with that failure code, or as completed with that result.
pub one-Announced :
    (t : Turn) (db : Db)
    → Unique db.requests
    → KeepsUnique t.during_resolve
    → KeepsUnique t.during_locate
    → Announced (one t db).1 (one t db).2
unfolding one
one-Announced t db u k l =
    one_claimed-Announced t (claim_next_queued t.claimed_at db).0
      (claim_next_queued t.claimed_at db).1 k l (run_op-Unique (claim t.claimed_at) db u)
