-- ===== src/Storage/Requests/Invariant.antt =====
-- Sequences of calls on location_requests: the primary key, and requests that have finished.
use mathlib.Core.Bool.{false≢true}
use vectorcore_gmlc.Base.{
  ◌≡◌, refl, ◌∙◌, Bool, true, false, Option, none, some, List, [], ◌∷◌, ◌++◌, if◌then◌else◌, arith,
  ◌==◌, All, All-append, All-keep, Bool-cases, inl, inr, String, Result, keep, is_some,
}
use vectorcore_gmlc.Base.Text.{Text, text_eq, text_eq_iff}
use vectorcore_gmlc.Errors.{Error}
use vectorcore_gmlc.Domain.{Time, State, terminal, can_transition, Request}
use vectorcore_gmlc.Domain.Transitions.{◌⟶◌, ⟶-can_transition}
use vectorcore_gmlc.Storage.Sql.{affected, least}
use vectorcore_gmlc.Storage.Schema.{RequestRow, Db}
use vectorcore_gmlc.Storage.Requests.{
  has_id, has_id_state, update_request_tx, create_request, constraint_violated, stamped,
  request_row, set_request_subscription, transition_request, transition_found, transitioned,
  set_transition, claim_next_queued, claim_found, read_claimed, set_claimed, claimable,
  created_before, save_serving_node_and_locate, save_serving_node, set_locating, requeue,
  fail_request, complete_request, set_completed, store_result, set_queued, set_failed, recover,
  set_recovered, is_active, purge, retained,
}
use vectorcore_gmlc.Storage.Requests.Rows.{find_row, Unique, update-Unique, KeepsId}
use vectorcore_gmlc.Storage.Requests.Lifecycle.{
  Op, create, set_subscription, transition, claim, locate, retry, fail, complete, recover_all,
  purge_old, run_op, IsUsed, Follows, run_op-Follows, is_purge, read_claimed-requests,
}

All-absent :
    (id : Text) (rows : List RequestRow)
    → is_some (find_row id rows) ≡ false
    → All (λ x. text_eq x.id id ≡ false) rows
All-absent id [] h = tt
All-absent id (r ∷ rows) h = (ground (arith, h), All-absent id rows (ground (arith, h)))

append-Unique :
    (rows : List RequestRow) (x : RequestRow)
    → Unique rows
    → All (λ y. text_eq y.id x.id ≡ false) rows
    → Unique (rows ++ x ∷ [])
append-Unique [] x u h = (tt, tt)
append-Unique (r ∷ rows) x u h = (
  All-append (λ y. text_eq y.id r.id ≡ false) rows (x ∷ []) u.0
      (ground (arith, h.0, text_eq_iff x.id r.id, text_eq_iff r.id x.id), tt),
  append-Unique rows x u.1 h.1,
)

keep-Unique : (p : RequestRow → Bool) (rows : List RequestRow) → Unique rows → Unique (keep p rows)
keep-Unique p [] u = tt
keep-Unique p (r ∷ rows) u =
    elim (p r) as (λ b. Unique (if b then r ∷ keep p rows else keep p rows)) [
      | true ↦ (All-keep (λ y. text_eq y.id r.id ≡ false) p rows u.0, keep-Unique p rows u.1)
      | false ↦ keep-Unique p rows u.1
    ]

module _ {ℓ} {A : Type ℓ} where
  tx-Unique :
      (id : Text) (from : State) (f : RequestRow → RequestRow) (next : Db → Result Error A × Db)
      (db : Db)
      → ((d : Db) → (next d).1.requests ≡ d.requests)
      → KeepsId f
      → Unique db.requests
      → Unique (update_request_tx id from f next db).1.requests
  tx-Unique id from f next db same k u =
      elim (Bool-cases (affected (has_id_state id from) db.requests == 1)) [
        | inl t ↦ rw (t, same _) (update-Unique (has_id_state id from) f k db.requests u)
        | inr t ↦ rw t u
      ]

transition_found-Unique :
    (o : Option RequestRow) (id : Text) (to : State) (code : String) (now : Time) (db : Db)
    → Unique db.requests
    → Unique (transition_found o id to code now db).1.requests
unfolding transition_found
transition_found-Unique none id to code now db u = u
transition_found-Unique (some r) id to code now db u =
    elim (Bool-cases (can_transition r.state to)) [
      | inl e ↦ rw e (
          tx-Unique id r.state (set_transition to code now) (transitioned r to code now) db
            (λ d. refl) (λ x. refl) u)
      | inr e ↦ rw e u
    ]

claim_found-Unique :
    (o : Option RequestRow) (now : Time) (db : Db)
    → Unique db.requests
    → Unique (claim_found o now db).1.requests
unfolding claim_found
claim_found-Unique none now db u = u
claim_found-Unique (some r) now db u =
    tx-Unique r.id State.queued (set_claimed now) (read_claimed r.id) db
      (read_claimed-requests false r.id db r.id) (λ x. refl) u

fresh_id :
    (r : Request) (db : Db)
    → constraint_violated r db ≡ false
    → is_some (find_row r.id db.requests) ≡ false
unfolding constraint_violated
fresh_id r db h = ground arith

create-Unique :
    (r : Request) (now : Time) (db : Db)
    → Unique db.requests
    → Unique (create_request r now db).1.requests
unfolding create_request request_row
create-Unique r now db u = elim (Bool-cases (constraint_violated (stamped r now) db)) [
  | inl e ↦ rw e u
  | inr e ↦ rw e (
      append-Unique db.requests (request_row (stamped r now)) u
        (All-absent r.id db.requests (fresh_id (stamped r now) db e)))
]

-- No call makes two requests with one id.
pub run_op-Unique : (op : Op) (db : Db) → Unique db.requests → Unique (run_op op db).requests
unfolding transition_request claim_next_queued save_serving_node_and_locate complete_request requeue
    fail_request recover set_request_subscription purge
run_op-Unique (create r now) db u = create-Unique r now db u
run_op-Unique (set_subscription id s) db u =
    update-Unique (has_id id) (λ r. record r { subscription_id = some s }) (λ x. refl) db.requests u
run_op-Unique (transition id to code now) db u =
    transition_found-Unique (find_row id db.requests) id to code now db u
run_op-Unique (claim now) db u =
    claim_found-Unique (least created_before (keep (claimable now) db.requests)) now db u
run_op-Unique (locate id n now) db u =
    tx-Unique id State.resolving (set_locating now) (save_serving_node id n) db (λ d. refl)
      (λ x. refl) u
run_op-Unique (retry id from next code now) db u =
    update-Unique (has_id_state id from) (set_queued next code now) (λ x. refl) db.requests u
run_op-Unique (fail id from code desc now) db u =
    update-Unique (has_id_state id from) (set_failed code desc now) (λ x. refl) db.requests u
run_op-Unique (complete id v now) db u =
    tx-Unique id State.locating (set_completed now) (store_result id v) db (λ d. refl) (λ x. refl) u
run_op-Unique (recover_all now) db u =
    update-Unique is_active (set_recovered now) (λ x. refl) db.requests u
run_op-Unique (purge_old a b) db u = keep-Unique (retained a) db.requests u

-- A sequence of calls, in the order in which the database serves them.
abbrev pub run_ops : List Op → Db → Db
run_ops [] db = db
run_ops (op ∷ ops) db = run_ops ops (run_op op db)

abbrev pub IsKeeping : Op → Type 0
IsKeeping (purge_old a b) = ⊥
IsKeeping _ = Unit

no_edge_from_terminal : (s t : State) → terminal s ≡ true → s ⟶ t → ⊥
unfolding can_transition
no_edge_from_terminal s t h e = ground (arith, ⟶-can_transition e)

finished_stays :
    (o : Option RequestRow) (r : RequestRow)
    → terminal r.state ≡ true
    → Follows false (some r) o
    → (x : RequestRow) × (o ≡ some x) × (x.state ≡ r.state)
finished_stays none r h f = absurd (false≢true f.0)
finished_stays (some x) r h (same, inl e) = (x, refl, e)
finished_stays (some x) r h (same, inr e) = absurd (no_edge_from_terminal r.state x.state h e)

keeping-not_purge : (op : Op) → IsKeeping op → is_purge op ≡ false
keeping-not_purge (purge_old a b) k = absurd k
keeping-not_purge (create r now) k = refl
keeping-not_purge _ k = refl

-- Once a request has finished (completed, failed, cancelled, expired or indeterminate), no sequence of
-- calls moves it to another state or removes it, as long as none of them is a purge: so a late answer
-- never completes a cancelled request, and a retry never revives it.
pub run_ops-terminal :
    (ops : List Op) (db : Db) (id : Text) (r : RequestRow)
    → Unique db.requests
    → All IsUsed ops
    → All IsKeeping ops
    → find_row id db.requests ≡ some r
    → terminal r.state ≡ true
    → (x : RequestRow) × (find_row id (run_ops ops db).requests ≡ some x) × (x.state ≡ r.state)
run_ops-terminal [] db id r u h k e t = (r, e, refl)
run_ops-terminal (op ∷ ops) db id r u h k e t =
    let after = find_row id (run_op op db).requests in
    let step : Follows false (some r) after =
      rw (keeping-not_purge op k.0, e) at (run_op-Follows op db id u h.0) in
    let (x, f, q) = finished_stays after r t step in
    let (y, g, p) =
      run_ops-terminal ops (run_op op db) id x (run_op-Unique op db u) h.1 k.1 f (rw q t) in
    (y, g, p ∙ q)
