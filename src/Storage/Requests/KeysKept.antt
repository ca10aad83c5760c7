-- ===== src/Storage/Requests/KeysKept.antt =====
-- The calls on location_requests: a key leads to the same request until a purge.
use vectorcore_gmlc.Base.{
  ◌≡◌, refl, ap, ◌∙◌, Bool, false, Option, none, some, List, [], ◌∷◌, ◌++◌, first, ◌==◌, All, keep,
  Bool-cases, inl, inr, Result, String,
}
use vectorcore_gmlc.Base.Text.{Text}
use vectorcore_gmlc.Errors.{Error}
use vectorcore_gmlc.Domain.{Time, State, can_transition, Request}
use vectorcore_gmlc.Storage.Schema.{RequestRow, Db}
use vectorcore_gmlc.Storage.Sql.{update, affected, least}
use vectorcore_gmlc.Storage.Requests.{
  has_id, has_id_state, has_key, update_request_tx, create_request, constraint_violated, stamped,
  request_row, set_request_subscription, transition_request, transition_found, transitioned,
  set_transition, claim_next_queued, claim_found, read_claimed, set_claimed, claimable,
  created_before, save_serving_node_and_locate, save_serving_node, set_locating, requeue,
  fail_request, complete_request, set_completed, store_result, set_queued, set_failed, recover,
  set_recovered, is_active,
}
use vectorcore_gmlc.Storage.Requests.Rows.{find_row}
use vectorcore_gmlc.Storage.Requests.Keys.{Keyed}
use vectorcore_gmlc.Storage.Requests.Lifecycle.{
  Op, create, set_subscription, transition, claim, locate, retry, fail, complete, recover_all,
  purge_old, run_op, read_claimed-requests,
}
use vectorcore_gmlc.Storage.Requests.Invariant.{run_ops, IsKeeping}

-- A function that leaves the id and the key of a row.
abbrev KeepsKey : (RequestRow → RequestRow) → Type 0
KeepsKey f =
    (x : RequestRow)
    → ((f x).client_id ≡ x.client_id)
      × ((f x).idempotency_key ≡ x.idempotency_key)
      × ((f x).id ≡ x.id)

module _ (client key id : Text) where
  abbrev KeyedIn : List RequestRow → Type 0
  KeyedIn rows = (row : RequestRow) × (first (has_key client key) rows ≡ some row) × (row.id ≡ id)

  append-KeyedIn : (rows more : List RequestRow) → KeyedIn rows → KeyedIn (rows ++ more)
  append-KeyedIn [] more (row, e, same) = cc
  append-KeyedIn (x ∷ rows) more (row, e, same) = elim (Bool-cases (has_key client key x)) [
    | inl k ↦ (row, rw k (rw k at e), same)
    | inr k ↦ let (u, f, q) = append-KeyedIn rows more (row, rw k at e, same) in (u, rw k f, q)
  ]

  module _ (p : RequestRow → Bool) (f : RequestRow → RequestRow) (keeps : KeepsKey f) where
    moved : (x : RequestRow) → has_key client key (f x) ≡ has_key client key x
    moved x = rw ((keeps x).0, (keeps x).1) refl

    update-KeyedIn : (rows : List RequestRow) → KeyedIn rows → KeyedIn (update p f rows)
    unfolding update
    update-KeyedIn [] (row, e, same) = cc
    update-KeyedIn (x ∷ rows) (row, e, same) = elim (Bool-cases (has_key client key x)) [
      | inl k ↦
          let here : x ≡ row = cc (rw k at e) in
          elim (Bool-cases (p x)) [
            | inl t ↦ (f x, rw (t, moved x, k) refl, (keeps x).2 ∙ ap (λ r. r.id) here ∙ same)
            | inr t ↦ (x, rw (t, k) refl, ap (λ r. r.id) here ∙ same)
          ]
      | inr k ↦
          let (u, g, q) = update-KeyedIn rows (row, rw k at e, same) in
          elim (Bool-cases (p x)) [
            | inl t ↦ (u, rw (t, moved x, k) g, q)
            | inr t ↦ (u, rw (t, k) g, q)
          ]
    ]

  -- An UPDATE in a transaction whose rest leaves the requests.
  tx-KeyedIn {ℓ} :
      {A : Type ℓ} (rid : Text) (from : State) (f : RequestRow → RequestRow)
      (next : Db → Result Error A × Db) (db : Db)
      → KeepsKey f
      → ((d : Db) → (next d).1.requests ≡ d.requests)
      → KeyedIn db.requests
      → KeyedIn (update_request_tx rid from f next db).1.requests
  tx-KeyedIn rid from f next db keeps same h =
      elim (Bool-cases (affected (has_id_state rid from) db.requests == 1)) [
        | inl t ↦ rw (t, same _) (update-KeyedIn (has_id_state rid from) f keeps db.requests h)
        | inr t ↦ rw t h
      ]

  transition_found-KeyedIn :
      (o : Option RequestRow) (rid : Text) (to : State) (code : String) (now : Time) (db : Db)
      → KeyedIn db.requests
      → KeyedIn (transition_found o rid to code now db).1.requests
  unfolding transition_found
  transition_found-KeyedIn none rid to code now db h = h
  transition_found-KeyedIn (some r) rid to code now db h =
      elim (Bool-cases (can_transition r.state to)) [
        | inl e ↦ rw e (
            tx-KeyedIn rid r.state (set_transition to code now) (transitioned r to code now) db
              (λ x. (refl, refl, refl)) (λ d. refl) h)
        | inr e ↦ rw e h
      ]

  claim_found-KeyedIn :
      (o : Option RequestRow) (now : Time) (db : Db)
      → KeyedIn db.requests
      → KeyedIn (claim_found o now db).1.requests
  unfolding claim_found
  claim_found-KeyedIn none now db h = h
  claim_found-KeyedIn (some r) now db h =
      tx-KeyedIn r.id State.queued (set_claimed now) (read_claimed r.id) db
        (λ x. (refl, refl, refl)) (read_claimed-requests false r.id db r.id) h

  create-KeyedIn :
      (r : Request) (now : Time) (db : Db)
      → KeyedIn db.requests
      → KeyedIn (create_request r now db).1.requests
  unfolding create_request
  create-KeyedIn r now db h = elim (Bool-cases (constraint_violated (stamped r now) db)) [
    | inl e ↦ rw e h
    | inr e ↦ rw e (append-KeyedIn db.requests (request_row (stamped r now) ∷ []) h)
  ]

  run_op-KeyedIn :
      (op : Op) (db : Db) → IsKeeping op → KeyedIn db.requests → KeyedIn (run_op op db).requests
  unfolding transition_request claim_next_queued save_serving_node_and_locate complete_request
      requeue fail_request recover set_request_subscription
  run_op-KeyedIn (create r now) db k h = create-KeyedIn r now db h
  run_op-KeyedIn (set_subscription rid s) db k h =
      update-KeyedIn (has_id rid) (λ r. record r { subscription_id = some s })
        (λ x. (refl, refl, refl)) db.requests h
  run_op-KeyedIn (transition rid to code now) db k h =
      transition_found-KeyedIn (find_row rid db.requests) rid to code now db h
  run_op-KeyedIn (claim now) db k h =
      claim_found-KeyedIn (least created_before (keep (claimable now) db.requests)) now db h
  run_op-KeyedIn (locate rid n now) db k h =
      tx-KeyedIn rid State.resolving (set_locating now) (save_serving_node rid n) db
        (λ x. (refl, refl, refl)) (λ d. refl) h
  run_op-KeyedIn (retry rid from next code now) db k h =
      update-KeyedIn (has_id_state rid from) (set_queued next code now) (λ x. (refl, refl, refl))
        db.requests h
  run_op-KeyedIn (fail rid from code desc now) db k h =
      update-KeyedIn (has_id_state rid from) (set_failed code desc now) (λ x. (refl, refl, refl))
        db.requests h
  run_op-KeyedIn (complete rid v now) db k h =
      tx-KeyedIn rid State.locating (set_completed now) (store_result rid v) db
        (λ x. (refl, refl, refl)) (λ d. refl) h
  run_op-KeyedIn (recover_all now) db k h =
      update-KeyedIn is_active (set_recovered now) (λ x. (refl, refl, refl)) db.requests h
  run_op-KeyedIn (purge_old a b) db k h = absurd k

  -- After calls without a purge, a key leads to a request with the same id.
  pub run_ops-Keyed :
      (ops : List Op) (db : Db)
      → All IsKeeping ops
      → Keyed client key id db
      → Keyed client key id (run_ops ops db)
  run_ops-Keyed [] db k h = h
  run_ops-Keyed (op ∷ ops) db (k, ks) h =
      run_ops-Keyed ops (run_op op db) ks (run_op-KeyedIn op db k h)
