-- ===== src/Storage/Requests/Lifecycle.antt =====
-- What the operations on location_requests can do to one request.
use vectorcore_gmlc.Base.{
  ◌≡◌, refl, Bool, true, false, Option, none, some, List, [], ◌∷◌, ◌++◌, arith, keep, Bool-cases,
  All, Result, ◌⊎◌, inl, inr, ◌==◌, String,
}
use vectorcore_gmlc.Base.Text.{Text, text_eq, text_eq_iff}
use vectorcore_gmlc.Errors.{Error}
use vectorcore_gmlc.Domain.{
  Time, State, terminal, can_transition, Request, ServingNode, LocationResult,
}
use vectorcore_gmlc.Domain.Transitions.{◌⟶◌, can_transition-⟶}
use vectorcore_gmlc.Storage.Sql.{update, affected, least}
use vectorcore_gmlc.Storage.Schema.{RequestRow, Db}
use vectorcore_gmlc.Storage.Requests.{
  has_id, has_id_state, update_request_tx, create_request, set_request_subscription,
  transition_request, claim_next_queued, save_serving_node_and_locate, requeue, fail_request,
  complete_request, recover, purge, request_row, stamped, constraint_violated, transition_found,
  claim_found, claimed, read_claimed, save_serving_node, store_result, set_transition, transitioned,
  set_claimed, set_locating, set_queued, set_failed, set_completed, set_recovered, is_active,
  retained, created_before, claimable,
}
use vectorcore_gmlc.Storage.Requests.Rows.{
  find_row, on_row, find_row-update, KeepsId, Unique, state_eq→≡,
}

-- One call of the store.
pub data Op : Type 0 where
  create : Request → Time → Op
  set_subscription : Text → Text → Op
  transition : Text → State → String → Time → Op
  claim : Time → Op
  locate : Text → ServingNode → Time → Op
  retry : Text → State → Time → String → Time → Op
  fail : Text → State → String → String → Time → Op
  complete : Text → LocationResult → Time → Op
  recover_all : Time → Op
  purge_old : Time → Time → Op

abbrev pub run_op : Op → Db → Db
run_op (create r now) db = (create_request r now db).1
run_op (set_subscription id s) db = (set_request_subscription id s db).1
run_op (transition id to code now) db = (transition_request id to code now db).1
run_op (claim now) db = (claim_next_queued now db).1
run_op (locate id n now) db = (save_serving_node_and_locate id n now db).1
run_op (retry id from next code now) db = (requeue id from next code now db).1
run_op (fail id from code desc now) db = (fail_request id from code desc now db).1
run_op (complete id v now) db = (complete_request id v now db).1
run_op (recover_all now) db = recover now db
run_op (purge_old a b) db = purge a b db

-- The program creates requests as queued, and retries and fails requests that it works on.
abbrev pub IsActive : State → Type 0
IsActive s = (s ≡ State.resolving) ⊎ (s ≡ State.locating)

abbrev pub IsUsed : Op → Type 0
IsUsed (create r now) = r.state ≡ State.queued
IsUsed (retry id from next code now) = IsActive from
IsUsed (fail id from code desc now) = IsActive from
IsUsed _ = Unit

-- The columns that no operation changes.
abbrev pub SameRequest : RequestRow → RequestRow → Type 0
SameRequest r x =
    (x.client_id ≡ r.client_id)
    × (x.idempotency_key ≡ r.idempotency_key)
    × (x.target_kind ≡ r.target_kind)
    × (x.target_value ≡ r.target_value)
    × (x.created_at ≡ r.created_at)

-- A request before and after a call: it stays or takes an edge of the graph, only a purge removes
-- one, which is finished, and a new one is queued.
abbrev pub Follows : Bool → Option RequestRow → Option RequestRow → Type 0
Follows purging none none = Unit
Follows purging none (some x) = x.state ≡ State.queued
Follows purging (some r) none = (purging ≡ true) × (terminal r.state ≡ true)
Follows purging (some r) (some x) = SameRequest r x × ((x.state ≡ r.state) ⊎ (r.state ⟶ x.state))

abbrev Edge : (RequestRow → Bool) → (RequestRow → RequestRow) → Type 0
Edge p f =
    (r : RequestRow)
    → p r ≡ true
    → SameRequest r (f r) × (((f r).state ≡ r.state) ⊎ (r.state ⟶ (f r).state))

SameRequest-refl : (r : RequestRow) → SameRequest r r
SameRequest-refl r = (refl, refl, refl, refl, refl)

module _ (g : Bool) where
  Follows-refl : (o : Option RequestRow) → Follows g o o
  Follows-refl none = tt
  Follows-refl (some r) = (SameRequest-refl r, inl refl)

  Follows-on_row :
      (p : RequestRow → Bool) (f : RequestRow → RequestRow) (o : Option RequestRow)
      → Edge p f
      → Follows g o (on_row p f o)
  Follows-on_row p f none e = tt
  Follows-on_row p f (some r) e = elim (Bool-cases (p r)) [
    | inl t ↦ rw t (e r t)
    | inr t ↦ rw t (Follows-refl (some r))
  ]

  Follows-update :
      (p : RequestRow → Bool) (f : RequestRow → RequestRow) (id : Text) (rows : List RequestRow)
      → KeepsId f
      → Edge p f
      → Follows g (find_row id rows) (find_row id (update p f rows))
  Follows-update p f id rows k e =
      rw (find_row-update p f k id rows) (Follows-on_row p f (find_row id rows) e)

  retry_edge : (s : State) → IsActive s → s ⟶ State.queued
  retry_edge s (inl e) = rw e ◌⟶◌.retry_resolving
  retry_edge s (inr e) = rw e ◌⟶◌.retry_locating

  fail_edge : (s : State) → IsActive s → s ⟶ State.failed
  unfolding terminal
  fail_edge s a = ◌⟶◌.give_up (ground arith) refl (λ e. ground arith)

  -- A function that only moves rows from one state along an edge.
  Edge-to :
      (id : Text) (from to : State) (f : RequestRow → RequestRow)
      → ((r : RequestRow) → SameRequest r (f r))
      → ((r : RequestRow) → (f r).state ≡ to)
      → from ⟶ to
      → Edge (has_id_state id from) f
  Edge-to id from to f same moved edge r t =
      let q : r.state ≡ from = state_eq→≡ r.state from (ground arith) in
      (same r, inr (rw (moved r, q) edge))

  module _ {ℓ} {A : Type ℓ} where
    Follows-tx :
        (id rid : Text) (from : State) (f : RequestRow → RequestRow)
        (next : Db → Result Error A × Db) (db : Db)
        → ((d : Db) → (next d).1.requests ≡ d.requests)
        → KeepsId f
        → Edge (has_id_state rid from) f
        → Follows g
            (find_row id db.requests)
            (find_row id (update_request_tx rid from f next db).1.requests)
    Follows-tx id rid from f next db same k e =
        elim (Bool-cases (affected (has_id_state rid from) db.requests == 1)) [
          | inl t ↦ rw (t, same _) (Follows-update (has_id_state rid from) f id db.requests k e)
          | inr t ↦ rw t (Follows-refl (find_row id db.requests))
        ]

  find_row-append :
      (id : Text) (rows : List RequestRow) (x : RequestRow)
      → x.state ≡ State.queued
      → Follows g (find_row id rows) (find_row id (rows ++ x ∷ []))
  find_row-append id [] x q = elim (Bool-cases (has_id id x)) [ inl e ↦ rw e q | inr e ↦ rw e tt ]
  find_row-append id (r ∷ rows) x q = elim (Bool-cases (has_id id r)) [
    | inl e ↦ rw e (Follows-refl (some r))
    | inr e ↦ rw e (find_row-append id rows x q)
  ]

  module _ (id : Text) (db : Db) where
    create-Follows :
        (r : Request) (now : Time)
        → r.state ≡ State.queued
        → Follows g (find_row id db.requests) (find_row id (create_request r now db).1.requests)
    unfolding create_request request_row
    create-Follows r now q = elim (Bool-cases (constraint_violated (stamped r now) db)) [
      | inl e ↦ rw e (Follows-refl (find_row id db.requests))
      | inr e ↦ rw e (find_row-append id db.requests (request_row (stamped r now)) q)
    ]

    transition_found-Follows :
        (o : Option RequestRow) (rid : Text) (to : State) (code : String) (now : Time)
        → Follows g
            (find_row id db.requests)
            (find_row id (transition_found o rid to code now db).1.requests)
    unfolding transition_found
    transition_found-Follows none rid to code now = Follows-refl (find_row id db.requests)
    transition_found-Follows (some r) rid to code now =
        elim (Bool-cases (can_transition r.state to)) [
          | inl e ↦ rw e (
              Follows-tx id rid r.state (set_transition to code now) (transitioned r to code now) db
                (λ d. refl) (λ x. refl)
                (Edge-to rid r.state to (set_transition to code now) SameRequest-refl (λ x. refl)
                  (can_transition-⟶ r.state to e)))
          | inr e ↦ rw e (Follows-refl (find_row id db.requests))
        ]

    pub claimed-requests : (o : Option RequestRow) (d : Db) → (claimed o d).1.requests ≡ d.requests
    unfolding claimed
    claimed-requests none d = refl
    claimed-requests (some x) d = refl

    pub read_claimed-requests : (rid : Text) (d : Db) → (read_claimed rid d).1.requests ≡ d.requests
    unfolding read_claimed
    read_claimed-requests rid d = claimed-requests (find_row rid d.requests) d

    claim_found-Follows :
        (o : Option RequestRow) (now : Time)
        → Follows g (find_row id db.requests) (find_row id (claim_found o now db).1.requests)
    unfolding claim_found
    claim_found-Follows none now = Follows-refl (find_row id db.requests)
    claim_found-Follows (some r) now =
        Follows-tx id r.id State.queued (set_claimed now) (read_claimed r.id) db
          (read_claimed-requests r.id) (λ x. refl)
          (Edge-to r.id State.queued State.resolving (set_claimed now) SameRequest-refl (λ x. refl)
            ◌⟶◌.claim)

    locate-Follows :
        (rid : Text) (n : ServingNode) (now : Time)
        → Follows g
            (find_row id db.requests)
            (find_row id (save_serving_node_and_locate rid n now db).1.requests)
    unfolding save_serving_node_and_locate
    locate-Follows rid n now =
        Follows-tx id rid State.resolving (set_locating now) (save_serving_node rid n) db
          (λ d. refl) (λ x. refl)
          (Edge-to rid State.resolving State.locating (set_locating now) SameRequest-refl
            (λ x. refl) ◌⟶◌.locate)

    complete-Follows :
        (rid : Text) (v : LocationResult) (now : Time)
        → Follows g
            (find_row id db.requests)
            (find_row id (complete_request rid v now db).1.requests)
    unfolding complete_request
    complete-Follows rid v now =
        Follows-tx id rid State.locating (set_completed now) (store_result rid v) db (λ d. refl)
          (λ x. refl)
          (Edge-to rid State.locating State.completed (set_completed now) SameRequest-refl
            (λ x. refl) ◌⟶◌.complete)

    requeue-Follows :
        (rid : Text) (from : State) (next : Time) (code : String) (now : Time)
        → IsActive from
        → Follows g
            (find_row id db.requests)
            (find_row id (requeue rid from next code now db).1.requests)
    unfolding requeue
    requeue-Follows rid from next code now a =
        Follows-update (has_id_state rid from) (set_queued next code now) id db.requests (λ x. refl)
          (Edge-to rid from State.queued (set_queued next code now) SameRequest-refl (λ x. refl)
            (retry_edge from a))

    fail-Follows :
        (rid : Text) (from : State) (code desc : String) (now : Time)
        → IsActive from
        → Follows g
            (find_row id db.requests)
            (find_row id (fail_request rid from code desc now db).1.requests)
    unfolding fail_request
    fail-Follows rid from code desc now a =
        Follows-update (has_id_state rid from) (set_failed code desc now) id db.requests (λ x. refl)
          (Edge-to rid from State.failed (set_failed code desc now) SameRequest-refl (λ x. refl)
            (fail_edge from a))

    recover-Follows :
        (now : Time) → Follows g (find_row id db.requests) (find_row id (recover now db).requests)
    unfolding recover
    recover-Follows now =
        Follows-update is_active (set_recovered now) id db.requests (λ x. refl)
          λ r t. (SameRequest-refl r, inr (retry_edge r.state (ground arith)))

    subscription-Follows :
        (rid s : Text)
        → Follows g
            (find_row id db.requests)
            (find_row id (set_request_subscription rid s db).1.requests)
    unfolding set_request_subscription
    subscription-Follows rid s =
        Follows-update (has_id rid) (λ r. record r { subscription_id = some s }) id db.requests
          (λ x. refl) (λ r t. (SameRequest-refl r, inl refl))

find_row-none :
    (p : RequestRow → Bool) (id : Text) (rows : List RequestRow)
    → All (λ x. text_eq x.id id ≡ false) rows
    → find_row id (keep p rows) ≡ none
find_row-none p id [] h = refl
find_row-none p id (r ∷ rows) h = ground (arith, find_row-none p id rows h.1)

find_row-keep :
    (p : RequestRow → Bool) (id : Text) (rows : List RequestRow)
    → Unique rows
    → ((r : RequestRow) → p r ≡ false → terminal r.state ≡ true)
    → Follows true (find_row id rows) (find_row id (keep p rows))
find_row-keep p id [] u h = tt
find_row-keep p id (r ∷ rows) u h = elim (Bool-cases (has_id id r)) [
  | inl e ↦ elim (Bool-cases (p r)) [
    | inl t ↦ rw (e, t) (rw e (Follows-refl true (some r)))
    | inr t ↦
        rw (e, t)
          (rw (find_row-none p id rows (rw ((text_eq_iff r.id id).0 e) at u.0)) (refl, h r t))
  ]
  | inr e ↦ elim (Bool-cases (p r)) [
    | inl t ↦ rw (e, t) (rw e (find_row-keep p id rows u.1 h))
    | inr t ↦ rw (e, t) (find_row-keep p id rows u.1 h)
  ]
]

module _ (id : Text) (db : Db) where
  purge-Follows :
      (a b : Time)
      → Unique db.requests
      → Follows true (find_row id db.requests) (find_row id (purge a b db).requests)
  unfolding purge
  purge-Follows a b u = find_row-keep (retained a) id db.requests u (λ r e. ground arith)

abbrev pub is_purge : Op → Bool
is_purge (purge_old a b) = true
is_purge _ = false

-- Whatever call is made of the store, each request keeps its identity, its client and its target, and
-- its state stays or takes one edge of the graph; only `Purge` removes a request, and only a finished
-- one; a new request is queued.
pub run_op-Follows :
    (op : Op) (db : Db) (id : Text)
    → Unique db.requests
    → IsUsed op
    → Follows (is_purge op) (find_row id db.requests) (find_row id (run_op op db).requests)
unfolding claim_next_queued transition_request
run_op-Follows (create r now) db id u h = create-Follows false id db r now h
run_op-Follows (set_subscription rid s) db id u h = subscription-Follows false id db rid s
run_op-Follows (transition rid to code now) db id u h =
    transition_found-Follows false id db (find_row rid db.requests) rid to code now
run_op-Follows (claim now) db id u h =
    claim_found-Follows false id db (least created_before (keep (claimable now) db.requests)) now
run_op-Follows (locate rid n now) db id u h = locate-Follows false id db rid n now
run_op-Follows (retry rid from next code now) db id u h =
    requeue-Follows false id db rid from next code now h
run_op-Follows (fail rid from code desc now) db id u h =
    fail-Follows false id db rid from code desc now h
run_op-Follows (complete rid v now) db id u h = complete-Follows false id db rid v now
run_op-Follows (recover_all now) db id u h = recover-Follows false id db now
run_op-Follows (purge_old a b) db id u h = purge-Follows id db a b u
