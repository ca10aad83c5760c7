-- ===== src/Storage/Deliveries/Lifecycle.antt =====
-- What the calls on deliveries do to each of them.
use vectorcore_gmlc.Base.{
  ℕ, ◌+◌, ◌≡◌, refl, sym, ◌∙◌, subst, Bool, true, ◌&&◌, ◌||◌, zero, suc, Option, none, some, List,
  [], ◌∷◌, ◌++◌, arith, ◌==◌, All, Bool-cases, inl, inr, first, keep, is_some, not,
}
use vectorcore_gmlc.Base.Text.{Text, text_eq}
use vectorcore_gmlc.Domain.{Time}
use vectorcore_gmlc.Storage.Sql.{update, affected, least}
use vectorcore_gmlc.Storage.Schema.{DeliveryState, Delivery, Db}
use vectorcore_gmlc.Storage.Schema.DeliveryState.{pending, in_flight, delivered, failed}
use vectorcore_gmlc.Storage.Deliveries.{
  create_delivery, claim_next_delivery, requeue_delivery, fail_delivery, mark_delivered,
  claim_delivery_found, delivery_read, delivery_in, delivery_id_is, delivery_state_eq,
  set_in_flight, set_pending, set_finished, new_delivery, delivery_before, delivery_due,
  subscription_id_is,
}

-- The state and the attempts of a delivery before and after a call: it stays, or takes one edge.
pub data Edge : DeliveryState → ℕ → DeliveryState → ℕ → Type 0 where
  stay : {s : DeliveryState} {n : ℕ} → Edge s n s n
  take_up : {n : ℕ} → Edge pending n in_flight (n + 1)
  give_back : {n : ℕ} → Edge in_flight n pending n
  succeed : {n : ℕ} → Edge in_flight n delivered n
  give_up : {n : ℕ} → Edge in_flight n failed n

-- A delivery keeps its id, its subscription and its payload.
abbrev pub Step : Delivery → Delivery → Type 0
Step d e =
    (e.id ≡ d.id)
    × (e.subscription_id ≡ d.subscription_id)
    × (e.payload ≡ d.payload)
    × Edge d.state d.attempt_count e.state e.attempt_count

abbrev pub Fresh : Delivery → Type 0
Fresh d = (d.state ≡ pending) × (d.attempt_count ≡ 0)

-- The table before and after a call: every row steps, none is lost, and rows added are fresh.
abbrev pub Advances : List Delivery → List Delivery → Type 0
Advances [] es = All Fresh es
Advances (d ∷ ds) [] = ⊥
Advances (d ∷ ds) (e ∷ es) = Step d e × Advances ds es

Advances-refl : (ds : List Delivery) → Advances ds ds
Advances-refl [] = tt
Advances-refl (d ∷ ds) = ((refl, refl, refl, stay), Advances-refl ds)

Advances-append : (ds : List Delivery) (e : Delivery) → Fresh e → Advances ds (ds ++ e ∷ [])
Advances-append [] e h = (h, tt)
Advances-append (d ∷ ds) e h = ((refl, refl, refl, stay), Advances-append ds e h)

Advances-update :
    (p : Delivery → Bool) (f : Delivery → Delivery)
    → ((d : Delivery) → p d ≡ true → Step d (f d))
    → (ds : List Delivery) → Advances ds (update p f ds)
unfolding update
Advances-update p f h [] = tt
Advances-update p f h (d ∷ ds) = elim (Bool-cases (p d)) [
  | inl e ↦ rw e (h d e, Advances-update p f h ds)
  | inr e ↦ rw e ((refl, refl, refl, stay), Advances-update p f h ds)
]

delivery_state_eq_lem : (s t : DeliveryState) → delivery_state_eq s t ≡ true → s ≡ t
delivery_state_eq_lem s t h = ground arith

delivery_in_lem :
    (id : Text) (s : DeliveryState) (d : Delivery) → delivery_in id s d ≡ true → d.state ≡ s
delivery_in_lem id s d h = elim (Bool-cases (text_eq d.id id)) [
  | inl e ↦ delivery_state_eq_lem d.state s (rw e at h)
  | inr e ↦ ground (arith, h)
]

leaving :
    (id : Text) (s : DeliveryState) (to : DeliveryState) (f : Delivery → Delivery) (d : Delivery)
    → delivery_in id s d ≡ true
    → Edge s d.attempt_count to (f d).attempt_count
    → Edge d.state d.attempt_count to (f d).attempt_count
leaving id s to f d h e =
    subst (λ t. Edge t d.attempt_count to (f d).attempt_count) (sym (delivery_in_lem id s d h)) e

pub data Op : Type 0 where
  create : Text → Text → List ℕ → Time → Op
  claim : Time → Op
  retry : Text → Time → Time → Op
  fail : Text → ℕ → Time → Op
  deliver : Text → ℕ → Time → Op

unfoldable pub run_op : Op → Db → Db
run_op (create id subscription_id payload now) db =
    (create_delivery id subscription_id payload now db).1
run_op (claim now) db = (claim_next_delivery now db).1
run_op (retry id next now) db = (requeue_delivery id next now db).1
run_op (fail id code now) db = (fail_delivery id code now db).1
run_op (deliver id code now) db = (mark_delivered id code now db).1

-- Reading back changes nothing but what the transaction has changed.
delivery_read-Advances :
    (found : Option Delivery) (before after : Db)
    → Advances before.deliveries after.deliveries
    → Advances before.deliveries (delivery_read found before after).1.deliveries
delivery_read-Advances none before after h = Advances-refl before.deliveries
delivery_read-Advances (some d) before after h = h

claim_delivery_found-Advances :
    (found : Option Delivery) (now : Time) (db : Db)
    → Advances db.deliveries (claim_delivery_found found now db).1.deliveries
unfolding claim_delivery_found
claim_delivery_found-Advances none now db = Advances-refl db.deliveries
claim_delivery_found-Advances (some d) now db =
    let p = delivery_in d.id pending in
    let after = record db { deliveries = update p (set_in_flight now) db.deliveries } in
    elim (Bool-cases (affected p db.deliveries == 1)) [
      | inl e ↦ rw e (
          delivery_read-Advances (first (delivery_id_is d.id) after.deliveries) db after (
            Advances-update p (set_in_flight now)
              (λ x h.
                (refl, refl, refl, leaving d.id pending in_flight (set_in_flight now) x h take_up))
              db.deliveries))
      | inr e ↦ rw e (Advances-refl db.deliveries)
    ]

-- Whatever call is made, each delivery keeps its id, subscription and payload, and its state and
-- its attempts stay or take one edge: a claim of a pending one counts an attempt, one in flight is
-- given back, delivered or given up, and a finished one never changes. None is lost; a new one is pending.
pub run_op-Advances : (op : Op) (db : Db) → Advances db.deliveries (run_op op db).deliveries
unfolding run_op create_delivery claim_next_delivery requeue_delivery fail_delivery mark_delivered
run_op-Advances (create id subscription_id payload now) db =
    let stored = is_some (first (subscription_id_is subscription_id) db.subscriptions) in
    let used = is_some (first (delivery_id_is id) db.deliveries) in
    elim (Bool-cases (stored && not used)) [
      | inl e ↦
          rw (e, run_op)
            (Advances-append db.deliveries (new_delivery id subscription_id payload now)
              (refl, refl))
      | inr e ↦ rw (e, run_op) (Advances-refl db.deliveries)
    ]
run_op-Advances (claim now) db =
    claim_delivery_found-Advances (least delivery_before (keep (delivery_due now) db.deliveries))
      now db
run_op-Advances (retry id next now) db =
    Advances-update (delivery_in id in_flight) (set_pending next now)
      (λ d h. (refl, refl, refl, leaving id in_flight pending (set_pending next now) d h give_back))
      db.deliveries
run_op-Advances (fail id code now) db =
    Advances-update (delivery_in id in_flight) (set_finished failed code now)
      (λ d h.
        (refl, refl, refl, leaving id in_flight failed (set_finished failed code now) d h give_up))
      db.deliveries
run_op-Advances (deliver id code now) db =
    Advances-update (delivery_in id in_flight) (set_finished delivered code now)
      (λ d h. (
        refl,
        refl,
        refl,
        leaving id in_flight delivered (set_finished delivered code now) d h succeed,
      ))
      db.deliveries

abbrev pub run_ops : List Op → Db → Db
run_ops [] db = db
run_ops (op ∷ ops) db = run_ops ops (run_op op db)

unfoldable pub is_finished : Delivery → Bool
is_finished d = delivery_state_eq d.state delivered || delivery_state_eq d.state failed

-- The delivery at a place of the table.
abbrev pub at_index : ℕ → List Delivery → Option Delivery
at_index i [] = none
at_index zero (d ∷ ds) = some d
at_index (suc i) (d ∷ ds) = at_index i ds

-- At a place, the outcome and the attempts, once finished.
abbrev pub Kept : Delivery → Option Delivery → Type 0
Kept d none = ⊥
Kept d (some e) = (e.id ≡ d.id) × (e.state ≡ d.state) × (e.attempt_count ≡ d.attempt_count)

is_finished-Edge :
    (s t : DeliveryState) (m n : ℕ)
    → Edge s m t n
    → (delivery_state_eq s delivered || delivery_state_eq s failed) ≡ true
    → (t ≡ s) × (n ≡ m)
is_finished-Edge s _ m _ stay h = (refl, refl)
is_finished-Edge pending in_flight m n take_up h = ground (arith, h)
is_finished-Edge in_flight pending m n give_back h = ground (arith, h)
is_finished-Edge in_flight delivered m n succeed h = ground (arith, h)
is_finished-Edge in_flight failed m n give_up h = ground (arith, h)

Advances-finished :
    (i : ℕ) (d : Delivery) (ds es : List Delivery)
    → Advances ds es
    → at_index i ds ≡ some d
    → is_finished d ≡ true
    → Kept d (at_index i es)
unfolding is_finished
Advances-finished i d [] es a h f = ground (arith, h)
Advances-finished i d (x ∷ ds) [] a h f = elim a [ ]
Advances-finished zero d (x ∷ ds) (e ∷ es) a h f =
    let same : x ≡ d = ground arith in
    let step : Step d e = subst (λ y. Step y e) same a.0 in
    let end = is_finished-Edge d.state e.state d.attempt_count e.attempt_count step.3 f in
    (step.0, end.0, end.1)
Advances-finished (suc i) d (x ∷ ds) (e ∷ es) a h f = Advances-finished i d ds es a.1 h f

Kept-compose : (d e : Delivery) (o : Option Delivery) → Kept d (some e) → Kept e o → Kept d o
Kept-compose d e none h k = k
Kept-compose d e (some x) h k = (k.0 ∙ h.0, k.1 ∙ h.1, k.2 ∙ h.2)

Kept-run_ops :
    (d : Delivery) (o : Option Delivery) (ops : List Op) (i : ℕ) (db : Db)
    → is_finished d ≡ true
    → at_index i db.deliveries ≡ o
    → Kept d o
    → Kept d (at_index i (run_ops ops db).deliveries)
unfolding is_finished
Kept-run_ops d none ops i db f h k = elim k [ ]
Kept-run_ops d (some e) [] i db f h k = rw h k
Kept-run_ops d (some e) (op ∷ ops) i db f h k =
    let f' : is_finished e ≡ true = rw k.1 f in
    let next = (run_op op db).deliveries in
    let kept = Advances-finished i e db.deliveries next (run_op-Advances op db) h f' in
    Kept-run_ops d (at_index i next) ops i (run_op op db) f refl
      (Kept-compose d e (at_index i next) k kept)

-- Once a delivery was delivered or has failed, no sequence of calls loses it, changes its outcome
-- or counts another attempt.
pub run_ops-finished :
    (ops : List Op) (i : ℕ) (d : Delivery) (db : Db)
    → at_index i db.deliveries ≡ some d
    → is_finished d ≡ true
    → Kept d (at_index i (run_ops ops db).deliveries)
run_ops-finished ops i d db h f = Kept-run_ops d (some d) ops i db f h (refl, refl, refl)
