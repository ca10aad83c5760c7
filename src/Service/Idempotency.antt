-- ===== src/Service/Idempotency.antt =====
-- internal/service/service.go: a second submission under the same key.
use vectorcore_gmlc.Base.{
  ℕ, ◌≡◌, refl, sym, ap, subst, ◌∙◌, Bool, true, false, ◌&&◌, not, Option, none, some, is_some,
  List, All, first, Result, ok, err, ◌>>=◌, ◌>>◌, Bool-cases, ok_injective, bind_ok, ◌⊎◌, inl, inr,
  String,
}
use vectorcore_gmlc.Base.Text.{Text, text_eq, is_empty}
use vectorcore_gmlc.Errors.{Error}
use vectorcore_gmlc.Domain.{ServiceType, Target, Request, validate}
use vectorcore_gmlc.Storage.Schema.{Client, Db}
use vectorcore_gmlc.Storage.Requests.{
  has_id, has_key, scan_request, create_request, set_request_subscription,
}
use vectorcore_gmlc.Storage.Requests.Keys.{
  Keyed, create_request-known, create_request-Keyed, update-Keyed,
}
use vectorcore_gmlc.Storage.Requests.KeysKept.{run_ops-Keyed}
use vectorcore_gmlc.Storage.Requests.Lifecycle.{Op}
use vectorcore_gmlc.Storage.Requests.Invariant.{run_ops, IsKeeping}
use vectorcore_gmlc.Storage.Deliveries.{create_subscription, subscription_id_is}
use vectorcore_gmlc.Auth.{authenticate, authorize}
use vectorcore_gmlc.Auth.Grants.{authenticate-Proved}
use vectorcore_gmlc.Service.{
  Env, Submission, submit, create, submitted, new_request, attached, record_audit,
  register_callback, subscribe, prepare, validate_callback, authorized,
}

-- The client of a call that passes its checks is the one that it names.
prepare-id :
    (env : Env) (i : Submission) (db : Db) (c : Client)
    → prepare env i db ≡ ok c
    → c.id ≡ i.client_id
unfolding prepare
prepare-id env i db c h =
    let (_, _, known) = bind_ok _ (λ u. authenticate env.sha256 i.client_id i.token db) c h in
    let (_, _, _, _, _, same) = authenticate-Proved env.sha256 i.client_id i.token db c known in
    same

authorized-id : (s : ServiceType) (t : Target) (c d : Client) → authorized s t c ≡ ok d → c ≡ d
authorized-id s t c d h =
    let (_, _, same) = bind_ok (authorize c s t) (λ u. ok c) d h in ok_injective c d same

abbrev checked : Env → Submission → Target → Db → Result Error Client
checked env i t db =
    validate t
    >> validate_callback env i.callback_url i.callback_secret
    >> prepare env i db
    >>= authorized ServiceType.immediate t

checked-id :
    (env : Env) (i : Submission) (t : Target) (db : Db) (c : Client)
    → checked env i t db ≡ ok c
    → c.id ≡ i.client_id
checked-id env i t db c h =
    let (d, e, same) =
      bind_ok
        (validate t >> validate_callback env i.callback_url i.callback_secret >> prepare env i db)
        (authorized ServiceType.immediate t) c h in
    let (_, _, k) = bind_ok _ (λ u. prepare env i db) d e in
    sym (ap (λ x. x.id) (authorized-id ServiceType.immediate t d c same)) ∙ prepare-id env i db d k

-- The registration of a callback touches no request.
subscribe-requests :
    (env : Env) (client url : Text) (r : Result Error (List ℕ)) (db : Db)
    → (subscribe env client url r db).1.requests ≡ db.requests
unfolding create_subscription
subscribe-requests env client url (err e) db = refl
subscribe-requests env client url (ok c) db =
    elim (Bool-cases (
      is_some (first (λ c. text_eq c.id client) db.clients)
      && not (is_some (first (subscription_id_is env.subscription_id) db.subscriptions)))) [
        | inl e ↦ rw e refl
        | inr e ↦ rw e refl
      ]

register_callback-requests :
    (env : Env) (client url secret : Text) (db : Db)
    → (register_callback env client url secret db).1.requests ≡ db.requests
unfolding register_callback
register_callback-requests env client url secret db = by_encryptor env.encrypt_secret refl
  where
    by_encryptor :
        (o : Option (Text → Result Error (List ℕ)))
        → env.encrypt_secret ≡ o
        → (register_callback env client url secret db).1.requests ≡ db.requests
    by_encryptor none e = rw e refl
    by_encryptor (some f) e = rw e (subscribe-requests env client url (f secret) db)

Keyed-requests :
    (client key id : Text) (db db1 : Db)
    → db1.requests ≡ db.requests
    → Keyed client key id db
    → Keyed client key id db1
Keyed-requests client key id db db1 e (row, f, same) = (row, rw e f, same)

attached-Keyed :
    (env : Env) (c : Client) (detail : String) (r s : Request) (b : Bool) (key : Text) (db : Db)
    (a : Result Error Text × Db)
    → a.1.requests ≡ db.requests
    → Keyed c.id key r.id db
    → (attached env c detail r a).0 ≡ ok (s, b)
    → Keyed c.id key s.id (attached env c detail r a).1
unfolding set_request_subscription record_audit
attached-Keyed env c detail r s b key db (err e, d) same k h = cc
attached-Keyed env c detail r s b key db (ok sub, d) same (row, f, id) h =
    let here : first (has_key c.id key) d.requests ≡ some row = rw same f in
    let (u, g, w) = update-Keyed c.id key (has_id r.id) sub d.requests row here in
    let given : record r { subscription_id = some sub } ≡ s =
      ap (λ p. p.0) (ok_injective (record r { subscription_id = some sub }, true) (s, b) h) in
    (u, g, w ∙ id ∙ ap (λ x. x.id) given)

submitted-Keyed :
    (env : Env) (i : Submission) (c : Client) (detail : String) (key : Text)
    (a : Result Error (Request × Bool) × Db) (s : Request) (b : Bool)
    → ((r : Request) (n : Bool) → a.0 ≡ ok (r, n) → Keyed c.id key r.id a.1)
    → (submitted env i c detail a).0 ≡ ok (s, b)
    → Keyed c.id key s.id (submitted env i c detail a).1
unfolding submitted record_audit
submitted-Keyed env i c detail key (err e, d) s b k h = cc
submitted-Keyed env i c detail key (ok (r, n), d) s b k h =
    elim (Bool-cases (n && not (is_empty i.callback_url))) [
      | inl e ↦ rw e (
          attached-Keyed env c detail r s b key d _
            (register_callback-requests env c.id i.callback_url i.callback_secret d) (k r n refl)
            (rw e at h))
      | inr e ↦
          let h1 = rw e at h in
          let same : r ≡ s = ap (λ p. p.0) (ok_injective (r, n) (s, b) h1) in
          rw (e, ← same) (k r n refl)
    ]

create-Keyed :
    (env : Env) (i : Submission) (t : Target) (k : Result Error Client) (db : Db) (s : Request)
    (b : Bool)
    → ((c : Client) → k ≡ ok c → c.id ≡ i.client_id)
    → (create env i t k db).0 ≡ ok (s, b)
    → Keyed i.client_id i.idempotency_key s.id (create env i t k db).1
unfolding create new_request
create-Keyed env i t (err e) db s b own h = cc
create-Keyed env i t (ok c) db s b own h =
    let r = new_request i (env.new_id 0) i.idempotency_key c t in
    subst (λ id. Keyed id i.idempotency_key s.id (create env i t (ok c) db).1) (own c refl)
      (submitted-Keyed env i c "immediate location request" i.idempotency_key
        (create_request r env.now db) s b (λ q n e. create_request-Keyed r env.now db q n e) h)

-- What a submission under a known key does: it is refused, or it returns the request that is there as one that
-- was not created, and stores no request and no subscription.
abbrev pub Repeated : Text → Db → Result Error (Request × Bool) × Db → Type 0
Repeated id db a =
    ((e : Error) × (a ≡ (err e, db)))
    ⊎ ((r : Request) × (a.0 ≡ ok (r, false))
        × (r.id ≡ id)
        × (a.1.requests ≡ db.requests)
        × (a.1.subscriptions ≡ db.subscriptions))

create-Repeated :
    (env : Env) (i : Submission) (t : Target) (k : Result Error Client) (db : Db) (id : Text)
    → ((c : Client) → k ≡ ok c → c.id ≡ i.client_id)
    → Keyed i.client_id i.idempotency_key id db
    → Repeated id db (create env i t k db)
unfolding create new_request submitted record_audit scan_request
create-Repeated env i t (err e) db id own h = inl (e, refl)
create-Repeated env i t (ok c) db id own (row, f, same) =
    let r = new_request i (env.new_id 0) i.idempotency_key c t in
    let known : first (has_key c.id i.idempotency_key) db.requests ≡ some row = rw (own c refl) f in
    let there = create_request-known r env.now db row known in
    rw there (inr (scan_request row, refl, same, refl, refl))

-- A request that was submitted is returned again by every later submission of its client under its key that is
-- not refused, as one that was not created; no second request and no subscription is stored. Between the two
-- there are any calls on the requests but a purge, and anything may happen to the other tables.
pub submit-Repeated :
    (env env' : Env) (i i' : Submission) (t t' : Target) (db later : Db) (ops : List Op)
    (r : Request) (b : Bool)
    → i'.client_id ≡ i.client_id
    → i'.idempotency_key ≡ i.idempotency_key
    → (submit env i t db).0 ≡ ok (r, b)
    → All IsKeeping ops
    → later.requests ≡ (run_ops ops (submit env i t db).1).requests
    → Repeated r.id later (submit env' i' t' later)
unfolding submit
submit-Repeated env env' i i' t t' db later ops r b client key h keeping same =
    let k = create-Keyed env i t (checked env i t db) db r b (checked-id env i t db) h in
    let db1 = (submit env i t db).1 in
    let kept = run_ops-Keyed i.client_id i.idempotency_key r.id ops db1 keeping k in
    let there =
      Keyed-requests i.client_id i.idempotency_key r.id (run_ops ops db1) later same kept in
    create-Repeated env' i' t' (checked env' i' t' later) later r.id (checked-id env' i' t' later)
      (rw (client, key) there)
