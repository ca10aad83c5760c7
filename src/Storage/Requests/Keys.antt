-- ===== src/Storage/Requests/Keys.antt =====
-- CreateRequest of internal/storage/sqlite/sqlite.go: the unique index on the client and its key.
use vectorcore_gmlc.Base.{
  ◌≡◌, refl, ap, Bool, true, false, ◌||◌, Option, none, some, is_some, List, [], ◌∷◌, ◌++◌, first,
  ok, Bool-cases, ok_injective, inl, inr, arith,
}
use vectorcore_gmlc.Base.Text.{Text, text_eq_refl}
use vectorcore_gmlc.Domain.{Time, Request}
use vectorcore_gmlc.Storage.Schema.{RequestRow, Db}
use vectorcore_gmlc.Storage.Sql.{update}
use vectorcore_gmlc.Storage.Requests.{
  has_id, has_key, scan_request, scan_found, by_client_key, constraint_violated, stamped,
  create_request, not_created, request_row,
}

-- The store has a request under a key, with the given id.
abbrev pub Keyed : Text → Text → Text → Db → Type 0
Keyed client key id db =
    (row : RequestRow) × (first (has_key client key) db.requests ≡ some row) × (row.id ≡ id)

-- What the insertion of a known key returns: the request that is there, and nothing is stored.
pub create_request-known :
    (r : Request) (now : Time) (db : Db) (row : RequestRow)
    → first (has_key r.client_id r.idempotency_key) db.requests ≡ some row
    → create_request r now db ≡ (ok (scan_request row, false), db)
unfolding create_request constraint_violated by_client_key
create_request-known r now db row h =
    elim (Bool-cases (is_some (first (has_id r.id) db.requests))) [
      | inl e ↦ simp (e, h) refl
      | inr e ↦ simp (e, h) refl
    ]

scan_found-ok :
    (o : Option RequestRow) (s : Request) (b : Bool)
    → not_created (scan_found o) ≡ ok (s, b)
    → (row : RequestRow) × (o ≡ some row) × (row.id ≡ s.id)
unfolding scan_request
scan_found-ok none s b h = cc
scan_found-ok (some row) s b h =
    (row, refl, ap (λ r. r.id) (ap (λ p. p.0) (ok_injective (scan_request row, false) (s, b) h)))

middle : (a b c : Bool) → (a || b || c) ≡ false → b ≡ false
middle a b c h = ground arith

-- The last row is the first with its key when no other has it.
first-last :
    (p : RequestRow → Bool) (rows : List RequestRow) (r : RequestRow)
    → is_some (first p rows) ≡ false
    → p r ≡ true
    → first p (rows ++ r ∷ []) ≡ some r
first-last p [] r h k = rw k refl
first-last p (x ∷ rows) r h k = elim (Bool-cases (p x)) [
  | inl e ↦ cc (rw e at h)
  | inr e ↦ rw e (first-last p rows r (rw e at h) k)
]

-- Whatever the insertion does, a request that it returns is under its key.
pub create_request-Keyed :
    (r : Request) (now : Time) (db : Db) (s : Request) (b : Bool)
    → (create_request r now db).0 ≡ ok (s, b)
    → Keyed r.client_id r.idempotency_key s.id (create_request r now db).1
unfolding create_request constraint_violated by_client_key request_row scan_request
create_request-Keyed r now db s b h = elim (Bool-cases (constraint_violated (stamped r now) db)) [
  | inl e ↦
      rw e
        (scan_found-ok (first (has_key r.client_id r.idempotency_key) db.requests) s b (rw e at h))
  | inr e ↦
      let same = ap (λ p. p.0) (ok_injective (stamped r now, true) (s, b) (rw e at h)) in
      rw e (
        request_row (stamped r now),
        first-last (has_key r.client_id r.idempotency_key) db.requests (request_row (stamped r now))
            (middle (is_some (first (has_id r.id) db.requests)) _ _ e)
            (rw (text_eq_refl r.client_id, text_eq_refl r.idempotency_key) refl),
        ap (λ r. r.id) same,
      )
]

-- An UPDATE of the subscription leaves every key where it is.
pub update-Keyed :
    (client key : Text) (p : RequestRow → Bool) (sub : Text) (rows : List RequestRow)
    (row : RequestRow)
    → first (has_key client key) rows ≡ some row
    → (u : RequestRow) × (first
          (has_key client key)
          (update p (λ r. record r { subscription_id = some sub }) rows)
        ≡ some u)
      × (u.id ≡ row.id)
unfolding update
update-Keyed client key p sub [] row h = cc
update-Keyed client key p sub (x ∷ rows) row h = elim (Bool-cases (has_key client key x)) [
  | inl k ↦
      let h1 = rw k at h in
      let same : x ≡ row = cc in
      elim (Bool-cases (p x)) [
        | inl e ↦ (record x { subscription_id = some sub }, simp (e, k) refl, ap (λ r. r.id) same)
        | inr e ↦ (x, simp (e, k) refl, ap (λ r. r.id) same)
      ]
  | inr k ↦
      let (u, e, same) = update-Keyed client key p sub rows row (rw k at h) in
      elim (Bool-cases (p x)) [
        | inl g ↦ (u, simp (g, k) e, same)
        | inr g ↦ (u, simp (g, k) e, same)
      ]
]
