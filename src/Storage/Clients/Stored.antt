-- ===== src/Storage/Clients/Stored.antt =====
-- UpsertClient of internal/storage/sqlite/sqlite.go: what it stores, and what it leaves.
use vectorcore_gmlc.Base.{
  ◌≡◌, refl, ap, ◌∙◌, Bool, true, false, ◌||◌, not, Bool-cases, inl, inr, some, List, [], ◌∷◌, ◌++◌,
  map, All, first, keep, ok,
}
use vectorcore_gmlc.Base.Text.{Text, text_eq, text_eq_refl, text_eq_iff, text_leb}
use vectorcore_gmlc.Domain.{ServiceType, service_eq}
use vectorcore_gmlc.Storage.Schema
use vectorcore_gmlc.Storage.Schema.{ClientRow, Db}
use vectorcore_gmlc.Storage.Clients.{
  upsert_client, get_client_authz_data, credential_row, repeated, service_leb,
}
use vectorcore_gmlc.Storage.Sql.{sort_by}

module _ {ℓ} {A : Type ℓ} (p : A → Bool) where
  -- The rows that a statement has replaced.
  first_replaced :
      (xs : List A) (y : A) → p y ≡ true → first p (keep (λ x. not (p x)) xs ++ y ∷ []) ≡ some y
  first_replaced [] y h = rw h refl
  first_replaced (x ∷ xs) y h = elim (Bool-cases (p x)) [
    | inl e ↦ rw e (first_replaced xs y h)
    | inr e ↦ simp e (first_replaced xs y h)
  ]

  keep_replaced :
      (xs ys : List A) → All (λ y. p y ≡ true) ys → keep p (keep (λ x. not (p x)) xs ++ ys) ≡ ys
  keep_replaced [] [] h = refl
  keep_replaced [] (y ∷ ys) (h, hs) = rw (h, keep_replaced [] ys hs) refl
  keep_replaced (x ∷ xs) ys h = elim (Bool-cases (p x)) [
    | inl e ↦ rw e (keep_replaced xs ys h)
    | inr e ↦ simp e (keep_replaced xs ys h)
  ]

module _ {ℓ} {A : Type ℓ} (p q : A → Bool) where
  -- The rows that it leaves.
  first_left :
      (xs : List A) (y : A)
      → ((x : A) → p x ≡ true → q x ≡ false)
      → p y ≡ false
      → first p (keep (λ x. not (q x)) xs ++ y ∷ []) ≡ first p xs
  first_left [] y other h = rw h refl
  first_left (x ∷ xs) y other h = elim (Bool-cases (p x)) [
    | inl e ↦ simp (e, other x e)
    | inr e ↦ elim (Bool-cases (q x)) [
      | inl g ↦ simp (e, g) (first_left xs y other h)
      | inr g ↦ simp (e, g) (first_left xs y other h)
    ]
  ]

  keep_left :
      (xs ys : List A)
      → ((x : A) → p x ≡ true → q x ≡ false)
      → All (λ y. p y ≡ false) ys
      → keep p (keep (λ x. not (q x)) xs ++ ys) ≡ keep p xs
  keep_left [] [] other h = refl
  keep_left [] (y ∷ ys) other (h, hs) = rw h (keep_left [] ys other hs)
  keep_left (x ∷ xs) ys other h = elim (Bool-cases (p x)) [
    | inl e ↦ simp (e, other x e) (ap (λ l. x ∷ l) (keep_left xs ys other h))
    | inr e ↦ elim (Bool-cases (q x)) [
      | inl g ↦ simp (e, g) (keep_left xs ys other h)
      | inr g ↦ simp (e, g) (keep_left xs ys other h)
    ]
  ]

-- The rows of a table of grants.
module _ {ℓ} {A : Type ℓ} where
  abbrev of_id : Text → Text × A → Bool
  of_id id p = text_eq p.0 id

  abbrev grant : Text × A → A
  grant p = p.1

  abbrev rows_of : Text → List A → List (Text × A)
  rows_of id xs = map (λ x. (id, x)) xs

  map-rows_of : (id : Text) (xs : List A) → map grant (rows_of id xs) ≡ xs
  map-rows_of id [] = refl
  map-rows_of id (x ∷ xs) = ap (λ l. x ∷ l) (map-rows_of id xs)

  All-rows_of :
      (id key : Text) (b : Bool) (xs : List A)
      → text_eq key id ≡ b
      → All (λ y. of_id id y ≡ b) (rows_of key xs)
  All-rows_of id key b [] h = tt
  All-rows_of id key b (x ∷ xs) h = (h, All-rows_of id key b xs h)

  grants_replaced :
      (id : Text) (rows : List (Text × A)) (xs : List A)
      → map grant (keep (of_id id) (keep (λ p. not (of_id id p)) rows ++ rows_of id xs)) ≡ xs
  grants_replaced id rows xs =
      ap (map grant) (
        keep_replaced (of_id id) rows (rows_of id xs) (All-rows_of id id true xs (text_eq_refl id)))
      ∙ map-rows_of id xs

text_eq_sym : (s t : Text) → text_eq s t ≡ false → text_eq t s ≡ false
text_eq_sym s t h = elim (Bool-cases (text_eq t s)) [
  | inl e ↦ cc (rw ((text_eq_iff t s).0 e, text_eq_refl s) at h)
  | inr e ↦ e
]

-- Rows of one id are not those of another.
text_eq_other :
    (id other key : Text)
    → text_eq other id ≡ false
    → text_eq key id ≡ true
    → text_eq key other ≡ false
text_eq_other id other key n e = rw ((text_eq_iff key id).0 e) (text_eq_sym other id n)

module _ {ℓ} {A : Type ℓ} where
  grants_left :
      (id other : Text) (rows : List (Text × A)) (xs : List A)
      → text_eq other id ≡ false
      → map grant (keep (of_id id) (keep (λ p. not (of_id other p)) rows ++ rows_of other xs))
        ≡ map grant (keep (of_id id) rows)
  grants_left id other rows xs n = ap (map grant) (
      keep_left (of_id id) (of_id other) rows (rows_of other xs)
        (λ p e. text_eq_other id other p.0 n e) (All-rows_of id other false xs n))

-- A client whose columns and grants, in their order, are those that the store holds under its id.
abbrev pub Stored : Schema.Client → Db → Type 0
Stored c db =
    (first (λ r. text_eq r.id c.id) db.clients ≡ some (credential_row c))
    × (get_client_authz_data c.id db
        ≡ (sort_by service_leb c.services, sort_by text_leb c.target_prefixes))

pair_path :
    (a b : List ServiceType) (u v : List Text)
    → a ≡ b
    → u ≡ v
    → ◌≡◌ {A = List ServiceType × List Text} (a, u) (b, v)
pair_path a b u v h k = rw (h, k) refl

pub upsert_client-Stored :
    (c : Schema.Client) (db : Db) → (upsert_client c db).0 ≡ ok tt → Stored c (upsert_client c db).1
unfolding upsert_client get_client_authz_data
upsert_client-Stored c db h =
    elim (Bool-cases (repeated service_eq c.services || repeated text_eq c.target_prefixes)) [
      | inl e ↦ cc (rw e at h)
      | inr e ↦ rw e (
        first_replaced (λ r. text_eq r.id c.id) db.clients (credential_row c) (text_eq_refl c.id),
        pair_path _ _ _ _
            (ap (sort_by service_leb) (grants_replaced c.id db.client_services c.services))
            (ap (sort_by text_leb)
              (grants_replaced c.id db.client_target_prefixes c.target_prefixes)),
      )
    ]

pub upsert_client-others :
    (c d : Schema.Client) (db : Db)
    → text_eq d.id c.id ≡ false
    → Stored c db
    → (upsert_client d db).0 ≡ ok tt
    → Stored c (upsert_client d db).1
unfolding upsert_client get_client_authz_data
upsert_client-others c d db n (s, g) h =
    elim (Bool-cases (repeated service_eq d.services || repeated text_eq d.target_prefixes)) [
      | inl e ↦ cc (rw e at h)
      | inr e ↦ rw e (
        first_left (λ r. text_eq r.id c.id) (λ r. text_eq r.id d.id) db.clients (credential_row d)
              (λ r k. text_eq_other c.id d.id r.id n k) n
            ∙ s,
        pair_path _ _ _ _
              (ap (sort_by service_leb) (grants_left c.id d.id db.client_services d.services n))
              (ap (sort_by text_leb)
                (grants_left c.id d.id db.client_target_prefixes d.target_prefixes n))
            ∙ g,
      )
    ]
