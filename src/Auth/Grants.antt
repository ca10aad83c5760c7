-- ===== src/Auth/Grants.antt =====
-- internal/auth/auth.go: Authenticate and the stored client.
use mathlib.Core.List.{Memᴰ}
use vectorcore_gmlc.Base.{
  ℕ, ◌≡◌, refl, sym, ap, ◌∙◌, Bool, true, ◌||◌, not, Option, none, some, List, [], ◌∷◌, arith,
  first, Result, ok, err, Bool-cases, inl, inr, if◌then◌else◌,
}
use vectorcore_gmlc.Base.Text.{Text, text_eq, text_eq_iff}
use vectorcore_gmlc.Errors.{Error}
use vectorcore_gmlc.Domain.{ServiceType}
use vectorcore_gmlc.Storage.Schema.{Client, ClientRow, Db}
use vectorcore_gmlc.Storage.Clients.{
  get_client_credential, get_client_authz_data, found_client, scan_client,
}
use vectorcore_gmlc.Auth.{authenticate, is_valid, hash_of, granted}

abbrev by_id : Text → ClientRow → Bool
by_id id r = text_eq r.id id

found_row :
    (id : Text) (rows : List ClientRow) (r : ClientRow)
    → first (by_id id) rows ≡ some r
    → Memᴰ r rows × (r.id ≡ id)
found_row id [] r h = cc
found_row id (x ∷ rows) r h = elim (Bool-cases (by_id id x)) [
  | inl e ↦
      let same : x ≡ r = ground (arith, h) in
      rw (← same) (Memᴰ.head refl, (text_eq_iff x.id id).0 e)
  | inr e ↦ let rest = found_row id rows r (rw e at h) in (Memᴰ.tail rest.0, rest.1)
]

-- A stored client that is enabled, with the digest of the token.
abbrev pub Proved : (Text → List ℕ) → Text → Text → Db → Client → Type 0
Proved sha256 client_id token db c =
    (row : ClientRow) × Memᴰ row db.clients
    × (row.id ≡ client_id)
    × (row.enabled ≡ true)
    × (row.credential_hash ≡ sha256 token)
    × (c.id ≡ client_id)

abbrev id_or : Text → Result Error Client → Text
id_or id (err e) = id
id_or id (ok c) = c.id

proved :
    (sha256 : Text → List ℕ) (client_id token : Text) (db : Db) (c : Client) (o : Option ClientRow)
    (authz : List ServiceType × List Text)
    → first (by_id client_id) db.clients ≡ o
    → (if not (is_valid sha256 (found_client o))
          || not (text_eq (hash_of sha256 (found_client o)) (sha256 token))
        then err Error.unauthenticated
        else granted sha256 (found_client o) authz)
      ≡ ok c
    → Proved sha256 client_id token db c
unfolding scan_client
proved sha256 client_id token db c none authz f h = cc
proved sha256 client_id token db c (some row) authz f h =
    let stored = found_row client_id db.clients row f in
    elim (Bool-cases row.enabled) [
      | inl e ↦
          let h' = rw e at h in
          elim (Bool-cases (text_eq row.credential_hash (sha256 token))) [
            | inl g ↦ (
              row,
              stored.0,
              stored.1,
              e,
              (text_eq_iff row.credential_hash (sha256 token)).0 g,
              sym (ap (id_or client_id) (rw g at h')) ∙ stored.1,
            )
            | inr g ↦ cc (rw g at h')
          ]
      | inr e ↦ cc (rw e at h)
    ]

-- Only a client that is stored, enabled, and whose token has the stored digest is authenticated.
pub authenticate-Proved :
    (sha256 : Text → List ℕ) (client_id token : Text) (db : Db) (c : Client)
    → authenticate sha256 client_id token db ≡ ok c
    → Proved sha256 client_id token db c
unfolding authenticate get_client_credential
authenticate-Proved sha256 client_id token db c h =
    proved sha256 client_id token db c (first (by_id client_id) db.clients)
      (get_client_authz_data client_id db) refl h
