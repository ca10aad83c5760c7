-- ===== src/Gmlc/Bootstrap.antt =====
-- cmd/gmlc/main.go: the clients of the configuration, once the program has started.
use vectorcore_gmlc.Base.{
  ℕ, ◌≡◌, refl, sym, subst, arith, Bool, true, Bool-cases, inl, inr, Option, none, some, is_some,
  List, [], ◌∷◌, map, All, Result, ok, err,
}
use vectorcore_gmlc.Base.Text.{Text, text_eq_refl, text_leb}
use vectorcore_gmlc.Errors.{Error}
use vectorcore_gmlc.Domain.{Time}
use vectorcore_gmlc.Storage.Schema
use vectorcore_gmlc.Storage.Schema.{ClientRow, Db}
use vectorcore_gmlc.Storage.Clients.{
  upsert_client, get_client_credential, get_client_authz_data, scan_client, service_leb,
}
use vectorcore_gmlc.Storage.Clients.Stored.{Stored, upsert_client-Stored, upsert_client-others}
use vectorcore_gmlc.Auth.{authenticate}
use vectorcore_gmlc.Config
use vectorcore_gmlc.Config.Uniqueness.{Fresh, Distinct}
use vectorcore_gmlc.Gmlc.{client_of, or_0, and_then, bootstrap, purge_at, opened}
use vectorcore_gmlc.Config.Load.{load-Served, load-client_ok}
use vectorcore_gmlc.Config.{client_type_value, privacy_check_value}
use vectorcore_gmlc.Storage.Sql.{insert_by, sort_by}
use mathlib.Core.List.Permᴰ
use mathlib.Core.List.{Permᴰ}
use vectorcore_gmlc.Config.Validation.{load, client_ok}
use vectorcore_gmlc.Storage.Requests.{recover, purge}

-- ORDER BY only reorders.
module _ {ℓ} {A : Type ℓ} (le : A → A → Bool) where
  insert_by-Perm : (x : A) (xs : List A) → Permᴰ (insert_by le x xs) (x ∷ xs)
  unfolding insert_by
  insert_by-Perm x [] = Permᴰ.refl (x ∷ [])
  insert_by-Perm x (y ∷ ys) = elim (Bool-cases (le x y)) [
    | inl e ↦ rw e (Permᴰ.refl (x ∷ y ∷ ys))
    | inr e ↦ rw e (Permᴰ.trans (Permᴰ.cons refl (insert_by-Perm x ys)) (Permᴰ.swap refl refl))
  ]

  sort_by-Perm : (xs : List A) → Permᴰ (sort_by le xs) xs
  unfolding sort_by
  sort_by-Perm [] = Permᴰ.nil
  sort_by-Perm (x ∷ xs) =
      Permᴰ.trans (insert_by-Perm x (sort_by le xs)) (Permᴰ.cons refl (sort_by-Perm xs))

or_0-some : (o : Option ℕ) → is_some o ≡ true → o ≡ some (or_0 o)
or_0-some none h = cc
or_0-some (some n) h = refl

-- What a client of a configuration can do: its token authenticates it, as an enabled client with the digest of
-- the token, the services and the prefixes of the configuration, each in some order, and the values of its
-- type and of its privacy check.
abbrev pub Known : (Text → List ℕ) → Db → Config.Client → Type 0
Known sha256 db v =
    (c : Schema.Client) × (authenticate sha256 v.id v.bearer_token db ≡ ok c)
    × (c.id ≡ v.id)
    × (c.enabled ≡ true)
    × (c.credential_hash ≡ sha256 v.bearer_token)
    × Permᴰ c.services v.services
    × Permᴰ c.target_prefixes v.target_prefixes
    × (client_type_value v.lcs_client_type ≡ some c.lcs_client_type)
    × (privacy_check_value v.lcs_privacy_check ≡ some c.lcs_privacy_check)

authenticate-Stored :
    (sha256 : Text → List ℕ) (v : Config.Client) (db : Db)
    → client_ok v ≡ true
    → Stored (client_of sha256 v) db
    → Known sha256 db v
unfolding authenticate get_client_credential scan_client client_of
authenticate-Stored sha256 v db good (s, g) = (
  record (client_of sha256 v) {
    services = sort_by service_leb v.services;
    target_prefixes = sort_by text_leb v.target_prefixes;
  },
  simp (s, text_eq_refl (sha256 v.bearer_token), g) refl,
  refl,
  refl,
  refl,
  sort_by-Perm service_leb v.services,
  sort_by-Perm text_leb v.target_prefixes,
  or_0-some (client_type_value v.lcs_client_type) (ground (arith, good)),
  or_0-some (privacy_check_value v.lcs_privacy_check) (ground (arith, good)),
)

and_then_ok :
    (a : Result Error (Unit {0}) × Db) (rest : Db → Result Error (Unit {0}) × Db)
    → (and_then a rest).0 ≡ ok tt
    → (a.0 ≡ ok tt) × (and_then a rest ≡ rest a.1)
and_then_ok (err e, db) rest h = cc
and_then_ok (ok u, db) rest h = (refl, refl)

module _ (sha256 : Text → List ℕ) where
  client_of-id : (v : Config.Client) → (client_of sha256 v).id ≡ v.id
  unfolding client_of
  client_of-id v = refl

  -- The clients after one leave it as it is.
  bootstrap-others :
      (cs : List Config.Client) (c : Schema.Client) (db : Db)
      → Fresh c.id (map (λ v. v.id) cs)
      → Stored c db
      → (bootstrap sha256 cs db).0 ≡ ok tt
      → Stored c (bootstrap sha256 cs db).1
  unfolding bootstrap
  bootstrap-others [] c db f s h = s
  bootstrap-others (v ∷ cs) c db (n, f) s h =
      let (done, same) =
        and_then_ok (upsert_client (client_of sha256 v) db) (bootstrap sha256 cs) h in
      let kept = upsert_client-others c (client_of sha256 v) db (rw (client_of-id v) n) s done in
      subst (λ a. Stored c a.1) (sym same)
        (bootstrap-others cs c (upsert_client (client_of sha256 v) db).1 f kept (rw same at h))

  bootstrap-Stored :
      (cs : List Config.Client) (db : Db)
      → Distinct (map (λ v. v.id) cs)
      → (bootstrap sha256 cs db).0 ≡ ok tt
      → All (λ v. Stored (client_of sha256 v) (bootstrap sha256 cs db).1) cs
  unfolding bootstrap
  bootstrap-Stored [] db d h = tt
  bootstrap-Stored (v ∷ cs) db (f, d) h =
      let c = client_of sha256 v in
      let (done, same) = and_then_ok (upsert_client c db) (bootstrap sha256 cs) h in
      let h1 = rw same at h in
      subst (λ a. All (λ u. Stored (client_of sha256 u) a.1) (v ∷ cs)) (sym same)
        (
          bootstrap-others cs c (upsert_client c db).1 (rw (client_of-id v) f)
              (upsert_client-Stored c db done) h1,
          bootstrap-Stored cs (upsert_client c db).1 d h1,
        )

All-Known :
    (sha256 : Text → List ℕ) (cs : List Config.Client) (db : Db)
    → All (λ v. client_ok v ≡ true) cs
    → All (λ v. Stored (client_of sha256 v) db) cs
    → All (Known sha256 db) cs
All-Known sha256 [] db g h = tt
All-Known sha256 (v ∷ cs) db (g, gs) (s, h) =
    (authenticate-Stored sha256 v db g s, All-Known sha256 cs db gs h)

-- When the program has started with a configuration that loads, whatever the store held before: each of its
-- clients is authenticated by its token, as an enabled client with the digest of that token, the services and
-- the prefixes of the configuration, each in some order, and the values of its type and privacy check.
pub opened-Known :
    (sha256 : Text → List ℕ) (file cfg : Config.Config) (recovered purged : Time) (db : Db)
    → load file ≡ ok cfg
    → (opened sha256 cfg recovered purged db).0 ≡ ok tt
    → All (Known sha256 (opened sha256 cfg recovered purged db).1) cfg.clients
unfolding opened purge_at recover purge get_client_authz_data
opened-Known sha256 file cfg recovered purged db l h =
    let served = (load-Served file cfg l).0 in
    let (done, same) = and_then_ok (bootstrap sha256 cfg.clients db) _ h in
    let stored = bootstrap-Stored sha256 cfg.clients db served done in
    All-Known sha256 cfg.clients _ (load-client_ok file cfg l)
      (subst (λ a. All (λ v. Stored (client_of sha256 v) a.1) cfg.clients) (sym same) stored)
