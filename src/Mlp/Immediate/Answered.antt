-- ===== src/Mlp/Immediate/Answered.antt =====
-- internal/mlp/handler.go: what a request for positions is answered.
use vectorcore_gmlc.Base.{
  ℕ, ◌+◌, ◌≤◌, ◌≡◌, refl, subst, ap, Bool, Option, none, some, List, [], ◌∷◌, length, Result, ok,
  err, ◌>>=◌, ◌>>◌, arith,
}
use vectorcore_gmlc.Base.Text.{Text}
use vectorcore_gmlc.Errors.{Error}
use vectorcore_gmlc.Domain.{Time, Target, Request}
use vectorcore_gmlc.Storage.Schema.{Db}
use vectorcore_gmlc.Service.{Env, Submission, submit}
use vectorcore_gmlc.Service.Batch.{Batch}
use vectorcore_gmlc.Service.Batch.Answers.{submit_batch-Answered, Answered, Sized}
use vectorcore_gmlc.Mlp.{
  Library, Msid, extract_targets_from, wait_deadline, parse_loc_type, validate_geo_info, parse_eqop,
}
use vectorcore_gmlc.Mlp.Targets.{extract_targets_from-length}
use vectorcore_gmlc.Mlp.ResultCodes.{ResultCode}
use vectorcore_gmlc.Mlp.Positions.{Pos}
use vectorcore_gmlc.Mlp.Immediate.{
  Slir, Waits, Turn, submit_targets, read_slir, begin_immediate, resolve_begun, resolve_immediate,
  batch_result, created_batch, created_one, with_deadline, submit_read, answered,
}
use vectorcore_gmlc.Mlp.Immediate.Polling.{lates, AnsweredAll, await_all-AnsweredAll}

-- A result, if there is one, has the given property.
abbrev Then {ℓ} : {A : Type ℓ} → (A → Type 0) → Result ResultCode A → Type 0
Then P (err rc) = Unit {0}
Then P (ok a) = P a

Then-bind {ℓ κ} :
    {A : Type ℓ} {B : Type κ} (P : B → Type 0) (m : Result ResultCode A)
    (f : A → Result ResultCode B)
    → ((a : A) → m ≡ ok a → Then P (f a))
    → Then P (m >>= f)
Then-bind P (err rc) f h = tt
Then-bind P (ok a) f h = h a refl

created_batch-length :
    (n : ℕ) (b : Batch) (db : Db)
    → Answered n b
    → Then (λ rs. length rs ≡ n) (created_batch (b, db)).0
created_batch-length n b db h = by_error b.error h.1
  where
    by_error :
        (o : Option Error)
        → Sized o (length b.requests) n
        → Then (λ rs. length rs ≡ n) (batch_result o b db).0
    by_error none k = k
    by_error (some e) k = tt

created_one-length :
    (a : Result Error (Request × Bool) × Db) → Then (λ rs. length rs ≡ 1) (created_one a).0
created_one-length (err e, db) = tt
created_one-length (ok (r, created), db) = refl

submit_targets-length :
    (env : Env) (i : Submission) (ts : List Target) (db : Db)
    → Then (λ rs. length rs ≡ length ts) (submit_targets env i ts db).0
unfolding submit_targets
submit_targets-length env i [] db = created_batch-length 0 _ _ (submit_batch-Answered env i [] db)
submit_targets-length env i (t ∷ []) db = created_one-length (submit env i t db)
submit_targets-length env i (t ∷ u ∷ ts) db =
    created_batch-length (length (t ∷ u ∷ ts)) _ _ (submit_batch-Answered env i (t ∷ u ∷ ts) db)

wait_deadline-le : (now d max timer : ℕ) → wait_deadline now d max timer ≤ now + max
unfolding wait_deadline
wait_deadline-le now d max timer = ground arith

lates_mono : (d e : Time) (turns : List Turn) → d ≤ e → lates e turns ≤ lates d turns
lates_mono d e [] h = omega arith
lates_mono d e (i ∷ turns) h = let rest = lates_mono d e turns h in ground (arith, h, rest)

abbrev Sizes : ℕ → Result ResultCode (List Request × Time) × Db → Time → Type 0
Sizes n a latest = Then (λ begun. (length begun.0 ≡ n) × (begun.1 ≤ latest)) a.0

with_deadline-Sizes :
    (n : ℕ) (deadline latest : Time) (a : Result ResultCode (List Request) × Db)
    → deadline ≤ latest
    → Then (λ rs. length rs ≡ n) a.0
    → Sizes n (with_deadline deadline a) latest
with_deadline-Sizes n deadline latest (err rc, db) h k = tt
with_deadline-Sizes n deadline latest (ok rs, db) h k = (k, h)

submit_read-Sizes :
    (env : Env) (w : Waits) (now : Time) (n : ℕ)
    (read : Result ResultCode (List Target × Submission × ℕ)) (db : Db)
    → Then (λ r. length r.0 ≡ n) read
    → Sizes n (submit_read env w now read db) (now + w.sync_wait_max)
submit_read-Sizes env w now n (err rc) db h = tt
submit_read-Sizes env w now n (ok (ts, i, timer)) db h =
    with_deadline-Sizes n _ _ (submit_targets env i ts db)
      (wait_deadline-le now w.sync_wait_default w.sync_wait_max timer)
      (subst (λ m. Then (λ rs. length rs ≡ m) (submit_targets env i ts db).0) h
        (submit_targets-length env i ts db))

read_slir-length :
    (lib : Library) (client_id token key : Text) (req : Slir) (priority : Option ℕ)
    → Then (λ r. length r.0 ≡ length req.msids) (read_slir lib client_id token key req priority)
unfolding read_slir
read_slir-length lib client_id token key req priority =
    Then-bind _ (extract_targets_from req.msids) _ (λ ts h.
      Then-bind _ (parse_loc_type req.loc_type) _ (λ l e.
        Then-bind _ (validate_geo_info req.geo_info >> parse_eqop lib req.eqop) _
          (λ q k. extract_targets_from-length req.msids ts h)))

-- An answer of positions has one for each identity, in their order, each with exactly one of `pd` and
-- `poserr`.
abbrev pub Complete : List Msid → Result ResultCode (List Pos) → Type 0
Complete ms a = Then (AnsweredAll ms) a

resolve_begun-Complete :
    (lib : Library) (env : Env) (client_id token : Text) (ms : List Msid) (latest : Time)
    (begun : Result ResultCode (List Request × Time)) (turns : List Turn)
    → Then (λ b. (length b.0 ≡ length ms) × (b.1 ≤ latest)) begun
    → length ms ≤ lates latest turns
    → (a : Result ResultCode (List Pos)) × (resolve_begun lib env (client_id, token) ms begun turns
        ≡ some a)
      × Complete ms a
unfolding resolve_begun
resolve_begun-Complete lib env client_id token ms latest (err rc) turns h k = (err rc, refl, tt)
resolve_begun-Complete lib env client_id token ms latest (ok (rs, deadline)) turns (same, before)
      k =
    let (ps, e, all) =
      await_all-AnsweredAll lib env client_id token deadline ms rs turns same
        (omega (arith, k, lates_mono deadline latest turns before)) in
    (ok ps, ap answered e, all)

-- A request for positions is answered once there have been as many turns of the poll loop at or after the
-- greatest wait as it has identities. An answer of positions has one for each identity, in their order, each
-- with exactly one of `pd` and `poserr`.
pub resolve_immediate-Complete :
    (lib : Library) (env : Env) (w : Waits) (credentials : Text × Text) (key : Text) (req : Slir)
    (priority : Option ℕ) (now : Time) (db : Db) (turns : List Turn)
    → length req.msids ≤ lates (now + w.sync_wait_max) turns
    → (a : Result ResultCode (List Pos)) × ((resolve_immediate lib env w credentials key req
          priority now db turns).0
        ≡ some a)
      × Complete req.msids a
unfolding resolve_immediate begin_immediate
resolve_immediate-Complete lib env w (client_id, token) key req priority now db turns h =
    let read = read_slir lib client_id token key req priority in
    resolve_begun-Complete lib env client_id token req.msids (now + w.sync_wait_max) _ turns
      (submit_read-Sizes env w now (length req.msids) read db
        (read_slir-length lib client_id token key req priority))
      h
