-- ===== src/Service/Batch.antt =====
-- SubmitBatch of internal/service/service.go.
pub mod Answers
use vectorcore_gmlc.Base.{
  ℕ, zero, suc, ◌+◌, ◌/◌, ◌%◌, Bool, true, false, ◌&&◌, not, Option, none, some, List, [], ◌∷◌,
  ◌++◌, if◌then◌else◌, ltb, Result, ok, err, guard, ◌>>◌, ◌>>=◌, String,
}
use vectorcore_gmlc.Base.Text.{Text, codes, is_empty}
use vectorcore_gmlc.Base.Decimal.{decimal}
use vectorcore_gmlc.Errors.{Error, empty_batch}
use vectorcore_gmlc.Domain.{ServiceType, Target, validate, Request}
use vectorcore_gmlc.Storage.Schema.{Client, Db}
use vectorcore_gmlc.Storage.Requests.{create_request}
use vectorcore_gmlc.Auth.{authorize}
use vectorcore_gmlc.Service.{
  Env, Submission, prepare, validate_callback, register_callback, new_request, attached, accepted,
}

-- The key of the target at a place: "<key>#<index>".
unfoldable pub batch_key : Text → ℕ → Text
batch_key key n = key ++ codes "#" ++ decimal n

abbrev batch_detail : String
batch_detail = "immediate location request (batch)"

-- The requests so far, whether each was created, and the error that ended the call, if any.
pub record Batch : Type 0 where
  pub requests : List Request
  pub created : List Bool
  pub error : Option Error

-- The request, whether it was created, and the shared subscription, "" until there is one.
abbrev pub Submitted : Type 0
Submitted = Result Error (Request × Bool × Text) × Db

abbrev carrying : Text → Result Error (Request × Bool) × Db → Submitted
carrying sub_id (err e, db) = (err e, db)
carrying sub_id (ok (r, created), db) = (ok (r, created, sub_id), db)

abbrev batch_attached : Env → Client → Request → Result Error Text × Db → Submitted
batch_attached env c r (err e, db) = (err e, db)
batch_attached env c r (ok sub_id, db) =
    carrying sub_id (attached env c batch_detail r (ok sub_id, db))

-- After CreateRequest: the subscription is registered once for the whole batch.
unfoldable pub batch_created :
    Env → Submission → Client → Text → Result Error (Request × Bool) × Db → Submitted
batch_created env i c sub_id (err e, db) = (err e, db)
batch_created env i c sub_id (ok (r, created), db) =
    if created && not (is_empty i.callback_url)
    then batch_attached env c r (
        if is_empty sub_id
        then register_callback env c.id i.callback_url i.callback_secret db
        else (ok sub_id, db))
    else carrying sub_id (accepted env c batch_detail r created db)

abbrev next_target : Submitted → (Text → Db → Batch × Db) → Batch × Db
next_target (err e, db) rest = (record { requests = []; created = []; error = some e }, db)
next_target (ok (r, created, sub_id), db) rest =
    let end = rest sub_id db in
    (
      record {
        requests = r ∷ end.0.requests;
        created = created ∷ end.0.created;
        error = end.0.error;
      },
      end.1,
    )

-- The loop over the targets from the place `n`.
unfoldable pub create_batch : Env → Submission → Client → ℕ → Text → List Target → Db → Batch × Db
unfolding batch_created batch_key
create_batch env i c n sub_id [] db = (record { requests = []; created = []; error = none }, db)
create_batch env i c n sub_id (t ∷ targets) db =
    next_target
      (batch_created env i c sub_id (
        create_request (new_request i (env.new_id n) (batch_key i.idempotency_key n) c t) env.now
          db))
      (λ s d. create_batch env i c (suc n) s targets d)

unfoldable pub validate_all : List Target → Result Error (Unit {0})
validate_all [] = ok tt
validate_all (t ∷ targets) = validate t >> validate_all targets

unfoldable pub authorize_all : Client → List Target → Result Error (Unit {0})
authorize_all c [] = ok tt
authorize_all c (t ∷ targets) = authorize c ServiceType.immediate t >> authorize_all c targets

abbrev is_nonempty : List Target → Bool
is_nonempty [] = false
is_nonempty (t ∷ targets) = true

unfoldable pub submit_checked :
    Env → Submission → List Target → Result Error Client → Db → Batch × Db
unfolding create_batch
submit_checked env i targets (err e) db =
    (record { requests = []; created = []; error = some e }, db)
submit_checked env i targets (ok c) db = create_batch env i c 0 [] targets db

unfoldable pub submit_batch : Env → Submission → List Target → Db → Batch × Db
unfolding submit_checked validate_all authorize_all
submit_batch env i targets db =
    let checked =
      guard (is_nonempty targets) empty_batch
      >> validate_all targets
      >> validate_callback env i.callback_url i.callback_secret
      >> prepare env i db
      >>= λ c. authorize_all c targets >> ok c in
    submit_checked env i targets checked db
