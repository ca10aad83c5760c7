-- ===== src/Mlp/Immediate.antt =====
-- internal/mlp/handler.go: the Standard and the Emergency Location Immediate Services.
pub mod Polling
pub mod Answered
use vectorcore_gmlc.Base.{
  ℕ, Bool, true, false, not, ◌||◌, Option, none, some, List, [], ◌∷◌, if◌then◌else◌, ltb, Result,
  ok, err, ◌>>◌, ◌>>=◌,
}
use vectorcore_gmlc.Base.Text.{Text}
use vectorcore_gmlc.Errors.{Error}
use vectorcore_gmlc.Domain.{
  Time, ServiceType, Target, Request, QosRequest, LocationResult, terminal,
}
use vectorcore_gmlc.Storage.Schema.{Db}
use vectorcore_gmlc.Service.{Env, Submission, submit, get_request_result}
use vectorcore_gmlc.Service.Batch.{Batch, submit_batch}
use vectorcore_gmlc.Mlp.{
  Library, Msid, Credentials, Eqop, extract_targets_from, validate_geo_info, credentials_from_hdr,
  parse_loc_type, parse_prio, parse_eqop, wait_deadline,
}
use vectorcore_gmlc.Mlp.ResultCodes.{ResultCode, error_to_result_code}
use vectorcore_gmlc.Mlp.Positions.{
  Pos, Outcome, settled, timed_out, Response, slia, slia_result, eme_lia, eme_lia_result, build_pos,
}

-- slir, and eme_lir, which has no priority. A nil msids is an empty one.
pub record Slir : Type 0 where
  pub msids : List Msid
  pub loc_type : Option Text
  pub geo_info : Option Text
  pub eqop : Option Eqop
  pub prio : Option Text

-- syncWaitDefault and syncWaitMax
pub record Waits : Type 0 where
  pub sync_wait_default : ℕ
  pub sync_wait_max : ℕ

-- One turn of the poll loop: what the store holds, the time at the deadline's test, whether the context of
-- the call has ended, and the time at which an answer of this turn is built.
pub record Turn : Type 0 where
  pub db : Db
  pub now : Time
  pub done : Bool
  pub answered_at : Time

-- A turn that ends the loop although the request has not ended.
abbrev pub late : Time → Turn → Bool
late deadline i = not (ltb i.now deadline) || i.done

-- What one turn decides, `none` to wait for another.
abbrev pub polled : Bool → Result Error (Request × Option LocationResult) → Option Outcome
polled l (err e) = if l then some timed_out else none
polled l (ok (r, v)) =
    if terminal r.state then some (settled r v) else if l then some timed_out else none

-- The outcome of a request, when it was known, and the turns that are left; `none` when the turns are not
-- enough to know it.
abbrev pub Awaited : Type 0
Awaited = Option (Outcome × Time × List Turn)

abbrev pub decided : Option Outcome → Time → List Turn → Awaited → Awaited
decided none at turns rest = rest
decided (some o) at turns rest = some (o, at, turns)

unfoldable pub await_terminal : Env → Text → Text → Text → Time → List Turn → Awaited
await_terminal env client_id token id deadline [] = none
await_terminal env client_id token id deadline (i ∷ turns) =
    let rest = await_terminal env client_id token id deadline turns in
    decided (polled (late deadline i) (get_request_result env client_id token id i.db))
      i.answered_at turns rest

-- The requests one after the other, each with the identity that it is for.
abbrev pub first_pos :
    Library → Msid → Awaited → (List Turn → Option (List Pos)) → Option (List Pos)
first_pos lib m none rest = none
first_pos lib m (some (o, at, turns)) rest = elim (rest turns) [
  | none ↦ none
  | some ps ↦ some (build_pos lib m o at ∷ ps)
]

unfoldable pub await_all :
    Library → Env → Text → Text → Time → List Msid → List Request → List Turn → Option (List Pos)
unfolding await_terminal
await_all lib env client_id token deadline (m ∷ ms) (r ∷ rs) turns =
    first_pos lib m (await_terminal env client_id token r.id deadline turns)
      (await_all lib env client_id token deadline ms rs)
await_all lib env client_id token deadline _ _ turns = some []

-- What a request of MLP submits, under a new key.
abbrev pub submission : Text → Text → Text → ℕ → Option ℕ → Option QosRequest → Submission
submission client_id token key location_type priority qos = record {
  client_id = client_id;
  token = token;
  idempotency_key = key;
  service = ServiceType.immediate;
  location_type = location_type;
  priority = priority;
  qos = qos;
  callback_url = [];
  callback_secret = [];
}

abbrev pub created_one : Result Error (Request × Bool) × Db → Result ResultCode (List Request) × Db
created_one (err e, db) = (err (error_to_result_code e), db)
created_one (ok (r, created), db) = (ok (r ∷ []), db)

abbrev pub batch_result : Option Error → Batch → Db → Result ResultCode (List Request) × Db
batch_result none b db = (ok b.requests, db)
batch_result (some e) b db = (err (error_to_result_code e), db)

abbrev pub created_batch : Batch × Db → Result ResultCode (List Request) × Db
created_batch (b, db) = batch_result b.error b db

-- One target is submitted alone, many as a batch.
unfoldable pub submit_targets :
    Env → Submission → List Target → Db → Result ResultCode (List Request) × Db
submit_targets env i (t ∷ []) db = created_one (submit env i t db)
submit_targets env i targets db = created_batch (submit_batch env i targets db)

-- The targets, what is submitted of them, and the duration that the client gives.
unfoldable pub read_slir :
    Library
    → Text
    → Text
    → Text
    → Slir
    → Option ℕ
    → Result ResultCode (List Target × Submission × ℕ)
read_slir lib client_id token key req priority = extract_targets_from req.msids >>= λ targets.
    (parse_loc_type req.loc_type >>= λ location_type.
    (validate_geo_info req.geo_info >> parse_eqop lib req.eqop >>= λ q.
    ok (targets, submission client_id token key location_type priority q.0, q.1)))

-- The requests, and the time until which they are waited for.
abbrev pub with_deadline :
    Time → Result ResultCode (List Request) × Db → Result ResultCode (List Request × Time) × Db
with_deadline deadline (err rc, db) = (err rc, db)
with_deadline deadline (ok rs, db) = (ok (rs, deadline), db)

abbrev pub submit_read :
    Env
    → Waits
    → Time
    → Result ResultCode (List Target × Submission × ℕ)
    → Db
    → Result ResultCode (List Request × Time) × Db
submit_read env w now (err rc) db = (err rc, db)
submit_read env w now (ok (targets, i, timer)) db =
    with_deadline (wait_deadline now w.sync_wait_default w.sync_wait_max timer)
      (submit_targets env i targets db)

-- resolveImmediate up to the loop over the requests.
unfoldable pub begin_immediate :
    Library
    → Env
    → Waits
    → Text × Text
    → Text
    → Slir
    → Option ℕ
    → Time
    → Db
    → Result ResultCode (List Request × Time) × Db
unfolding read_slir submit_targets
begin_immediate lib env w (client_id, token) key req priority now db =
    submit_read env w now (read_slir lib client_id token key req priority) db

abbrev pub answered : Option (List Pos) → Option (Result ResultCode (List Pos))
answered none = none
answered (some ps) = some (ok ps)

-- The loop. Without a request there is an answer at once; else there is one when the turns are enough.
unfoldable pub resolve_begun :
    Library
    → Env
    → Text × Text
    → List Msid
    → Result ResultCode (List Request × Time)
    → List Turn
    → Option (Result ResultCode (List Pos))
unfolding await_all
resolve_begun lib env (client_id, token) ms (err rc) turns = some (err rc)
resolve_begun lib env (client_id, token) ms (ok (rs, deadline)) turns =
    answered (await_all lib env client_id token deadline ms rs turns)

-- The answer, when the turns are enough, and the store after the submission.
unfoldable pub resolve_immediate :
    Library
    → Env
    → Waits
    → Text × Text
    → Text
    → Slir
    → Option ℕ
    → Time
    → Db
    → List Turn
    → Option (Result ResultCode (List Pos)) × Db
unfolding begin_immediate resolve_begun
resolve_immediate lib env w credentials key req priority now db turns =
    let (begun, after) = begin_immediate lib env w credentials key req priority now db in
    (resolve_begun lib env credentials req.msids begun turns, after)

abbrev pub respond :
    (List Pos → Response)
    → (ResultCode → Response)
    → Option (Result ResultCode (List Pos))
    → Option Response
respond f g none = none
respond f g (some (err rc)) = some (g rc)
respond f g (some (ok ps)) = some (f ps)

unfoldable pub handle_slir :
    Library
    → Env
    → Waits
    → Option Credentials
    → Text
    → Slir
    → Time
    → Db
    → List Turn
    → Option Response × Db
unfolding resolve_immediate
handle_slir lib env w header key req now db turns =
    let (answer, after) =
      resolve_immediate lib env w (credentials_from_hdr header) key req (parse_prio req.prio) now db
        turns in
    (respond slia slia_result answer, after)

unfoldable pub handle_emelir :
    Library
    → Env
    → Waits
    → Option Credentials
    → Text
    → Slir
    → Time
    → Db
    → List Turn
    → Option Response × Db
unfolding resolve_immediate
handle_emelir lib env w header key req now db turns =
    let (answer, after) =
      resolve_immediate lib env w (credentials_from_hdr header) key req none now db turns in
    (respond eme_lia eme_lia_result answer, after)
