-- ===== src/Service/Batch/Answers.antt =====
-- internal/service/service.go: the answer of SubmitBatch.
use vectorcore_gmlc.Base.{
  ℕ, suc, ◌≡◌, ◌≤◌, Option, none, some, List, [], ◌∷◌, arith, length, Result, ok, err,
}
use vectorcore_gmlc.Base.Text.{Text}
use vectorcore_gmlc.Errors.{Error}
use vectorcore_gmlc.Domain.{Target}
use vectorcore_gmlc.Storage.Schema.{Client, Db}
use vectorcore_gmlc.Service.{Env, Submission}
use vectorcore_gmlc.Service.Batch.{
  Batch, Submitted, next_target, create_batch, submit_checked, submit_batch,
}

-- Without an error there is one for each target, and else at most that many.
abbrev pub Sized : Option Error → ℕ → ℕ → Type 0
Sized none m n = m ≡ n
Sized (some e) m n = m ≤ n

Sized-suc : (o : Option Error) (m n : ℕ) → Sized o m n → Sized o (suc m) (suc n)
Sized-suc none m n h = omega (arith, h)
Sized-suc (some e) m n h = omega (arith, h)

-- An answer to `n` targets has a flag for each request.
abbrev pub Answered : ℕ → Batch → Type 0
Answered n b = (length b.created ≡ length b.requests) × Sized b.error (length b.requests) n

next_target-Answered :
    (s : Submitted) (rest : Text → Db → Batch × Db) (n : ℕ)
    → ((sub_id : Text) (db : Db) → Answered n (rest sub_id db).0)
    → Answered (suc n) (next_target s rest).0
next_target-Answered (err e, db) rest n h = (omega arith, omega arith)
next_target-Answered (ok (r, created, sub_id), db) rest n h =
    let end = (rest sub_id db).0 in
    let answered = h sub_id db in
    (omega (arith, answered.0), Sized-suc end.error (length end.requests) n answered.1)

create_batch-Answered :
    (env : Env) (i : Submission) (c : Client) (n : ℕ) (sub_id : Text) (targets : List Target)
    (db : Db)
    → Answered (length targets) (create_batch env i c n sub_id targets db).0
unfolding create_batch
create_batch-Answered env i c n sub_id [] db = (omega arith, omega arith)
create_batch-Answered env i c n sub_id (t ∷ targets) db =
    next_target-Answered _ (λ s d. create_batch env i c (suc n) s targets d) (length targets)
      (λ s d. create_batch-Answered env i c (suc n) s targets d)

submit_checked-Answered :
    (env : Env) (i : Submission) (targets : List Target) (checked : Result Error Client) (db : Db)
    → Answered (length targets) (submit_checked env i targets checked db).0
unfolding submit_checked
submit_checked-Answered env i targets (err e) db = (omega arith, omega arith)
submit_checked-Answered env i targets (ok c) db = create_batch-Answered env i c 0 [] targets db

-- A batch answers with a flag for each request; without an error there is a request for each
-- target, and with one there are at most as many requests as targets.
pub submit_batch-Answered :
    (env : Env) (i : Submission) (targets : List Target) (db : Db)
    → Answered (length targets) (submit_batch env i targets db).0
unfolding submit_batch
submit_batch-Answered env i targets db = submit_checked-Answered env i targets _ db
