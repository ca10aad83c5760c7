-- ===== src/Orchestrator/Retries.antt =====
-- internal/orchestrator/orchestrator.go: what handleError makes of an attempt that failed.
use vectorcore_gmlc.Base.{
  ℕ, ◌≡◌, refl, ap, ◌∙◌, ◌+◌, ◌-◌, ◌*◌, ◌^◌, ◌≤◌, Bool, true, false, ◌&&◌, none, some, List, String,
  arith, leb, ltb, Result, ok, err, inl, inr, Bool-cases, is_some,
}
use vectorcore_gmlc.Base.Text.{Text}
use vectorcore_gmlc.Errors.{Error}
use vectorcore_gmlc.Domain.{Time, State, Request}
use vectorcore_gmlc.Storage.Schema.{RequestRow, Db}
use vectorcore_gmlc.Storage.Requests.{requeue, fail_request, set_queued, set_failed}
use vectorcore_gmlc.Storage.Requests.Rows.{find_row, Unique, state_is}
use vectorcore_gmlc.Storage.Requests.Outcomes.{Guarded, done, refused, update_request-Guarded}
use vectorcore_gmlc.Orchestrator.{
  Notice, notify_completion, notify_failed, transient, handle_error, max_attempts, retry_delay,
}

state_is_same : (x : RequestRow) (from : State) → x.state ≡ from → state_is from (some x) ≡ true
state_is_same x from e = rw e (same from)
  where
    same : (s : State) → state_is s (some (record x { state = s })) ≡ true
    same s = ground arith

-- A guarded write of a request that is in the expected state.
Guarded-done :
    (id : Text) (from : State) (f : RequestRow → RequestRow) (before after : List RequestRow)
    (outcome : Result Error (Unit {0})) (x : RequestRow)
    → find_row id before ≡ some x
    → x.state ≡ from
    → Guarded id from f before outcome after
    → (outcome ≡ ok tt) × (find_row id after ≡ some (f x))
Guarded-done id from f before after outcome x e s (done {r = r} q t o a) =
    let same : r ≡ x = cc in (o, a ∙ ap (λ y. some (f y)) same)
Guarded-done id from f before after outcome x e s (refused t o k) =
    let here : state_is from (find_row id before) ≡ true = rw e (state_is_same x from s) in cc

-- Another attempt after 2^(attempts-1) seconds, or a failure that the hook is told.
abbrev pub Decided : Bool → ℕ → Time → RequestRow → Notice → RequestRow → Type 0
Decided true attempts now x notice y =
    (y.state ≡ State.queued)
    × (y.next_attempt_at ≡ some (now + 1000000000 * 2 ^ (attempts - 1)))
    × (y.failure_code ≡ "temporarily_unavailable")
    × (y.attempt_count ≡ x.attempt_count)
    × (notice ≡ none)
Decided false attempts now x notice y = (y.state ≡ State.failed) × (is_some notice ≡ true)

notified :
    (r : Request) (code : String) (now : Time) (o : Result Error (Unit {0})) (d : Db)
    → o ≡ ok tt
    → ((notify_failed r code now (o, d)).1 ≡ d)
      × (is_some (notify_failed r code now (o, d)).0 ≡ true)
unfolding notify_failed notify_completion
notified r code now (ok a) d h = (refl, refl)
notified r code now (err e) d h = cc

before_third : (n : ℕ) → leb max_attempts n ≡ false → ltb n 3 ≡ true
before_third n h = ground (arith, h)

from_third : (n : ℕ) → leb max_attempts n ≡ true → ltb n 3 ≡ false
from_third n h = ground (arith, h)

module _ (r : Request) (attempts : ℕ) (from : State) (e : Error) (now : Time) (db : Db)
    (x : RequestRow) (u : Unique db.requests) (found : find_row r.id db.requests ≡ some x)
    (at : x.state ≡ from) where
  failed-Decided :
      (code desc : String)
      → let done_ = notify_failed r code now (fail_request r.id from code desc now db) in
        (y : RequestRow) × (find_row r.id done_.1.requests ≡ some y)
        × Decided false attempts now x done_.0 y
  unfolding fail_request
  failed-Decided code desc =
      let (o, a) =
        Guarded-done r.id from _ db.requests _ _ x found at
          (update_request-Guarded r.id from (set_failed code desc now) (λ r. refl) db u) in
      let (same, told) =
        notified r code now (fail_request r.id from code desc now db).0
          (fail_request r.id from code desc now db).1 o in
      (_, ap (λ d. find_row r.id d.requests) same ∙ a, (refl, told))

  requeued :
      (y : RequestRow) × (find_row r.id
          (requeue r.id from
            (now + retry_delay attempts)
            "temporarily_unavailable"
            now
            db).1.requests
        ≡ some y)
      × Decided true attempts now x none y
  unfolding requeue retry_delay
  requeued =
      let (o, a) = Guarded-done r.id from _ db.requests _ _ x found at (
        update_request-Guarded r.id from
          (set_queued (now + retry_delay attempts) "temporarily_unavailable" now) (λ r. refl) db
          u) in
      (_, a, (refl, refl, refl, refl, refl))

  -- With distinct ids, an attempt that failed in the state that the worker saw is followed by another, one
  -- second after the first and two seconds after the second, exactly if the error is transient and it was
  -- not the third; otherwise the request has failed and the completion hook is called. Attempts count
  -- from 1.
  pub handle_error-Decided :
      1 ≤ attempts
      → let after = handle_error r attempts from e now db in
        (y : RequestRow) × (find_row r.id after.1.requests ≡ some y)
        × Decided (transient e && ltb attempts 3) attempts now x after.0 y
  unfolding handle_error
  handle_error-Decided counted = elim (Bool-cases (transient e)) [
    | inl t ↦ elim (Bool-cases (leb max_attempts attempts)) [
      | inl l ↦
          rw (t, l, from_third attempts l)
            (failed-Decided "temporarily_unavailable" "location service temporarily unavailable")
      | inr l ↦ rw (t, l, before_third attempts l) requeued
    ]
    | inr t ↦ rw t (failed-Decided "network_failure" "location request failed")
  ]
