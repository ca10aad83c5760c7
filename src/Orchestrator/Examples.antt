-- ===== src/Orchestrator/Examples.antt =====
-- A turn of the worker that completes a request.
use vectorcore_gmlc.Base.{List, ◌⊎◌, ◌≡◌, refl, false, ◌&&◌, [], ◌∷◌, none, some, ok, ltb, arith}
use vectorcore_gmlc.Errors.{connection_lost}
use vectorcore_gmlc.Storage.Schema.{RequestRow}
use vectorcore_gmlc.Storage.Requests.Rows.{find_row}
use vectorcore_gmlc.Orchestrator.Retries.{Decided, handle_error-Decided}
use vectorcore_gmlc.Base.Text.{codes, text_eq}
use vectorcore_gmlc.Domain.{PositioningResult, ResultKind, Request, State, TargetKind, ServiceType}
use vectorcore_gmlc.Storage.Requests.Examples.{
  two_requests, two_requests-Unique, node, request, database,
}
use vectorcore_gmlc.Orchestrator.Loop.{
  Loop, Event, parked, stopped, ready, writes, closes, notifies, woken, run, step, notifies-woken,
}
use vectorcore_gmlc.Orchestrator.{Turn, one, handle_error, transient}
use vectorcore_gmlc.Orchestrator.Outcome.{Announced, one-Announced}

abbrev cell : PositioningResult
cell = record {
  kind = ResultKind.additional_information;
  raw_location_estimate = [];
  raw_velocity_estimate = [];
  ecgi = 1 ∷ [];
  eutran_positioning_data = [];
  accuracy_fulfilment = none;
  age_of_location_estimate = none;
  result_code = 2001;
  experimental_code = 0;
  position = none;
}

abbrev turn : Turn
turn = record {
  resolve_serving_node = λ t. ok node;
  provide_location = λ n r. ok cell;
  cancelled_at_resolve = false;
  cancelled_at_save = false;
  cancelled_at_client = false;
  cancelled_at_locate = false;
  cancelled_at_complete = false;
  cancelled_at_history = false;
  during_resolve = λ db. db;
  during_locate = λ db. db;
  history_id = codes "h1";
  claimed_at = 8;
  now = 9;
}

one-Announced_example : Announced (one turn two_requests).1 (one turn two_requests).2
one-Announced_example = one-Announced turn two_requests two_requests-Unique (λ db u. u) (λ db u. u)

-- The third attempt of a request meets a lost connection.
abbrev third : RequestRow
third = record (request (codes "a") State.resolving 1) { attempt_count = 3 }

abbrev claimed : Request
claimed = record {
  id = codes "a";
  client_id = codes "police";
  target_kind = TargetKind.msisdn;
  target_value = codes "15551234567";
  idempotency_key = codes "a";
  service = ServiceType.immediate;
  state = State.resolving;
  failure_code = "";
  created_at = 1;
  updated_at = 1;
  attempt_count = 3;
  next_attempt_at = none;
  location_type = 0;
  priority = none;
  qos = none;
  subscription_id = none;
}

handle_error-Decided_example :
    let after = handle_error claimed 3 State.resolving connection_lost 9 (database (third ∷ [])) in
    (y : RequestRow) × (find_row (codes "a") after.1.requests ≡ some y)
    × Decided (transient connection_lost && ltb 3 3) 3 9 third after.0 y
unfolding text_eq
handle_error-Decided_example =
    handle_error-Decided claimed 3 State.resolving connection_lost 9 (database (third ∷ [])) third
      (tt, tt) refl refl (omega arith)

-- A loop that waits, with nothing in its channel.
abbrev idle : Loop
idle = record { phase = parked; wake = false; cancelled = false; announced = []; db = database [] }

abbrev meanwhile : List Event
meanwhile = writes (λ db. db) ∷ closes ∷ []

notifies-woken_example :
    ((run meanwhile (step notifies idle)).phase ≡ stopped)
    ⊎ ((step woken (run meanwhile (step notifies idle))).phase ≡ ready)
notifies-woken_example = notifies-woken idle meanwhile (refl, (refl, tt))
