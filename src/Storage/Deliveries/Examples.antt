-- ===== src/Storage/Deliveries/Examples.antt =====
-- The theorems about deliveries at concrete inputs.
use vectorcore_gmlc.Base.{refl, [], ◌∷◌}
use vectorcore_gmlc.Base.Text.{codes}
use vectorcore_gmlc.Storage.Schema.{Delivery, Db, DeliveryState}
use vectorcore_gmlc.Storage.Requests.Examples.{database}
use vectorcore_gmlc.Storage.Deliveries.{new_delivery}
use vectorcore_gmlc.Storage.Deliveries.Lifecycle.{
  claim, deliver, retry, run_op, run_ops, Advances, Kept, at_index, is_finished, run_op-Advances,
  run_ops-finished,
}

abbrev sent : Delivery
sent = record (new_delivery (codes "d1") (codes "s1") (1 ∷ []) 5) {
  state = DeliveryState.delivered;
  attempt_count = 2;
}

abbrev outbox : Db
outbox = record (database []) {
  deliveries = sent ∷ new_delivery (codes "d2") (codes "s1") (2 ∷ []) 6 ∷ [];
}

run_op-Advances_example : Advances outbox.deliveries (run_op (claim 9) outbox).deliveries
run_op-Advances_example = run_op-Advances (claim 9) outbox

run_ops-finished_example : Kept sent (
    at_index 0
      (run_ops
        (claim 9 ∷ retry (codes "d1") 12 10 ∷ deliver (codes "d2") 200 11 ∷ [])
        outbox).deliveries)
run_ops-finished_example =
    run_ops-finished (claim 9 ∷ retry (codes "d1") 12 10 ∷ deliver (codes "d2") 200 11 ∷ []) 0 sent
      outbox refl (unfold is_finished in refl)
