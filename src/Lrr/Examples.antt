-- ===== src/Lrr/Examples.antt =====
-- A report for a pending deferred subscription.
use vectorcore_gmlc.Base.{[], ◌∷◌, some, none, refl}
use vectorcore_gmlc.Base.Text.{codes}
use vectorcore_gmlc.Domain.{LocationReport, TargetKind}
use vectorcore_gmlc.Storage.Schema.{Db, DeferredState}
use vectorcore_gmlc.Storage.Requests.Examples.{database}
use vectorcore_gmlc.Diameter.Message.{avp, value, utf8, mbit, session_id}
use vectorcore_gmlc.Diameter.Sample.{sample, sample-IsAnswer}
use vectorcore_gmlc.Slg.Examples.{lrr, config}
use vectorcore_gmlc.Slg.Lrr.{decode_lrr}
use vectorcore_gmlc.Lrr.Serving.{Handled, serve_diam-Handled}
use vectorcore_gmlc.Lrr.{process, serve_diam}
use vectorcore_gmlc.Lrr.Reports.{Stored, process-Stored}

abbrev waiting : Db
waiting = record (database []) {
  deferred =
      record {
        lcs_reference_number = 7;
        client_id = codes "police";
        target_kind = TargetKind.imsi;
        target_value = codes "001010123456789";
        state = DeferredState.pending;
        created_at = 1;
        updated_at = 1;
      }
      ∷ [];
}

abbrev report : LocationReport
report = record {
  location_event = 4;
  target = record { imsi = codes "001010123456789"; msisdn = [] };
  client_name = [];
  lcs_reference_number = some 7;
  raw_location_estimate = 16 ∷ [];
  ecgi = [];
  raw_velocity_estimate = [];
  eutran_positioning_data = [];
  accuracy_fulfilment = none;
  age_of_location_estimate = none;
  position = none;
}

process-Stored_example :
    Stored (codes "r1") report 9 waiting (process (codes "r1") report 9 waiting).1
process-Stored_example = process-Stored (codes "r1") report 9 waiting refl

serve_diam-Handled_example :
    Handled lrr
      (codes "r1")
      9
      (decode_lrr (some lrr))
      waiting
      (serve_diam sample config (some lrr) (codes "r1") 9 waiting)
serve_diam-Handled_example =
    serve_diam-Handled sample config lrr (avp session_id mbit 0 (value (utf8 (codes "s"))))
      (codes "r1") 9 waiting sample-IsAnswer refl refl refl
