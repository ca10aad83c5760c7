-- ===== src/Lrr/Reports.antt =====
-- internal/lrr/lrr.go: the rows that process leaves behind.
use vectorcore_gmlc.Base.{
  ℕ, ◌≡◌, refl, false, Bool, ◌==◌, true, Option, none, some, List, [], ◌∷◌, ◌++◌, first,
  if◌then◌else◌, is_some, Bool-cases, Option-cases, inl, inr,
}
use vectorcore_gmlc.Base.Text.{Text}
use vectorcore_gmlc.Domain.{Time, TargetKind, LocationReport, kind, value}
use vectorcore_gmlc.Storage.Sql.{update}
use vectorcore_gmlc.Storage.Schema.{DeferredLocationSubscription, ReportRow, Db}
use vectorcore_gmlc.Storage.Deferred.{
  reference_is, is_pending, pending_reference, set_reported, reference_known,
  find_pending_deferred_location_subscription, mark_deferred_location_subscription_reported,
  create_location_report, report_id_is,
}
use vectorcore_gmlc.Lrr.{correlate, correlate_found, report_row, report_target, process}

module _ (ref : ℕ) (now : Time) where
  abbrev marked : List DeferredLocationSubscription → List DeferredLocationSubscription
  marked subs = update (pending_reference ref) (set_reported now) subs

  -- A subscription keeps its reference when it is marked.
  known-marked :
      (subs : List DeferredLocationSubscription) (s : DeferredLocationSubscription)
      → first (pending_reference ref) subs ≡ some s
      → is_some (first (reference_is ref) (marked subs)) ≡ true
  unfolding update
  known-marked [] s h = cc
  known-marked (x ∷ subs) s h = elim (Bool-cases (reference_is ref x)) [
    | inl e ↦ elim (Bool-cases (is_pending x.state)) [
      | inl f ↦ rw e (rw f (rw e refl))
      | inr f ↦ rw e (rw f (rw e refl))
    ]
    | inr e ↦ rw e (rw e (known-marked subs s (rw e at h)))
  ]

  -- Marked subscriptions are not pending.
  none-marked :
      (subs : List DeferredLocationSubscription)
      → first (pending_reference ref) (marked subs) ≡ none
  unfolding update
  none-marked [] = refl
  none-marked (x ∷ subs) = elim (Bool-cases (reference_is ref x)) [
    | inl e ↦ elim (Bool-cases (is_pending x.state)) [
      | inl f ↦ rw e (rw f (rw e (none-marked subs)))
      | inr f ↦ rw e (rw f (rw e (rw f (none-marked subs))))
    ]
    | inr e ↦ rw e (rw e (none-marked subs))
  ]

-- The reference of a report if a pending subscription has it.
abbrev pub pending_in : Option ℕ → List DeferredLocationSubscription → Option ℕ
pending_in none subs = none
pending_in (some ref) subs = if is_some (first (pending_reference ref) subs) then some ref else none

abbrev pub NonePending : Option ℕ → List DeferredLocationSubscription → Type 0
NonePending none subs = Unit
NonePending (some ref) subs = first (pending_reference ref) subs ≡ none

-- The identity that a report gives, the IMSI before the MSISDN.
abbrev pub identity : Text → Text → Option (TargetKind × Text)
identity (c ∷ s) m = some (TargetKind.imsi, c ∷ s)
identity [] (c ∷ s) = some (TargetKind.msisdn, c ∷ s)
identity [] [] = none

-- One new row has every column of the report, with its reference if that was pending, which it no longer is.
abbrev pub Stored : Text → LocationReport → Time → Db → Db → Type 0
Stored id r now db after =
    (after.reports
      ≡ db.reports
        ++ record {
          id = id;
          lcs_reference_number = pending_in r.lcs_reference_number db.deferred;
          location_event = r.location_event;
          target = identity r.target.imsi r.target.msisdn;
          raw_gad = r.raw_location_estimate;
          ecgi = r.ecgi;
          accuracy_fulfilment = r.accuracy_fulfilment;
          age_of_location_estimate = r.age_of_location_estimate;
          raw_velocity_estimate = r.raw_velocity_estimate;
          eutran_positioning_data = r.eutran_positioning_data;
          received_at = now;
        }
          ∷ [])
    × NonePending r.lcs_reference_number after.deferred

report_target-identity :
    (i m : Text) → report_target (record { imsi = i; msisdn = m }) ≡ identity i m
unfolding kind value
report_target-identity (c ∷ s) m = refl
report_target-identity [] (c ∷ s) = refl
report_target-identity [] [] = refl

if_same : (b : Bool) (t : Time) → (if b then t else t) ≡ t
if_same true t = refl
if_same false t = refl

module _ (id : Text) (r : LocationReport) (now : Time) (db : Db)
    (fresh : is_some (first (report_id_is id) db.reports) ≡ false) where
  created-Stored :
      (o : Option ℕ) (d : Db)
      → reference_known o d.deferred ≡ true
      → d.reports ≡ db.reports
      → o ≡ pending_in r.lcs_reference_number db.deferred
      → NonePending r.lcs_reference_number d.deferred
      → Stored id r now db (create_location_report id (report_row r o now) now d).1
  unfolding create_location_report report_row
  created-Stored o d known same reference none_left =
      let received : (if now == 0 then now else now) ≡ now = if_same (now == 0) now in
      let free : is_some (first (report_id_is id) d.reports) ≡ false = rw same fresh in
      let row : ReportRow = record (report_row r o now) {
        id = id;
        received_at = if now == 0 then now else now;
      } in
      (
        simp (known, free)
            (rw (same, received, reference, report_target-identity r.target.imsi r.target.msisdn)
              refl),
        simp (known, free) none_left,
      )

  correlated-Stored :
      (o : Option ℕ)
      → r.lcs_reference_number ≡ o
      → Stored id r now db
          (create_location_report id
            (report_row r (correlate o now db).0 now)
            now
            (correlate o now db).1).1
  unfolding correlate correlate_found find_pending_deferred_location_subscription
      mark_deferred_location_subscription_reported
  correlated-Stored none e = created-Stored none db refl refl (rw e refl) (rw e tt)
  correlated-Stored (some ref) e = elim (Option-cases (first (pending_reference ref) db.deferred)) [
    | inl f ↦ rw f (created-Stored none db refl refl (rw e (rw f refl)) (rw e f))
    | inr (s, f) ↦ rw f (
        created-Stored (some ref) (mark_deferred_location_subscription_reported ref now db).1
          (known-marked ref now db.deferred s f) refl (rw e (rw f refl))
          (rw e (none-marked ref now db.deferred)))
  ]

  -- Every decoded report is stored, under an id that no row has, as one new row with all of its data, the
  -- identity of its target (the IMSI if it has one), the time, and its reference exactly if a deferred
  -- subscription with it was pending; after it none is, so that a subscription is reported at most once.
  pub process-Stored : Stored id r now db (process id r now db).1
  unfolding process
  process-Stored = correlated-Stored r.lcs_reference_number refl
