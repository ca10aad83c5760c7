-- ===== src/Mlp/Push.antt =====
-- internal/mlp/push.go: the reports that are pushed. The POST and the answer to it, which is only logged,
-- stay outside.
use vectorcore_gmlc.Base.{
  ℕ, Bool, not, ◌&&◌, ◌≡◌, refl, Bool-cases, inl, inr, Option, none, some, List, [], ◌∷◌,
  if◌then◌else◌, ◌==◌, ok,
}
use vectorcore_gmlc.Base.Text.{Text, codes, is_empty, text_eq, trim_space}
use vectorcore_gmlc.Domain.{Time, Target, GeographicPosition, kind, value}
use vectorcore_gmlc.Mlp.{Library, Msid, msid_to_target}
use vectorcore_gmlc.Mlp.Positions.{Pos, circle_at}

pub record Pusher : Type 0 where
  pub standard_url : Text
  pub standard_id : Text
  pub emergency_url : Text
  pub emergency_id : Text

unfoldable pub target_to_msid : Target → Msid
target_to_msid t =
    if not (is_empty t.imsi)
    then record { msid_type = codes "IMSI"; msid_value = t.imsi }
    else record { msid_type = codes "MSISDN"; msid_value = t.msisdn }

unfoldable pub report_pos : Library → Target → Option GeographicPosition → Time → Pos
unfolding target_to_msid
report_pos lib t none at = record { msid = target_to_msid t; pd = none; pos_err = none }
report_pos lib t (some p) at = record {
  msid = target_to_msid t;
  pd = some (circle_at lib at p.latitude p.longitude p.uncertainty_meters);
  pos_err = none;
}

-- LocationEventEmergencyCallOrigination, Release and Handover.
unfoldable pub eme_trigger_for : ℕ → Option Text
eme_trigger_for e =
    if e == 0
    then some (codes "EME_ORG")
    else if e == 1
    then some (codes "EME_REL")
    else if e == 3
    then some (codes "EME_HO")
    else none

-- What is sent, with the client id of the header.
pub data Report : Type 0 where
  emerep : Text → Text → List Pos → Report
  slrep : Text → List Pos → Report

-- A report and the address it is sent to, if one is sent. `none` is a nil *Pusher.
abbrev pub has_identity : Target → Bool
has_identity t = not (is_empty t.imsi && is_empty t.msisdn)

unfoldable pub push_emergency_report :
    Library → Option Pusher → Target → ℕ → Option GeographicPosition → Time → Option (Text × Report)
unfolding report_pos eme_trigger_for
push_emergency_report lib none t e position at = none
push_emergency_report lib (some p) t e position at =
    if is_empty p.emergency_url then none else elim (eme_trigger_for e) [
      | none ↦ none
      | some trigger ↦
          if has_identity t
          then some
              (p.emergency_url, emerep p.emergency_id trigger (report_pos lib t position at ∷ []))
          else none
    ]

unfoldable pub push_standard_report :
    Library → Option Pusher → Target → Option GeographicPosition → Time → Option (Text × Report)
unfolding report_pos
push_standard_report lib none t position at = none
push_standard_report lib (some p) t position at =
    if is_empty p.standard_url
    then none
    else if has_identity t
    then some (p.standard_url, slrep p.standard_id (report_pos lib t position at ∷ []))
    else none

-- A target whose identity has no blanks around it is named by its identity: a request for that identity is for
-- the same kind and value.
pub target_to_msid-msid_to_target :
    (t : Target)
    → trim_space (value t) ≡ value t
    → (u : Target) × (msid_to_target (target_to_msid t) ≡ ok u)
      × (kind u ≡ kind t)
      × (value u ≡ value t)
unfolding target_to_msid msid_to_target value kind text_eq
target_to_msid-msid_to_target t h = elim (Bool-cases (is_empty t.imsi)) [
  | inl e ↦
      let h1 : trim_space t.msisdn ≡ t.msisdn = rw e at h in
      (record { imsi = []; msisdn = t.msisdn }, rw (e, h1) refl, rw e refl, rw e refl)
  | inr e ↦
      let h1 : trim_space t.imsi ≡ t.imsi = rw e at h in
      (record { imsi = t.imsi; msisdn = [] }, rw (e, h1) refl, rw e refl, rw e refl)
]
