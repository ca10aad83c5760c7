-- ===== src/Mlp.antt =====
-- internal/mlp/handler.go: what a location request says, read from its elements. XML and HTTP
-- stay outside.
pub mod ResultCodes
pub mod Dmsh
pub mod Positions
pub mod History
pub mod Immediate
pub mod Handler
pub mod Push
mod Targets
mod Examples
use vectorcore_gmlc.Base.{
  ℕ, ◌+◌, ◌*◌, ◌%◌, ◌^◌, Bool, true, false, ◌&&◌, ◌||◌, Option, none, some, List, [], ◌∷◌,
  if◌then◌else◌, ltb, ◌==◌, Result, ok, err, guard, ◌>>=◌,
}
use vectorcore_gmlc.Base.Text.{Text, codes, text_eq, is_empty, all_digits, trim_space}
use vectorcore_gmlc.Base.Decimal.{number_from}
use vectorcore_gmlc.Base.Float.{Float64}
use vectorcore_gmlc.Mlp.ResultCodes.{ResultCode}
use vectorcore_gmlc.Domain.{
  Time, Target, QosRequest, location_current, location_current_or_last_known,
}

-- The functions of other libraries: strconv.ParseFloat, and the package `time` for the layout
-- "20060102150405" in UTC.
pub record Library : Type 0 where
  pub parse_float : Text → Option Float64
  pub parse_time : Text → Option Time
  pub format_time : Time → Text

pub record Msid : Type 0 where
  pub msid_type : Text
  pub msid_value : Text

abbrev pub target_of : Text → Text → Result ResultCode Target
target_of t v =
    if text_eq t (codes "MSISDN")
    then ok (record { imsi = []; msisdn = v })
    else if text_eq t (codes "IMSI")
    then ok (record { imsi = v; msisdn = [] })
    else err ResultCode.attribute_value_not_supported

-- The default type is that of the DTD.
unfoldable pub msid_to_target : Msid → Result ResultCode Target
msid_to_target m =
    target_of (if is_empty m.msid_type then codes "MSISDN" else m.msid_type)
      (trim_space m.msid_value)

-- The loop, which ends at the first identity that is not supported.
unfoldable pub targets_of : List Msid → Result ResultCode (List Target)
unfolding msid_to_target
targets_of [] = ok []
targets_of (m ∷ ms) = msid_to_target m >>= λ t. (targets_of ms >>= λ ts. ok (t ∷ ts))

-- `[]` is also a nil element.
unfoldable pub extract_targets_from : List Msid → Result ResultCode (List Target)
unfolding targets_of
extract_targets_from [] = err ResultCode.format_error
extract_targets_from (m ∷ ms) = targets_of (m ∷ ms)

-- `none` is an absent element.
unfoldable pub parse_loc_type : Option Text → Result ResultCode ℕ
parse_loc_type none = ok location_current
parse_loc_type (some t) =
    if is_empty t || text_eq t (codes "CURRENT")
    then ok location_current
    else if text_eq t (codes "CURRENT_OR_LAST")
    then ok location_current_or_last_known
    else err ResultCode.attribute_value_not_supported

unfoldable pub parse_prio : Option Text → Option ℕ
parse_prio none = none
parse_prio (some t) = if text_eq t (codes "HIGH") then some 0 else none

-- `none` is an absent element; `some` is the code of the coordinate reference system.
unfoldable pub validate_geo_info : Option Text → Result ResultCode (Unit {0})
validate_geo_info none = ok tt
validate_geo_info (some code) =
    guard (text_eq (trim_space code) (codes "4326")) ResultCode.attribute_value_not_supported

-- The id and pwd of a client.
pub record Credentials : Type 0 where
  pub id : Text
  pub pwd : Text

unfoldable pub credentials_from_hdr : Option Credentials → Text × Text
credentials_from_hdr none = ([], [])
credentials_from_hdr (some c) = (trim_space c.id, trim_space c.pwd)

-- strconv.Atoi of a text with a value above 0: a sign, one or more digits, and no overflow.
abbrev pub only_digits : Text → Option ℕ
only_digits [] = none
only_digits (c ∷ s) =
    let n = number_from 0 (c ∷ s) in
    if all_digits (c ∷ s) && ltb 0 n && ltb n (2 ^ 63) then some n else none

unfoldable pub positive_number : Text → Option ℕ
positive_number [] = none
positive_number (c ∷ s) = if c == 43 then only_digits s else only_digits (c ∷ s)

-- time.Duration(secs) * time.Second, which wraps around. All that reads it tests whether it is above 0, so
-- what is not is 0 here.
unfoldable pub seconds : ℕ → ℕ
seconds secs = let n = secs * 1000000000 % 2 ^ 64 in if ltb n (2 ^ 63) then n else 0

unfoldable pub positive_element : (ℕ → ℕ) → Option Text → Result ResultCode ℕ
unfolding positive_number
positive_element f none = ok 0
positive_element f (some t) = elim (positive_number (trim_space t)) [
  | none ↦ err ResultCode.invalid_protocol_element_value
  | some n ↦ ok (f n)
]

-- resp_req's type, resp_timer and hor_acc.
pub record Eqop : Type 0 where
  pub resp_req : Option Text
  pub resp_timer : Option Text
  pub hor_acc : Option Text

abbrev pub parse_hor_acc : Library → Option Text → Result ResultCode (Option Float64)
parse_hor_acc lib none = ok none
parse_hor_acc lib (some t) = elim (lib.parse_float (trim_space t)) [
  | none ↦ err ResultCode.invalid_protocol_element_value
  | some v ↦ ok (some v)
]

-- ResponseTimeDelayTolerant is 1, and ResponseTimeLowDelay is 0.
abbrev pub parse_resp_req : Option Text → Result ResultCode (Option ℕ)
parse_resp_req none = ok none
parse_resp_req (some t) =
    if is_empty t || text_eq t (codes "DELAY_TOL")
    then ok (some 1)
    else if text_eq t (codes "LOW_DELAY") || text_eq t (codes "NO_DELAY")
    then ok (some 0)
    else err ResultCode.attribute_value_not_supported

-- Without an accuracy and a class there is no QoS.
abbrev pub qos_of : Option Float64 → Option ℕ → Option QosRequest
qos_of none none = none
qos_of acc class = some (record {
  class = none;
  horizontal_accuracy_meters = acc;
  vertical_accuracy_meters = none;
  vertical_requested = false;
  response_time_class = class;
})

-- The QoS, and the duration that the client gives, 0 if it gives none.
unfoldable pub parse_eqop : Library → Option Eqop → Result ResultCode (Option QosRequest × ℕ)
unfolding positive_element seconds
parse_eqop lib none = ok (none, 0)
parse_eqop lib (some e) = parse_hor_acc lib e.hor_acc >>= λ acc.
    (parse_resp_req e.resp_req >>= λ class.
    (positive_element seconds e.resp_timer >>= λ timer. ok (qos_of acc class, timer)))

-- The time now, the wait when the client gives none (a `resp_timer` of zero), and the greatest wait.
unfoldable pub wait_deadline : ℕ → ℕ → ℕ → ℕ → ℕ
wait_deadline now sync_wait_default sync_wait_max resp_timer =
    let wait = if ltb 0 resp_timer then resp_timer else sync_wait_default in
    now + (if ltb sync_wait_max wait then sync_wait_max else wait)
