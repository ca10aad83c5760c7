-- ===== src/Mlp/Positions.antt =====
-- internal/mlp/dtd.go and handler.go: the `pos` elements of an answer.
use vectorcore_gmlc.Base.{
  ℕ, ◌+◌, ◌*◌, ◌/◌, ◌%◌, ◌≡◌, refl, true, false, Bool-cases, inl, inr, Option, none, some, List, [],
  ◌∷◌, if◌then◌else◌, ltb, ◌==◌,
}
use vectorcore_gmlc.Base.Text.{Text, codes}
use vectorcore_gmlc.Base.Decimal.{decimal}
use vectorcore_gmlc.Base.Float.{Float64, pos}
use vectorcore_gmlc.Domain.{Time, State, state_eq, Request, LocationResult}
use vectorcore_gmlc.Storage.Schema.{HistoryRow}
use vectorcore_gmlc.Mlp.{Msid, Library}
use vectorcore_gmlc.Mlp.ResultCodes.{ResultCode, outcome_result_code}
use vectorcore_gmlc.Mlp.Dmsh.{encode_dmsh, is_negative, magnitude}

-- shape and circularArea, with coord
pub record CircularArea : Type 0 where
  pub srs_name : Text
  pub x : Text
  pub y : Text
  pub radius : Text

-- timeElem
pub record TimeElem : Type 0 where
  pub utc_off : Text
  pub value : Text

pub record Pd : Type 0 where
  pub time : TimeElem
  pub shape : CircularArea

pub record PosErr : Type 0 where
  pub result : ResultCode
  pub time : TimeElem

pub record Pos : Type 0 where
  pub msid : Msid
  pub pd : Option Pd
  pub pos_err : Option PosErr

-- A half is rounded to the even number.
abbrev half_even : ℕ → ℕ → ℕ
half_even n den =
    let q = n / den in
    let twice = 2 * (n % den) in
    if ltb twice den then q else if ltb den twice then q + 1 else if q % 2 == 0 then q else q + 1

-- %.0f
unfoldable pub whole : Float64 → Text
whole x =
    let digits = decimal (half_even (magnitude x.num) x.den) in
    if is_negative x.num then 45 ∷ digits else digits

-- A radius that is absent is 0.
unfoldable pub or_zero : Option Float64 → Float64
or_zero none = record { num = pos 0; den = 1 }
or_zero (some x) = x

-- The point as a circle: N and S, E and W.
unfoldable pub circle_at : Library → Time → Float64 → Float64 → Option Float64 → Pd
unfolding whole or_zero
circle_at lib at latitude longitude uncertainty = record {
  time = record { utc_off = codes "+0000"; value = lib.format_time at };
  shape = record {
    srs_name = codes "www.epsg.org#4326";
    x = encode_dmsh latitude 78 83;
    y = encode_dmsh longitude 69 87;
    radius = whole (or_zero uncertainty);
  };
}

abbrev pub failed : Library → Msid → ResultCode → Time → Pos
failed lib m rc at = record {
  msid = m;
  pd = none;
  pos_err =
      some (record { result = rc; time = record { utc_off = []; value = lib.format_time at } });
}

-- The answer for a point whose two coordinates are there, and the one for any other.
abbrev pub located :
    Library → Msid → Time → Option Float64 → Option Float64 → Option Float64 → Pos → Pos
located lib m at (some lat) (some lon) uncertainty other = record {
  msid = m;
  pd = some (circle_at lib at lat lon uncertainty);
  pos_err = none;
}
located lib m at lat lon uncertainty other = other

unfoldable pub build_history_pos : Library → Msid → HistoryRow → Pos
build_history_pos lib m p =
    located lib m p.recorded_at p.latitude p.longitude p.uncertainty_meters
      (failed lib m ResultCode.position_method_failure p.recorded_at)

-- What awaitTerminal returns: the request with its result, which only a completed one has, or that the
-- time ran out.
pub data Outcome : Type 0 where
  settled : Request → Option LocationResult → Outcome
  timed_out : Outcome

unfoldable pub build_pos : Library → Msid → Outcome → Time → Pos
unfolding outcome_result_code
build_pos lib m timed_out now = failed lib m (outcome_result_code true) now
build_pos lib m (settled r none) now = failed lib m (outcome_result_code false) now
build_pos lib m (settled r (some v)) now =
    let other = failed lib m (outcome_result_code false) now in
    if state_eq r.state State.completed
    then located lib m v.created_at v.latitude v.longitude v.uncertainty_meters other
    else other

-- svcResult with its answer, or the General Error Message. The add_info texts are left out.
pub data Response : Type 0 where
  slia eme_lia hlia : List Pos → Response
  slia_result eme_lia_result hlia_result gem : ResultCode → Response

unfoldable pub status : Response → ℕ
status (gem rc) = 404
status _ = 200

-- Exactly one of Pd and PosErr is set.
abbrev pub OneOf : Pos → Type 0
OneOf p = elim p.pd [
  | none ↦ elim p.pos_err [ none ↦ true ≡ false | some e ↦ true ≡ true ]
  | some d ↦ elim p.pos_err [ none ↦ true ≡ true | some e ↦ true ≡ false ]
]

-- The element of a request's identity.
abbrev pub PosOf : Msid → Pos → Type 0
PosOf m p = (p.msid ≡ m) × OneOf p

located-PosOf :
    (lib : Library) (m : Msid) (at : Time) (lat lon uncertainty : Option Float64) (other : Pos)
    → PosOf m other
    → PosOf m (located lib m at lat lon uncertainty other)
located-PosOf lib m at (some lat) (some lon) uncertainty other h = (refl, refl)
located-PosOf lib m at (some lat) none uncertainty other h = h
located-PosOf lib m at none lon uncertainty other h = h

pub build_pos-PosOf :
    (lib : Library) (m : Msid) (o : Outcome) (now : Time) → PosOf m (build_pos lib m o now)
unfolding build_pos
build_pos-PosOf lib m timed_out now = (refl, refl)
build_pos-PosOf lib m (settled r none) now = (refl, refl)
build_pos-PosOf lib m (settled r (some v)) now =
    elim (Bool-cases (state_eq r.state State.completed)) [
      | inl e ↦ rw e (
          located-PosOf lib m v.created_at v.latitude v.longitude v.uncertainty_meters _
            (refl, refl))
      | inr e ↦ rw e (refl, refl)
    ]

pub build_history_pos-PosOf :
    (lib : Library) (m : Msid) (p : HistoryRow) → PosOf m (build_history_pos lib m p)
unfolding build_history_pos
build_history_pos-PosOf lib m p =
    located-PosOf lib m p.recorded_at p.latitude p.longitude p.uncertainty_meters _ (refl, refl)
