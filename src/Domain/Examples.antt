-- ===== src/Domain/Examples.antt =====
-- Tests of the states and targets, and the theorems at concrete inputs.
use vectorcore_gmlc.Base.{◌≡◌, refl, true, false, ◌↔◌, ok, err, []}
use vectorcore_gmlc.Base.Text.{codes, trim_space}
use vectorcore_gmlc.Errors.{Error}
use vectorcore_gmlc.Domain.{State, terminal, can_transition, validate}
use vectorcore_gmlc.Domain.Transitions.{◌⟶◌, can_transition_iff}

can_transition_iff_example :
    ((t : State) → (can_transition State.locating t ≡ true) ↔ (State.locating ⟶ t))
    × ((terminal State.locating ≡ true) ↔ ((t : State) → can_transition State.locating t ≡ false))
can_transition_iff_example = can_transition_iff State.locating

valid_target : validate (record { imsi = codes "00101"; msisdn = [] }) ≡ ok tt
unfolding validate trim_space
valid_target = refl

missing_target : validate (record { imsi = codes " "; msisdn = [] }) ≡ err Error.invalid_target
unfolding validate trim_space
missing_target = refl

letters_target : validate (record { imsi = codes "12a"; msisdn = [] }) ≡ err Error.invalid_target
unfolding validate trim_space
letters_target = refl
