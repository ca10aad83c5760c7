-- ===== src/Slg/Pla/Outcomes.antt =====
-- internal/slg/slg.go: what an answer that DecodePLA accepts has held.
use mathlib.Core.List.{Memᴰ}
use vectorcore_gmlc.Base.{
  ℕ, ◌≡◌, ◌≤◌, refl, sym, ap, ◌∙◌, subst, true, false, ◌&&◌, Option, none, some, List, [], ◌∷◌,
  arith, length, ltb, ◌==◌, Result, ok, err, is_ok, ◌>>=◌, ◌>>◌, guard, bind_ok, guard_ok,
  ok_injective, Bool-cases, Option-cases, ◌⊎◌, inl, inr,
}
use vectorcore_gmlc.Errors.{Error, slg_error}
use vectorcore_gmlc.Errors.SlgKind.{malformed_pla}
use vectorcore_gmlc.Domain.{PositioningResult, ResultKind}
use vectorcore_gmlc.Gad.{GadError, Area, decode}
use vectorcore_gmlc.Diameter.Message.{
  Value, utf8, identity, octets, unsigned, enumerated, other_value, Avp, Data, value, grouped,
  Message, find, result_code, experimental_result, experimental_result_code, location_estimate,
  Succeeded,
}
use vectorcore_gmlc.Slg.{
  PayloadError, PositioningPayload, last_of, raw_estimate, as_octets, as_ecgi, is_set, max_raw,
  decode_positioning_payload, position_from_gad, as_enumerated, as_unsigned, some_of, avp_ecgi,
  vendor_id, avp_velocity_estimate, avp_eutran_positioning_data, avp_accuracy_fulfilment,
  avp_age_of_location_estimate,
}
use vectorcore_gmlc.Slg.Pla.{
  is_pla, answers, base_outcome, experimental_outcome, outcome_of, one_code, code_outcome,
  payload_or, classify, located, without_estimate, decode_pla,
}

module _ {ℓ κ} {A : Type ℓ} (P : A → Type κ) (read : Data → Option A)
    (reads : (d : Data) (v : A) → read d ≡ some v → P v) where
  last_of-P :
      (so_far : A) (avps : List (Avp Data)) (out : A)
      → P so_far
      → last_of read so_far avps ≡ ok out
      → P out
  unfolding last_of
  last_of-P so_far [] out p h = subst P (ok_injective so_far out h) p
  last_of-P so_far (a ∷ avps) out p h = elim (Option-cases (read a.data_)) [
    | inl e ↦ cc (rw (e, last_of) at h)
    | inr (v, e) ↦ last_of-P v avps out (reads a.data_ v e) (rw (e, last_of) at h)
  ]

abbrev Short : List ℕ → Type 0
Short raw = length raw ≤ 8192

raw_estimate-Short :
    (so_far : List ℕ) (avps : List (Avp Data)) (out : List ℕ)
    → Short so_far
    → raw_estimate so_far avps ≡ ok out
    → Short out
unfolding raw_estimate
raw_estimate-Short so_far [] out p h = subst Short (ok_injective so_far out h) p
raw_estimate-Short so_far (a ∷ avps) out p h = elim (Option-cases (as_octets a.data_)) [
  | inl e ↦ cc (rw (e, raw_estimate) at h)
  | inr (v, e) ↦
      let h1 = rw (e, raw_estimate) at h in
      elim (Bool-cases (ltb max_raw (length v))) [
        | inl t ↦ cc (rw t at h1)
        | inr t ↦
            let h2 = rw t at h1 in
            elim (Bool-cases (is_set so_far)) [
              | inl u ↦ cc (rw u at h2)
              | inr u ↦ raw_estimate-Short v avps out (ground (arith, t)) (rw u at h2)
            ]
      ]
]

-- An ECGI is absent or has seven octets.
abbrev pub IsEcgi : List ℕ → Type 0
IsEcgi e = (e ≡ []) ⊎ (length e ≡ 7)

as_ecgi-IsEcgi : (d : Data) (v : List ℕ) → as_ecgi d ≡ some v → IsEcgi v
as_ecgi-IsEcgi (grouped g) v h = cc
as_ecgi-IsEcgi (value (octets b)) v h = elim (Bool-cases (length b == 7)) [
  | inl t ↦ let same : b ≡ v = ground (arith, rw t at h) in inr (rw (← same) (ground (arith, t)))
  | inr t ↦ cc (rw t at h)
]
as_ecgi-IsEcgi (value (utf8 s)) v h = cc
as_ecgi-IsEcgi (value (identity s)) v h = cc
as_ecgi-IsEcgi (value (unsigned n)) v h = cc
as_ecgi-IsEcgi (value (enumerated n)) v h = cc
as_ecgi-IsEcgi (value other_value) v h = cc

-- One of the AVPs has these octets.
abbrev pub HasOctets : List (Avp Data) → List ℕ → Type 0
HasOctets avps v = (a : Avp Data) × Memᴰ a avps × (a.data_ ≡ value (octets v))

as_octets_lem : (d : Data) (v : List ℕ) → as_octets d ≡ some v → d ≡ value (octets v)
as_octets_lem d v h = ground arith

as_ecgi_lem : (d : Data) (v : List ℕ) → as_ecgi d ≡ some v → d ≡ value (octets v)
as_ecgi_lem d v h = ground arith

-- A later AVP, or else this one.
later_octets :
    (a : Avp Data) (avps : List (Avp Data)) (v out : List ℕ)
    → a.data_ ≡ value (octets v)
    → (out ≡ v) ⊎ HasOctets avps out
    → HasOctets (a ∷ avps) out
later_octets a avps v out e (inl same) =
    (a, Memᴰ.head refl, e ∙ ap (λ w. value (octets w)) (sym same))
later_octets a avps v out e (inr (b, m, q)) = (b, Memᴰ.tail m, q)

last_of-HasOctets :
    (read : Data → Option (List ℕ))
    → ((d : Data) (v : List ℕ) → read d ≡ some v → d ≡ value (octets v))
    → (so_far : List ℕ) (avps : List (Avp Data)) (out : List ℕ) → last_of read so_far avps ≡ ok out
    → (out ≡ so_far) ⊎ HasOctets avps out
unfolding last_of
last_of-HasOctets read reads so_far [] out h = inl (sym (ok_injective so_far out h))
last_of-HasOctets read reads so_far (a ∷ avps) out h = elim (Option-cases (read a.data_)) [
  | inl e ↦ cc (rw (e, last_of) at h)
  | inr (v, e) ↦
      let h1 = rw (e, last_of) at h in
      inr
        (later_octets a avps v out (reads a.data_ v e) (last_of-HasOctets read reads v avps out h1))
]

raw_estimate-HasOctets :
    (so_far : List ℕ) (avps : List (Avp Data)) (out : List ℕ)
    → raw_estimate so_far avps ≡ ok out
    → (out ≡ so_far) ⊎ HasOctets avps out
unfolding raw_estimate
raw_estimate-HasOctets so_far [] out h = inl (sym (ok_injective so_far out h))
raw_estimate-HasOctets so_far (a ∷ avps) out h = elim (Option-cases (as_octets a.data_)) [
  | inl e ↦ cc (rw (e, raw_estimate) at h)
  | inr (v, e) ↦
      let h1 = rw (e, raw_estimate) at h in
      elim (Bool-cases (ltb max_raw (length v))) [
        | inl t ↦ cc (rw t at h1)
        | inr t ↦
            let h2 = rw t at h1 in
            elim (Bool-cases (is_set so_far)) [
              | inl u ↦ cc (rw u at h2)
              | inr u ↦ inr (
                  later_octets a avps v out (as_octets_lem a.data_ v e)
                    (raw_estimate-HasOctets v avps out (rw u at h2)))
            ]
      ]
]

base_outcome_lem : (d : Data) → base_outcome d ≡ ok tt → d ≡ value (unsigned 2001)
unfolding base_outcome
base_outcome_lem (value (unsigned code)) h = ground (arith, h)
base_outcome_lem (value (utf8 s)) h = cc
base_outcome_lem (value (identity s)) h = cc
base_outcome_lem (value (octets b)) h = cc
base_outcome_lem (value (enumerated n)) h = cc
base_outcome_lem (value other_value) h = cc
base_outcome_lem (grouped g) h = cc

experimental_outcome_fails : (d : Data) → is_ok (experimental_outcome d) ≡ false
unfolding experimental_outcome one_code code_outcome
experimental_outcome_fails (value v) = refl
experimental_outcome_fails (grouped g) = code_fails (find experimental_result_code 0 g)
  where
    outcome_fails : (v : Value) → is_ok (code_outcome v) ≡ false
    outcome_fails v = ground arith

    code_fails : (codes : List (Avp Value)) → is_ok (one_code codes) ≡ false
    code_fails [] = refl
    code_fails (a ∷ []) = outcome_fails a.data_
    code_fails (a ∷ b ∷ rest) = refl

outcome_of-Succeeded : (xs ys : List (Avp Data)) → outcome_of xs ys ≡ ok tt → Succeeded xs ys
unfolding outcome_of
outcome_of-Succeeded [] [] h = cc
outcome_of-Succeeded [] (y ∷ []) h = cc (experimental_outcome_fails y.data_)
outcome_of-Succeeded [] (y ∷ z ∷ ys) h = cc
outcome_of-Succeeded (x ∷ []) [] h = base_outcome_lem x.data_ h
outcome_of-Succeeded (x ∷ []) (y ∷ ys) h = cc
outcome_of-Succeeded (x ∷ z ∷ xs) ys h = cc

-- The kind and the position that follow from the estimate and the ECGI.
abbrev pub Classified : List ℕ → List ℕ → PositioningResult → Type 0
Classified [] [] out = (out.kind ≡ ResultKind.no_immediate_result) × (out.position ≡ none)
Classified [] (b ∷ ecgi) out =
    (out.kind ≡ ResultKind.additional_information) × (out.position ≡ none)
Classified (b ∷ raw) ecgi out =
    (g : Area) × (decode (b ∷ raw) ≡ ok g)
    × (out.kind ≡ ResultKind.location_estimate)
    × (out.position ≡ position_from_gad g)

-- The estimate and the ECGI of a result are empty or those of AVPs of the answer, in their limits.
abbrev pub FromAvps : List (Avp Data) → List ℕ → List ℕ → Type 0
FromAvps avps raw ecgi =
    (length raw ≤ 8192)
    × IsEcgi ecgi
    × ((raw ≡ []) ⊎ HasOctets (find location_estimate 0 avps) raw)
    × ((ecgi ≡ []) ⊎ HasOctets (find avp_ecgi vendor_id avps) ecgi)

-- An answer to the request, with success alone; the result has the estimate and the ECGI of its AVPs.
abbrev pub Accepted : Option Message → Message → PositioningResult → Type 0
Accepted req ans out =
    ((is_pla ans && answers req ans) ≡ true)
    × Succeeded (find result_code 0 ans.avps) (find experimental_result 0 ans.avps)
    × FromAvps ans.avps out.raw_location_estimate out.ecgi
    × Classified out.raw_location_estimate out.ecgi out

-- What the classification copies and adds.
abbrev Copied : PositioningPayload → List ℕ → PositioningResult → Type 0
Copied p raw out =
    (out.raw_location_estimate ≡ p.raw) × (out.ecgi ≡ p.ecgi) × Classified raw p.ecgi out

located-Copied :
    (p : PositioningPayload) (b : ℕ) (raw : List ℕ) (g : Result GadError Area)
    (out : PositioningResult)
    → decode (b ∷ raw) ≡ g
    → located p g ≡ ok out
    → Copied p (b ∷ raw) out
located-Copied p b raw (err e) out d h = cc
located-Copied p b raw (ok g) out d h =
    let same = ok_injective _ out h in
    subst (Copied p (b ∷ raw)) same (refl, refl, (g, d, refl, refl))

without_estimate-Copied :
    (p : PositioningPayload) (ecgi : List ℕ)
    → ((without_estimate p ecgi).raw_location_estimate ≡ p.raw)
      × ((without_estimate p ecgi).ecgi ≡ p.ecgi)
      × Classified [] ecgi (without_estimate p ecgi)
without_estimate-Copied p [] = (refl, refl, (refl, refl))
without_estimate-Copied p (b ∷ ecgi) = (refl, refl, (refl, refl))

classify-Copied :
    (p : PositioningPayload) (raw : List ℕ) (out : PositioningResult)
    → classify p raw ≡ ok out
    → Copied p raw out
unfolding classify
classify-Copied p [] out h =
    subst (Copied p []) (ok_injective (without_estimate p p.ecgi) out h)
      (without_estimate-Copied p p.ecgi)
classify-Copied p (b ∷ raw) out h = located-Copied p b raw (decode (b ∷ raw)) out refl h

payload_limits :
    (avps : List (Avp Data)) (p : PositioningPayload)
    → decode_positioning_payload avps ≡ ok p
    → FromAvps avps p.raw p.ecgi
unfolding decode_positioning_payload
payload_limits avps p h =
    let (raw, hr, h1) = bind_ok (raw_estimate [] (find location_estimate 0 avps)) _ p h in
    let (ecgi, he, h2) = bind_ok (last_of as_ecgi [] (find avp_ecgi vendor_id avps)) _ p h1 in
    let (velocity, hv, h3) =
      bind_ok (last_of as_octets [] (find avp_velocity_estimate vendor_id avps)) _ p h2 in
    let (eutran, hu, h4) =
      bind_ok (last_of as_octets [] (find avp_eutran_positioning_data vendor_id avps)) _ p h3 in
    let (accuracy, ha, h5) =
      bind_ok (last_of (some_of as_enumerated) none (find avp_accuracy_fulfilment vendor_id avps)) _
        p h4 in
    let (age, hg, h6) =
      bind_ok
        (last_of (some_of as_unsigned) none (find avp_age_of_location_estimate vendor_id avps)) _ p
        h5 in
    subst (λ (q : PositioningPayload). FromAvps avps q.raw q.ecgi) (ok_injective _ p h6)
      (
        raw_estimate-Short [] (find location_estimate 0 avps) raw (omega arith) hr,
        last_of-P IsEcgi as_ecgi as_ecgi-IsEcgi [] (find avp_ecgi vendor_id avps) ecgi (inl refl)
            he,
        raw_estimate-HasOctets [] (find location_estimate 0 avps) raw hr,
        last_of-HasOctets as_ecgi as_ecgi_lem [] (find avp_ecgi vendor_id avps) ecgi he,
      )

payload_or_ok :
    (r : Result PayloadError PositioningPayload) (p : PositioningPayload)
    → payload_or r ≡ ok p
    → r ≡ ok p
payload_or_ok (ok q) p h = cc
payload_or_ok (err e) p h = cc

-- An answer is accepted only as one to the request, with a Result-Code of success alone, an estimate of at most
-- 8192 octets and an ECGI of seven, if any, which are those of its AVPs. The result is an estimate with the position that the
-- octets decode to, or else a cell, or else no immediate result; it is never a deferred one.
pub decode_pla-Accepted :
    (req : Option Message) (ans : Message) (out : PositioningResult)
    → decode_pla req (some ans) ≡ ok out
    → Accepted req ans out
unfolding decode_pla
decode_pla-Accepted req ans out h =
    let codes = outcome_of (find result_code 0 ans.avps) (find experimental_result 0 ans.avps) in
    let payload = payload_or (decode_positioning_payload ans.avps) in
    let read : PositioningPayload → Result Error PositioningResult = λ p. classify p p.raw in
    let header = is_pla ans && answers req ans in
    let (u, h1, h2) =
      bind_ok (guard header (slg_error malformed_pla 0 0) >> codes) (λ _. payload >>= read) out h in
    let (good, succeeded) = guard_ok header (slg_error malformed_pla 0 0) codes u h1 in
    let (p, hp, h3) = bind_ok payload read out h2 in
    let limits = payload_limits ans.avps p (payload_or_ok _ p hp) in
    let copied = classify-Copied p p.raw out h3 in
    (
      good,
      outcome_of-Succeeded (find result_code 0 ans.avps) (find experimental_result 0 ans.avps)
          succeeded,
      subst (λ e. FromAvps ans.avps out.raw_location_estimate e) (sym copied.1)
          (subst (λ b. FromAvps ans.avps b p.ecgi) (sym copied.0) limits),
      subst (λ e. Classified out.raw_location_estimate e out) (sym copied.1)
          (subst (λ b. Classified b p.ecgi out) (sym copied.0) copied.2),
    )
