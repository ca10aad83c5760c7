-- ===== src/Mlp/Targets.antt =====
-- internal/mlp/handler.go: which identities a request can ask for.
use vectorcore_gmlc.Base.{
  suc, ap, length, ◌≡◌, refl, ◌↔◌, inl, inr, Bool, true, false, List, [], ◌∷◌, ok, ◌>>=◌, bind_ok,
  ok_injective, subst, if◌then◌else◌, Bool-cases,
}
use vectorcore_gmlc.Base.Text.{Text, codes, text_eq, text_eq_iff, is_empty, trim_space}
use vectorcore_gmlc.Domain.{Target}
use vectorcore_gmlc.Mlp.{Msid, msid_to_target, target_of, targets_of, extract_targets_from}

-- An identity of one of the two supported types, MSISDN when it gives none, and the target it names, without
-- the blanks around it.
pub data Names : Msid → Target → Type 0 where
  by_default :
      (m : Msid)
      → is_empty m.msid_type ≡ true
      → Names m (record { imsi = []; msisdn = trim_space m.msid_value })
  by_msisdn :
      (m : Msid)
      → text_eq m.msid_type (codes "MSISDN") ≡ true
      → Names m (record { imsi = []; msisdn = trim_space m.msid_value })
  by_imsi :
      (m : Msid)
      → text_eq m.msid_type (codes "IMSI") ≡ true
      → Names m (record { imsi = trim_space m.msid_value; msisdn = [] })

-- One target for each identity, in their order.
abbrev pub NamesAll : List Msid → List Target → Type 0
NamesAll [] [] = true ≡ true
NamesAll (m ∷ ms) (t ∷ ts) = Names m t × NamesAll ms ts
NamesAll _ _ = true ≡ false

-- The type that is read is one of the two, or none is given.
target_of-Names :
    (m : Msid) (b : Bool) (t : Target)
    → is_empty m.msid_type ≡ b
    → target_of (if b then codes "MSISDN" else m.msid_type) (trim_space m.msid_value) ≡ ok t
    → Names m t
unfolding text_eq
target_of-Names m true t e h = subst (Names m) (ok_injective _ t h) (by_default m e)
target_of-Names m false t e h = elim (Bool-cases (text_eq m.msid_type (codes "MSISDN"))) [
  | inl q ↦ subst (Names m) (ok_injective _ t (rw q at h)) (by_msisdn m q)
  | inr q ↦ elim (Bool-cases (text_eq m.msid_type (codes "IMSI"))) [
    | inl k ↦ subst (Names m) (ok_injective _ t (rw (q, k) at h)) (by_imsi m k)
    | inr k ↦ let h1 = rw (q, k) at h in cc
  ]
]

target_of-msisdn :
    (b : Bool) (t v : Text)
    → text_eq t (codes "MSISDN") ≡ true
    → target_of (if b then codes "MSISDN" else t) v ≡ ok (record { imsi = []; msisdn = v })
unfolding text_eq
target_of-msisdn true t v e = refl
target_of-msisdn false t v e = rw e refl

Names-msid_to_target : (m : Msid) (t : Target) → Names m t → msid_to_target m ≡ ok t
unfolding msid_to_target text_eq
Names-msid_to_target _ _ (by_default m e) = rw e refl
Names-msid_to_target _ _ (by_msisdn m e) =
    target_of-msisdn (is_empty m.msid_type) m.msid_type (trim_space m.msid_value) e
Names-msid_to_target _ _ (by_imsi m e) = rw ((text_eq_iff m.msid_type (codes "IMSI")).0 e) refl

msid_to_target-Names : (m : Msid) (t : Target) → msid_to_target m ≡ ok t → Names m t
unfolding msid_to_target
msid_to_target-Names m t h = target_of-Names m (is_empty m.msid_type) t refl h

targets_of-NamesAll : (ms : List Msid) (ts : List Target) → targets_of ms ≡ ok ts → NamesAll ms ts
unfolding targets_of
targets_of-NamesAll [] ts h = subst (NamesAll []) (ok_injective [] ts h) refl
targets_of-NamesAll (m ∷ ms) ts h =
    let (t, e, h1) = bind_ok (msid_to_target m) (λ t. targets_of ms >>= λ us. ok (t ∷ us)) ts h in
    let (us, e1, h2) = bind_ok (targets_of ms) (λ us. ok (t ∷ us)) ts h1 in
    subst (NamesAll (m ∷ ms)) (ok_injective (t ∷ us) ts h2)
      (msid_to_target-Names m t e, targets_of-NamesAll ms us e1)

NamesAll-targets_of : (ms : List Msid) (ts : List Target) → NamesAll ms ts → targets_of ms ≡ ok ts
unfolding targets_of
NamesAll-targets_of [] [] h = refl
NamesAll-targets_of [] (t ∷ ts) h = cc
NamesAll-targets_of (m ∷ ms) [] h = cc
NamesAll-targets_of (m ∷ ms) (t ∷ ts) (n, h) =
    rw (Names-msid_to_target m t n, NamesAll-targets_of ms ts h) refl

-- At least one identity, and a target for each.
abbrev pub Resolved : List Msid → List Target → Type 0
Resolved [] ts = true ≡ false
Resolved (m ∷ ms) ts = NamesAll (m ∷ ms) ts

-- A request asks for targets exactly if it has at least one identity and each is of a supported type; they are
-- the targets that the identities name, one for each and in their order.
pub extract_targets_from_iff :
    (ms : List Msid) (ts : List Target) → (extract_targets_from ms ≡ ok ts) ↔ Resolved ms ts
unfolding extract_targets_from
extract_targets_from_iff [] ts = (λ h. cc, λ h. cc)
extract_targets_from_iff (m ∷ ms) ts =
    (targets_of-NamesAll (m ∷ ms) ts, NamesAll-targets_of (m ∷ ms) ts)

NamesAll-length : (ms : List Msid) (ts : List Target) → NamesAll ms ts → length ts ≡ length ms
NamesAll-length [] [] h = refl
NamesAll-length [] (t ∷ ts) h = cc
NamesAll-length (m ∷ ms) [] h = cc
NamesAll-length (m ∷ ms) (t ∷ ts) (n, h) = ap suc (NamesAll-length ms ts h)

pub extract_targets_from-length :
    (ms : List Msid) (ts : List Target) → extract_targets_from ms ≡ ok ts → length ts ≡ length ms
extract_targets_from-length [] ts h =
    let k : true ≡ false = (extract_targets_from_iff [] ts).0 h in cc
extract_targets_from-length (m ∷ ms) ts h =
    NamesAll-length (m ∷ ms) ts ((extract_targets_from_iff (m ∷ ms) ts).0 h)
