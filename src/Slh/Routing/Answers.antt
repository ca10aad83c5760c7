-- ===== src/Slh/Routing/Answers.antt =====
-- internal/slh/slh.go: which answers DecodeRIA accepts, and what it reads from them.
use vectorcore_gmlc.Base.{
  ◌≡◌, refl, sym, ap, ◌↔◌, true, false, Option, some, List, [], ◌∷◌, arith, Result, ok, ◌>>=◌, ◌>>◌,
  guard, is_ok, bind_ok, guard_ok, Bool-cases, inl, inr,
}
use vectorcore_gmlc.Base.Text.{Text, is_empty, trim_space}
use vectorcore_gmlc.Errors.{Error, slh_error}
use vectorcore_gmlc.Errors.SlhKind.{malformed}
use vectorcore_gmlc.Domain.{Time, ServingNode}
use vectorcore_gmlc.Diameter.Message.{
  Value, utf8, identity, octets, unsigned, enumerated, other_value, Avp, Data, value, grouped,
  Message, result_code, experimental_result, experimental_result_code, find, Succeeded,
}
use vectorcore_gmlc.Slh.Routing.{
  Config, base_result, experimental_outcome, experimental_code, experimental_code_outcome,
  group_node, result_error_of, result_error, node_identity, node_of, serving_node_group,
  is_answer_to, resolved_node, decode_ria, avp_serving_node, avp_mme_name, avp_mme_realm,
  vendor_3gpp,
}

-- A DiameterIdentity that is not blank.
abbrev pub Names : Value → Text → Type 0
Names v t = (v ≡ identity t) × (is_empty (trim_space t) ≡ false)

-- One name, and at most one realm.
abbrev pub Host : List (Avp Value) → Text → Type 0
Host (h ∷ []) t = Names h.data_ t
Host _ t = ⊥

abbrev pub Realm : List (Avp Value) → Text → Type 0
Realm [] t = t ≡ []
Realm (r ∷ []) t = Names r.data_ t
Realm _ t = ⊥

-- One Serving-Node group, with the name and the realm of an MME.
abbrev pub Mme : Data → Text × Text → Type 0
Mme (grouped g) p =
    Host (find avp_mme_name vendor_3gpp g) p.0 × Realm (find avp_mme_realm vendor_3gpp g) p.1
Mme (value v) p = ⊥

abbrev pub OneMme : List (Avp Data) → Text × Text → Type 0
OneMme (a ∷ []) p = Mme a.data_ p
OneMme _ p = ⊥

base_result_iff : (d : Data) → (base_result d ≡ ok tt) ↔ (d ≡ value (unsigned 2001))
unfolding base_result
base_result_iff (value (unsigned code)) = ground arith
base_result_iff (value (utf8 t)) = ground arith
base_result_iff (value (identity t)) = ground arith
base_result_iff (value (octets b)) = ground arith
base_result_iff (value (enumerated n)) = ground arith
base_result_iff (value other_value) = ground arith
base_result_iff (grouped g) = ground arith

experimental_outcome_fails : (d : Data) → is_ok (experimental_outcome d) ≡ false
unfolding experimental_outcome experimental_code experimental_code_outcome
experimental_outcome_fails (value v) = refl
experimental_outcome_fails (grouped g) = code_fails (find experimental_result_code 0 g)
  where
    outcome_fails : (v : Value) → is_ok (experimental_code_outcome v) ≡ false
    outcome_fails v = ground arith

    code_fails : (codes : List (Avp Value)) → is_ok (experimental_code codes) ≡ false
    code_fails [] = refl
    code_fails (a ∷ []) = outcome_fails a.data_
    code_fails (a ∷ b ∷ rest) = refl

result_error_of_iff : (xs ys : List (Avp Data)) → (result_error_of xs ys ≡ ok tt) ↔ Succeeded xs ys
unfolding result_error_of
result_error_of_iff [] [] = ground arith
result_error_of_iff [] (y ∷ []) = ground (arith, experimental_outcome_fails y.data_)
result_error_of_iff [] (y ∷ z ∷ ys) = ground arith
result_error_of_iff (x ∷ []) [] = base_result_iff x.data_
result_error_of_iff (x ∷ []) (y ∷ ys) = ground arith
result_error_of_iff (x ∷ z ∷ xs) ys = ground arith

node_identity_iff : (v : Value) (t : Text) → (node_identity v ≡ ok t) ↔ Names v t
unfolding node_identity
node_identity_iff (identity h) t = elim (Bool-cases (is_empty (trim_space h))) [
  | inl e ↦ ground arith
  | inr e ↦ ground arith
]
node_identity_iff (utf8 h) t = ground arith
node_identity_iff (octets h) t = ground arith
node_identity_iff (unsigned h) t = ground arith
node_identity_iff (enumerated h) t = ground arith
node_identity_iff other_value t = ground arith

node_of_iff :
    (hosts realms : List (Avp Value)) (p : Text × Text)
    → (node_of hosts realms ≡ ok p) ↔ (Host hosts p.0 × Realm realms p.1)
unfolding node_of
node_of_iff [] realms p = ground arith
node_of_iff (h ∷ []) [] p = ground (arith, node_identity_iff h.data_)
node_of_iff (h ∷ []) (r ∷ []) p =
    ground (arith, node_identity_iff h.data_, node_identity_iff r.data_)
node_of_iff (h ∷ []) (r ∷ s ∷ realms) p = ground arith
node_of_iff (h ∷ k ∷ hosts) realms p = ground arith

group_node_iff : (d : Data) (p : Text × Text) → (group_node d ≡ ok p) ↔ Mme d p
unfolding group_node
group_node_iff (value v) p = ground arith
group_node_iff (grouped g) p =
    node_of_iff (find avp_mme_name vendor_3gpp g) (find avp_mme_realm vendor_3gpp g) p

serving_node_group_iff :
    (nodes : List (Avp Data)) (p : Text × Text) → (serving_node_group nodes ≡ ok p) ↔ OneMme nodes p
unfolding serving_node_group
serving_node_group_iff [] p = ground arith
serving_node_group_iff (a ∷ []) p = group_node_iff a.data_ p
serving_node_group_iff (a ∷ b ∷ nodes) p = ground arith

-- An answer to the request, with success alone and one Serving-Node with the MME that is read.
abbrev pub Routed : Config → Time → Option Message → Message → ServingNode → Type 0
Routed cfg now req ans n =
    (p : Text × Text) × (is_answer_to req ans ≡ true)
    × Succeeded (find result_code 0 ans.avps) (find experimental_result 0 ans.avps)
    × OneMme (find avp_serving_node vendor_3gpp ans.avps) p
    × (n ≡ resolved_node cfg now p)

-- DecodeRIA reads a serving node from exactly the answers to the request that carry success and no other
-- result, and one Serving-Node group with one MME name and at most one realm, neither of them blank.
pub decode_ria_iff :
    (cfg : Config) (now : Time) (req : Option Message) (ans : Message) (n : ServingNode)
    → (decode_ria cfg now req (some ans) ≡ ok n) ↔ Routed cfg now req ans n
unfolding decode_ria result_error
decode_ria_iff cfg now req ans n = (sound, complete)
  where
    bases : List (Avp Data)
    bases = find result_code 0 ans.avps

    experimentals : List (Avp Data)
    experimentals = find experimental_result 0 ans.avps

    nodes : List (Avp Data)
    nodes = find avp_serving_node vendor_3gpp ans.avps

    complete : Routed cfg now req ans n → decode_ria cfg now req (some ans) ≡ ok n
    complete (p, header, succeeded, mme, same) = rw header (
        rw ((result_error_of_iff bases experimentals).1 succeeded)
          (rw ((serving_node_group_iff nodes p).1 mme) (ap (λ x. ok x) (sym same))))

    sound : decode_ria cfg now req (some ans) ≡ ok n → Routed cfg now req ans n
    sound h =
        let read : Text × Text → Result Error ServingNode = λ p. ok (resolved_node cfg now p) in
        let codes = result_error_of bases experimentals in
        let (u, h1, h2) =
          bind_ok (guard (is_answer_to req ans) (slh_error malformed 0 0) >> codes)
            (λ _. serving_node_group nodes >>= read) n h in
        let (header, succeeded) =
          guard_ok (is_answer_to req ans) (slh_error malformed 0 0) codes u h1 in
        let (p, mme, h3) = bind_ok (serving_node_group nodes) read n h2 in
        (
          p,
          header,
          (result_error_of_iff bases experimentals).0 succeeded,
          (serving_node_group_iff nodes p).0 mme,
          cc,
        )
