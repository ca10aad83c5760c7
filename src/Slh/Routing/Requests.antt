-- ===== src/Slh/Routing/Requests.antt =====
-- internal/slh/slh.go: what BuildRIR asks for.
use vectorcore_gmlc.Base.{
  ℕ, ◌≡◌, ◌≤◌, ◌<◌, refl, ap, subst, ◌∙◌, true, false, not, List, [], ◌∷◌, ◌++◌, arith, length,
  Result, ok, err, is_ok, bind_ok, ok_injective, Bool-cases, ◌⊎◌, inl, inr,
}
use vectorcore_gmlc.Base.Text.{Text, is_empty, all_digits}
use vectorcore_gmlc.Errors.{Error}
use vectorcore_gmlc.Domain.{Target}
use vectorcore_gmlc.Diameter.Message.{
  Avp, avp, Data, value, utf8, octets, Message, mbit, vmbit, user_name, find, Diam, IsRequest, when,
}
use vectorcore_gmlc.Slh.Msisdn.{encode_msisdn, decode_msisdn}
use vectorcore_gmlc.Slh.Msisdn.RoundTrip.{decode_msisdn-encode_msisdn}
use vectorcore_gmlc.Slh.Routing.{
  Config, build_rir, rir_avps, validate_target, octets_or_none, avp_msisdn, vendor_3gpp,
  command_routing_info, application_id,
}

module _ (cfg : Config) (session : Text) (t : Target) where
  abbrev sent : List (Avp Data)
  sent = rir_avps cfg session t

  user_name-rir_avps :
      find user_name 0 sent
      ≡ when (not (is_empty t.imsi)) (avp user_name mbit 0 (value (utf8 t.imsi)))
  unfolding rir_avps
  user_name-rir_avps = ground arith

  msisdn-rir_avps :
      find avp_msisdn vendor_3gpp sent
      ≡ when (not (is_empty t.msisdn)) (
          avp avp_msisdn vmbit vendor_3gpp
            (value (octets (octets_or_none (encode_msisdn t.msisdn)))))
  unfolding rir_avps
  msisdn-rir_avps = ground arith

-- What a request that is built says of its target: the IMSI as User-Name, and the octets of the MSISDN,
-- in a request of this application.
abbrev pub Asks : Target → List ℕ → Message → Type 0
Asks t b m =
    (m.header.application_id ≡ application_id)
    × (m.header.command_code ≡ command_routing_info)
    × (m.header.request ≡ true)
    × (find user_name 0 m.avps
        ≡ when (not (is_empty t.imsi)) (avp user_name mbit 0 (value (utf8 t.imsi))))
    × (find avp_msisdn vendor_3gpp m.avps
        ≡ when (not (is_empty t.msisdn)) (avp avp_msisdn vmbit vendor_3gpp (value (octets b))))

nonempty : (s : Text) → is_empty s ≡ false → 0 < length s
nonempty [] h = cc
nonempty (c ∷ s) h = omega arith

no_octets : (r : Result Error (List ℕ)) → is_ok r ≡ false → octets_or_none r ≡ []
no_octets (ok b) h = cc
no_octets (err e) h = refl

abbrev one : List ℕ → List (Avp Data)
one b = avp avp_msisdn vmbit vendor_3gpp (value (octets b)) ∷ []

module _ (lib : Diam) (cfg : Config) (session : Text) (t : Target) (m : Message)
    (requests : IsRequest lib) (built : build_rir lib cfg session t ≡ ok m) where
  request : Message
  request = lib.new_request command_routing_info application_id

  is_request : record request { avps = request.avps ++ rir_avps cfg session t } ≡ m
  unfolding build_rir request
  is_request =
      let out : Message = record request { avps = request.avps ++ rir_avps cfg session t } in
      ok_injective out m (bind_ok (validate_target t) (λ _. ok out) m built).2

  build_rir-Asks_octets : Asks t (octets_or_none (encode_msisdn t.msisdn)) m
  unfolding request
  build_rir-Asks_octets =
      let sent_here = requests command_routing_info application_id in
      subst (Asks t (octets_or_none (encode_msisdn t.msisdn))) is_request (
        sent_here.0,
        sent_here.1,
        sent_here.2,
        rw sent_here.3 (user_name-rir_avps cfg session t),
        rw sent_here.3 (msisdn-rir_avps cfg session t),
      )

  -- A target of digits is asked for as it is: its IMSI is the User-Name, and the octets of its MSISDN
  -- decode to it.
  pub build_rir-Asks :
      all_digits t.msisdn ≡ true
      → length t.msisdn ≤ 15
      → (b : List ℕ) × Asks t b m × ((is_empty t.msisdn ≡ true) ⊎ (decode_msisdn b ≡ ok t.msisdn))
  build_rir-Asks digits short = elim (Bool-cases (is_empty t.msisdn)) [
    | inl e ↦ (octets_or_none (encode_msisdn t.msisdn), build_rir-Asks_octets, inl e)
    | inr e ↦
        let (b, encoded, decoded) =
          decode_msisdn-encode_msisdn t.msisdn digits (nonempty t.msisdn e) short in
        (b, subst (λ r. Asks t (octets_or_none r) m) encoded build_rir-Asks_octets, inr decoded)
  ]

  -- An MSISDN that does not encode is not refused: the request carries an empty one.
  pub build_rir-unencoded :
      is_empty t.msisdn ≡ false
      → is_ok (encode_msisdn t.msisdn) ≡ false
      → find avp_msisdn vendor_3gpp m.avps
        ≡ avp avp_msisdn vmbit vendor_3gpp (value (octets [])) ∷ []
  build_rir-unencoded here fails =
      build_rir-Asks_octets.4 ∙ rw here (ap one (no_octets (encode_msisdn t.msisdn) fails))
