-- ===== src/Slg/Plr/Contents.antt =====
-- internal/slg/slg.go: what BuildPLR sends.
use vectorcore_gmlc.Base.{
  ℕ, ◌≡◌, refl, sym, subst, true, false, not, List, [], ◌∷◌, ◌++◌, append_nil, Result, ok, err,
  ◌>>=◌, bind_ok, ok_injective, Bool-cases, ◌⊎◌, inl, inr,
}
use vectorcore_gmlc.Base.Text.{Text, is_empty}
use vectorcore_gmlc.Errors.{Error}
use vectorcore_gmlc.Domain.{LocationRequest, ServingNode}
use vectorcore_gmlc.Diameter.Message.{
  Avp, avp, Data, value, grouped, utf8, octets, identity, enumerated, Message, mbit, user_name,
  destination_host, lcs_client_type, find, Diam, IsRequest, when, optional, find-append, find-when,
  find-optional,
}
use vectorcore_gmlc.Slh.Msisdn.{encode_msisdn, decode_msisdn}
use vectorcore_gmlc.Slh.Msisdn.RoundTrip.{decode_msisdn-encoded}
use vectorcore_gmlc.Slg.{
  avp_privacy_check_non_session, avp_privacy_check, avp_msisdn, vendor_id, application_id,
  command_provide_location,
}
use vectorcore_gmlc.Slg.Plr.{
  Config, plr_avps, plr_message, msisdn_avps, msisdn_avp, check_plr, build_plr, vendor_avp,
}

-- What a request that is built says, in a proxiable request of this application.
abbrev pub Asks : ServingNode → LocationRequest → List ℕ → Message → Type 0
Asks n r b m =
    (m.header.application_id ≡ application_id)
    × (m.header.command_code ≡ command_provide_location)
    × (m.header.request ≡ true)
    × (m.header.proxiable ≡ true)
    × (find destination_host 0 m.avps
        ≡ avp destination_host mbit 0 (value (identity n.mme_host)) ∷ [])
    × (find lcs_client_type 0 m.avps
        ≡ avp lcs_client_type mbit 0 (value (enumerated r.client_type)) ∷ [])
    × (find avp_privacy_check_non_session vendor_id m.avps
        ≡ optional
            (λ p.
              vendor_avp avp_privacy_check_non_session
                (grouped (vendor_avp avp_privacy_check (enumerated p) ∷ [])))
            r.privacy_check)
    × (find user_name 0 m.avps
        ≡ when (not (is_empty r.target.imsi)) (avp user_name mbit 0 (value (utf8 r.target.imsi))))
    × (find avp_msisdn vendor_id m.avps
        ≡ when (not (is_empty r.target.msisdn)) (vendor_avp avp_msisdn (value (octets b))))

module _ (cfg : Config) (session : Text) (n : ServingNode) (r : LocationRequest) (lib : Diam)
    (requests : IsRequest lib) (b : List ℕ) where
  abbrev last : List (Avp Data)
  last = when (not (is_empty r.target.msisdn)) (vendor_avp avp_msisdn (value (octets b)))

  message-Asks : Asks n r b (plr_message lib (plr_avps lib cfg session n r ++ last))
  unfolding plr_avps
  message-Asks =
      let is = requests command_provide_location application_id in
      (
        is.0,
        is.1,
        is.2,
        refl,
        rw is.3 (simp (find-append, find-when, find-optional)),
        rw is.3 (simp (find-append, find-when, find-optional)),
        rw is.3 (simp (find-append, find-when, find-optional) (simp append_nil)),
        rw is.3 (simp (find-append, find-when, find-optional) (simp append_nil)),
        rw is.3 (simp (find-append, find-when, find-optional)),
      )

-- What the last AVP of a request holds decodes to the MSISDN.
encoded_msisdn :
    (s : Text) (o : Result Error (List ℕ)) (last : List (Avp Data))
    → is_empty s ≡ false
    → encode_msisdn s ≡ o
    → msisdn_avp o ≡ ok last
    → (b : List ℕ) × (decode_msisdn b ≡ ok s)
      × (last ≡ when (not (is_empty s)) (vendor_avp avp_msisdn (value (octets b))))
encoded_msisdn s (err e) last t h k = cc
encoded_msisdn s (ok b) last t h k =
    (b, decode_msisdn-encoded s b h, rw t (sym (ok_injective _ last k)))

msisdn_avps_lem :
    (s : Text) (last : List (Avp Data))
    → msisdn_avps s ≡ ok last
    → (b : List ℕ) × ((is_empty s ≡ true) ⊎ (decode_msisdn b ≡ ok s))
      × (last ≡ when (not (is_empty s)) (vendor_avp avp_msisdn (value (octets b))))
unfolding msisdn_avps
msisdn_avps_lem s last h = elim (Bool-cases (is_empty s)) [
  | inl e ↦ ([], inl e, rw e (sym (ok_injective [] last (rw e at h))))
  | inr e ↦
      let (b, d, q) = encoded_msisdn s (encode_msisdn s) last e refl (rw e at h) in (b, inr d, q)
]

-- A request that is built is proxiable and of this application; it goes to the host of the node, with the type and
-- the privacy check of the client, and its target is the one asked for: the IMSI as User-Name, and
-- an MSISDN whose octets decode to it.
pub build_plr-Asks :
    (lib : Diam) (cfg : Config) (session : Text) (n : ServingNode) (r : LocationRequest)
    (m : Message)
    → IsRequest lib
    → build_plr lib cfg session n r ≡ ok m
    → (b : List ℕ) × Asks n r b m
      × ((is_empty r.target.msisdn ≡ true) ⊎ (decode_msisdn b ≡ ok r.target.msisdn))
unfolding build_plr
build_plr-Asks lib cfg session n r m requests built =
    let make : List (Avp Data) → Result Error Message =
      λ last. ok (plr_message lib (plr_avps lib cfg session n r ++ last)) in
    let (u, checked, h) =
      bind_ok (check_plr n r) (λ _. msisdn_avps r.target.msisdn >>= make) m built in
    let (last, h1, h2) = bind_ok (msisdn_avps r.target.msisdn) make m h in
    let (b, decoded, same) = msisdn_avps_lem r.target.msisdn last h1 in
    let whole = ok_injective (plr_message lib (plr_avps lib cfg session n r ++ last)) m h2 in
    (
      b,
      subst (Asks n r b) whole (
          subst (λ l. Asks n r b (plr_message lib (plr_avps lib cfg session n r ++ l))) (sym same)
            (message-Asks cfg session n r lib requests b)),
      decoded,
    )
