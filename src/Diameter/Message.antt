-- ===== src/Diameter/Message.antt =====
-- Diameter messages as github.com/fiorix/go-diameter/v4 presents them: a header and a list of AVPs.
-- The program looks into a group one level deep, so a group within a group is `other_value`.
use vectorcore_gmlc.Base.{
  ℕ, ◌≡◌, refl, ap, arith, Bool, Bool-cases, inl, inr, true, false, ◌&&◌, Option, none, some, List,
  [], ◌∷◌, ◌++◌, ◌==◌, keep, if◌then◌else◌,
}
use vectorcore_gmlc.Base.Float.{ℤ, Float64}
use vectorcore_gmlc.Base.Text.{Text}

-- datatype.UTF8String, DiameterIdentity, OctetString, Unsigned32, Enumerated and any other type.
pub data Value : Type 0 where
  utf8 : Text → Value
  identity : Text → Value
  octets : List ℕ → Value
  unsigned : ℕ → Value
  enumerated : ℕ → Value
  other_value : Value

pub record Avp {ℓ} (A : Type ℓ) : Type ℓ where
  pub code : ℕ
  pub flags : ℕ
  pub vendor : ℕ
  pub data_ : A

-- The data of an AVP of a message: a value, or *diam.GroupedAVP.
pub data Data : Type 0 where
  value : Value → Data
  grouped : List (Avp Value) → Data

pub record Header : Type 0 where
  pub application_id : ℕ
  pub command_code : ℕ
  pub request : Bool
  pub proxiable : Bool
  pub hop_by_hop : ℕ
  pub end_to_end : ℕ

pub record Message : Type 0 where
  pub header : Header
  pub avps : List (Avp Data)

-- avp.Mbit and avp.Vbit
abbrev pub mbit : ℕ
mbit = 0x40

abbrev pub vmbit : ℕ
vmbit = 0xc0

abbrev pub avp {ℓ} : {A : Type ℓ} → ℕ → ℕ → ℕ → A → Avp A
avp code flags vendor d = record { code = code; flags = flags; vendor = vendor; data_ = d }

-- The codes of RFC 6733, TS 29.229 and TS 32.299 in go-diameter's package `avp`.
abbrev pub session_id : ℕ
session_id = 263

abbrev pub auth_session_state : ℕ
auth_session_state = 277

abbrev pub origin_host : ℕ
origin_host = 264

abbrev pub origin_realm : ℕ
origin_realm = 296

abbrev pub destination_host : ℕ
destination_host = 293

abbrev pub destination_realm : ℕ
destination_realm = 283

abbrev pub user_name : ℕ
user_name = 1

abbrev pub result_code : ℕ
result_code = 268

abbrev pub experimental_result : ℕ
experimental_result = 297

abbrev pub experimental_result_code : ℕ
experimental_result_code = 298

abbrev pub lcs_client_type : ℕ
lcs_client_type = 1241

abbrev pub location_estimate : ℕ
location_estimate = 1242

-- diam.Success and diam.UnableToComply
abbrev pub success : ℕ
success = 2001

abbrev pub unable_to_comply : ℕ
unable_to_comply = 5012

abbrev pub is_avp {ℓ} : {A : Type ℓ} → ℕ → ℕ → Avp A → Bool
is_avp code vendor a = a.code == code && a.vendor == vendor

-- `find` and `findGrouped` of internal/slh/slh.go, `all` and `allG` of internal/slg/slg.go.
abbrev pub find {ℓ} : {A : Type ℓ} → ℕ → ℕ → List (Avp A) → List (Avp A)
find code vendor avps = keep (is_avp code vendor) avps

-- What go-diameter does with a header: a new request, with its random identifiers, and the answer to
-- a request, with its Result-Code. `floor_log` is no part of it: it is the quotient of logarithms that
-- package math computes for the AVPs of an accuracy.
pub record Diam : Type 0 where
  pub new_request : ℕ → ℕ → Message
  pub answer : Message → ℕ → Message
  pub floor_log : Float64 → ℤ

-- RFC 6733: a new request carries its application and command, and nothing yet.
abbrev pub IsRequest : Diam → Type 0
IsRequest lib =
    (command app : ℕ)
    → ((lib.new_request command app).header.application_id ≡ app)
      × ((lib.new_request command app).header.command_code ≡ command)
      × ((lib.new_request command app).header.request ≡ true)
      × ((lib.new_request command app).avps ≡ [])

-- An answer has the header of its request without the R bit, and the Result-Code first.
abbrev pub IsAnswer : Diam → Type 0
IsAnswer lib =
    (m : Message) (rc : ℕ)
    → ((lib.answer m rc).header ≡ record m.header { request = false })
      × ((lib.answer m rc).avps ≡ avp result_code mbit 0 (value (unsigned rc)) ∷ [])

-- The Result-Code of success alone, without an Experimental-Result.
abbrev pub Succeeded : List (Avp Data) → List (Avp Data) → Type 0
Succeeded (a ∷ []) [] = a.data_ ≡ value (unsigned 2001)
Succeeded _ _ = ⊥

-- An AVP that is sent only under a condition, or only with a value.
abbrev pub when {ℓ} : {A : Type ℓ} → Bool → A → List A
when true a = a ∷ []
when false a = []

abbrev pub optional {ℓ κ} : {A : Type ℓ} {B : Type κ} → (A → B) → Option A → List B
optional make none = []
optional make (some a) = make a ∷ []

-- Looking for AVPs in such a list: one part after the other.
module _ {ℓ} {A : Type ℓ} (c v : ℕ) where
  pub find-append : (xs ys : List (Avp A)) → find c v (xs ++ ys) ≡ find c v xs ++ find c v ys
  find-append [] ys = refl
  find-append (x ∷ xs) ys = elim (Bool-cases (is_avp c v x)) [
    | inl e ↦ rw e (ap (λ l. x ∷ l) (find-append xs ys))
    | inr e ↦ rw e (find-append xs ys)
  ]

  pub find-when :
      (b : Bool) (a : Avp A) → find c v (when b a) ≡ (if is_avp c v a then when b a else [])
  find-when true a = refl
  find-when false a = ground arith

  pub find-optional {κ} :
      {B : Type κ} (code flags vendor : ℕ) (d : B → A) (o : Option B)
      → find c v (optional (λ b. avp code flags vendor (d b)) o)
        ≡ (if code == c && vendor == v then optional (λ b. avp code flags vendor (d b)) o else [])
  find-optional code flags vendor d none = ground arith
  find-optional code flags vendor d (some b) = refl
