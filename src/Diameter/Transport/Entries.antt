-- ===== src/Diameter/Transport/Entries.antt =====
-- internal/diameter/tcp.go: the map of pending calls.
use vectorcore_gmlc.Base.{
  ℕ, ◌+◌, ◌<◌, ◌≡◌, refl, true, false, not, Option, none, some, List, [], ◌∷◌, if◌then◌else◌, ◌==◌,
  first, All, All-keep, Result, ok, err, arith, Bool-cases, ==_iff, sym, ap, ◌∙◌, subst, inl, inr,
}
use vectorcore_gmlc.Errors.{Error}
use vectorcore_gmlc.Diameter.Message.{Message}
use vectorcore_gmlc.Diameter.Transport.{
  Progress, returned, Call, Transport, set_call, without, remove,
}

-- A result for a message: an error, or an answer with its hop-by-hop identifier.
abbrev pub Answers : Message → Result Error Message → Type 0
Answers m (err e) = Unit {0}
Answers m (ok a) = (a.header.hop_by_hop ≡ m.header.hop_by_hop) × (a.header.request ≡ false)

abbrev pub InChannel : Message → Option (Result Error Message) → Type 0
InChannel m none = Unit {0}
InChannel m (some r) = Answers m r

abbrev pub Returned : Message → Progress → Type 0
Returned m (returned r) = Answers m r
Returned m _ = Unit {0}

abbrev pub CallOk : Call → Type 0
CallOk c = InChannel c.sent c.channel × Returned c.sent c.progress

-- A call that is pending waits under its own identifier, and nothing was sent to it.
abbrev pub Waits : ℕ → (ℕ → Call) → ℕ × ℕ → Type 0
Waits started calls (id, n) =
    (n < started) × ((calls n).sent.header.hop_by_hop ≡ id) × ((calls n).channel ≡ none)

abbrev pub Keys : List (ℕ × ℕ) → Type 0
Keys [] = Unit {0}
Keys (e ∷ pending) = All (λ f. (f.0 == e.0) ≡ false) pending × Keys pending

-- Every result that is in a channel or was returned answers the message of its call, no goroutine was
-- blocked, and a closed connection has no pending call.
pub record Sound (t : Transport) : Type 0 where
  pub waits : All (Waits t.started t.calls) t.pending
  pub keys : Keys t.pending
  pub calls : (n : ℕ) → CallOk (t.calls n)
  pub free : t.blocked ≡ false
  pub swept : t.swept ≡ true → (t.closed ≡ true) × (t.pending ≡ [])

pub without-All :
    (P : ℕ × ℕ → Type 0) (id : ℕ) (pending : List (ℕ × ℕ))
    → All P pending
    → All (λ e. P e × ((e.0 == id) ≡ false)) (without id pending)
without-All P id [] h = tt
without-All P id (e ∷ pending) (h, hs) = elim (Bool-cases (e.0 == id)) [
  | inl q ↦ rw q (without-All P id pending hs)
  | inr q ↦ rw q ((h, q), without-All P id pending hs)
]

pub All-map_pred :
    (P Q : ℕ × ℕ → Type 0) → ((e : ℕ × ℕ) → P e → Q e) → (xs : List (ℕ × ℕ)) → All P xs → All Q xs
All-map_pred P Q f [] h = tt
All-map_pred P Q f (x ∷ xs) (h, hs) = (f x h, All-map_pred P Q f xs hs)

pub without-Keys : (id : ℕ) (pending : List (ℕ × ℕ)) → Keys pending → Keys (without id pending)
without-Keys id [] h = tt
without-Keys id (e ∷ pending) (h, hs) = elim (Bool-cases (e.0 == id)) [
  | inl q ↦ rw q (without-Keys id pending hs)
  | inr q ↦ rw q (
    All-keep (λ f. (f.0 == e.0) ≡ false) (λ f. not (f.0 == id)) pending h,
    without-Keys id pending hs,
  )
]

pub remove-Sound : (id : ℕ) (t : Transport) → Sound t → Sound (remove id t)
unfolding remove
remove-Sound id t s = record {
  waits = All-keep (Waits t.started t.calls) (λ e. not (e.0 == id)) t.pending s.waits;
  keys = without-Keys id t.pending s.keys;
  calls = s.calls;
  free = s.free;
  swept = λ c. ((s.swept c).0, rw (s.swept c).1 refl);
}

pub set_call-CallOk :
    (n : ℕ) (c : Call) (calls : ℕ → Call)
    → CallOk c
    → ((k : ℕ) → CallOk (calls k))
    → (k : ℕ) → CallOk (set_call n c calls k)
set_call-CallOk n c calls h hs k = elim (k == n) as (λ b. CallOk (if b then c else calls k)) [
  | true ↦ h
  | false ↦ hs k
]

-- A change of a call that keeps what it sent and its channel.
pub set_call-Waits :
    (started n : ℕ) (c : Call) (calls : ℕ → Call) (pending : List (ℕ × ℕ))
    → c.sent.header.hop_by_hop ≡ (calls n).sent.header.hop_by_hop
    → c.channel ≡ (calls n).channel
    → All (Waits started calls) pending
    → All (Waits started (set_call n c calls)) pending
set_call-Waits started n c calls pending e k =
    All-map_pred (Waits started calls) (Waits started (set_call n c calls)) (λ f h. same f h)
      pending
  where
    same : (f : ℕ × ℕ) → Waits started calls f → Waits started (set_call n c calls) f
    same (id, m) (l, i, h) = elim (Bool-cases (m == n)) [
      | inl q ↦
          let w : m ≡ n = (==_iff m n).0 q in
          (
            l,
            rw q (e ∙ ap (λ x. (calls x).sent.header.hop_by_hop) (sym w) ∙ i),
            rw q (k ∙ ap (λ x. (calls x).channel) (sym w) ∙ h),
          )
      | inr q ↦ (l, rw q i, rw q h)
    ]

-- A change of a call whose identifier is none of the keys.
pub set_call-others :
    (started n id : ℕ) (c : Call) (calls : ℕ → Call) (pending : List (ℕ × ℕ))
    → (calls n).sent.header.hop_by_hop ≡ id
    → All (λ e. Waits started calls e × ((e.0 == id) ≡ false)) pending
    → All (Waits started (set_call n c calls)) pending
set_call-others started n id c calls pending own =
    All-map_pred (λ e. Waits started calls e × ((e.0 == id) ≡ false))
      (Waits started (set_call n c calls)) other pending
  where
    other :
        (f : ℕ × ℕ)
        → Waits started calls f × ((f.0 == id) ≡ false)
        → Waits started (set_call n c calls) f
    other (k, m) ((l, i, h), ne) = elim (Bool-cases (m == n)) [
      | inl q ↦
          let w : m ≡ n = (==_iff m n).0 q in
          let same : k ≡ id = sym i ∙ ap (λ x. (calls x).sent.header.hop_by_hop) w ∙ own in
          absurd (ground (arith, ne, same))
      | inr q ↦ (l, rw q i, rw q h)
    ]

-- The first pending entry with a key.
pub first-Waits :
    (id : ℕ) (P : ℕ × ℕ → Type 0) (pending : List (ℕ × ℕ)) (e : ℕ × ℕ)
    → first (λ f. f.0 == id) pending ≡ some e
    → All P pending
    → (e.0 ≡ id) × P e
first-Waits id P [] e h a = cc
first-Waits id P (f ∷ pending) e h (p, ps) = elim (Bool-cases (f.0 == id)) [
  | inl q ↦
      let same : f ≡ e = some_injective f e (rw q at h) in
      subst (λ x. (x.0 ≡ id) × P x) same ((==_iff f.0 id).0 q, p)
  | inr q ↦ first-Waits id P pending e (rw q at h) ps
]
  where
    some_injective : (a b : ℕ × ℕ) → ◌≡◌ {A = Option (ℕ × ℕ)} (some a) (some b) → a ≡ b
    some_injective a b k = cc

pub fresh-Waits :
    (started : ℕ) (c : Call) (calls : ℕ → Call) (pending : List (ℕ × ℕ))
    → All (Waits started calls) pending
    → All (Waits (started + 1) (set_call started c calls)) pending
fresh-Waits started c calls pending =
    All-map_pred (Waits started calls) (Waits (started + 1) (set_call started c calls)) next pending
  where
    next : (f : ℕ × ℕ) → Waits started calls f → Waits (started + 1) (set_call started c calls) f
    next (k, m) (l, i, h) =
        let e : (m == started) ≡ false = ground (arith, l) in (omega (arith, l), rw e i, rw e h)

pub ==_refl : (n : ℕ) → (n == n) ≡ true
==_refl n = ground arith

pub without_none :
    (id : ℕ) (pending : List (ℕ × ℕ)) → All (λ f. (f.0 == id) ≡ false) (without id pending)
without_none id [] = tt
without_none id (e ∷ pending) = elim (Bool-cases (e.0 == id)) [
  | inl q ↦ rw q (without_none id pending)
  | inr q ↦ rw q (q, without_none id pending)
]

pub All-both :
    (P Q : ℕ × ℕ → Type 0) (xs : List (ℕ × ℕ)) → All P xs → All Q xs → All (λ e. P e × Q e) xs
All-both P Q [] h k = tt
All-both P Q (x ∷ xs) (h, hs) (k, ks) = ((h, k), All-both P Q xs hs ks)

pub tail_swept : (e : ℕ × ℕ) (pending : List (ℕ × ℕ)) → e ∷ pending ≡ [] → pending ≡ []
tail_swept e pending h = cc
