-- ===== src/Mlp/Immediate/Polling.antt =====
-- internal/mlp/handler.go: the poll loop and the loop over the requests.
use vectorcore_gmlc.Base.{
  ℕ, suc, ◌≤◌, ◌<◌, ◌≡◌, refl, Bool, true, false, Bool-cases, ◌⊎◌, inl, inr, Option, none, some,
  List, [], ◌∷◌, keep, length, if◌then◌else◌, Result, ok, err, arith,
}
use vectorcore_gmlc.Base.Text.{Text}
use vectorcore_gmlc.Errors.{Error}
use vectorcore_gmlc.Domain.{Time, Request, LocationResult, terminal}
use vectorcore_gmlc.Service.{Env, get_request_result}
use vectorcore_gmlc.Mlp.{Library, Msid}
use vectorcore_gmlc.Mlp.Positions.{Pos, Outcome, PosOf, build_pos, build_pos-PosOf}
use vectorcore_gmlc.Mlp.Immediate.{Turn, Awaited, late, polled, await_terminal, await_all}

-- How many turns end the loop whatever the store holds.
abbrev pub lates : Time → List Turn → ℕ
lates deadline turns = length (keep (late deadline) turns)

-- A turn decides, or it is not late.
polled-late :
    (b : Bool) (a : Result Error (Request × Option LocationResult))
    → ((o : Outcome) × (polled b a ≡ some o)) ⊎ ((polled b a ≡ none) × (b ≡ false))
polled-late true (err e) = inl (_, refl)
polled-late false (err e) = inr (refl, refl)
polled-late b (ok (r, v)) = elim (Bool-cases (terminal r.state)) [
  | inl e ↦ inl (Outcome.settled r v, rw e refl)
  | inr e ↦ rw e (undecided b)
]
  where
    undecided :
        (c : Bool)
        → ((o : Outcome) × ((if c then some Outcome.timed_out else none) ≡ some o))
          ⊎ (((if c then some Outcome.timed_out else none) ≡ none) × (c ≡ false))
    undecided true = inl (_, refl)
    undecided false = inr (refl, refl)

-- The wait for one request is over when one turn is late, and uses up at most one late turn.
abbrev Decides : Time → List Turn → Awaited → Type 0
Decides deadline turns a =
    (o : Outcome) × (at : Time) × (rest : List Turn) × (a ≡ some (o, at, rest))
    × (lates deadline turns ≤ suc (lates deadline rest))

lates-suc :
    (deadline : Time) (i : Turn) (turns : List Turn)
    → lates deadline (i ∷ turns) ≤ suc (lates deadline turns)
lates-suc deadline i turns =
    elim (late deadline i)
      as (λ b.
        length (if b then i ∷ keep (late deadline) turns else keep (late deadline) turns)
        ≤ suc (lates deadline turns)) [ true ↦ omega arith | false ↦ omega arith ]

lates-on_time :
    (deadline : Time) (i : Turn) (turns : List Turn)
    → late deadline i ≡ false
    → lates deadline (i ∷ turns) ≡ lates deadline turns
lates-on_time deadline i turns e = rw e refl

await_terminal-Decides :
    (env : Env) (client_id token id : Text) (deadline : Time) (turns : List Turn)
    → 0 < lates deadline turns
    → Decides deadline turns (await_terminal env client_id token id deadline turns)
unfolding await_terminal
await_terminal-Decides env client_id token id deadline [] h = absurd (omega (arith, h))
await_terminal-Decides env client_id token id deadline (i ∷ turns) h =
    let answer = get_request_result env client_id token id i.db in
    elim (polled-late (late deadline i) answer) [
      | inl (o, e) ↦ rw e (o, i.answered_at, turns, refl, lates-suc deadline i turns)
      | inr (e, l) ↦
          let same = lates-on_time deadline i turns l in
          let (o, at, rest, q, k) =
            await_terminal-Decides env client_id token id deadline turns (omega (arith, h, same)) in
          rw e (o, at, rest, q, omega (arith, k, same))
    ]

-- One element for each identity, in their order.
abbrev pub AnsweredAll : List Msid → List Pos → Type 0
AnsweredAll [] [] = true ≡ true
AnsweredAll (m ∷ ms) (p ∷ ps) = PosOf m p × AnsweredAll ms ps
AnsweredAll _ _ = true ≡ false

-- With a late turn for each request there is an answer.
pub await_all-AnsweredAll :
    (lib : Library) (env : Env) (client_id token : Text) (deadline : Time) (ms : List Msid)
    (rs : List Request) (turns : List Turn)
    → length rs ≡ length ms
    → length ms ≤ lates deadline turns
    → (ps : List Pos) × (await_all lib env client_id token deadline ms rs turns ≡ some ps)
      × AnsweredAll ms ps
unfolding await_all
await_all-AnsweredAll lib env client_id token deadline [] [] turns e h = ([], refl, refl)
await_all-AnsweredAll lib env client_id token deadline [] (r ∷ rs) turns e h =
    absurd (omega (arith, e))
await_all-AnsweredAll lib env client_id token deadline (m ∷ ms) [] turns e h =
    absurd (omega (arith, e))
await_all-AnsweredAll lib env client_id token deadline (m ∷ ms) (r ∷ rs) turns e h =
    let (o, at, rest, q, l) =
      await_terminal-Decides env client_id token r.id deadline turns (omega (arith, h)) in
    let (ps, k, all) =
      await_all-AnsweredAll lib env client_id token deadline ms rs rest (omega (arith, e))
        (omega (arith, h, l)) in
    (build_pos lib m o at ∷ ps, rw (q, k) refl, (build_pos-PosOf lib m o at, all))
