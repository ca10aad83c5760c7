-- ===== src/Slg/Lrr/Answers.antt =====
-- internal/slg/slg.go: what BuildLRA answers.
use vectorcore_gmlc.Base.{
  ℕ, ◌≡◌, refl, subst, false, some, List, [], ◌∷◌, ok, guard_ok, ok_injective,
}
use vectorcore_gmlc.Errors.{slg_error}
use vectorcore_gmlc.Errors.SlgKind.{malformed_lrr}
use vectorcore_gmlc.Diameter.Message.{
  Avp, avp, Data, value, unsigned, Message, Diam, IsAnswer, mbit, find, session_id, result_code,
}
use vectorcore_gmlc.Slg.Plr.{Config}
use vectorcore_gmlc.Slg.Lrr.{is_lrr, answered, build_lra}

-- An answer to the request: its header without the R bit, its session, and the result.
abbrev pub AnswersWith : Message → ℕ → Message → Type 0
AnswersWith req rc a =
    (a.header ≡ record req.header { request = false })
    × (find result_code 0 a.avps ≡ avp result_code mbit 0 (value (unsigned rc)) ∷ [])
    × ((s : Avp Data) × (find session_id 0 req.avps ≡ s ∷ [])
        × (find session_id 0 a.avps ≡ avp session_id mbit 0 s.data_ ∷ []))

answered-AnswersWith :
    (lib : Diam) (cfg : Config) (req : Message) (rc : ℕ) (sessions : List (Avp Data)) (a : Message)
    → IsAnswer lib
    → find session_id 0 req.avps ≡ sessions
    → answered lib cfg req rc sessions ≡ ok a
    → AnswersWith req rc a
answered-AnswersWith lib cfg req rc [] a is f h = cc
answered-AnswersWith lib cfg req rc (s ∷ []) a is f h =
    subst (AnswersWith req rc) (ok_injective _ a h)
      ((is req rc).0, rw (is req rc).1 refl, (s, f, rw (is req rc).1 refl))
answered-AnswersWith lib cfg req rc (s ∷ t ∷ rest) a is f h = cc

-- An answer that is built has the header of the request without the R bit, so that it finds its way back, the
-- session of the request, and the result code asked for.
pub build_lra-AnswersWith :
    (lib : Diam) (cfg : Config) (req : Message) (rc : ℕ) (a : Message)
    → IsAnswer lib
    → build_lra lib cfg (some req) rc ≡ ok a
    → AnswersWith req rc a
unfolding build_lra
build_lra-AnswersWith lib cfg req rc a is h =
    let (good, h1) =
      guard_ok (is_lrr req) (slg_error malformed_lrr 0 0)
        (answered lib cfg req rc (find session_id 0 req.avps)) a h in
    answered-AnswersWith lib cfg req rc (find session_id 0 req.avps) a is refl h1
