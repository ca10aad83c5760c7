-- ===== src/Lrr/Serving.antt =====
-- internal/lrr/lrr.go: what ServeDIAM answers, and when it touches the store.
use vectorcore_gmlc.Storage.Deferred.{report_id_is}
use vectorcore_gmlc.Base.{
  ℕ, false, first, is_some, ◌≡◌, refl, true, none, some, [], ◌∷◌, Result, ok, err, ok_of,
}
use vectorcore_gmlc.Base.Text.{Text}
use vectorcore_gmlc.Errors.{Error}
use vectorcore_gmlc.Domain.{Time, LocationReport}
use vectorcore_gmlc.Diameter.Message.{Avp, Data, Message, Diam, IsAnswer, find, session_id}
use vectorcore_gmlc.Slg.Plr.{Config}
use vectorcore_gmlc.Slg.Lrr.{is_lrr, decode_lrr, build_lra}
use vectorcore_gmlc.Slg.Lrr.Answers.{AnswersWith, build_lra-AnswersWith}
use vectorcore_gmlc.Storage.Schema.{Db}
use vectorcore_gmlc.Lrr.{Served, serve_decoded, serve_diam, answer_or_none}
use vectorcore_gmlc.Lrr.Reports.{Stored, process-Stored}

-- The answer that is built for a request with one session.
build_lra_lem :
    (lib : Diam) (cfg : Config) (m : Message) (s : Avp Data) (rc : ℕ)
    → IsAnswer lib
    → is_lrr m ≡ true
    → find session_id 0 m.avps ≡ s ∷ []
    → (a : Message) × (answer_or_none (build_lra lib cfg (some m) rc) ≡ some a) × AnswersWith m rc a
unfolding build_lra
build_lra_lem lib cfg m s rc is lrr one =
    let (a, h) = ok_of (build_lra lib cfg (some m) rc) (rw lrr (rw one refl)) in
    (a, rw h refl, build_lra-AnswersWith lib cfg m rc a is h)

-- Either the report was decoded, the answer is a success and the report is stored, or it was not, the answer is
-- UNABLE_TO_COMPLY, nothing is pushed, and the store is unchanged.
abbrev pub Handled : Message → Text → Time → Result Error LocationReport → Db → Served → Type 0
Handled m id now (ok r) db end =
    ((a : Message) × (end.answer ≡ some a) × AnswersWith m 2001 a) × Stored id r now db end.db
Handled m id now (err e) db end =
    ((a : Message) × (end.answer ≡ some a) × AnswersWith m 5012 a)
    × (end.pushed ≡ none)
    × (end.db ≡ db)

module _ (lib : Diam) (cfg : Config) (m : Message) (s : Avp Data) (id : Text) (now : Time) (db : Db)
    (is : IsAnswer lib) (lrr : is_lrr m ≡ true) (one : find session_id 0 m.avps ≡ s ∷ [])
    (fresh : is_some (first (report_id_is id) db.reports) ≡ false) where
  serve_decoded-Handled :
      (decoded : Result Error LocationReport)
      → Handled m id now decoded db (serve_decoded lib cfg (some m) id decoded now db)
  unfolding serve_decoded
  serve_decoded-Handled (ok r) =
      (build_lra_lem lib cfg m s 2001 is lrr one, process-Stored id r now db fresh)
  serve_decoded-Handled (err e) = (build_lra_lem lib cfg m s 5012 is lrr one, refl, refl)

  -- A Location-Report request with one Session-Id, and an id that no row has, is always answered, in its
  -- session and with its identifiers: with success and all of the report's data stored as one new row if it is
  -- decoded, and else with UNABLE_TO_COMPLY and nothing stored or pushed.
  pub serve_diam-Handled :
      Handled m id now (decode_lrr (some m)) db (serve_diam lib cfg (some m) id now db)
  unfolding serve_diam
  serve_diam-Handled = serve_decoded-Handled (decode_lrr (some m))
