-- ===== src/Diameter/Manager/Shutdown.antt =====
-- internal/diameter/manager.go: Close, and the end of the loop.
use vectorcore_gmlc.Base.{
  ℕ, zero, suc, List, [], ◌∷◌, ◌⊎◌, ◌≡◌, refl, ◌<◌, Bool, true, false, some, arith, inl, inr,
  is_some,
}
use vectorcore_gmlc.Base.Text.{Text}
use vectorcore_gmlc.Diameter.Message.{Message}
use vectorcore_gmlc.Diameter.PeerTable.{TablePeer}
use vectorcore_gmlc.Diameter.Manager.{
  Config, Connection, Phase, top, dialing, connected, waiting, finished, Manager, Event, turn,
  dialed, dial_failed, lost, stopped, timer, close, step, step_in, on_turn, on_dialed, on_lost,
  on_stopped, on_close, is_ready, Published, round_trip, start, run_event, run_events, System,
}

abbrev pub is_close : Event → Bool
is_close close = true
is_close _ = false

-- The loop comes to its end whichever way each wait ends: it has returned, or it can go on, and every way to
-- go on leads to its end.
pub data Ends (cfg : Config) : Manager → Type 0 where
  returned : (m : Manager) → m.phase ≡ finished → Ends cfg m
  goes_on :
      (m : Manager) (e : Event)
      → is_close e ≡ false
      → is_some (step cfg e m) ≡ true
      → ((f : Event) (r : Published) → is_close f ≡ false → step cfg f m ≡ some r → Ends cfg r.0)
      → Ends cfg m

abbrev rank : Phase → ℕ
rank finished = 0
rank top = 1
rank waiting = 2
rank connected = 2
rank dialing = 3

rank-step_in :
    (cfg : Config) (p : Phase) (f : Event) (m : Manager) (r : Published)
    → m.stop ≡ true
    → is_close f ≡ false
    → step_in p cfg f m ≡ some r
    → (r.0.stop ≡ true) × (rank r.0.phase < rank p)
unfolding step_in on_turn on_dialed on_lost on_stopped
rank-step_in cfg p turn m r s n h = ground arith
rank-step_in cfg p (dialed c) m r s n h = ground arith
rank-step_in cfg p dial_failed m r s n h = ground arith
rank-step_in cfg p lost m r s n h = ground arith
rank-step_in cfg p stopped m r s n h = ground arith
rank-step_in cfg p timer m r s n h = ground arith
rank-step_in cfg p close m r s n h = cc

-- A step that is possible at a phase, when Close was called.
abbrev way : Phase → Event
way top = turn
way dialing = dial_failed
way _ = stopped

way-step_in :
    (cfg : Config) (p : Phase) (m : Manager)
    → m.stop ≡ true
    → (p ≡ finished) ⊎ (is_some (step_in p cfg (way p) m) ≡ true)
unfolding step_in on_turn
way-step_in cfg top m s = ground arith
way-step_in cfg dialing m s = inr refl
way-step_in cfg connected m s = ground arith
way-step_in cfg waiting m s = ground arith
way-step_in cfg finished m s = inl refl

way-is_close : (p : Phase) → is_close (way p) ≡ false
way-is_close p = ground arith

stopped-Ends : (cfg : Config) (n : ℕ) (m : Manager) → m.stop ≡ true → rank m.phase < n → Ends cfg m
unfolding step
stopped-Ends cfg zero m s h = absurd (omega arith)
stopped-Ends cfg (suc n) m s h = elim (way-step_in cfg m.phase m s) [
  | inl e ↦ returned m e
  | inr e ↦ goes_on m (way m.phase) (way-is_close m.phase) e (λ f r c k.
      let (t, l) = rank-step_in cfg m.phase f m r s c k in stopped-Ends cfg n r.0 t (omega arith))
]

on_close-stop : (m : Manager) → (on_close m).stop ≡ true
unfolding on_close
on_close-stop m = ground arith

-- After Close the loop always comes to its end, wherever it was and however its waits end.
pub on_close-Ends : (cfg : Config) (m : Manager) → Ends cfg (on_close m)
on_close-Ends cfg m =
    stopped-Ends cfg (suc (rank (on_close m).phase)) (on_close m) (on_close-stop m) (omega arith)

-- Start, a dial, Close while it is out, and the dial that succeeds.
abbrev pub closed_in_dial : Config → Connection → ℕ → Text → Text → List TablePeer → Manager
closed_in_dial cfg c id address transport table =
    let s : System = record { manager = start cfg address transport; table = table } in
    (run_events cfg id (turn ∷ close ∷ dialed c ∷ stopped ∷ []) s).manager

-- Close during a dial that then succeeds leaves the manager ready for good: its loop has returned, and
-- requests still go to the connection that the loop closed, not to the error of a shutdown.
pub closed_in_dial-ready :
    (cfg : Config) (c : Connection) (id : ℕ) (address transport : Text) (table : List TablePeer)
    (msg : Message)
    → let m = closed_in_dial cfg c id address transport table in
      (is_ready m ≡ true) × (m.phase ≡ finished) × (round_trip m msg ≡ c.round_trip msg)
unfolding start run_event step step_in on_turn on_close on_dialed on_stopped is_ready round_trip
closed_in_dial-ready cfg c id address transport table msg = (refl, refl, refl)
