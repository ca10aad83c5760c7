-- ===== src/Orchestrator/Loop.antt =====
-- internal/orchestrator/orchestrator.go: the loop of the worker, Notify and Close. Each event is a turn of the
-- loop, one end of its `select`, or a call of another goroutine.
use vectorcore_gmlc.Base.{
  ◌≡◌, refl, Bool, true, false, ◌⊎◌, inl, inr, List, [], ◌∷◌, All, if◌then◌else◌,
}
use vectorcore_gmlc.Storage.Schema.{Db}
use vectorcore_gmlc.Orchestrator.{Turn, Notice, one}

-- Before a turn, in the `select`, or returned.
pub data Phase : Type 0 where
  ready parked stopped : Phase

-- `wake` is whether the channel of one place is full; `cancelled` is the context of the loop. `announced` are
-- the calls of the completion hook, the last one first.
pub record Loop : Type 0 where
  pub phase : Phase
  pub wake : Bool
  pub cancelled : Bool
  pub announced : List Notice
  pub db : Db

pub data Event : Type 0 where
  turns : Turn → Event
  -- what other goroutines do to the store
  writes : (Db → Db) → Event
  notifies : Event
  woken : Event
  ticks : Event
  closes : Event
  sees_done : Event

abbrev pub is_ready : Phase → Bool
is_ready ready = true
is_ready _ = false

abbrev pub is_parked : Phase → Bool
is_parked parked = true
is_parked _ = false

abbrev after_turn : Loop → Bool × Notice × Db → Loop
after_turn s (worked, notice, db) = record s {
  phase = if worked then ready else parked;
  announced = notice ∷ s.announced;
  db = db;
}

-- An event that cannot happen changes nothing.
unfoldable pub step : Event → Loop → Loop
step (turns t) s = if is_ready s.phase then after_turn s (one t s.db) else s
step (writes f) s = record s { db = f s.db }
step notifies s = record s { wake = true }
step woken s =
    if is_parked s.phase
    then (if s.wake then record s { phase = ready; wake = false } else s)
    else s
step ticks s = if is_parked s.phase then record s { phase = ready } else s
step closes s = record s { cancelled = true }
step sees_done s =
    if is_parked s.phase then (if s.cancelled then record s { phase = stopped } else s) else s

abbrev pub run : List Event → Loop → Loop
run [] s = s
run (e ∷ events) s = run events (step e s)

-- Before a turn, ended, or with something in the channel.
abbrev pub Attentive : Loop → Type 0
Attentive s = (s.phase ≡ ready) ⊎ ((s.phase ≡ stopped) ⊎ (s.wake ≡ true))

abbrev pub NoTurn : Event → Type 0
NoTurn (turns t) = true ≡ false
NoTurn _ = true ≡ true

if-Attentive : (b : Bool) (s t : Loop) → Attentive s → Attentive t → Attentive (if b then s else t)
if-Attentive true s t a b = a
if-Attentive false s t a b = b

step-Attentive : (e : Event) (s : Loop) → NoTurn e → Attentive s → Attentive (step e s)
unfolding step
step-Attentive (turns t) s q a = cc
step-Attentive (writes f) s q a = a
step-Attentive notifies s q a = inr (inr refl)
step-Attentive closes s q a = a
step-Attentive woken s q a =
    if-Attentive (is_parked s.phase) _ s (if-Attentive s.wake _ s (inl refl) a) a
step-Attentive ticks s q a = if-Attentive (is_parked s.phase) _ s (inl refl) a
step-Attentive sees_done s q a =
    if-Attentive (is_parked s.phase) _ s (if-Attentive s.cancelled _ s (inr (inl refl)) a) a

run-Attentive :
    (events : List Event) (s : Loop) → All NoTurn events → Attentive s → Attentive (run events s)
run-Attentive [] s q a = a
run-Attentive (e ∷ events) s (q, qs) a = run-Attentive events (step e s) qs (step-Attentive e s q a)

notifies_lem : (s : Loop) → Attentive (step notifies s)
unfolding step
notifies_lem s = inr (inr refl)

Attentive-woken : (s : Loop) → Attentive s → (s.phase ≡ stopped) ⊎ ((step woken s).phase ≡ ready)
unfolding step
Attentive-woken s (inl e) = inr (simp e refl)
Attentive-woken s (inr (inl e)) = inl e
Attentive-woken s (inr (inr w)) = by_phase s.phase refl
  where
    by_phase : (p : Phase) → s.phase ≡ p → (s.phase ≡ stopped) ⊎ ((step woken s).phase ≡ ready)
    by_phase ready e = inr (simp e refl)
    by_phase parked e = inr (simp (e, w) refl)
    by_phase stopped e = inl e

-- No call of Notify is lost: whatever happens after it, until the loop looks at the queue again it has ended, or
-- it stands before a turn as soon as it takes what is in its channel.
pub notifies-woken :
    (s : Loop) (events : List Event)
    → All NoTurn events
    → let t = run events (step notifies s) in (t.phase ≡ stopped) ⊎ ((step woken t).phase ≡ ready)
notifies-woken s events q =
    Attentive-woken (run events (step notifies s))
      (run-Attentive events (step notifies s) q (notifies_lem s))
