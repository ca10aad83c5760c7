-- ===== src/Diameter/Manager/Link.antt =====
-- internal/diameter/manager.go and registry.go: the loop and what the table says of it.
use vectorcore_gmlc.Base.{
  ℕ, ◌≡◌, refl, ap, ◌∙◌, ◌+◌, ◌*◌, ◌%◌, ◌^◌, ◌≤◌, ◌<◌, ltb, max, Bool, true, false, Option, none,
  some, List, [], ◌∷◌, ◌==◌, if◌then◌else◌, arith, Bool-cases, inl, inr, is_some, subst,
}
use vectorcore_gmlc.Base.Text.{Text}
use vectorcore_gmlc.Diameter.PeerTable.{Capability, TablePeer}
use vectorcore_gmlc.Diameter.PeerTable.MapView.{
  known_of, known_of-upsert, known_of-remove, newer, ended, specified,
}
use vectorcore_gmlc.Diameter.Manager.{
  Config, Connection, Phase, top, dialing, connected, waiting, finished, Manager, Event, turn,
  dialed, dial_failed, lost, stopped, timer, close, System, run_event, run_events, step, step_in,
  on_turn, on_dialed, on_lost, on_stopped, on_close, next_delay, up_capability, down_capability,
  on_capability, below, run_published, is_ready, start, Published,
}

abbrev pub is_connected : Phase → Bool
is_connected connected = true
is_connected _ = false

-- A connected manager is known as ready, with its own generation; another is not known as ready.
abbrev pub Agrees : Bool → ℕ → Option Capability → Type 0
Agrees true g none = true ≡ false
Agrees true g (some c) = (c.ready ≡ true) × (c.generation ≡ g)
Agrees false g none = true ≡ true
Agrees false g (some c) = (c.ready ≡ false) × (c.generation ≤ g)

-- The table agrees with the loop; until Close, so do the state and the connection; the delay stays in its
-- bounds.
pub record Linked (cfg : Config) (m : Manager) (known : Option Capability) : Type 0 where
  pub table : Agrees (is_connected m.phase) m.generation known
  pub state : m.stop ≡ false → is_ready m ≡ is_connected m.phase
  pub rt : m.stop ≡ false → is_some m.rt ≡ is_connected m.phase
  pub low : cfg.reconnect_min ≤ m.delay
  pub high : m.delay ≤ max cfg.reconnect_min cfg.reconnect_max

-- What a step leaves of what is known.
abbrev told : ℕ → Option Capability → Option Capability → Option Capability
told id none known = known
told id (some c) known = if c.ready then some (newer c known) else ended c.generation known

==_refl : (n : ℕ) → (n == n) ≡ true
==_refl n = ground arith

known_of-on_capability :
    (id : ℕ) (c : Option Capability) (table : List TablePeer)
    → known_of id (on_capability id c table) ≡ told id c (known_of id table)
unfolding on_capability specified
known_of-on_capability id none table = refl
known_of-on_capability id (some c) table = elim (Bool-cases c.ready) [
  | inl e ↦ simp (e, known_of-upsert id c id table, ==_refl id) refl
  | inr e ↦ simp (e, known_of-remove id c.generation id table, ==_refl id) refl
]

-- Below 2^63 the order of the bits is that of the durations.
below_nonnegative : (a b : ℕ) → a < 2 ^ 63 → b < 2 ^ 63 → below a b ≡ ltb a b
below_nonnegative a b small small' = rw (wide a small, wide b small') (ground arith)
  where
    wide : (n : ℕ) → n < 2 ^ 63 → (n + 2 ^ 63) % 2 ^ 64 ≡ n + 2 ^ 63
    wide n h = omega (arith, h)

doubled_bounds :
    (cfg : Config) (delay : ℕ)
    → cfg.reconnect_min ≤ delay
    → delay ≤ max cfg.reconnect_min cfg.reconnect_max
    → let next =
        if ltb delay cfg.reconnect_max
        then (if ltb cfg.reconnect_max (2 * delay) then cfg.reconnect_max else 2 * delay)
        else delay in
      (cfg.reconnect_min ≤ next) × (next ≤ max cfg.reconnect_min cfg.reconnect_max)
doubled_bounds cfg delay low high = ground arith

next_delay-bounds :
    (cfg : Config) (delay : ℕ)
    → max cfg.reconnect_min cfg.reconnect_max < 2 ^ 62
    → cfg.reconnect_min ≤ delay
    → delay ≤ max cfg.reconnect_min cfg.reconnect_max
    → (cfg.reconnect_min ≤ next_delay cfg delay)
      × (next_delay cfg delay ≤ max cfg.reconnect_min cfg.reconnect_max)
unfolding next_delay
next_delay-bounds cfg delay small low high =
    let fits : (2 * delay) % 2 ^ 64 ≡ 2 * delay = omega (arith, small, high) in
    let first =
      below_nonnegative delay cfg.reconnect_max (omega (arith, small, high))
        (omega (arith, small)) in
    let second =
      below_nonnegative cfg.reconnect_max (2 * delay) (omega (arith, small))
        (omega (arith, small, high)) in
    rw (fits, first, second) (doubled_bounds cfg delay low high)

up_capability-ready :
    (m : Manager) (c : Option Capability)
    → ((up_capability m c).ready ≡ true) × ((up_capability m c).generation ≡ m.generation)
unfolding up_capability
up_capability-ready m none = (refl, refl)
up_capability-ready m (some c) = (refl, refl)

newer-Agrees :
    (b : Bool) (g : ℕ) (known : Option Capability) (c : Capability) (id : ℕ)
    → Agrees b g known
    → c.ready ≡ true
    → c.generation ≡ g + 1
    → Agrees true (g + 1) (told id (some c) known)
newer-Agrees true g none c id h r e = cc
newer-Agrees true g (some old) c id h r e = ground arith
newer-Agrees false g none c id h r e = simp r (refl, e)
newer-Agrees false g (some old) c id h r e = ground arith

ended-Agrees :
    (g : ℕ) (known : Option Capability) → Agrees true g known → Agrees false g (ended g known)
ended-Agrees g none h = cc
ended-Agrees g (some c) h = ground arith

abbrev Continues : Config → ℕ → Option Capability → Published → Type 0
Continues cfg id known (m, c) = Linked cfg m (told id c known)

abbrev After : Config → ℕ → Manager → Option Capability → Option Published → Type 0
After cfg id m known none = Linked cfg m known
After cfg id m known (some r) = Continues cfg id known r

module _ (cfg : Config) (id : ℕ) (m : Manager) (known : Option Capability) (h : Linked cfg m known)
    (small : max cfg.reconnect_min cfg.reconnect_max < 2 ^ 62) where
  table_at : (p : Phase) → m.phase ≡ p → Agrees (is_connected p) m.generation known
  table_at p e = subst (λ q. Agrees (is_connected q) m.generation known) e h.table

  on_turn-Linked : m.phase ≡ top → Continues cfg id known (on_turn m, none)
  unfolding on_turn is_ready
  on_turn-Linked e = elim (Bool-cases m.stop) [
    | inl s ↦
        let t = table_at top e in
        rw s (record { table = t; state = λ u. cc; rt = λ u. cc; low = h.low; high = h.high })
    | inr s ↦
        let t = table_at top e in
        rw s (record { table = t; state = λ u. refl; rt = λ u. refl; low = h.low; high = h.high })
  ]

  on_dialed-Linked : (c : Connection) → Continues cfg id known (on_dialed cfg c m)
  unfolding on_dialed is_ready
  on_dialed-Linked c =
      let m' = (on_dialed cfg c m).0 in
      let up = up_capability-ready m' c.capability in
      record {
        table =
            newer-Agrees (is_connected m.phase) m.generation known (up_capability m' c.capability)
              id h.table up.0 up.1;
        state = λ u. refl;
        rt = λ u. refl;
        low = omega arith;
        high = omega arith;
      }

  on_lost-Linked : m.phase ≡ connected → Continues cfg id known (on_lost m)
  unfolding on_lost is_ready down_capability
  on_lost-Linked e = record {
    table = ended-Agrees m.generation known (table_at connected e);
    state = λ u. refl;
    rt = λ u. refl;
    low = h.low;
    high = h.high;
  }

  on_stopped-Linked : m.phase ≡ connected → m.stop ≡ true → Continues cfg id known (on_stopped m)
  unfolding on_stopped is_ready down_capability
  on_stopped-Linked e s = record {
    table = ended-Agrees m.generation known (table_at connected e);
    state = λ u. cc;
    rt = λ u. cc;
    low = h.low;
    high = h.high;
  }

  on_close-Linked : Continues cfg id known (on_close m, none)
  unfolding on_close is_ready
  on_close-Linked = elim (Bool-cases m.stop) [
    | inl s ↦ simp s h
    | inr s ↦
        rw s (record { table = h.table; state = λ u. cc; rt = λ u. cc; low = h.low; high = h.high })
  ]

  moved :
      (p : Phase) (d : ℕ)
      → is_connected m.phase ≡ is_connected p
      → cfg.reconnect_min ≤ d
      → d ≤ max cfg.reconnect_min cfg.reconnect_max
      → Linked cfg (record m { delay = d; phase = p }) known
  unfolding is_ready
  moved p d e low high = record {
    table = subst (λ b. Agrees b m.generation known) e h.table;
    state = λ u. h.state u ∙ e;
    rt = λ u. h.rt u ∙ e;
    low = low;
    high = high;
  }

  if_stopped :
      (b : Bool) (r : Published)
      → (b ≡ true → Continues cfg id known r)
      → After cfg id m known (if b then some r else none)
  if_stopped true r k = k refl
  if_stopped false r k = h

  -- `step`, at each phase.
  step_in-Linked : (p : Phase) (e : Event) → m.phase ≡ p → After cfg id m known (step_in p cfg e m)
  unfolding step_in
  step_in-Linked top turn at = on_turn-Linked at
  step_in-Linked dialing (dialed c) at = on_dialed-Linked c
  step_in-Linked dialing dial_failed at = moved waiting m.delay (ap is_connected at) h.low h.high
  step_in-Linked connected lost at = on_lost-Linked at
  step_in-Linked connected stopped at = if_stopped m.stop (on_stopped m) (on_stopped-Linked at)
  step_in-Linked waiting stopped at =
      if_stopped m.stop (record m { phase = finished }, none)
        (λ s. moved finished m.delay (ap is_connected at) h.low h.high)
  step_in-Linked waiting timer at =
      let (low, high) = next_delay-bounds cfg m.delay small h.low h.high in
      moved top (next_delay cfg m.delay) (ap is_connected at) low high
  step_in-Linked p close at = on_close-Linked
  step_in-Linked _ _ at = h

run_published-Linked :
    (cfg : Config) (id : ℕ) (s : System) (o : Option Published)
    → After cfg id s.manager (known_of id s.table) o
    → let s' = run_published id s o in Linked cfg s'.manager (known_of id s'.table)
run_published-Linked cfg id s none h = h
run_published-Linked cfg id s (some (m, c)) h = simp (known_of-on_capability id c s.table) h

run_event-Linked :
    (cfg : Config) (id : ℕ) (e : Event) (s : System)
    → max cfg.reconnect_min cfg.reconnect_max < 2 ^ 62
    → Linked cfg s.manager (known_of id s.table)
    → let s' = run_event cfg id e s in Linked cfg s'.manager (known_of id s'.table)
unfolding run_event step
run_event-Linked cfg id e s small h =
    run_published-Linked cfg id s (step_in s.manager.phase cfg e s.manager)
      (step_in-Linked cfg id s.manager (known_of id s.table) h small s.manager.phase e refl)

run_events-Linked :
    (cfg : Config) (id : ℕ) (events : List Event) (s : System)
    → max cfg.reconnect_min cfg.reconnect_max < 2 ^ 62
    → Linked cfg s.manager (known_of id s.table)
    → let s' = run_events cfg id events s in Linked cfg s'.manager (known_of id s'.table)
run_events-Linked cfg id [] s small h = h
run_events-Linked cfg id (e ∷ events) s small h =
    run_events-Linked cfg id events (run_event cfg id e s) small
      (run_event-Linked cfg id e s small h)

-- Whatever the events after Start: the table knows the manager as ready, with its generation, exactly
-- while its loop holds a connection; until Close the manager is ready, and has a connection, exactly then;
-- and, with bounds of less than 2^62 ns (146 years), the delay is never below
-- the minimum or above the larger of the two.
pub start-Linked :
    (cfg : Config) (id : ℕ) (address transport : Text) (events : List Event)
    (table : List TablePeer)
    → max cfg.reconnect_min cfg.reconnect_max < 2 ^ 62
    → known_of id table ≡ none
    → let s =
        run_events cfg id events
          (record { manager = start cfg address transport; table = table }) in
      Linked cfg s.manager (known_of id s.table)
unfolding start is_ready
start-Linked cfg id address transport events table small e =
    run_events-Linked cfg id events
      (record { manager = start cfg address transport; table = table }) small
      (record {
        table = rw e refl;
        state = λ u. refl;
        rt = λ u. refl;
        low = omega arith;
        high = omega arith;
      })
