-- ===== src/Diameter/Manager.antt =====
-- internal/diameter/manager.go: the loop of one connection as steps, and the calls of others. The
-- generation is a uint64 that counts connections, and does not come near its end.
pub mod Link
pub mod Shutdown
mod Examples
use vectorcore_gmlc.Base.{
  ℕ, ◌+◌, ◌*◌, ◌%◌, ◌^◌, Bool, true, false, Option, none, some, List, [], ◌∷◌, if◌then◌else◌, ltb,
  ◌==◌, Result, ok, err, is_some,
}
use vectorcore_gmlc.Base.Text.{Text}
use vectorcore_gmlc.Errors.{Error, unavailable, shutting_down}
use vectorcore_gmlc.Diameter.Message.{Message}
use vectorcore_gmlc.Diameter.PeerTable.{Capability, TablePeer, upsert, remove}

pub data State : Type 0 where
  down connecting ready stopping : State

pub record Config : Type 0 where
  pub reconnect_min : ℕ
  pub reconnect_max : ℕ

-- A RoundTripper: what a message comes back with, and its capability if it has one.
pub record Connection : Type 0 where
  pub round_trip : Message → Result Error (Option Message)
  pub capability : Option Capability

-- Where the loop is: before the test of `stop`, in the dial, waiting for the end of a connection, in
-- the timer, or returned.
pub data Phase : Type 0 where
  top dialing connected waiting finished : Phase

-- `stop` is whether the channel is closed; `delay` is the variable of the loop.
pub record Manager : Type 0 where
  pub state : State
  pub rt : Option Connection
  pub stop : Bool
  pub generation : ℕ
  pub address : Text
  pub transport : Text
  pub delay : ℕ
  pub phase : Phase

unfoldable pub new_config : Config → Config
new_config cfg =
    let min = if cfg.reconnect_min == 0 then 1000000000 else cfg.reconnect_min in
    record {
      reconnect_min = min;
      reconnect_max = if ltb cfg.reconnect_max min then 30000000000 else cfg.reconnect_max;
    }

-- After New, SetCapabilityCallback and Start.
unfoldable pub start : Config → Text → Text → Manager
start cfg address transport = record {
  state = down;
  rt = none;
  stop = false;
  generation = 0;
  address = address;
  transport = transport;
  delay = cfg.reconnect_min;
  phase = top;
}

-- The capability that `publish` hands over.
unfoldable pub down_capability : Manager → Capability
down_capability m = record {
  address = m.address;
  transport = m.transport;
  origin_host = [];
  origin_realm = [];
  generation = m.generation;
  ready = false;
  relay = false;
  applications = [];
}

unfoldable pub up_capability : Manager → Option Capability → Capability
unfolding down_capability
up_capability m none = record (down_capability m) { ready = true }
up_capability m (some c) = record c {
  address = m.address;
  transport = m.transport;
  generation = m.generation;
  ready = true;
}

-- What lets the loop go on, and Close.
pub data Event : Type 0 where
  turn : Event
  dialed : Connection → Event
  dial_failed : Event
  lost : Event
  stopped : Event
  timer : Event
  close : Event

-- The order of two durations. They are int64 values, kept as their 64 bits.
abbrev pub below : ℕ → ℕ → Bool
below a b = ltb ((a + 2 ^ 63) % 2 ^ 64) ((b + 2 ^ 63) % 2 ^ 64)

-- The delay after a failed dial, below the maximum; `delay *= 2` wraps.
unfoldable pub next_delay : Config → ℕ → ℕ
next_delay cfg delay =
    let doubled = (2 * delay) % 2 ^ 64 in
    if below delay cfg.reconnect_max
    then (if below cfg.reconnect_max doubled then cfg.reconnect_max else doubled)
    else delay

abbrev pub Published : Type 0
Published = Manager × Option Capability

-- Case by case: `select` on `stop`, the dial that returns, the two cases of the second `select`.
unfoldable pub on_turn : Manager → Manager
on_turn m =
    if m.stop
    then record m { phase = finished }
    else record m { state = connecting; rt = none; phase = dialing }

unfoldable pub on_dialed : Config → Connection → Manager → Published
unfolding up_capability
on_dialed cfg c m =
    let m' = record m {
      state = ready;
      rt = some c;
      generation = m.generation + 1;
      delay = cfg.reconnect_min;
      phase = connected;
    } in
    (m', some (up_capability m' c.capability))

unfoldable pub on_lost : Manager → Published
unfolding down_capability
on_lost m = (record m { state = down; rt = none; phase = top }, some (down_capability m))

-- The connection is closed; the state is left as it is.
unfoldable pub on_stopped : Manager → Published
unfolding down_capability
on_stopped m = (record m { phase = finished }, some (down_capability m))

-- `once`: a second Close changes nothing.
unfoldable pub on_close : Manager → Manager
on_close m = if m.stop then m else record m { state = stopping; rt = none; stop = true }

-- `none` when the event cannot happen where the loop is.
unfoldable pub step_in : Phase → Config → Event → Manager → Option Published
unfolding on_turn on_dialed on_lost on_stopped on_close next_delay
step_in phase cfg close m = some (on_close m, none)
step_in top cfg turn m = some (on_turn m, none)
step_in dialing cfg (dialed c) m = some (on_dialed cfg c m)
step_in dialing cfg dial_failed m = some (record m { phase = waiting }, none)
step_in connected cfg lost m = some (on_lost m)
step_in connected cfg stopped m = if m.stop then some (on_stopped m) else none
step_in waiting cfg stopped m = if m.stop then some (record m { phase = finished }, none) else none
step_in waiting cfg timer m = some (record m { delay = next_delay cfg m.delay; phase = top }, none)
step_in _ cfg _ m = none

unfoldable pub step : Config → Event → Manager → Option Published
unfolding step_in
step cfg e m = step_in m.phase cfg e m

unfoldable pub is_ready : Manager → Bool
is_ready m = elim m.state [ ready ↦ true | _ ↦ false ]

abbrev through : State → Option Connection → Message → Result Error (Option Message)
through stopping rt msg = err shutting_down
through ready (some c) msg = c.round_trip msg
through _ _ msg = err unavailable

unfoldable pub round_trip : Manager → Message → Result Error (Option Message)
round_trip m msg = through m.state m.rt msg

-- The callback that BuildRegistry of internal/diameter/registry.go installs.
unfoldable pub on_capability : ℕ → Option Capability → List TablePeer → List TablePeer
on_capability id none table = table
on_capability id (some c) table =
    if c.ready then upsert id c table else remove id c.generation table

-- A manager with the table that its callback writes.
pub record System : Type 0 where
  pub manager : Manager
  pub table : List TablePeer

abbrev pub run_published : ℕ → System → Option Published → System
run_published id s none = s
run_published id s (some (m, c)) = record { manager = m; table = on_capability id c s.table }

-- An event that cannot happen changes nothing.
unfoldable pub run_event : Config → ℕ → Event → System → System
unfolding step on_capability
run_event cfg id e s = run_published id s (step cfg e s.manager)

abbrev pub run_events : Config → ℕ → List Event → System → System
run_events cfg id [] s = s
run_events cfg id (e ∷ events) s = run_events cfg id events (run_event cfg id e s)
