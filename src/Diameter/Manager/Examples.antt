-- ===== src/Diameter/Manager/Examples.antt =====
-- internal/diameter/manager.go and peertable.go: the theorems at one manager.
use vectorcore_gmlc.Base.{◌≡◌, refl, arith, true, false, some, List, [], ◌∷◌, ok}
use vectorcore_gmlc.Base.Text.{codes}
use vectorcore_gmlc.Diameter.Message.{Message}
use vectorcore_gmlc.Diameter.Sample.{sample}
use vectorcore_gmlc.Diameter.PeerTable.{Capability, capability_of}
use vectorcore_gmlc.Diameter.PeerTable.MapView.{
  Operation, put, withdraw, perform_all, specified_all, described, known_of,
  capability_of-perform_all,
}
use vectorcore_gmlc.Diameter.Manager.{
  Config, Connection, Event, turn, dialed, dial_failed, lost, timer, System, start, run_events,
  on_close,
}
use vectorcore_gmlc.Diameter.Manager.Link.{Linked, start-Linked}
use vectorcore_gmlc.Diameter.Manager.Shutdown.{Ends, on_close-Ends}

abbrev delays : Config
delays = record { reconnect_min = 1; reconnect_max = 3 }

abbrev learned : Capability
learned = record {
  address = codes "10.0.0.1:3868";
  transport = codes "tcp";
  origin_host = codes "hss.example";
  origin_realm = codes "example";
  generation = 0;
  ready = true;
  relay = false;
  applications = 16777291 ∷ [];
}

abbrev connection : Connection
connection = record { round_trip = λ msg. ok (some msg); capability = some learned }

-- A failed dial, a wait, a connection, its loss, and another connection.
abbrev day : List Event
day = turn ∷ dial_failed ∷ timer ∷ turn ∷ dialed connection ∷ lost ∷ turn ∷ dialed connection ∷ []

abbrev after_day : System
after_day =
    run_events delays 0 day
      (record { manager = start delays (codes "10.0.0.1:3868") (codes "tcp"); table = [] })

start-Linked_example : Linked delays after_day.manager (known_of 0 after_day.table)
start-Linked_example =
    start-Linked delays 0 (codes "10.0.0.1:3868") (codes "tcp") day [] (omega arith) refl

on_close-Ends_example : Ends delays (on_close after_day.manager)
on_close-Ends_example = on_close-Ends delays after_day.manager

abbrev ping : Message
ping = sample.new_request 1 0

abbrev calls : List Operation
calls = put 0 learned ∷ put 1 learned ∷ withdraw 0 0 ∷ []

capability_of-perform_all_example :
    capability_of 0 (perform_all calls []) ≡ described (specified_all calls 0 (known_of 0 []))
capability_of-perform_all_example = capability_of-perform_all calls 0 []
