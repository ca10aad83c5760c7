-- ===== src/Diameter/PeerTable/Examples.antt =====
-- A selection at a concrete table.
use vectorcore_gmlc.Base.{ℕ, true, false, List, [], ◌∷◌}
use vectorcore_gmlc.Base.Text.{codes}
use vectorcore_gmlc.Diameter.PeerTable.{RouteRequest, TablePeer, select}
use vectorcore_gmlc.Diameter.PeerTable.Selection.{Preferred, select-Preferred}

abbrev peer : ℕ → List ℕ → TablePeer
peer m apps = record {
  manager = m;
  capability = record {
    address = codes "10.0.0.1:3868";
    transport = codes "tcp";
    origin_host = codes "MME.epc.";
    origin_realm = codes "epc";
    generation = 1;
    ready = true;
    relay = false;
    applications = apps;
  };
}

abbrev route : RouteRequest
route = record {
  application_id = 16777255;
  destination_host = codes "mme.epc";
  destination_realm = codes "epc";
}

select-Preferred_example :
    Preferred
      (λ m. true)
      route
      (peer 1 [] ∷ peer 2 (16777255 ∷ []) ∷ [])
      (select (λ m. true) route (peer 1 [] ∷ peer 2 (16777255 ∷ []) ∷ []))
select-Preferred_example =
    select-Preferred (λ m. true) route (peer 1 [] ∷ peer 2 (16777255 ∷ []) ∷ [])
