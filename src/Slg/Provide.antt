-- ===== src/Slg/Provide.antt =====
-- internal/slg/slg.go: New and ProvideLocation, one exchange with the MME.
pub mod Exchanges
use vectorcore_gmlc.Base.{
  ℕ, ◌||◌, true, false, Option, none, some, if◌then◌else◌, ◌==◌, Result, ok, err, ◌>>=◌,
}
use vectorcore_gmlc.Base.Text.{Text, is_empty}
use vectorcore_gmlc.Errors.{Error, slg_error}
use vectorcore_gmlc.Errors.SlgKind.{route_unavailable}
use vectorcore_gmlc.Domain.{ServingNode, LocationRequest, PositioningResult}
use vectorcore_gmlc.Diameter.Message.{Message, Diam}
use vectorcore_gmlc.Diameter.PeerTable.{RouteRequest}
use vectorcore_gmlc.Slg.{application_id}
use vectorcore_gmlc.Slg.Plr.{Config, build_plr}
use vectorcore_gmlc.Slg.Pla.{decode_pla}

-- Of both constructors; a registry is there in NewWithRegistry. A duration is in nanoseconds.
unfoldable pub new : Config → Result Error Config
new c =
    if is_empty c.origin_host || is_empty c.origin_realm
    then err Error.other
    else ok (record c {
      request_timeout = if c.request_timeout == 0 then 5000000000 else c.request_timeout;
    })

-- What carries a message to a peer and back.
abbrev pub Transport : Type 0
Transport = Message → Result Error (Option Message)

-- The transport, or the registry that finds one, and the new session id.
pub record Exchange : Type 0 where
  pub registry : Option (RouteRequest → Result Error Transport)
  pub transport : Transport
  pub session : Text

abbrev pub routed_or_unavailable : Result Error Transport → Result Error Transport
routed_or_unavailable (ok send) = ok send
routed_or_unavailable (err e) = err (slg_error route_unavailable 0 0)

abbrev pub route : Exchange → ServingNode → Result Error Transport
route x n = elim x.registry [
  | none ↦ ok x.transport
  | some find_route ↦ routed_or_unavailable (
      find_route (record {
        application_id = application_id;
        destination_host = n.mme_host;
        destination_realm = n.mme_realm;
      }))
]

unfoldable pub provide_location :
    Diam → Config → Exchange → ServingNode → LocationRequest → Result Error PositioningResult
provide_location lib cfg x n r = build_plr lib cfg x.session n r >>= λ m.
    (route x n >>= λ send. (send m >>= λ ans. decode_pla (some m) ans))
