-- ===== src/Diameter/Dialing.antt =====
-- internal/diameter/tcp.go and registry.go: what a connection is dialed with, the peer that is accepted, and
-- the questions to the registry. The exchange of capabilities itself is go-diameter's.
use vectorcore_gmlc.Base.{
  ℕ, Bool, false, ◌&&◌, ◌||◌, not, Option, none, some, List, [], ◌∷◌, if◌then◌else◌, ◌==◌, Result,
  ok, err, ◌>>◌, guard,
}
use vectorcore_gmlc.Base.Text.{Text, codes, text_eq, is_empty}
use vectorcore_gmlc.Errors.{Error}
use vectorcore_gmlc.Diameter.Message.{Avp, avp, Data, grouped, unsigned, mbit}
use vectorcore_gmlc.Diameter.PeerTable.{Capability, TablePeer, norm, contains_app, ready_for}

abbrev pub relay_application_id : ℕ
relay_application_id = 0xffffffff

-- `host_ip` is whether an address was parsed.
pub record TransportConfig : Type 0 where
  pub address : Text
  pub transport : Text
  pub origin_host : Text
  pub origin_realm : Text
  pub host_ip : Bool
  pub connect_timeout : ℕ
  pub watchdog_interval : ℕ
  pub watchdog_timeout : ℕ
  pub expected_origin_host : Text
  pub expected_origin_realm : Text

unfoldable pub validate : TransportConfig → Result Error (Unit {0})
validate c =
    guard
      (not (is_empty c.address)
        && (text_eq c.transport (codes "tcp") || text_eq c.transport (codes "sctp"))
        && not (is_empty c.origin_host)
        && not (is_empty c.origin_realm)
        && c.host_ip)
      Error.other
    >> guard
        (not (c.connect_timeout == 0)
          && not (c.watchdog_interval == 0)
          && not (c.watchdog_timeout == 0))
        Error.other

-- What smpeer.FromContext gives of the peer's answer.
pub record Metadata : Type 0 where
  pub origin_host : Text
  pub origin_realm : Text
  pub applications : List ℕ

abbrev pub expected : Text → Text → Bool
expected want got = is_empty want || text_eq (norm got) (norm want)

-- Of a connection with its metadata, if it has them; otherwise it is closed.
unfoldable pub negotiated : TransportConfig → Option Metadata → Result Error Capability
negotiated c none = err Error.other
negotiated c (some meta) =
    if expected c.expected_origin_host meta.origin_host
      && expected c.expected_origin_realm meta.origin_realm
    then ok (record {
      address = [];
      transport = [];
      origin_host = meta.origin_host;
      origin_realm = meta.origin_realm;
      generation = 0;
      ready = false;
      relay = contains_app relay_application_id meta.applications;
      applications = meta.applications;
    })
    else err Error.other

-- The Vendor-Specific-Application-Id that is announced.
abbrev pub vendor_app : ℕ → ℕ → Avp Data
vendor_app v id =
    avp 260 mbit 0 (grouped (avp 266 mbit 0 (unsigned v) ∷ avp 258 mbit 0 (unsigned id) ∷ []))

-- Both interfaces have a peer.
unfoldable pub overall_ready : (ℕ → Bool) → List TablePeer → Bool
overall_ready manager_ready peers =
    ready_for manager_ready 16777291 peers && ready_for manager_ready 16777255 peers
