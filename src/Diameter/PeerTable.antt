-- ===== src/Diameter/PeerTable.antt =====
-- internal/diameter/peertable.go. A manager is known by its number; whether it is ready now is a
-- parameter. A map from applications to booleans is the list of those that are true.
pub mod Selection
pub mod MapView
mod Examples
use vectorcore_gmlc.Base.{
  ℕ, Bool, true, false, ◌&&◌, ◌||◌, not, Option, none, some, List, [], ◌∷◌, if◌then◌else◌, ltb,
  ◌==◌, keep, Result, ok, err, is_ok,
}
use vectorcore_gmlc.Base.Text.{Text, text_eq, is_empty, trim_space, to_lower, trim_suffix_dot}
use vectorcore_gmlc.Errors.{Error, no_route}

pub record RouteRequest : Type 0 where
  pub application_id : ℕ
  pub destination_host : Text
  pub destination_realm : Text

pub record Capability : Type 0 where
  pub address : Text
  pub transport : Text
  pub origin_host : Text
  pub origin_realm : Text
  pub generation : ℕ
  pub ready : Bool
  pub relay : Bool
  pub applications : List ℕ

pub record TablePeer : Type 0 where
  pub manager : ℕ
  pub capability : Capability

abbrev pub norm : Text → Text
norm v = to_lower (trim_suffix_dot (trim_space v))

-- A capability of an older generation than the one known is dropped.
unfoldable pub upsert : ℕ → Capability → List TablePeer → List TablePeer
upsert m c [] = record { manager = m; capability = c } ∷ []
upsert m c (p ∷ peers) =
    let rest = upsert m c peers in
    if p.manager == m
    then (if ltb c.generation p.capability.generation
        then p ∷ peers
        else record p { capability = c } ∷ peers)
    else p ∷ rest

abbrev pub withdrawn : TablePeer → TablePeer
withdrawn p = record p { capability = record p.capability { ready = false; applications = [] } }

-- The loop returns at a peer of another generation; those before it are changed.
unfoldable pub remove : ℕ → ℕ → List TablePeer → List TablePeer
remove m generation [] = []
remove m generation (p ∷ peers) =
    let rest = remove m generation peers in
    if p.manager == m
    then (if p.capability.generation == generation then withdrawn p ∷ rest else p ∷ peers)
    else p ∷ rest

abbrev pub contains_app : ℕ → List ℕ → Bool
contains_app a [] = false
contains_app a (b ∷ bs) = a == b || contains_app a bs

module _ (manager_ready : ℕ → Bool) where
  abbrev pub usable : TablePeer → Bool
  usable p = p.capability.ready && manager_ready p.manager

  -- The four lists of the loop.
  abbrev pub is_relay : TablePeer → Bool
  is_relay p = usable p && p.capability.relay

  abbrev pub is_direct : ℕ → TablePeer → Bool
  is_direct app p = usable p && not p.capability.relay && contains_app app p.capability.applications

  abbrev pub is_exact_host : RouteRequest → TablePeer → Bool
  is_exact_host r p =
      is_direct r.application_id p
      && not (is_empty r.destination_host)
      && text_eq (norm p.capability.origin_host) (norm r.destination_host)

  abbrev pub is_realm_direct : RouteRequest → TablePeer → Bool
  is_realm_direct r p =
      is_direct r.application_id p
      && not (is_empty r.destination_realm)
      && text_eq (norm p.capability.origin_realm) (norm r.destination_realm)

  abbrev pub head_or : List TablePeer → Result Error ℕ → Result Error ℕ
  head_or [] otherwise = otherwise
  head_or (p ∷ peers) otherwise = ok p.manager

  unfoldable pub select : RouteRequest → List TablePeer → Result Error ℕ
  select r peers =
      let any_direct =
        if is_empty r.destination_host && is_empty r.destination_realm
        then keep (is_direct r.application_id) peers
        else [] in
      head_or (keep (is_exact_host r) peers) (
        head_or (keep (is_realm_direct r) peers)
          (head_or any_direct (head_or (keep is_relay peers) (err no_route))))

  unfoldable pub ready_for : ℕ → List TablePeer → Bool
  unfolding select
  ready_for app peers = is_ok (
      select (record { application_id = app; destination_host = []; destination_realm = [] }) peers)

-- `none` is the zero capability that is not there; the flag is whether the peer is ready.
unfoldable pub capability_of : ℕ → List TablePeer → Option Capability × Bool
capability_of m [] = (none, false)
capability_of m (p ∷ peers) =
    let rest = capability_of m peers in
    if p.manager == m then (some p.capability, p.capability.ready) else rest
