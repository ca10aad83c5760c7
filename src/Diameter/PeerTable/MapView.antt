-- ===== src/Diameter/PeerTable/MapView.antt =====
-- internal/diameter/peertable.go: the table as a map from managers to their last capabilities.
use vectorcore_gmlc.Base.{
  ℕ, ◌≡◌, refl, Bool, false, Option, none, some, List, [], ◌∷◌, if◌then◌else◌, ltb, ◌==◌, arith,
  Bool-cases, inl, inr,
}
use vectorcore_gmlc.Diameter.PeerTable.{Capability, TablePeer, upsert, remove, capability_of}

-- The calls of the managers' callbacks.
pub data Operation : Type 0 where
  put : ℕ → Capability → Operation
  withdraw : ℕ → ℕ → Operation

unfoldable pub perform : Operation → List TablePeer → List TablePeer
perform (put m c) peers = upsert m c peers
perform (withdraw m generation) peers = remove m generation peers

abbrev pub perform_all : List Operation → List TablePeer → List TablePeer
perform_all [] peers = peers
perform_all (o ∷ os) peers = perform_all os (perform o peers)

-- The specification: what one manager is known by, apart from the others.
abbrev pub newer : Capability → Option Capability → Capability
newer c none = c
newer c (some old) = if ltb c.generation old.generation then old else c

abbrev pub ended : ℕ → Option Capability → Option Capability
ended generation none = none
ended generation (some c) =
    some (if c.generation == generation then record c { ready = false; applications = [] } else c)

unfoldable pub specified : Operation → ℕ → Option Capability → Option Capability
specified (put n c) m known = if n == m then some (newer c known) else known
specified (withdraw n generation) m known = if n == m then ended generation known else known

abbrev pub specified_all : List Operation → ℕ → Option Capability → Option Capability
specified_all [] m known = known
specified_all (o ∷ os) m known = specified_all os m (specified o m known)

abbrev pub described : Option Capability → Option Capability × Bool
described none = (none, false)
described (some c) = (some c, c.ready)

-- What the table knows of a manager, by its first entry.
abbrev pub known_of : ℕ → List TablePeer → Option Capability
known_of m [] = none
known_of m (p ∷ peers) = if p.manager == m then some p.capability else known_of m peers

capability_of-known_of :
    (m : ℕ) (peers : List TablePeer) → capability_of m peers ≡ described (known_of m peers)
unfolding capability_of
capability_of-known_of m [] = refl
capability_of-known_of m (p ∷ peers) = elim (Bool-cases (p.manager == m)) [
  | inl e ↦ rw e refl
  | inr e ↦ rw e (capability_of-known_of m peers)
]

pub known_of-upsert :
    (n : ℕ) (c : Capability) (m : ℕ) (peers : List TablePeer)
    → known_of m (upsert n c peers) ≡ specified (put n c) m (known_of m peers)
unfolding upsert specified
known_of-upsert n c m [] = ground arith
known_of-upsert n c m (p ∷ peers) = let ih = known_of-upsert n c m peers in ground arith

pub known_of-remove :
    (n generation m : ℕ) (peers : List TablePeer)
    → known_of m (remove n generation peers)
      ≡ specified (withdraw n generation) m (known_of m peers)
unfolding remove specified
known_of-remove n generation m [] = ground arith
known_of-remove n generation m (p ∷ peers) =
    let ih = known_of-remove n generation m peers in ground arith

known_of-perform :
    (o : Operation) (m : ℕ) (peers : List TablePeer)
    → known_of m (perform o peers) ≡ specified o m (known_of m peers)
unfolding perform
known_of-perform (put n c) m peers = known_of-upsert n c m peers
known_of-perform (withdraw n generation) m peers = known_of-remove n generation m peers

known_of-perform_all :
    (os : List Operation) (m : ℕ) (peers : List TablePeer)
    → known_of m (perform_all os peers) ≡ specified_all os m (known_of m peers)
known_of-perform_all [] m peers = refl
known_of-perform_all (o ∷ os) m peers =
    rw (known_of-perform_all os m (perform o peers), known_of-perform o m peers) refl

-- After any sequence of calls on any table, what it says of a manager is what the same calls, applied to
-- what it said before, make of that one entry.
pub capability_of-perform_all :
    (os : List Operation) (m : ℕ) (peers : List TablePeer)
    → capability_of m (perform_all os peers) ≡ described (specified_all os m (known_of m peers))
capability_of-perform_all os m peers =
    rw (capability_of-known_of m (perform_all os peers), known_of-perform_all os m peers) refl
