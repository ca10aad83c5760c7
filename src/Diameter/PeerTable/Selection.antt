-- ===== src/Diameter/PeerTable/Selection.antt =====
-- internal/diameter/peertable.go: which peer Select takes.
use mathlib.Core.List.{Memᴰ}
use vectorcore_gmlc.Base.{
  ℕ, ◌≡◌, refl, Bool, true, false, ◌&&◌, List, [], ◌∷◌, if◌then◌else◌, keep, All, Result, ok, err,
  Bool-cases, inl, inr, ◌⊎◌,
}
use vectorcore_gmlc.Base.Text.{is_empty}
use vectorcore_gmlc.Errors.{Error, no_route}
use vectorcore_gmlc.Diameter.PeerTable.{
  RouteRequest, TablePeer, select, is_relay, is_direct, is_exact_host, is_realm_direct, head_or,
}

-- What a search of the table finds: its first member that passes, or that none passes.
data Found (q : TablePeer → Bool) (peers : List TablePeer) : List TablePeer → Type 0 where
  nothing : All (λ p. q p ≡ false) peers → Found q peers []
  head :
      {p : TablePeer} {rest : List TablePeer} → Memᴰ p peers → q p ≡ true → Found q peers (p ∷ rest)

Found-cons :
    (q : TablePeer → Bool) (x : TablePeer) (peers found : List TablePeer)
    → q x ≡ false
    → Found q peers found
    → Found q (x ∷ peers) found
Found-cons q x peers [] e (nothing h) = nothing (e, h)
Found-cons q x peers (p ∷ rest) e (head m h) = head (Memᴰ.tail m) h

keep-Found : (q : TablePeer → Bool) (peers : List TablePeer) → Found q peers (keep q peers)
keep-Found q [] = nothing tt
keep-Found q (x ∷ peers) = elim (Bool-cases (q x)) [
  | inl e ↦ rw e (head (Memᴰ.head refl) e)
  | inr e ↦ rw e (Found-cons q x peers (keep q peers) e (keep-Found q peers))
]

module _ (manager_ready : ℕ → Bool) (r : RouteRequest) (peers : List TablePeer) where
  abbrev None : (TablePeer → Bool) → Type 0
  None q = All (λ p. q p ≡ false) peers

  abbrev no_destination : Bool
  no_destination = is_empty r.destination_host && is_empty r.destination_realm

  abbrev exact_host : TablePeer → Bool
  exact_host = is_exact_host manager_ready r

  abbrev realm_direct : TablePeer → Bool
  realm_direct = is_realm_direct manager_ready r

  abbrev any_direct : TablePeer → Bool
  any_direct = is_direct manager_ready r.application_id

  abbrev relay : TablePeer → Bool
  relay = is_relay manager_ready

  -- There is a destination, or no direct peer serves the application.
  abbrev pub Unserved : Type 0
  Unserved = (no_destination ≡ false) ⊎ None any_direct

  -- The peer of each rank is chosen only when there is none of a higher one.
  pub data Preferred : Result Error ℕ → Type 0 where
    by_host : {p : TablePeer} → Memᴰ p peers → exact_host p ≡ true → Preferred (ok p.manager)
    by_realm :
        {p : TablePeer}
        → None exact_host
        → Memᴰ p peers
        → realm_direct p ≡ true
        → Preferred (ok p.manager)
    by_application :
        {p : TablePeer}
        → None exact_host
        → None realm_direct
        → no_destination ≡ true
        → Memᴰ p peers
        → any_direct p ≡ true
        → Preferred (ok p.manager)
    by_relay :
        {p : TablePeer}
        → None exact_host
        → None realm_direct
        → Unserved
        → Memᴰ p peers
        → relay p ≡ true
        → Preferred (ok p.manager)
    unavailable :
        None exact_host → None realm_direct → Unserved → None relay → Preferred (err no_route)

  last_rank :
      (relays : List TablePeer)
      → None exact_host
      → None realm_direct
      → Unserved
      → Found relay peers relays
      → Preferred (head_or manager_ready relays (err no_route))
  last_rank [] h k d (nothing l) = unavailable h k d l
  last_rank (p ∷ rest) h k d (head m e) = by_relay h k d m e

  third_rank :
      (direct : List TablePeer)
      → None exact_host
      → None realm_direct
      → no_destination ≡ true
      → Found any_direct peers direct
      → Preferred
          (head_or manager_ready direct (head_or manager_ready (keep relay peers) (err no_route)))
  third_rank [] h k d (nothing l) =
      last_rank (keep relay peers) h k (inr l) (keep-Found relay peers)
  third_rank (p ∷ rest) h k d (head m e) = by_application h k d m e

  abbrev direct_candidates : List TablePeer
  direct_candidates = if no_destination then keep any_direct peers else []

  lower_ranks :
      None exact_host
      → None realm_direct
      → Preferred (
          head_or manager_ready direct_candidates
            (head_or manager_ready (keep relay peers) (err no_route)))
  lower_ranks h k = elim (Bool-cases no_destination) [
    | inl e ↦ rw e (third_rank (keep any_direct peers) h k e (keep-Found any_direct peers))
    | inr e ↦ rw e (last_rank (keep relay peers) h k (inl e) (keep-Found relay peers))
  ]

  second_rank :
      (direct : List TablePeer)
      → None exact_host
      → Found realm_direct peers direct
      → Preferred (
          head_or manager_ready direct (
            head_or manager_ready direct_candidates
              (head_or manager_ready (keep relay peers) (err no_route))))
  second_rank [] h (nothing l) = lower_ranks h l
  second_rank (p ∷ rest) h (head m e) = by_realm h m e

  first_rank :
      (exact : List TablePeer)
      → Found exact_host peers exact
      → Preferred (
          head_or manager_ready exact (
            head_or manager_ready (keep realm_direct peers) (
              head_or manager_ready direct_candidates
                (head_or manager_ready (keep relay peers) (err no_route)))))
  first_rank [] (nothing l) =
      second_rank (keep realm_direct peers) l (keep-Found realm_direct peers)
  first_rank (p ∷ rest) (head m e) = by_host m e

  -- A request goes to a ready direct peer of the destination host, else of the realm, else, without a
  -- destination, to any that serves the application, else to a relay; each only if there is none of
  -- the ranks before, and there is no route only if every rank is empty.
  pub select-Preferred : Preferred (select manager_ready r peers)
  unfolding select
  select-Preferred = first_rank (keep exact_host peers) (keep-Found exact_host peers)
