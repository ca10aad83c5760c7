-- ===== src/Config/Load.antt =====
-- internal/config/config.go: what a configuration that loads promises to the parts that it configures.
use vectorcore_gmlc.Base.{
  ℕ, ◌≡◌, refl, arith, Bool, true, false, ◌&&◌, ◌||◌, not, some, List, [], ◌∷◌, map, All, ◌==◌,
  length, Result, ok, err, ◌>>=◌, ◌>>◌, bind_ok, ok_injective, subst, Bool-cases, inl, inr, ◌≢◌,
  ltb, if◌then◌else◌,
}
use vectorcore_gmlc.Base.Text.{Text, is_empty, to_lower}
use vectorcore_gmlc.Errors.{Error}
use vectorcore_gmlc.Diameter.Manager
use vectorcore_gmlc.Diameter.Manager.{new_config}
use vectorcore_gmlc.Slg.Plr
use vectorcore_gmlc.Slg.Provide
use vectorcore_gmlc.Delivery as Worker
use vectorcore_gmlc.Config.{
  delivery_defaults, or_default, Diameter, Client, Config, Delivery, apply_defaults,
}
use vectorcore_gmlc.Config.Validation.{
  require, check_peers, check_clients, check_diameter, validate, load, peer_key, timers_ok,
  decode_hex, encryption_key_bytes, when_enabled, check_own, client_ok,
}
use vectorcore_gmlc.Config.Uniqueness.{
  seq_ok, require_ok, Distinct, AllUnseen-Distinct, check_peers-AllUnseen, check_clients-AllUnseen,
}

-- What main hands to the constructors of the other packages.
abbrev pub manager_config : Diameter → Manager.Config
manager_config d = record { reconnect_min = d.reconnect_min; reconnect_max = d.reconnect_max }

abbrev pub slg_config : Diameter → Plr.Config
slg_config d = record {
  origin_host = d.origin_host;
  origin_realm = d.origin_realm;
  request_timeout = d.request_timeout;
}

abbrev pub worker_config : Delivery → List ℕ → Worker.Config
worker_config d key = record {
  max_attempts = d.max_attempts;
  retry_backoff_min = d.retry_backoff_min;
  retry_backoff_max = d.retry_backoff_max;
  request_timeout = d.request_timeout;
  encryption_key = key;
}

-- A worker that is enabled has a key of 32 bytes and keeps its configuration.
abbrev pub WorkerOk : Bool → Delivery → Type 0
WorkerOk true d =
    (key : List ℕ) × (encryption_key_bytes d ≡ ok key)
    × (Worker.new (worker_config d key) ≡ some (worker_config d key))
WorkerOk false d = true ≡ true

or_default_twice : (n d : ℕ) → (d == 0) ≡ false → or_default (or_default n d) d ≡ or_default n d
or_default_twice n d h = ground (arith, h)

-- A maximum below the minimum is replaced, once.
abbrev raised : ℕ → ℕ → ℕ → ℕ
raised x min d = if ltb x min then d else x

raised_twice : (x min d : ℕ) → raised (raised x min d) min d ≡ raised x min d
raised_twice x min d = ground arith

timers_ok_bounds :
    (d : Diameter)
    → timers_ok d ≡ true
    → ((d.reconnect_min == 0) ≡ false)
      × (ltb d.reconnect_max d.reconnect_min ≡ false)
      × ((d.request_timeout == 0) ≡ false)
timers_ok_bounds d h = ground (arith, h)

manager_config-new_config :
    (d : Diameter) → timers_ok d ≡ true → new_config (manager_config d) ≡ manager_config d
unfolding new_config
manager_config-new_config d h = let (e1, e2, e3) = timers_ok_bounds d h in rw (e1, e2) refl

slg_config-new :
    (d : Diameter)
    → (not (is_empty d.origin_host)
        && not (is_empty d.origin_realm)
        && not (is_empty d.host_ip_address)
        && not (length d.peers == 0))
      ≡ true
    → timers_ok d ≡ true
    → Provide.new (slg_config d) ≡ ok (slg_config d)
unfolding Provide.new
slg_config-new d h t =
    let (e1, e2, e3) = timers_ok_bounds d t in
    let e : (is_empty d.origin_host || is_empty d.origin_realm) ≡ false = ground (arith, h) in
    rw (e, e3) refl

worker_config-new :
    (d : Delivery) (key : List ℕ)
    → (length key == 32) ≡ true
    → let d' = delivery_defaults d in
      Worker.new (worker_config d' key) ≡ some (worker_config d' key)
unfolding Worker.new delivery_defaults
worker_config-new d key h =
    rw
      (
        h,
        or_default_twice d.max_attempts 5 refl,
        or_default_twice d.retry_backoff_min 1000000000 refl,
        raised_twice d.retry_backoff_max (or_default d.retry_backoff_min 1000000000) 300000000000,
        or_default_twice d.request_timeout 10000000000 refl,
      )
      refl

key_of :
    (r : Result Error (List ℕ)) (u : Unit {0})
    → ((r >>= λ key. (require (length key == 32) >> ok key)) >>= λ _. ok tt) ≡ ok u
    → (key : List ℕ) × ((r >>= λ key. (require (length key == 32) >> ok key)) ≡ ok key)
      × ((length key == 32) ≡ true)
key_of (err e) u h = cc
key_of (ok key) u h = elim (Bool-cases (length key == 32)) [
  | inl e ↦ (key, rw e refl, e)
  | inr e ↦ absurd (err≢ok u (rw e at h))
]
  where
    err≢ok : (u : Unit {0}) → ◌≢◌ {A = Result Error (Unit {0})} (err Error.other) (ok u)
    err≢ok u q = cc

key_bytes :
    (d : Delivery) (u : Unit {0})
    → (encryption_key_bytes d >>= λ _. ok tt) ≡ ok u
    → (key : List ℕ) × (encryption_key_bytes d ≡ ok key) × ((length key == 32) ≡ true)
unfolding encryption_key_bytes
key_bytes d u h = key_of (decode_hex d.encryption_key) u h

enabled-WorkerOk :
    (b : Bool) (d : Delivery)
    → when_enabled b (encryption_key_bytes (delivery_defaults d) >>= λ _. ok tt) ≡ ok tt
    → WorkerOk b (delivery_defaults d)
enabled-WorkerOk true d h =
    let (key, e, l) = key_bytes (delivery_defaults d) tt h in (key, e, worker_config-new d key l)
enabled-WorkerOk false d h = refl

-- The ids of the clients, the names of the peers and their addresses are distinct; the reconnecting loop,
-- the SLg provider and an enabled delivery worker keep the configuration that they are given.
abbrev pub Served : Config → Type 0
Served c =
    Distinct (map (λ v. v.id) c.clients)
    × Distinct (map peer_key c.diameter.peers)
    × Distinct (map (λ p. to_lower p.name) c.diameter.peers)
    × (new_config (manager_config c.diameter) ≡ manager_config c.diameter)
    × (Provide.new (slg_config c.diameter) ≡ ok (slg_config c.diameter))
    × WorkerOk c.delivery.enabled c.delivery

-- A configuration that loads has distinct clients and peers, and the reconnecting loop, the SLg provider and
-- an enabled delivery worker take it as it is, with a key of 32 bytes.
pub load-Served : (c c' : Config) → load c ≡ ok c' → Served c'
unfolding load validate check_diameter apply_defaults
load-Served c c' h =
    let d = apply_defaults c in
    let (u, valid, same) = bind_ok (validate d) (λ _. ok d) c' h in
    let (h1, worker) =
      seq_ok _ (when_enabled d.delivery.enabled (encryption_key_bytes d.delivery >>= λ _. ok tt)) u
        valid in
    let (h2, clients) = seq_ok _ (check_clients [] d.clients) tt h1 in
    let (own, diameter) = seq_ok (check_own d) (check_diameter d.diameter) tt h2 in
    let (h3, peers) = seq_ok _ (check_peers [] [] d.diameter.peers) tt diameter in
    let (identity, timers) = seq_ok _ (require (timers_ok d.diameter)) tt h3 in
    let t = require_ok (timers_ok d.diameter) timers in
    let (keys, names) = check_peers-AllUnseen [] [] d.diameter.peers peers in
    subst Served (ok_injective d c' same) (
      AllUnseen-Distinct [] (map (λ v. v.id) d.clients)
          (check_clients-AllUnseen [] d.clients clients),
      AllUnseen-Distinct [] (map peer_key d.diameter.peers) keys,
      AllUnseen-Distinct [] (map (λ p. to_lower p.name) d.diameter.peers) names,
      manager_config-new_config d.diameter t,
      slg_config-new d.diameter (require_ok _ identity) t,
      enabled-WorkerOk d.delivery.enabled c.delivery worker,
    )

-- Every client passes the tests of the loop.
check_clients-client_ok :
    (seen : List Text) (cs : List Client)
    → check_clients seen cs ≡ ok tt
    → All (λ v. client_ok v ≡ true) cs
unfolding check_clients
check_clients-client_ok seen [] h = tt
check_clients-client_ok seen (v ∷ cs) h =
    let (h1, rest) = seq_ok _ (check_clients (v.id ∷ seen) cs) tt h in
    let (h2, good) = seq_ok _ (require (client_ok v)) tt h1 in
    (require_ok (client_ok v) good, check_clients-client_ok (v.id ∷ seen) cs rest)

pub load-client_ok : (c c' : Config) → load c ≡ ok c' → All (λ v. client_ok v ≡ true) c'.clients
unfolding load validate
load-client_ok c c' h =
    let d = apply_defaults c in
    let (u, valid, same) = bind_ok (validate d) (λ _. ok d) c' h in
    let (h1, worker) =
      seq_ok _ (when_enabled d.delivery.enabled (encryption_key_bytes d.delivery >>= λ _. ok tt)) u
        valid in
    let (h2, clients) = seq_ok _ (check_clients [] d.clients) tt h1 in
    subst (λ (e : Config). All (λ v. client_ok v ≡ true) e.clients) (ok_injective d c' same)
      (check_clients-client_ok [] d.clients clients)
