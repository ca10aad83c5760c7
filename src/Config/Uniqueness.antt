-- ===== src/Config/Uniqueness.antt =====
-- internal/config/config.go: the loops of Validate leave no client and no peer twice.
use vectorcore_gmlc.Base.{
  ◌≡◌, refl, arith, Bool, true, false, ◌&&◌, not, List, [], ◌∷◌, map, Result, ok, err, ◌>>◌,
}
use vectorcore_gmlc.Base.Text.{Text, text_eq, is_empty, to_lower}
use vectorcore_gmlc.Errors.{Error}
use vectorcore_gmlc.Config.{DiameterPeer, Client}
use vectorcore_gmlc.Config.Validation.{
  require, seen_in, check_peers, check_clients, peer_key, client_ok,
}

pub seq_ok :
    (m k : Result Error (Unit {0})) (u : Unit {0}) → (m >> k) ≡ ok u → (m ≡ ok tt) × (k ≡ ok tt)
seq_ok (ok a) (ok b) u h = (refl, refl)
seq_ok (ok a) (err e) u h = cc
seq_ok (err e) k u h = cc

pub require_ok : (b : Bool) → require b ≡ ok tt → b ≡ true
require_ok true h = refl
require_ok false h = cc

-- What the loops check of the keys that they meet.
abbrev pub AllUnseen : List Text → List Text → Type 0
AllUnseen seen [] = true ≡ true
AllUnseen seen (x ∷ xs) = (seen_in x seen ≡ false) × AllUnseen (x ∷ seen) xs

abbrev pub Fresh : Text → List Text → Type 0
Fresh y [] = true ≡ true
Fresh y (x ∷ xs) = (text_eq x y ≡ false) × Fresh y xs

abbrev pub Distinct : List Text → Type 0
Distinct [] = true ≡ true
Distinct (x ∷ xs) = Fresh x xs × Distinct xs

AllUnseen-Fresh :
    (y : Text) (seen xs : List Text)
    → ((x : Text) → seen_in x seen ≡ false → text_eq x y ≡ false)
    → AllUnseen seen xs
    → Fresh y xs
AllUnseen-Fresh y seen [] k h = refl
AllUnseen-Fresh y seen (x ∷ xs) k (u, h) =
    (k x u, AllUnseen-Fresh y (x ∷ seen) xs (λ z w. k z (later z w)) h)
  where
    later : (z : Text) → seen_in z (x ∷ seen) ≡ false → seen_in z seen ≡ false
    later z w = ground (arith, w)

pub AllUnseen-Distinct : (seen xs : List Text) → AllUnseen seen xs → Distinct xs
AllUnseen-Distinct seen [] h = refl
AllUnseen-Distinct seen (x ∷ xs) (u, h) =
    (AllUnseen-Fresh x (x ∷ seen) xs first h, AllUnseen-Distinct (x ∷ seen) xs h)
  where
    first : (z : Text) → seen_in z (x ∷ seen) ≡ false → text_eq z x ≡ false
    first z w = ground (arith, w)

is_false : (b : Bool) → not b ≡ true → b ≡ false
is_false b h = ground arith

pub check_peers-AllUnseen :
    (peers names : List Text) (ps : List DiameterPeer)
    → check_peers peers names ps ≡ ok tt
    → AllUnseen peers (map peer_key ps) × AllUnseen names (map (λ p. to_lower p.name) ps)
unfolding check_peers
check_peers-AllUnseen peers names [] h = (refl, refl)
check_peers-AllUnseen peers names (p ∷ ps) h =
    let (h1, rest) =
      seq_ok _ (check_peers (peer_key p ∷ peers) (to_lower p.name ∷ names) ps) tt h in
    let (h2, name) = seq_ok _ (require (not (seen_in (to_lower p.name) names))) tt h1 in
    let (h3, key) = seq_ok _ (require (not (seen_in (peer_key p) peers))) tt h2 in
    let (keys, others) =
      check_peers-AllUnseen (peer_key p ∷ peers) (to_lower p.name ∷ names) ps rest in
    (
      (is_false (seen_in (peer_key p) peers) (require_ok _ key), keys),
      (is_false (seen_in (to_lower p.name) names) (require_ok _ name), others),
    )

unseen_of : (a b c : Bool) → (a && b && not c) ≡ true → c ≡ false
unseen_of a b c h = ground arith

pub check_clients-AllUnseen :
    (seen : List Text) (cs : List Client)
    → check_clients seen cs ≡ ok tt
    → AllUnseen seen (map (λ v. v.id) cs)
unfolding check_clients
check_clients-AllUnseen seen [] h = refl
check_clients-AllUnseen seen (v ∷ cs) h =
    let (h1, rest) = seq_ok _ (check_clients (v.id ∷ seen) cs) tt h in
    let (h2, good) = seq_ok _ (require (client_ok v)) tt h1 in
    let here = require_ok _ h2 in
    (
      unseen_of (not (is_empty v.id)) (not (is_empty v.bearer_token)) (seen_in v.id seen) here,
      check_clients-AllUnseen (v.id ∷ seen) cs rest,
    )
