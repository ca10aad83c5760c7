-- ===== src/Storage/Requests/Claims.antt =====
-- Which request `ClaimNextQueued` takes.
use mathlib.Core.List.{Memᴰ}
use vectorcore_gmlc.Base.{
  ℕ, ◌+◌, ◌*◌, ◌/◌, ◌≤◌, ◌<◌, ◌≡◌, refl, sym, Bool, true, false, Option, none, some, List, [], ◌∷◌,
  if◌then◌else◌, arith, subst, Result, ok, All, keep, Bool-cases, inl, inr,
}
use vectorcore_gmlc.Base.Text.{
  Text, text_eq, text_eq_iff, text_eq_refl, text_leb_refl, text_leb_trans, text_leb_total,
}
use vectorcore_gmlc.Errors.{Error}
use vectorcore_gmlc.Domain.{Time, State, state_eq, Request}
use vectorcore_gmlc.Storage.Stamp.{
  second, utc, stamp_leb, stamp_ltb, stamp_leb_refl, stamp_leb_trans, stamp_leb_total,
  seconds-le_of_stamp_leb, stamp_leb_of_seconds-lt, whole_second_out_of_order,
}
use vectorcore_gmlc.Storage.Sql.{update, affected, least, least-Mem, least_minimal, least-none}
use vectorcore_gmlc.Storage.Schema.{RequestRow, Db}
use vectorcore_gmlc.Storage.Requests.{
  has_id_state, claim_next_queued, claim_found, read_claimed, claimed, set_claimed, scan_request,
  claimable, created_before,
}
use vectorcore_gmlc.Storage.Requests.Rows.{
  find_row, find_row-update, find_row-update_other, Unique, affected-find_row, state_eq→≡,
}

created_before_refl : (a : RequestRow) → created_before a a ≡ true
unfolding created_before stamp_ltb
created_before_refl a = ground (arith, stamp_leb_refl (utc a.created_at), text_leb_refl a.id)

created_before_trans :
    (a b c : RequestRow)
    → created_before a b ≡ true
    → created_before b c ≡ true
    → created_before a c ≡ true
unfolding created_before stamp_ltb
created_before_trans a b c h k =
    let x = utc a.created_at in
    let y = utc b.created_at in
    let z = utc c.created_at in
    ground (
      arith,
      stamp_leb_trans x y z,
      stamp_leb_trans z x y,
      stamp_leb_trans y z x,
      stamp_leb_total x y,
      stamp_leb_total y z,
      stamp_leb_total x z,
      text_leb_trans a.id b.id c.id,
    )

created_before_total : (a b : RequestRow) → created_before a b ≡ false → created_before b a ≡ true
unfolding created_before stamp_ltb
created_before_total a b h =
    ground (arith, stamp_leb_total (utc a.created_at) (utc b.created_at), text_leb_total a.id b.id)

Mem-keep :
    (p : RequestRow → Bool) (rows : List RequestRow) (m : RequestRow)
    → Memᴰ m (keep p rows)
    → Memᴰ m rows × (p m ≡ true)
Mem-keep p [] m h = elim h [ ]
Mem-keep p (r ∷ rows) m h = kept (p r) refl (Mem-keep p rows m) h
  where
    kept :
        (b : Bool)
        → p r ≡ b
        → (Memᴰ m (keep p rows) → Memᴰ m rows × (p m ≡ true))
        → Memᴰ m (if b then r ∷ keep p rows else keep p rows)
        → Memᴰ m (r ∷ rows) × (p m ≡ true)
    kept true e rest (Memᴰ.head q) = (Memᴰ.head q, rw q e)
    kept true e rest (Memᴰ.tail t) = (Memᴰ.tail (rest t).0, (rest t).1)
    kept false e rest t = (Memᴰ.tail (rest t).0, (rest t).1)

All-Mem :
    (p : RequestRow → Bool) (rows : List RequestRow) (m : RequestRow)
    → All (λ x. p x ≡ false) rows
    → Memᴰ m rows
    → p m ≡ false
All-Mem p [] m h t = elim t [ ]
All-Mem p (r ∷ rows) m h (Memᴰ.head q) = rw q h.0
All-Mem p (r ∷ rows) m h (Memᴰ.tail t) = All-Mem p rows m h.1 t

text_eq_ne : (s t : Text) → text_eq s t ≡ false → text_eq t s ≡ false
text_eq_ne s t h = ground (arith, text_eq_iff s t, text_eq_iff t s)

-- A row of the table is the one that its id finds.
find_row-Mem :
    (rows : List RequestRow) (m : RequestRow)
    → Unique rows
    → Memᴰ m rows
    → find_row m.id rows ≡ some m
find_row-Mem [] m u h = elim h [ ]
find_row-Mem (r ∷ rows) m u (Memᴰ.head q) =
    subst (λ x. find_row x.id (r ∷ rows) ≡ some x) (sym q) (rw (text_eq_refl r.id))
find_row-Mem (r ∷ rows) m u (Memᴰ.tail t) =
    rw (text_eq_ne m.id r.id (All-Mem (λ x. text_eq x.id r.id) rows m u.0 t))
      (find_row-Mem rows m u.1 t)

-- Whether the second of the next attempt has come, or has passed; with no next attempt, both.
abbrev pub Reached : Time → Option Time → Type 0
Reached now none = true ≡ true
Reached now (some t) = t / second ≤ now / second

abbrev pub Passed : Time → Option Time → Type 0
Passed now none = true ≡ true
Passed now (some t) = t / second < now / second

-- What a claim at a time does, to the second.
pub data Claim (now : Time) (db : Db) : Result Error (Option Request) × Db → Type 0 where
  idle :
      ((r : RequestRow)
        → Memᴰ r db.requests
        → r.state ≡ State.queued
        → ¬ Passed now r.next_attempt_at)
      → Claim now db (ok none, db)
  taken :
      {x : RequestRow} {after : Db}
      → find_row x.id db.requests ≡ some x
      → x.state ≡ State.queued
      → Reached now x.next_attempt_at
      → ((r : RequestRow)
          → Memᴰ r db.requests
          → r.state ≡ State.queued
          → Passed now r.next_attempt_at
          → x.created_at / second ≤ r.created_at / second)
      → find_row x.id after.requests
        ≡ some (record x {
          state = State.resolving;
          attempt_count = x.attempt_count + 1;
          updated_at = now;
        })
      → ((id : Text)
          → text_eq x.id id ≡ false
          → find_row id after.requests ≡ find_row id db.requests)
      → Claim now db (ok (some (scan_request (set_claimed now x))), after)

Passed-claimable :
    (now : Time) (r : RequestRow) (o : Option Time)
    → r.next_attempt_at ≡ o
    → r.state ≡ State.queued
    → Passed now o
    → claimable now r ≡ true
unfolding claimable
Passed-claimable now r none e q p = rw (q, e) refl
Passed-claimable now r (some t) e q p = rw (q, e) (stamp_leb_of_seconds-lt t now p)

claimable-Reached :
    (now : Time) (r : RequestRow) (o : Option Time)
    → r.next_attempt_at ≡ o
    → claimable now r ≡ true
    → Reached now o
unfolding claimable
claimable-Reached now r none e h = refl
claimable-Reached now r (some t) e h = seconds-le_of_stamp_leb t now (ground arith)

created_before-seconds :
    (a b : RequestRow) → created_before a b ≡ true → a.created_at / second ≤ b.created_at / second
unfolding created_before stamp_ltb
created_before-seconds a b h =
    let x = utc a.created_at in
    let y = utc b.created_at in
    let le : stamp_leb x y ≡ true = ground (arith, h, stamp_leb_total x y, stamp_leb_total y x) in
    seconds-le_of_stamp_leb a.created_at b.created_at le

-- Of what is kept, all and some.
All-kept {ℓ} :
    (P : RequestRow → Type ℓ) (p : RequestRow → Bool) (rows : List RequestRow) (r : RequestRow)
    → All P (keep p rows)
    → Memᴰ r rows
    → p r ≡ true
    → P r
All-kept P p [] r h m t = elim m [ ]
All-kept P p (x ∷ rows) r h (Memᴰ.head q) t =
    let here : p x ≡ true = subst (λ y. p y ≡ true) q t in subst P (sym q) (rw here at h).0
All-kept P p (x ∷ rows) r h (Memᴰ.tail m) t = elim (Bool-cases (p x)) [
  | inl e ↦ All-kept P p rows r (rw e at h).1 m t
  | inr e ↦ All-kept P p rows r (rw e at h) m t
]

claim_found-some :
    (m : RequestRow) (now : Time) (db : Db)
    → Unique db.requests
    → find_row m.id db.requests ≡ some m
    → state_eq m.state State.queued ≡ true
    → (after : Db) × (claim_found (some m) now db
        ≡ (ok (some (scan_request (set_claimed now m))), after))
      × (find_row m.id after.requests ≡ some (set_claimed now m))
      × ((id : Text)
          → text_eq m.id id ≡ false
          → find_row id after.requests ≡ find_row id db.requests)
unfolding claim_found read_claimed claimed scan_request
claim_found-some m now db u f q =
    let p = has_id_state m.id State.queued in
    let rows = update p (set_claimed now) db.requests in
    let here : find_row m.id rows ≡ some (set_claimed now m) =
      rw (find_row-update p (set_claimed now) (λ x. refl) m.id db.requests)
        (rw f (rw (text_eq_refl m.id, q))) in
    let n : affected p db.requests ≡ 1 =
      rw (affected-find_row m.id State.queued db.requests u, f, q) in
    (
      record db { requests = rows },
      rw n (rw here),
      here,
      λ id ne.
          find_row-update_other id m.id State.queued (set_claimed now) db.requests (λ x. refl) ne,
    )

claimable-queued :
    (now : Time) (r : RequestRow) → claimable now r ≡ true → state_eq r.state State.queued ≡ true
unfolding claimable
claimable-queued now r h = ground arith

Claim-least :
    (o : Option RequestRow) (now : Time) (db : Db)
    → Unique db.requests
    → least created_before (keep (claimable now) db.requests) ≡ o
    → Claim now db (claim_found o now db)
Claim-least none now db u e =
    let empty : keep (claimable now) db.requests ≡ [] =
      least-none created_before (keep (claimable now) db.requests) e in
    unfold claim_found in
    idle (λ r m q p.
      All-kept (λ x. ⊥) (claimable now) db.requests r (rw empty tt) m
        (Passed-claimable now r r.next_attempt_at refl q p))
Claim-least (some m) now db u e =
    let due = keep (claimable now) db.requests in
    let (mem, ready) = Mem-keep (claimable now) db.requests m (least-Mem created_before due m e) in
    let found = find_row-Mem db.requests m u mem in
    let (after, run, here, others) =
      claim_found-some m now db u found (claimable-queued now m ready) in
    let order =
      least_minimal created_before created_before_refl created_before_trans created_before_total due
        m e in
    let first : (r : RequestRow)
        → Memᴰ r db.requests
        → r.state ≡ State.queued
        → Passed now r.next_attempt_at
        → m.created_at / second ≤ r.created_at / second =
      λ r mem q p. created_before-seconds m r (
        All-kept (λ x. created_before m x ≡ true) (claimable now) db.requests r order mem
          (Passed-claimable now r r.next_attempt_at refl q p)) in
    rw run (
      taken found (state_eq→≡ m.state State.queued (claimable-queued now m ready))
        (claimable-Reached now m m.next_attempt_at refl ready) first here others)

-- With distinct ids, a claim never fails. Either no queued request is without a time of its next attempt or
-- has one in an earlier second, and nothing is taken; or one is taken that is queued, whose next attempt,
-- if it has one, is not in a later second, and which is created in no later second than any queued
-- request that is without a next attempt or has one in an earlier second. It is moved to `resolving`,
-- with one more attempt and the time of the update; no other column and no other request changes.
pub claim_next_queued-Claim :
    (now : Time) (db : Db) → Unique db.requests → Claim now db (claim_next_queued now db)
unfolding claim_next_queued
claim_next_queued-Claim now db u =
    Claim-least (least created_before (keep (claimable now) db.requests)) now db u refl

-- A queued request with a next attempt is claimable only from the second in which the attempt is due,
-- and always once that second has passed.
pub claimable_bounds :
    (now t : Time) (r : RequestRow)
    → r.state ≡ State.queued
    → r.next_attempt_at ≡ some t
    → (claimable now r ≡ true → t / second ≤ now / second)
      × (t / second < now / second → claimable now r ≡ true)
unfolding claimable
claimable_bounds now t r q e = (
  λ h. seconds-le_of_stamp_leb t now (ground arith),
  λ h. rw (q, e) (stamp_leb_of_seconds-lt t now h),
)

-- A request whose next attempt is due at a whole second is not claimable in the rest of that second,
-- although it is due.
pub whole_second_not_claimable :
    (r : RequestRow) (s d : ℕ)
    → r.next_attempt_at ≡ some (s * second)
    → 0 < d
    → d < second
    → claimable (s * second + d) r ≡ false
unfolding claimable
whole_second_not_claimable r s d e lo hi = ground (arith, whole_second_out_of_order s d lo hi)
