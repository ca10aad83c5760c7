-- ===== src/Storage/History/Window.antt =====
-- What a query of the history returns.
use mathlib.Core.List.{Memᴰ}
use vectorcore_gmlc.Base.{
  ℕ, zero, suc, ◌+◌, ◌/◌, ◌≤◌, ◌≡◌, refl, sym, subst, Bool, true, false, ◌&&◌, List, [], ◌∷◌,
  if◌then◌else◌, leb, ltb, arith, length, take, keep, All, Bool-cases, inl, inr, length-take-le,
  ◌<◌, lt→ltb,
}
use vectorcore_gmlc.Base.Text.{Text, text_eq_iff}
use vectorcore_gmlc.Domain.{Time, TargetKind}
use vectorcore_gmlc.Storage.Stamp.{second, seconds-le_of_stamp_leb}
use vectorcore_gmlc.Storage.History.Retention.{kind_eq_lem}
use vectorcore_gmlc.Storage.History.Complete.{Inside, scanned-Mem}
use vectorcore_gmlc.Storage.Schema.{HistoryRow, Db}
use vectorcore_gmlc.Storage.History.{
  of_target, oldest_first, in_window, thin_after, thin, query_history, max_scan,
}
use vectorcore_gmlc.Storage.Sql.{insert_by, sort_by}

-- Each point is recorded at least the interval after the one before it.
abbrev pub Spaced : ℕ → List HistoryRow → Type 0
Spaced interval [] = Unit
Spaced interval (p ∷ []) = Unit
Spaced interval (p ∷ q ∷ ps) = (p.recorded_at + interval ≤ q.recorded_at) × Spaced interval (q ∷ ps)

abbrev SpacedAfter : ℕ → Time → List HistoryRow → Type 0
SpacedAfter interval last [] = Unit
SpacedAfter interval last (p ∷ ps) =
    (last + interval ≤ p.recorded_at) × SpacedAfter interval p.recorded_at ps

SpacedAfter-Spaced :
    (interval : ℕ) (p : HistoryRow) (ps : List HistoryRow)
    → SpacedAfter interval p.recorded_at ps
    → Spaced interval (p ∷ ps)
SpacedAfter-Spaced interval p [] h = tt
SpacedAfter-Spaced interval p (q ∷ ps) h = (h.0, SpacedAfter-Spaced interval q ps h.1)

thin_after-SpacedAfter :
    (interval last : ℕ) (ps : List HistoryRow)
    → SpacedAfter interval last (thin_after interval last ps)
unfolding thin_after
thin_after-SpacedAfter interval last [] = tt
thin_after-SpacedAfter interval last (p ∷ ps) =
    elim (Bool-cases (leb (last + interval) p.recorded_at)) [
      | inl e ↦ rw e (ground arith, thin_after-SpacedAfter interval p.recorded_at ps)
      | inr e ↦ rw e (thin_after-SpacedAfter interval last ps)
    ]

thin-Spaced : (interval : ℕ) (ps : List HistoryRow) → Spaced interval (thin interval ps)
unfolding thin
thin-Spaced interval [] = tt
thin-Spaced interval (p ∷ ps) =
    SpacedAfter-Spaced interval p (thin_after interval p.recorded_at ps)
      (thin_after-SpacedAfter interval p.recorded_at ps)

take-Spaced :
    (interval n : ℕ) (ps : List HistoryRow) → Spaced interval ps → Spaced interval (take n ps)
take-Spaced interval zero ps h = tt
take-Spaced interval (suc n) [] h = tt
take-Spaced interval (suc zero) (p ∷ ps) h = tt
take-Spaced interval (suc (suc n)) (p ∷ []) h = tt
take-Spaced interval (suc (suc n)) (p ∷ q ∷ ps) h = (h.0, take-Spaced interval (suc n) (q ∷ ps) h.1)

module _ {ℓ} (P : HistoryRow → Type ℓ) where
  All-insert_by :
      (le : HistoryRow → HistoryRow → Bool) (x : HistoryRow) (ys : List HistoryRow)
      → P x
      → All P ys
      → All P (insert_by le x ys)
  unfolding insert_by
  All-insert_by le x [] h k = (h, tt)
  All-insert_by le x (y ∷ ys) h k =
      elim (le x y) as (λ b. All P (if b then x ∷ y ∷ ys else y ∷ insert_by le x ys)) [
        | true ↦ (h, k)
        | false ↦ (k.0, All-insert_by le x ys h k.1)
      ]

  All-sort_by :
      (le : HistoryRow → HistoryRow → Bool) (xs : List HistoryRow)
      → All P xs
      → All P (sort_by le xs)
  unfolding sort_by
  All-sort_by le [] h = tt
  All-sort_by le (x ∷ xs) h = All-insert_by le x (sort_by le xs) h.0 (All-sort_by le xs h.1)

  All-take : (n : ℕ) (xs : List HistoryRow) → All P xs → All P (take n xs)
  All-take zero xs h = tt
  All-take (suc n) [] h = tt
  All-take (suc n) (x ∷ xs) h = (h.0, All-take n xs h.1)

  All-thin_after :
      (interval last : ℕ) (xs : List HistoryRow) → All P xs → All P (thin_after interval last xs)
  unfolding thin_after
  All-thin_after interval last [] h = tt
  All-thin_after interval last (x ∷ xs) h =
      elim (Bool-cases (leb (last + interval) x.recorded_at)) [
        | inl e ↦ rw e (h.0, All-thin_after interval x.recorded_at xs h.1)
        | inr e ↦ rw e (All-thin_after interval last xs h.1)
      ]

  All-thin : (interval : ℕ) (xs : List HistoryRow) → All P xs → All P (thin interval xs)
  unfolding thin
  All-thin interval [] h = tt
  All-thin interval (x ∷ xs) h = (h.0, All-thin_after interval x.recorded_at xs h.1)

-- A row of the target, recorded in no earlier second than the start and in no later second than the stop.
abbrev pub InWindow : TargetKind → Text → Time → Time → HistoryRow → Type 0
InWindow kind value start stop r =
    (r.target_kind ≡ kind)
    × (r.target_value ≡ value)
    × (start / second ≤ r.recorded_at / second)
    × (r.recorded_at / second ≤ stop / second)

in_window-InWindow :
    (kind : TargetKind) (value : Text) (start stop : Time) (r : HistoryRow)
    → in_window kind value start stop r ≡ true
    → InWindow kind value start stop r
in_window-InWindow kind value start stop r h = (
  kind_eq_lem r.target_kind kind (ground (arith, h)),
  (text_eq_iff r.target_value value).0 (ground (arith, h)),
  seconds-le_of_stamp_leb start r.recorded_at (ground (arith, h)),
  seconds-le_of_stamp_leb r.recorded_at stop (ground (arith, h)),
)

-- A row that the table has, in the window.
abbrev pub StoredIn : List HistoryRow → TargetKind → Text → Time → Time → HistoryRow → Type 0
StoredIn rows kind value start stop r = Memᴰ r rows × InWindow kind value start stop r

-- Of what is kept, what is true of each row that passes.
All-passes {ℓ} :
    (P : HistoryRow → Type ℓ) (p : HistoryRow → Bool) (xs : List HistoryRow)
    → ((x : HistoryRow) → Memᴰ x xs → p x ≡ true → P x)
    → All P (keep p xs)
All-passes P p [] h = tt
All-passes P p (x ∷ xs) h =
    let rest = All-passes P p xs (λ y m t. h y (Memᴰ.tail m) t) in
    elim (Bool-cases (p x)) [ inl e ↦ rw e (h x (Memᴰ.head refl) e, rest) | inr e ↦ rw e rest ]

module _ (kind : TargetKind) (value : Text) (start stop : Time) (interval limit : ℕ) (db : Db) where
  abbrev window : List HistoryRow
  window = take max_scan (sort_by oldest_first (keep (in_window kind value start stop) db.history))

  abbrev thinned : List HistoryRow
  thinned = if ltb 0 interval then thin interval window else window

  abbrev Stored : HistoryRow → Type 0
  Stored = StoredIn db.history kind value start stop

  window-Stored : All Stored window
  window-Stored = All-take Stored max_scan _ (
      All-sort_by Stored oldest_first _ (
        All-passes Stored (in_window kind value start stop) db.history
          (λ r m t. (m, in_window-InWindow kind value start stop r t))))

  thinned-Stored : All Stored thinned
  thinned-Stored = elim (Bool-cases (ltb 0 interval)) [
    | inl e ↦ rw e (All-thin Stored interval window window-Stored)
    | inr e ↦ rw e window-Stored
  ]

  thinned-Spaced : 0 < interval → Spaced interval thinned
  thinned-Spaced h = rw (lt→ltb 0 interval h) (thin-Spaced interval window)

  all_thinned : interval ≡ 0 → thinned ≡ window
  all_thinned i = rw i refl

  no_limit : (b : Bool) → limit ≡ 0 → (ltb 0 limit && b) ≡ false
  no_limit b l = rw l refl

  -- Every point that a query returns is a row of the table, of the target, and recorded in no earlier second
  -- than the start of the window and in no later second than its stop; where an interval is given,
  -- each point is recorded at least the interval after the one before it; where a limit is given, it
  -- bounds the number of points. Where neither is given, and the table has no more than 10,000 rows of
  -- the target, every row of the target that is recorded in a later second than the start and in an earlier
  -- second than the stop is returned.
  pub query_history_lem :
      All Stored (query_history kind value start stop interval limit db)
      × (0 < interval → Spaced interval (query_history kind value start stop interval limit db))
      × (0 < limit → length (query_history kind value start stop interval limit db) ≤ limit)
      × (interval ≡ 0
          → limit ≡ 0
          → length (keep (of_target kind value) db.history) ≤ 10000
          → (r : HistoryRow) → Memᴰ r db.history
          → Inside kind value start stop r
          → Memᴰ r (query_history kind value start stop interval limit db))
  unfolding query_history
  query_history_lem = elim (Bool-cases (ltb 0 limit && ltb limit (length thinned))) [
    | inl e ↦ (
      rw e (All-take Stored limit thinned thinned-Stored),
      λ h. rw e (take-Spaced interval limit thinned (thinned-Spaced h)),
      λ h. rw e (length-take-le limit thinned),
      λ i l s r m inside. let none = no_limit (ltb limit (length thinned)) l in cc,
    )
    | inr e ↦ (
      rw e thinned-Stored,
      λ h. rw e (thinned-Spaced h),
      λ h. rw e (ground arith),
      λ i l s r m inside. rw e (
          subst (λ ps. Memᴰ r ps) (sym (all_thinned i))
            (scanned-Mem kind value start stop max_scan db.history r s m inside)),
    )
  ]
