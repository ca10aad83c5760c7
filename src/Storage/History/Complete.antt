-- ===== src/Storage/History/Complete.antt =====
-- What a query of the history does not leave out.
use mathlib.Core.List.{Memᴰ}
use vectorcore_gmlc.Base.{
  ℕ, zero, suc, ◌/◌, ◌≤◌, ◌<◌, ◌≡◌, refl, ap, subst, Bool, true, List, [], ◌∷◌, arith, length, take,
  keep, Bool-cases, inl, inr,
}
use vectorcore_gmlc.Base.Text.{Text, text_eq_refl}
use vectorcore_gmlc.Domain.{Time, TargetKind}
use vectorcore_gmlc.Storage.Stamp.{second, stamp_leb_of_seconds-lt}
use vectorcore_gmlc.Storage.Sql.{insert_by, sort_by}
use vectorcore_gmlc.Storage.Schema.{HistoryRow}
use vectorcore_gmlc.Storage.History.{of_target, in_window, oldest_first}
use vectorcore_gmlc.Storage.History.Retention.{kind_eq_refl}

-- A row of the target, recorded in a later second than the start and in an earlier second than the stop.
abbrev pub Inside : TargetKind → Text → Time → Time → HistoryRow → Type 0
Inside kind value start stop r =
    (r.target_kind ≡ kind)
    × (r.target_value ≡ value)
    × (start / second < r.recorded_at / second)
    × (r.recorded_at / second < stop / second)

Inside-in_window :
    (kind : TargetKind) (value : Text) (start stop : Time) (r : HistoryRow)
    → Inside kind value start stop r
    → in_window kind value start stop r ≡ true
Inside-in_window kind value start stop r (k, v, low, high) =
    rw
      (
        k,
        v,
        kind_eq_refl kind,
        text_eq_refl value,
        stamp_leb_of_seconds-lt start r.recorded_at low,
        stamp_leb_of_seconds-lt r.recorded_at stop high,
      )
      refl

Mem-passes :
    (p : HistoryRow → Bool) (xs : List HistoryRow) (r : HistoryRow)
    → Memᴰ r xs
    → p r ≡ true
    → Memᴰ r (keep p xs)
Mem-passes p [] r m h = m
Mem-passes p (x ∷ xs) r (Memᴰ.head q) h =
    let here : p x ≡ true = subst (λ y. p y ≡ true) q h in rw here (Memᴰ.head q)
Mem-passes p (x ∷ xs) r (Memᴰ.tail m) h = elim (Bool-cases (p x)) [
  | inl e ↦ rw e (Memᴰ.tail (Mem-passes p xs r m h))
  | inr e ↦ rw e (Mem-passes p xs r m h)
]

module _ (le : HistoryRow → HistoryRow → Bool) where
  Mem-insert_by :
      (x : HistoryRow) (xs : List HistoryRow) (r : HistoryRow)
      → Memᴰ r (x ∷ xs)
      → Memᴰ r (insert_by le x xs)
  unfolding insert_by
  Mem-insert_by x [] r m = m
  Mem-insert_by x (y ∷ ys) r m = elim (Bool-cases (le x y)) [
    | inl e ↦ rw e m
    | inr e ↦ rw e (later (Mem-insert_by x ys r) m)
  ]
    where
      later :
          (Memᴰ r (x ∷ ys) → Memᴰ r (insert_by le x ys))
          → Memᴰ r (x ∷ y ∷ ys)
          → Memᴰ r (y ∷ insert_by le x ys)
      later rest (Memᴰ.head q) = Memᴰ.tail (rest (Memᴰ.head q))
      later rest (Memᴰ.tail (Memᴰ.head q)) = Memᴰ.head q
      later rest (Memᴰ.tail (Memᴰ.tail n)) = Memᴰ.tail (rest (Memᴰ.tail n))

  Mem-sort_by : (xs : List HistoryRow) (r : HistoryRow) → Memᴰ r xs → Memᴰ r (sort_by le xs)
  unfolding sort_by
  Mem-sort_by [] r m = m
  Mem-sort_by (x ∷ xs) r (Memᴰ.head q) = Mem-insert_by x (sort_by le xs) r (Memᴰ.head q)
  Mem-sort_by (x ∷ xs) r (Memᴰ.tail m) =
      Mem-insert_by x (sort_by le xs) r (Memᴰ.tail (Mem-sort_by xs r m))

  length-insert_by :
      (x : HistoryRow) (xs : List HistoryRow) → length (insert_by le x xs) ≡ suc (length xs)
  unfolding insert_by
  length-insert_by x [] = refl
  length-insert_by x (y ∷ ys) = elim (Bool-cases (le x y)) [
    | inl e ↦ rw e refl
    | inr e ↦ rw e (ap suc (length-insert_by x ys))
  ]

  length-sort_by : (xs : List HistoryRow) → length (sort_by le xs) ≡ length xs
  unfolding sort_by
  length-sort_by [] = refl
  length-sort_by (x ∷ xs) = rw (length-insert_by x (sort_by le xs)) (ap suc (length-sort_by xs))

take-all : (n : ℕ) (xs : List HistoryRow) → length xs ≤ n → take n xs ≡ xs
take-all zero [] h = refl
take-all zero (x ∷ xs) h = absurd (omega (arith, h))
take-all (suc n) [] h = refl
take-all (suc n) (x ∷ xs) h = ap (λ l. x ∷ l) (take-all n xs (omega (arith, h)))

length-keep :
    (p q : HistoryRow → Bool) (xs : List HistoryRow)
    → ((x : HistoryRow) → p x ≡ true → q x ≡ true)
    → length (keep p xs) ≤ length (keep q xs)
length-keep p q [] h = omega arith
length-keep p q (x ∷ xs) h =
    let rest = length-keep p q xs h in
    elim (Bool-cases (p x)) [
      | inl e ↦ rw (e, h x e) (omega (arith, rest))
      | inr e ↦ elim (Bool-cases (q x)) [
        | inl k ↦ rw (e, k) (omega (arith, rest))
        | inr k ↦ rw (e, k) rest
      ]
    ]

-- The window, when the target has no more rows than a query scans.
pub scanned-Mem :
    (kind : TargetKind) (value : Text) (start stop : Time) (n : ℕ) (rows : List HistoryRow)
    (r : HistoryRow)
    → length (keep (of_target kind value) rows) ≤ n
    → Memᴰ r rows
    → Inside kind value start stop r
    → Memᴰ r (take n (sort_by oldest_first (keep (in_window kind value start stop) rows)))
scanned-Mem kind value start stop n rows r small m inside =
    let kept = keep (in_window kind value start stop) rows in
    let fewer : length kept ≤ length (keep (of_target kind value) rows) =
      length-keep (in_window kind value start stop) (of_target kind value) rows
        (λ x e. ground (arith, e)) in
    let few : length (sort_by oldest_first kept) ≤ n =
      rw (length-sort_by oldest_first kept) (omega (arith, fewer, small)) in
    rw (take-all n (sort_by oldest_first kept) few) (
      Mem-sort_by oldest_first kept r (
        Mem-passes (in_window kind value start stop) rows r m
          (Inside-in_window kind value start stop r inside)))
