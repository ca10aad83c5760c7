-- ===== src/Storage/Sql.antt =====
-- The SQL statements that the store uses, on a table as the list of its rows.
use mathlib.Core.List.{Memᴰ}
use vectorcore_gmlc.Base.{
  ℕ, suc, ◌≡◌, refl, subst, Bool, true, false, Option, none, some, List, [], ◌∷◌, if◌then◌else◌,
  arith, All, Bool-cases, Option-cases, inl, inr, length,
}

-- ORDER BY: equal keys stay in the order of the table.
module _ {ℓ} {A : Type ℓ} (le : A → A → Bool) where
  unfoldable pub insert_by : A → List A → List A
  insert_by x [] = x ∷ []
  insert_by x (y ∷ ys) = if le x y then x ∷ y ∷ ys else y ∷ insert_by x ys

  unfoldable pub sort_by : List A → List A
  unfolding insert_by
  sort_by [] = []
  sort_by (x ∷ xs) = insert_by x (sort_by xs)

module _ {ℓ} {A : Type ℓ} where
  -- UPDATE ... SET f WHERE p
  unfoldable pub update : (A → Bool) → (A → A) → List A → List A
  update p f [] = []
  update p f (r ∷ rows) = (if p r then f r else r) ∷ update p f rows

  -- RowsAffected of that UPDATE
  unfoldable pub affected : (A → Bool) → List A → ℕ
  affected p [] = 0
  affected p (r ∷ rows) = let n = affected p rows in if p r then suc n else n

  -- SELECT ... ORDER BY the order `le` LIMIT 1
  unfoldable pub least : (A → A → Bool) → List A → Option A
  least le [] = none
  least le (r ∷ rows) = elim (least le rows) [
    | none ↦ some r
    | some m ↦ if le r m then some r else some m
  ]

  pub length-update :
      (p : A → Bool) (f : A → A) (rows : List A) → length (update p f rows) ≡ length rows
  unfolding update
  length-update p f [] = refl
  length-update p f (r ∷ rows) = omega (arith, length-update p f rows)

  -- The selected row is one of the table.
  pub least-Mem : (le : A → A → Bool) (rows : List A) (m : A) → least le rows ≡ some m → Memᴰ m rows
  unfolding least
  least-Mem le [] m h = cc
  least-Mem le (r ∷ rows) m h = elim (Option-cases (least le rows)) [
    | inl e ↦ Memᴰ.head (ground arith)
    | inr (k, e) ↦ elim (Bool-cases (le r k)) [
      | inl t ↦ Memᴰ.head (ground arith)
      | inr t ↦ Memᴰ.tail (least-Mem le rows m (ground arith))
    ]
  ]

  pub least-none : (le : A → A → Bool) (rows : List A) → least le rows ≡ none → rows ≡ []
  unfolding least
  least-none le [] h = refl
  least-none le (r ∷ rows) h = ground arith

  -- Every row comes after the selected one, or beside it, where the order is one.
  module _ (le : A → A → Bool) (le_refl : (a : A) → le a a ≡ true)
      (le_trans : (a b c : A) → le a b ≡ true → le b c ≡ true → le a c ≡ true)
      (le_total : (a b : A) → le a b ≡ false → le b a ≡ true) where
    All-le :
        (a b : A) (rows : List A)
        → le a b ≡ true
        → All (λ r. le b r ≡ true) rows
        → All (λ r. le a r ≡ true) rows
    All-le a b [] t h = tt
    All-le a b (r ∷ rows) t h = (le_trans a b r t h.0, All-le a b rows t h.1)

    pub least_minimal :
        (rows : List A) (m : A) → least le rows ≡ some m → All (λ r. le m r ≡ true) rows
    unfolding least
    least_minimal [] m h = tt
    least_minimal (r ∷ rows) m h = elim (Option-cases (least le rows)) [
      | inl e ↦
          let q : r ≡ m = ground arith in
          subst (λ x. All (λ s. le x s ≡ true) (r ∷ rows)) q
            (rw (least-none le rows e) (le_refl r, tt))
      | inr (k, e) ↦ elim (Bool-cases (le r k)) [
        | inl t ↦
            let q : r ≡ m = ground arith in
            subst (λ x. All (λ s. le x s ≡ true) (r ∷ rows)) q
              (le_refl r, All-le r k rows t (least_minimal rows k e))
        | inr t ↦
            let q : k ≡ m = ground arith in
            subst (λ x. All (λ s. le x s ≡ true) (r ∷ rows)) q
              (le_total r k t, least_minimal rows k e)
      ]
    ]
