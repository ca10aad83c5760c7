-- ===== src/Storage/Requests/Rows.antt =====
-- The rows of location_requests under their primary key, and what an UPDATE by that key does.
use vectorcore_gmlc.Base.{
  ◌≡◌, refl, Bool, true, false, Option, none, some, List, [], ◌∷◌, if◌then◌else◌, arith, All, first,
  Bool-cases, inl, inr,
}
use vectorcore_gmlc.Base.Text.{Text, text_eq, text_eq_iff}
use vectorcore_gmlc.Domain.{State, state_eq}
use vectorcore_gmlc.Storage.Sql.{update, affected}
use vectorcore_gmlc.Storage.Schema.{RequestRow}
use vectorcore_gmlc.Storage.Requests.{has_id, has_id_state}

-- No two rows have the same id.
abbrev pub Unique : List RequestRow → Type 0
Unique [] = Unit
Unique (r ∷ rows) = All (λ x. text_eq x.id r.id ≡ false) rows × Unique rows

abbrev pub KeepsId : (RequestRow → RequestRow) → Type 0
KeepsId f = (r : RequestRow) → (f r).id ≡ r.id

abbrev pub on_row :
    (RequestRow → Bool) → (RequestRow → RequestRow) → Option RequestRow → Option RequestRow
on_row p f none = none
on_row p f (some r) = some (if p r then f r else r)

abbrev pub find_row : Text → List RequestRow → Option RequestRow
find_row id rows = first (has_id id) rows

-- A row that is found under an id has it.
pub id-find_row :
    (id : Text) (rows : List RequestRow) (r : RequestRow) → find_row id rows ≡ some r → r.id ≡ id
id-find_row id [] r h = cc
id-find_row id (x ∷ rows) r h = ground (arith, text_eq_iff x.id id, id-find_row id rows r)

module _ (p : RequestRow → Bool) (f : RequestRow → RequestRow) (keeps : KeepsId f) where
  id-if : (r : RequestRow) → (if p r then f r else r).id ≡ r.id
  id-if r = elim (Bool-cases (p r)) [ inl e ↦ rw e (keeps r) | inr e ↦ rw e ]

  -- Reading after an UPDATE that keeps the ids.
  pub find_row-update :
      (id : Text) (rows : List RequestRow)
      → find_row id (update p f rows) ≡ on_row p f (find_row id rows)
  unfolding update
  find_row-update id [] = refl
  find_row-update id (r ∷ rows) = elim (Bool-cases (has_id id r)) [
    | inl e ↦ rw (id-if r, e)
    | inr e ↦ rw (id-if r, e) (find_row-update id rows)
  ]

  All-update-id :
      (id : Text) (rows : List RequestRow)
      → All (λ x. text_eq x.id id ≡ false) rows
      → All (λ x. text_eq x.id id ≡ false) (update p f rows)
  unfolding update
  All-update-id id [] h = tt
  All-update-id id (r ∷ rows) h = (rw (id-if r) h.0, All-update-id id rows h.1)

  pub update-Unique : (rows : List RequestRow) → Unique rows → Unique (update p f rows)
  unfolding update
  update-Unique [] h = tt
  update-Unique (r ∷ rows) h = (rw (id-if r) (All-update-id r.id rows h.0), update-Unique rows h.1)

affected-none :
    (id : Text) (s : State) (rows : List RequestRow)
    → All (λ x. text_eq x.id id ≡ false) rows
    → affected (has_id_state id s) rows ≡ 0
unfolding affected
affected-none id s [] h = refl
affected-none id s (r ∷ rows) h = rw h.0 (affected-none id s rows h.1)

abbrev pub state_is : State → Option RequestRow → Bool
state_is s none = false
state_is s (some r) = state_eq r.state s

-- An UPDATE by id and state changes one row, if the row of that id is in that state, and else none.
pub affected-find_row :
    (id : Text) (s : State) (rows : List RequestRow)
    → Unique rows
    → affected (has_id_state id s) rows ≡ (if state_is s (find_row id rows) then 1 else 0)
unfolding affected
affected-find_row id s [] h = refl
affected-find_row id s (r ∷ rows) h = elim (Bool-cases (text_eq r.id id)) [
  | inl e ↦
      let same : r.id ≡ id = (text_eq_iff r.id id).0 e in
      ground (arith, affected-none id s rows (rw same at h.0))
  | inr e ↦ rw e (affected-find_row id s rows h.1)
]

-- An UPDATE by id leaves the other rows alone.
pub find_row-update_other :
    (id j : Text) (s : State) (f : RequestRow → RequestRow) (rows : List RequestRow)
    → KeepsId f
    → text_eq j id ≡ false
    → find_row id (update (has_id_state j s) f rows) ≡ find_row id rows
find_row-update_other id j s f rows keeps ne =
    rw (find_row-update (has_id_state j s) f keeps id rows) (other (find_row id rows) refl)
  where
    other : (o : Option RequestRow) → find_row id rows ≡ o → on_row (has_id_state j s) f o ≡ o
    other none e = refl
    other (some r) e = ground (arith, id-find_row id rows r e, text_eq_iff r.id j, text_eq_iff j id)

pub state_eq→≡ : (s t : State) → state_eq s t ≡ true → s ≡ t
state_eq→≡ s t h = ground arith
