-- ===== src/Storage/History/Retention.antt =====
-- The DELETE of RecordHistory: which rows of the history stay.
use vectorcore_gmlc.Base.{
  ◌+◌, ◌≤◌, ◌≡◌, refl, ap, Bool, true, false, ◌&&◌, ◌||◌, not, List, [], ◌∷◌, ◌++◌, arith, length,
  take, keep, All, Bool-cases, inl, inr, length-take-le, All-append, ◌∙◌, sym,
}
use vectorcore_gmlc.Base.Text.{Text, text_eq, text_eq_iff, text_eq_refl}
use vectorcore_gmlc.Domain.{TargetKind, imsi, msisdn, LocationResult, kind_eq}
use vectorcore_gmlc.Storage.Schema.{HistoryRow, Db}
use vectorcore_gmlc.Storage.History.{
  newest_first, of_target, id_in, prune, record_history, history_row,
}
use vectorcore_gmlc.Storage.Sql.{sort_by}

-- No two rows have the same id.
abbrev pub Unique : List HistoryRow → Type 0
Unique [] = Unit
Unique (r ∷ rows) = All (λ x. text_eq x.id r.id ≡ false) rows × Unique rows

abbrev with_id : Text → HistoryRow → Bool
with_id id r = text_eq r.id id

none_with_id :
    (id : Text) (rows : List HistoryRow)
    → All (λ x. text_eq x.id id ≡ false) rows
    → length (keep (with_id id) rows) ≡ 0
none_with_id id [] h = refl
none_with_id id (r ∷ rows) h = rw h.0 (none_with_id id rows h.1)

one_with_id :
    (id : Text) (rows : List HistoryRow) → Unique rows → length (keep (with_id id) rows) ≤ 1
one_with_id id [] u = omega arith
one_with_id id (r ∷ rows) u = elim (Bool-cases (with_id id r)) [
  | inl e ↦
      let same = (text_eq_iff r.id id).0 e in
      rw e (omega (arith, none_with_id id rows (rw same at u.0)))
  | inr e ↦ rw e (one_with_id id rows u.1)
]

keep_or :
    (p q : HistoryRow → Bool) (rows : List HistoryRow)
    → length (keep (λ r. p r || q r) rows) ≤ length (keep p rows) + length (keep q rows)
keep_or p q [] = omega arith
keep_or p q (r ∷ rows) = ground (arith, keep_or p q rows)

keep-false : (rows : List HistoryRow) → length (keep (λ r. false) rows) ≡ 0
keep-false [] = refl
keep-false (r ∷ rows) = keep-false rows

length-keep-id_in :
    (newest rows : List HistoryRow)
    → Unique rows
    → length (keep (λ r. id_in newest r.id) rows) ≤ length newest
length-keep-id_in [] rows u = omega (arith, keep-false rows)
length-keep-id_in (n ∷ newest) rows u = omega (
  arith,
  keep_or (with_id n.id) (λ r. id_in newest r.id) rows,
  one_with_id n.id rows u,
  length-keep-id_in newest rows u,
)

keep_kept :
    (p q : HistoryRow → Bool) (rows : List HistoryRow)
    → length (keep p (keep (λ r. not (p r) || q r) rows)) ≤ length (keep q rows)
keep_kept p q [] = omega arith
keep_kept p q (r ∷ rows) = elim (Bool-cases (p r)) [
  | inl e ↦ elim (Bool-cases (q r)) [
    | inl f ↦ rw e (rw f (rw e (omega (arith, keep_kept p q rows))))
    | inr f ↦ rw e (rw f (omega (arith, keep_kept p q rows)))
  ]
  | inr e ↦ elim (Bool-cases (q r)) [
    | inl f ↦ rw e (rw f (rw e (omega (arith, keep_kept p q rows))))
    | inr f ↦ rw e (rw f (rw e (omega (arith, keep_kept p q rows))))
  ]
]

keep_others :
    (p o q : HistoryRow → Bool) (rows : List HistoryRow)
    → ((r : HistoryRow) → o r ≡ true → p r ≡ false)
    → keep o (keep (λ r. not (p r) || q r) rows) ≡ keep o rows
keep_others p o q [] h = refl
keep_others p o q (r ∷ rows) h = elim (Bool-cases (o r)) [
  | inl e ↦ rw (h r e) (rw e (ap (λ xs. r ∷ xs) (keep_others p o q rows h)))
  | inr e ↦ elim (Bool-cases (not (p r) || q r)) [
    | inl f ↦ rw f (rw e (keep_others p o q rows h))
    | inr f ↦ rw f (rw e (keep_others p o q rows h))
  ]
]

pub kind_eq_lem : (a b : TargetKind) → kind_eq a b ≡ true → a ≡ b
kind_eq_lem imsi imsi e = refl
kind_eq_lem imsi msisdn e = ground arith
kind_eq_lem msisdn imsi e = ground arith
kind_eq_lem msisdn msisdn e = refl

and_parts : (a b : Bool) → (a && b) ≡ true → (a ≡ true) × (b ≡ true)
and_parts true b e = (refl, e)
and_parts false b e = ground arith

pub kind_eq_refl : (a : TargetKind) → kind_eq a a ≡ true
kind_eq_refl imsi = refl
kind_eq_refl msisdn = refl

of_target_parts :
    (kind : TargetKind) (value : Text) (r : HistoryRow)
    → of_target kind value r ≡ true
    → (r.target_kind ≡ kind) × (r.target_value ≡ value)
of_target_parts kind value r e =
    let parts = and_parts (kind_eq r.target_kind kind) (text_eq r.target_value value) e in
    (kind_eq_lem r.target_kind kind parts.0, (text_eq_iff r.target_value value).0 parts.1)

same_target :
    (kind k : TargetKind) (value v : Text)
    → k ≡ kind
    → v ≡ value
    → (kind_eq k kind && text_eq v value) ≡ true
same_target kind k value v e f = rw e (rw f (rw (kind_eq_refl kind) (text_eq_refl value)))

-- A row of one target is not one of another.
other_target :
    (kind k : TargetKind) (value v : Text) (r : HistoryRow)
    → of_target k v r ≡ true
    → (kind_eq k kind && text_eq v value) ≡ false
    → of_target kind value r ≡ false
other_target kind k value v r h d = elim (Bool-cases (of_target kind value r)) [
  | inl e ↦
      let mine = of_target_parts kind value r e in
      let its = of_target_parts k v r h in
      let same = same_target kind k value v (sym its.0 ∙ mine.0) (sym its.1 ∙ mine.1) in cc
  | inr e ↦ e
]

keep-append-one :
    (p : HistoryRow → Bool) (rows : List HistoryRow) (r : HistoryRow)
    → p r ≡ false
    → keep p (rows ++ r ∷ []) ≡ keep p rows
keep-append-one p [] r e = rw e refl
keep-append-one p (x ∷ rows) r e = elim (Bool-cases (p x)) [
  | inl f ↦ rw f (ap (λ xs. x ∷ xs) (keep-append-one p rows r e))
  | inr f ↦ rw f (keep-append-one p rows r e)
]

Unique-append-one :
    (rows : List HistoryRow) (r : HistoryRow)
    → Unique rows
    → All (λ x. text_eq r.id x.id ≡ false) rows
    → Unique (rows ++ r ∷ [])
Unique-append-one [] r u fresh = (tt, tt)
Unique-append-one (x ∷ rows) r u fresh = (
  All-append (λ y. text_eq y.id x.id ≡ false) rows (r ∷ []) u.0 (fresh.0, tt),
  Unique-append-one rows r u.1 fresh.1,
)

not_own :
    (kind k : TargetKind) (value w : Text)
    → (kind_eq k kind && text_eq w value) ≡ false
    → (kind_eq kind k && text_eq value w) ≡ false
not_own kind k value w d = elim (Bool-cases (kind_eq kind k && text_eq value w)) [
  | inl e ↦
      let parts = and_parts (kind_eq kind k) (text_eq value w) e in
      let same =
        same_target kind k value w (sym (kind_eq_lem kind k parts.0))
          (sym ((text_eq_iff value w).0 parts.1)) in
      cc
  | inr e ↦ e
]

-- With distinct ids and a fresh one for the row, RecordHistory leaves at most twenty rows of
-- the target, and the rows of any other target as they were.
pub record_history-Retained :
    (id : Text) (kind : TargetKind) (value : Text) (v : LocationResult) (db : Db)
    → Unique db.history
    → All (λ x. text_eq id x.id ≡ false) db.history
    → (k : TargetKind) (w : Text) → (kind_eq k kind && text_eq w value) ≡ false
    → length (keep (of_target kind value) (record_history id kind value v db).history) ≤ 20
      × keep (of_target k w) (record_history id kind value v db).history
        ≡ keep (of_target k w) db.history
unfolding record_history prune
record_history-Retained id kind value v db u fresh k w differs =
    let row = history_row id kind value v in
    let rows = db.history ++ row ∷ [] in
    let newest = take 20 (sort_by newest_first (keep (of_target kind value) rows)) in
    let p = of_target kind value in
    let q : HistoryRow → Bool = λ r. id_in newest r.id in
    (
      omega (
        arith,
        keep_kept p q rows,
        length-keep-id_in newest rows (Unique-append-one db.history row u fresh),
        length-take-le 20 (sort_by newest_first (keep p rows)),
      ),
      keep_others p (of_target k w) q rows (λ r h. other_target kind k value w r h differs)
          ∙ keep-append-one (of_target k w) db.history row (not_own kind k value w differs),
    )
