-- ===== src/Storage/Stamp.antt =====
-- `utc` of internal/storage/sqlite/sqlite.go: times are stored as the text that
-- `Format(time.RFC3339Nano)` writes, and SQL compares and sorts that text by its bytes. The text is
-- the date and the second in a fixed width, whose order is that of the number of the second (for the
-- years 0 to 9999), and then what `fraction` writes.
use vectorcore_gmlc.Base.{
  ℕ, zero, suc, ◌+◌, ◌*◌, ◌/◌, ◌%◌, ◌^◌, ◌≤◌, ◌<◌, ◌≡◌, Bool, true, false, ◌&&◌, ◌||◌, not, [], ◌∷◌,
  ◌++◌, if◌then◌else◌, ltb, ◌==◌, arith,
}
use vectorcore_gmlc.Base.Text.{Text, text_leb, text_leb_refl, text_leb_trans, text_leb_total}
use vectorcore_gmlc.Domain.{Time}

abbrev pub second : ℕ
second = 1000000000

-- The digits of n / 10^k after the point, with no zero at the end.
unfoldable pub fraction_digits : ℕ → ℕ → Text
fraction_digits zero n = []
fraction_digits (suc k) n =
    let rest = fraction_digits k (n % 10 ^ k) in if n == 0 then [] else (b'0' + n / 10 ^ k) ∷ rest

-- What follows the seconds: `.999999999Z07:00` of the layout, in UTC.
unfoldable pub fraction : ℕ → Text
fraction n = if n == 0 then b'Z' ∷ [] else b'.' ∷ fraction_digits 9 n ++ b'Z' ∷ []

pub record Stamp : Type 0 where
  pub seconds : ℕ
  pub rest : Text

unfoldable pub utc : Time → Stamp
utc t = record { seconds = t / second; rest = fraction (t % second) }

-- `a <= b` in SQL.
unfoldable pub stamp_leb : Stamp → Stamp → Bool
stamp_leb a b = ltb a.seconds b.seconds || (a.seconds == b.seconds && text_leb a.rest b.rest)

-- `a < b` in SQL.
unfoldable pub stamp_ltb : Stamp → Stamp → Bool
stamp_ltb a b = not (stamp_leb b a)

pub stamp_leb_refl : (a : Stamp) → stamp_leb a a ≡ true
unfolding stamp_leb
stamp_leb_refl a = ground (arith, text_leb_refl a.rest)

pub stamp_leb_trans :
    (a b c : Stamp) → stamp_leb a b ≡ true → stamp_leb b c ≡ true → stamp_leb a c ≡ true
unfolding stamp_leb
stamp_leb_trans a b c h k = ground (arith, text_leb_trans a.rest b.rest c.rest)

pub stamp_leb_total : (a b : Stamp) → stamp_leb a b ≡ false → stamp_leb b a ≡ true
unfolding stamp_leb
stamp_leb_total a b h = ground (arith, text_leb_total a.rest b.rest)

-- A column compares no later than another only if its second is no later: in SQL's order a time is
-- at most a second out of place.
pub seconds-le_of_stamp_leb :
    (s t : Time) → stamp_leb (utc s) (utc t) ≡ true → s / second ≤ t / second
unfolding stamp_leb utc
seconds-le_of_stamp_leb s t h = ground arith

pub stamp_leb_of_seconds-lt :
    (s t : Time) → s / second < t / second → stamp_leb (utc s) (utc t) ≡ true
unfolding stamp_leb utc
stamp_leb_of_seconds-lt s t h = ground arith

-- A whole second has no fraction, and `Z` sorts after `.`: the text of a whole second compares after
-- that of every later time of the same second.
pub whole_second_out_of_order :
    (s d : ℕ) → 0 < d → d < second → stamp_leb (utc (s * second)) (utc (s * second + d)) ≡ false
unfolding stamp_leb utc fraction text_leb
whole_second_out_of_order s d lo hi =
    let q : (s * second + d) / second ≡ s = omega arith in
    let r : (s * second + d) % second ≡ d = omega arith in
    let q' : s * second / second ≡ s = omega arith in
    let r' : s * second % second ≡ 0 = omega arith in rw (q, r, q', r') (ground arith)
