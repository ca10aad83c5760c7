-- ===== src/Base/Decimal.antt =====
-- Decimal numbers: `%d` of the package `fmt`, and the digits that a text begins with.
use Prim.Native.Nat.{ℕ, zero, suc, ◌+◌, ◌-◌, ◌*◌, ◌/◌, ◌%◌, ◌≤◌, ◌<◌}
use mathlib.Core.Path.{◌≡◌, refl, ◌∙◌}
use mathlib.Core.Bool.{true, false}
use mathlib.Core.Logic.{inl, inr}
use mathlib.Core.List.{[], ◌∷◌, ◌++◌}
use native.Mathlib.Omega.{arith}
use vectorcore_gmlc.Base.Tests.{ltb, ltb→lt, if◌then◌else◌, Bool-cases}
use vectorcore_gmlc.Base.Text.{Text, is_digit}

-- A number has fewer digits than its value plus one.
abbrev pub digits : ℕ → ℕ → Text
digits zero n = []
digits (suc fuel) n =
    let rest = digits fuel (n / 10) in
    if ltb n 10 then (48 + n) ∷ [] else rest ++ (48 + n % 10) ∷ []

abbrev pub decimal : ℕ → Text
decimal n = digits (suc n) n

-- The number of some digits, after those that were read before.
abbrev pub number_from : ℕ → Text → ℕ
number_from acc [] = acc
number_from acc (c ∷ s) = number_from (10 * acc + (c - 48)) s

-- The digits at the start, and what follows them.
abbrev pub span_digits : Text → Text × Text
span_digits [] = ([], [])
span_digits (c ∷ s) =
    let rest = span_digits s in if is_digit c then (c ∷ rest.0, rest.1) else ([], c ∷ s)

abbrev pub AllDigits : Text → Type 0
AllDigits [] = Unit {0}
AllDigits (c ∷ s) = (is_digit c ≡ true) × AllDigits s

AllDigits-append : (s t : Text) → AllDigits s → AllDigits t → AllDigits (s ++ t)
AllDigits-append [] t h k = k
AllDigits-append (c ∷ s) t (h, hs) k = (h, AllDigits-append s t hs k)

pub digit-is_digit : (n : ℕ) → n < 10 → is_digit (48 + n) ≡ true
digit-is_digit n h = ground (arith, h)

digits-AllDigits : (fuel n : ℕ) → AllDigits (digits fuel n)
digits-AllDigits zero n = tt
digits-AllDigits (suc fuel) n = elim (Bool-cases (ltb n 10)) [
  | inl e ↦ rw e (digit-is_digit n (ltb→lt n 10 e), tt)
  | inr e ↦ rw e (
      AllDigits-append (digits fuel (n / 10)) ((48 + n % 10) ∷ []) (digits-AllDigits fuel (n / 10))
        (digit-is_digit (n % 10) (omega arith), tt))
]

number_from-append :
    (acc : ℕ) (s : Text) (c : ℕ) → number_from acc (s ++ c ∷ []) ≡ 10 * number_from acc s + (c - 48)
number_from-append acc [] c = refl
number_from-append acc (d ∷ s) c = number_from-append (10 * acc + (d - 48)) s c

number_from-digits : (fuel n : ℕ) → n < fuel → number_from 0 (digits fuel n) ≡ n
number_from-digits zero n h = absurd (omega (arith, h))
number_from-digits (suc fuel) n h = elim (Bool-cases (ltb n 10)) [
  | inl e ↦ rw e (omega arith)
  | inr e ↦
      let big : 10 ≤ n = ground (arith, e) in
      rw e (
        number_from-append 0 (digits fuel (n / 10)) (48 + n % 10)
        ∙ omega (arith, number_from-digits fuel (n / 10) (omega (arith, big, h))))
]

-- The digits of a number are read back.
pub number_from-decimal : (n : ℕ) → number_from 0 (decimal n) ≡ n
number_from-decimal n = number_from-digits (suc n) n (omega arith)

pub decimal-AllDigits : (n : ℕ) → AllDigits (decimal n)
decimal-AllDigits n = digits-AllDigits (suc n) n

-- The first digit of a number.
pub decimal-cons : (n : ℕ) → (c : ℕ) × (s : Text) × (decimal n ≡ c ∷ s)
decimal-cons n = elim (Bool-cases (ltb n 10)) [
  | inl e ↦ (48 + n, [], rw e refl)
  | inr e ↦ rw e (snoc (digits n (n / 10)) (48 + n % 10))
]
  where
    snoc : (s : Text) (d : ℕ) → (c : ℕ) × (t : Text) × (s ++ d ∷ [] ≡ c ∷ t)
    snoc [] d = (d, [], refl)
    snoc (c ∷ s) d = (c, s ++ d ∷ [], refl)

-- Digits that end before another byte.
pub span_digits-append :
    (s : Text) (c : ℕ) (t : Text)
    → AllDigits s
    → is_digit c ≡ false
    → span_digits (s ++ c ∷ t) ≡ (s, c ∷ t)
span_digits-append [] c t h k = rw k refl
span_digits-append (d ∷ s) c t (h, hs) k = rw (h, span_digits-append s c t hs k) refl
