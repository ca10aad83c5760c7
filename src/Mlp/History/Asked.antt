-- ===== src/Mlp/History/Asked.antt =====
-- internal/mlp/handler.go: the window that parseHistoryWindow makes is the one that the request asks for.
use vectorcore_gmlc.Base.{
  ℕ, ◌*◌, ◌%◌, ◌^◌, ◌≤◌, ◌<◌, ◌≡◌, refl, sym, ap, ◌∙◌, Bool-cases, Option-cases, inl, inr, ◌⊎◌,
  ◌&&◌, ◌==◌, ==_iff, true, not, Option, none, some, [], ◌∷◌, if◌then◌else◌, ltb, ok, guard, ◌>>◌,
  bind_ok, guard_ok, ok_injective, subst, arith,
}
use vectorcore_gmlc.Base.Text.{Text, is_empty, trim_space, all_digits}
use vectorcore_gmlc.Base.Decimal.{number_from}
use vectorcore_gmlc.Domain.{Time}
use vectorcore_gmlc.Mlp.{Library, positive_element, positive_number, only_digits, seconds}
use vectorcore_gmlc.Mlp.ResultCodes.{ResultCode}
use vectorcore_gmlc.Mlp.History.{Hlir, Window, parse_mlp_time, stop_of, parse_history_window}

-- The start is not after the stop, which is not after the time now.
abbrev pub Ordered : Time → Window → Type 0
Ordered now w = (w.start ≤ w.stop) × (w.stop ≤ now)

-- The number that the digits of a text make, after a sign if there is one.
abbrev pub Counts : Text → ℕ → Type 0
Counts s n =
    (digits : Text) × ((s ≡ digits) ⊎ (s ≡ b'+' ∷ digits))
    × (all_digits digits ≡ true)
    × (number_from 0 digits ≡ n)
    × (0 < n)

-- A number of the request, in its unit unless that is 2^63 or more; 0 if it is absent.
abbrev pub CountAsked : ℕ → Option Text → ℕ → Type 0
CountAsked unit none n = n ≡ 0
CountAsked unit (some s) n = (k : ℕ) × Counts (trim_space s) k × (k * unit < 2 ^ 63 → n ≡ k * unit)

-- The time now, or the stop of the request if that is earlier.
abbrev pub StopAsked : Library → Time → Option Text → Time → Type 0
StopAsked lib now none stop = stop ≡ now
StopAsked lib now (some s) stop =
    (t : Time) × (lib.parse_time (trim_space s) ≡ some t) × (stop ≡ (if ltb now t then now else t))

-- The window that a request asks for.
abbrev pub AsksFor : Library → Time → Hlir → Window → Type 0
AsksFor lib now req w =
    (lib.parse_time (trim_space req.start_time) ≡ some w.start)
    × StopAsked lib now req.stop_time w.stop
    × CountAsked 1000000000 req.interval w.min_interval
    × CountAsked 1 req.no_of_reports w.limit

only_digits_lem :
    (s : Text) (n : ℕ)
    → only_digits s ≡ some n
    → (all_digits s ≡ true) × (number_from 0 s ≡ n) × (0 < n)
only_digits_lem [] n h = cc
only_digits_lem (c ∷ s) n h =
    elim (Bool-cases (
      all_digits (c ∷ s)
      && ltb 0 (number_from 0 (c ∷ s))
      && ltb (number_from 0 (c ∷ s)) (2 ^ 63))) [
        | inl e ↦
            let same : number_from 0 (c ∷ s) ≡ n = cc (rw e at h) in
            let digits : all_digits (c ∷ s) ≡ true = ground (arith, e) in
            let above : 0 < number_from 0 (c ∷ s) = ground (arith, e) in
            (digits, same, subst (λ k. 0 < k) same above)
        | inr e ↦ cc (rw e at h)
      ]

positive_number-Counts : (s : Text) (n : ℕ) → positive_number s ≡ some n → Counts s n
unfolding positive_number
positive_number-Counts [] n h = cc
positive_number-Counts (c ∷ s) n h = elim (Bool-cases (c == b'+')) [
  | inl e ↦
      let (a, b, d) = only_digits_lem s n (rw e at h) in
      (s, inr (ap (λ x. x ∷ s) ((==_iff c b'+').0 e)), a, b, d)
  | inr e ↦ let (a, b, d) = only_digits_lem (c ∷ s) n (rw e at h) in (c ∷ s, inl refl, a, b, d)
]

positive_element-CountAsked :
    (unit : ℕ) (f : ℕ → ℕ) (o : Option Text) (n : ℕ)
    → ((k : ℕ) → k * unit < 2 ^ 63 → f k ≡ k * unit)
    → positive_element f o ≡ ok n
    → CountAsked unit o n
unfolding positive_element
positive_element-CountAsked unit f none n exact h = sym (ok_injective 0 n h)
positive_element-CountAsked unit f (some s) n exact h =
    elim (Option-cases (positive_number (trim_space s))) [
      | inl e ↦ cc (rw (e, positive_element) at h)
      | inr (k, e) ↦
          let same : f k ≡ n = ok_injective (f k) n (rw (e, positive_element) at h) in
          (k, positive_number-Counts (trim_space s) k e, λ small. sym same ∙ exact k small)
    ]

seconds_exact : (k : ℕ) → k * 1000000000 < 2 ^ 63 → seconds k ≡ k * 1000000000
unfolding seconds
seconds_exact k small =
    let fits : k * 1000000000 % 2 ^ 64 ≡ k * 1000000000 = omega (arith, small) in
    rw fits (ground (arith, small))

parse_mlp_time-ok :
    (lib : Library) (s : Text) (t : Time)
    → parse_mlp_time lib s ≡ ok t
    → lib.parse_time (trim_space s) ≡ some t
parse_mlp_time-ok lib s t h = elim (Option-cases (lib.parse_time (trim_space s))) [
  | inl e ↦ cc (rw (e, parse_mlp_time) at h)
  | inr (u, e) ↦ e ∙ ap (λ x. some x) (ok_injective u t (rw (e, parse_mlp_time) at h))
]

stop_of-StopAsked :
    (lib : Library) (now t : Time) (o : Option Text)
    → stop_of lib now o ≡ ok t
    → StopAsked lib now o t
stop_of-StopAsked lib now t none h = sym (ok_injective now t h)
stop_of-StopAsked lib now t (some s) h =
    let (u, e, k) = bind_ok (parse_mlp_time lib s) (λ u. ok (if ltb now u then now else u)) t h in
    (u, parse_mlp_time-ok lib s u e, sym (ok_injective _ t k))

stop_of-le : (lib : Library) (now t : Time) (o : Option Text) → stop_of lib now o ≡ ok t → t ≤ now
stop_of-le lib now t none h = let e = ok_injective now t h in omega (arith, e)
stop_of-le lib now t (some s) h =
    let (u, _, k) = bind_ok (parse_mlp_time lib s) (λ u. ok (if ltb now u then now else u)) t h in
    let e = ok_injective _ t k in ground (arith, e)

pub parse_history_window-AsksFor :
    (lib : Library) (req : Hlir) (now : Time) (w : Window)
    → parse_history_window lib req now ≡ ok w
    → Ordered now w × AsksFor lib now req w
unfolding parse_history_window
parse_history_window-AsksFor lib req now w h =
    let (start, a, h1) =
      bind_ok
        (guard (not (is_empty (trim_space req.start_time))) ResultCode.format_error
          >> parse_mlp_time lib req.start_time)
        _ w h in
    let (stop, e, h2) = bind_ok (stop_of lib now req.stop_time) _ w h1 in
    let (interval, k, h3) =
      bind_ok
        (guard (not (ltb stop start)) ResultCode.invalid_protocol_element_value
          >> positive_element seconds req.interval)
        _ w h2 in
    let (limit, d, h4) = bind_ok (positive_element (λ n. n) req.no_of_reports) _ w h3 in
    let (g, b) =
      guard_ok (not (ltb stop start)) _ (positive_element seconds req.interval) interval k in
    let low : start ≤ stop = ground (arith, g) in
    let (_, begun) =
      guard_ok (not (is_empty (trim_space req.start_time))) _ (parse_mlp_time lib req.start_time)
        start a in
    subst (λ v. Ordered now v × AsksFor lib now req v) (ok_injective _ w h4)
      (
        (low, stop_of-le lib now stop req.stop_time e),
        (
          parse_mlp_time-ok lib req.start_time start begun,
          stop_of-StopAsked lib now stop req.stop_time e,
          positive_element-CountAsked 1000000000 seconds req.interval interval seconds_exact b,
          positive_element-CountAsked 1 (λ n. n) req.no_of_reports limit (λ k small. omega arith) d,
        ),
      )
