-- ===== src/Delivery/Backoff.antt =====
-- The delay before the next attempt of a delivery.
use vectorcore_gmlc.Base.{ℕ, zero, suc, ◌-◌, ◌*◌, ◌^◌, ◌%◌, ◌≤◌, ◌<◌, ◌≡◌, arith, min}
use vectorcore_gmlc.Delivery.{backoff}

-- A delay is positive and at most the maximum, whatever the product of the multiplication wraps to.
pub backoff_bounds :
    (attempts low high : ℕ)
    → 0 < high
    → (0 < backoff attempts low high) × (backoff attempts low high ≤ high)
unfolding backoff
backoff_bounds attempts low high h =
    let d = low * 2 ^ (attempts - 1) % 18446744073709551616 in ground (arith, h)

two_pow_pos : (k : ℕ) → 0 < 2 ^ k
two_pow_pos zero = omega arith
two_pow_pos (suc k) = omega (arith, two_pow_pos k)

mul_pos : (a b : ℕ) → 0 < a → 0 < b → 0 < a * b
mul_pos zero b h k = elim h [ ]
mul_pos (suc a) b h k = omega (arith, h, k)

-- As long as the product does not pass 2^63, the delay doubles with each attempt from the minimum,
-- and stops at the maximum.
pub backoff_exponential :
    (attempts low high : ℕ)
    → 0 < low
    → low * 2 ^ (attempts - 1) < 9223372036854775808
    → attempts ≤ 33
    → backoff attempts low high ≡ min (low * 2 ^ (attempts - 1)) high
unfolding backoff
backoff_exponential attempts low high h small few =
    let p = low * 2 ^ (attempts - 1) in
    let same : p % 18446744073709551616 ≡ p = omega arith in
    let positive : 0 < p = mul_pos low (2 ^ (attempts - 1)) h (two_pow_pos (attempts - 1)) in
    rw same (ground (arith, few))
