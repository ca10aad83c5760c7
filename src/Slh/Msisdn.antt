-- ===== src/Slh/Msisdn.antt =====
-- EncodeMSISDN and DecodeMSISDN of internal/slh/slh.go: telephone BCD, two digits to an octet.
pub mod RoundTrip
mod Examples
use vectorcore_gmlc.Base.{
  ℕ, ◌+◌, ◌-◌, ◌*◌, ◌/◌, ◌%◌, Bool, true, false, List, [], ◌∷◌, ◌++◌, not, ◌||◌, if◌then◌else◌, ltb,
  ◌==◌, length, Result, ok, err, ◌>>=◌, ◌>>◌, guard,
}
use vectorcore_gmlc.Base.Text.{Text, is_digit}
use vectorcore_gmlc.Errors.{Error}

-- The loop over the octets: `s[2*i]` is the low nibble, `s[2*i+1]`, if there is one, the high one.
-- `v | (hi << 4)` is a sum, since v is below 16.
encode_octets : Text → Result Error (List ℕ)
encode_octets [] = ok []
encode_octets (lo ∷ []) = do
  guard (is_digit lo) Error.invalid_target
  ok ((lo - b'0' + 16 * 0x0f) ∷ [])
encode_octets (lo ∷ hi ∷ s) =
    let rest = encode_octets s in
    (guard (is_digit lo) Error.invalid_target
      >> guard (is_digit hi) Error.invalid_target
      >> (rest >>= λ out. ok ((lo - b'0' + 16 * (hi - b'0')) ∷ out)))

unfoldable pub encode_msisdn : Text → Result Error (List ℕ)
unfolding encode_octets
encode_msisdn s =
    if length s == 0 || ltb 15 (length s) then err Error.invalid_target else encode_octets s

-- One octet `o` with what follows it; `o & 0x0f` and `o >> 4`.
unfoldable pub decode_msisdn : List ℕ → Result Error Text
decode_msisdn [] = ok []
decode_msisdn (o ∷ b) =
    let rest = decode_msisdn b in
    let lo = o % 16 in
    let hi = o / 16 in
    if ltb 9 lo
    then err Error.invalid_target
    else if hi == 0x0f
    then (if not (length b == 0) then err Error.invalid_target else ok ((b'0' + lo) ∷ []))
    else if ltb 9 hi
    then err Error.invalid_target
    else (rest >>= λ s. ok ((b'0' + lo) ∷ (b'0' + hi) ∷ s))
