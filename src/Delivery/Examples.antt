-- ===== src/Delivery/Examples.antt =====
-- The theorems about delays and secrets at concrete inputs.
use vectorcore_gmlc.Base.{ℕ, ◌≤◌, ◌<◌, ◌≡◌, refl, List, [], ◌∷◌, some, arith, ok, ◌>>=◌}
use vectorcore_gmlc.Base.Text.{codes}
use vectorcore_gmlc.Delivery.{backoff, Crypto, encrypt_secret, decrypt_secret}
use vectorcore_gmlc.Delivery.Backoff.{backoff_bounds}
use vectorcore_gmlc.Delivery.Secret.{decrypt_secret-encrypt_secret}

backoff_bounds_example :
    (0 < backoff 33 4294967297 300000000000) × (backoff 33 4294967297 300000000000 ≤ 300000000000)
backoff_bounds_example = backoff_bounds 33 4294967297 300000000000 (omega arith)

-- The product wraps to less than the minimum.
wrapped : backoff 33 4294967297 300000000000 ≡ 4294967296
unfolding backoff
wrapped = refl

-- A cipher that shows what it is given.
abbrev clear : Crypto
clear = record {
  nonce_size = 2;
  seal = λ key nonce plaintext. plaintext;
  unseal = λ key nonce ciphertext. some ciphertext;
  hmac_sha256_hex = λ key payload. [];
}

abbrev key : List ℕ
key = codes "0123456789abcdef0123456789abcdef"

decrypt_secret-encrypt_secret_example :
    (encrypt_secret clear (7 ∷ 8 ∷ []) key (codes "secret") >>= decrypt_secret clear key)
    ≡ ok (codes "secret")
decrypt_secret-encrypt_secret_example =
    decrypt_secret-encrypt_secret clear (7 ∷ 8 ∷ []) key (codes "secret") refl refl refl
