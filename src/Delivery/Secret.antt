-- ===== src/Delivery/Secret.antt =====
-- internal/delivery/secret.go: encryption and decryption of callback secrets.
use vectorcore_gmlc.Base.{
  ℕ, ◌≡◌, false, some, List, [], ◌∷◌, ◌++◌, length, take, drop, arith, ok, refl, ap, sym, ltb,
  length-append, ◌>>=◌,
}
use vectorcore_gmlc.Delivery.{Crypto, encrypt_secret, decrypt_secret}

take-append : (xs ys : List ℕ) → take (length xs) (xs ++ ys) ≡ xs
take-append [] ys = refl
take-append (x ∷ xs) ys = ap (λ l. x ∷ l) (take-append xs ys)

drop-append : (xs ys : List ℕ) → drop (length xs) (xs ++ ys) ≡ ys
drop-append [] ys = refl
drop-append (x ∷ xs) ys = drop-append xs ys

-- Under a key of 32 bytes and a nonce of the size of the cipher, which opens what it sealed, an
-- encrypted secret decrypts to itself.
pub decrypt_secret-encrypt_secret :
    (c : Crypto) (nonce key plaintext : List ℕ)
    → length key ≡ 32
    → length nonce ≡ c.nonce_size
    → c.unseal key nonce (c.seal key nonce plaintext) ≡ some plaintext
    → (encrypt_secret c nonce key plaintext >>= decrypt_secret c key) ≡ ok plaintext
unfolding encrypt_secret decrypt_secret
decrypt_secret-encrypt_secret c nonce key plaintext k n opens =
    let sealed = c.seal key nonce plaintext in
    let enough : ltb (length (nonce ++ sealed)) (length nonce) ≡ false =
      ground (arith, length-append nonce sealed) in
    rw k (
      rw (sym n) (
        rw enough
          (rw (take-append nonce sealed) (rw (drop-append nonce sealed) (rw opens (rw k refl))))))
