-- ===== src/Delivery.antt =====
-- internal/delivery: the worker that posts due deliveries (worker.go), the callback secrets
-- (secret.go) and the signature (sign.go). The loop that waits between two calls of `one` is left out.
pub mod Backoff
pub mod Secret
pub mod Payload
mod Examples
use vectorcore_gmlc.Base.{
  ℕ, ◌-◌, ◌*◌, ◌%◌, ◌^◌, ◌+◌, Bool, true, false, ◌&&◌, ◌||◌, not, Option, none, some, List, ◌++◌,
  if◌then◌else◌, ltb, leb, ◌==◌, length, take, drop, Result, ok, err,
}
use vectorcore_gmlc.Base.Text.{Text, codes}
use vectorcore_gmlc.Errors.{Error}
use vectorcore_gmlc.Domain.{Time}
use vectorcore_gmlc.Storage.Schema.{Subscription, Delivery, Db}
use vectorcore_gmlc.Storage.Deliveries.{
  claim_next_delivery, get_subscription, requeue_delivery, fail_delivery, mark_delivered,
}

-- What crypto/aes with crypto/cipher and crypto/hmac with crypto/sha256 compute: the seal and the
-- opening of a text under a key and a nonce, and the digest in hexadecimal.
pub record Crypto : Type 0 where
  pub nonce_size : ℕ
  pub seal : List ℕ → List ℕ → List ℕ → List ℕ
  pub unseal : List ℕ → List ℕ → List ℕ → Option (List ℕ)
  pub hmac_sha256_hex : List ℕ → List ℕ → Text

unfoldable pub sign : Crypto → List ℕ → List ℕ → Text
sign c secret payload = codes "sha256=" ++ c.hmac_sha256_hex secret payload

-- `nonce` is what rand.Reader fills in.
unfoldable pub encrypt_secret : Crypto → List ℕ → List ℕ → List ℕ → Result Error (List ℕ)
encrypt_secret c nonce key plaintext =
    if not (length key == 32) then err Error.other else ok (nonce ++ c.seal key nonce plaintext)

abbrev opened : Option (List ℕ) → Result Error (List ℕ)
opened none = err Error.other
opened (some plaintext) = ok plaintext

unfoldable pub decrypt_secret : Crypto → List ℕ → List ℕ → Result Error (List ℕ)
decrypt_secret c key ciphertext =
    if not (length key == 32)
    then err Error.other
    else if ltb (length ciphertext) c.nonce_size
    then err Error.other
    else opened (c.unseal key (take c.nonce_size ciphertext) (drop c.nonce_size ciphertext))

-- Durations are nanoseconds. `new` makes of a negative number what it makes of 0.
pub record Config : Type 0 where
  pub max_attempts : ℕ
  pub retry_backoff_min : ℕ
  pub retry_backoff_max : ℕ
  pub request_timeout : ℕ
  pub encryption_key : List ℕ

-- The defaults; `none` is the panic on a key that has not 32 bytes.
unfoldable pub new : Config → Option Config
new cfg =
    let min = if cfg.retry_backoff_min == 0 then 1000000000 else cfg.retry_backoff_min in
    let cfg' : Config = record {
      max_attempts = if cfg.max_attempts == 0 then 5 else cfg.max_attempts;
      retry_backoff_min = min;
      retry_backoff_max =
          if ltb cfg.retry_backoff_max min then 300000000000 else cfg.retry_backoff_max;
      request_timeout = if cfg.request_timeout == 0 then 10000000000 else cfg.request_timeout;
      encryption_key = cfg.encryption_key;
    } in
    if not (length cfg.encryption_key == 32) then none else some cfg'

-- The product is one of int64: it wraps, and is positive below 2^63 only.
unfoldable pub backoff : ℕ → ℕ → ℕ → ℕ
backoff attempts min max =
    let shift = attempts - 1 in
    let d = min * 2 ^ shift % 2 ^ 64 in
    if ltb 32 shift then max else if d == 0 || leb (2 ^ 63) d || ltb max d then max else d

-- `now` is when the next attempt is planned, `then_` when the row is written.
unfoldable pub retry_or_fail : Config → Text → ℕ → ℕ → Time → Time → Db → Db
unfolding backoff
retry_or_fail cfg id attempts response_code now then_ db =
    if leb cfg.max_attempts attempts
    then (fail_delivery id response_code then_ db).1
    else (requeue_delivery id (now + backoff attempts cfg.retry_backoff_min cfg.retry_backoff_max)
        then_ db).1

-- What is posted: the address, the signature header and the body.
pub record Post : Type 0 where
  pub url : Text
  pub signature : Text
  pub body : List ℕ

-- What one call meets outside the program: whether net/http makes a request of an address, the
-- status of the answer if one comes, whether the worker is shutting down, and the times it reads.
pub record Attempt : Type 0 where
  pub request_ok : Text → Bool
  pub response : Post → Option ℕ
  pub shutting_down : Bool
  pub claimed_at : Time
  pub planned_at : Time
  pub written_at : Time

-- After client.Do.
unfoldable pub answered : Config → Attempt → Delivery → Option ℕ → Db → Db
unfolding retry_or_fail
answered cfg env d none db =
    if env.shutting_down
    then (requeue_delivery d.id env.planned_at env.written_at db).1
    else retry_or_fail cfg d.id d.attempt_count 0 env.planned_at env.written_at db
answered cfg env d (some status) db =
    if leb 200 status && ltb status 300
    then (mark_delivered d.id status env.written_at db).1
    else retry_or_fail cfg d.id d.attempt_count status env.planned_at env.written_at db

unfoldable pub send :
    Crypto
    → Config
    → Attempt
    → Delivery
    → Subscription
    → Result Error (List ℕ)
    → Db
    → Option Post × Db
unfolding sign answered
send c cfg env d sub (err e) db = (none, (fail_delivery d.id 0 env.written_at db).1)
send c cfg env d sub (ok secret) db =
    let post : Post = record {
      url = sub.callback_url;
      signature = sign c secret d.payload;
      body = d.payload;
    } in
    if env.request_ok sub.callback_url
    then (some post, answered cfg env d (env.response post) db)
    else (none, (fail_delivery d.id 0 env.written_at db).1)

unfoldable pub deliver :
    Crypto → Config → Attempt → Delivery → Result Error Subscription → Db → Option Post × Db
unfolding send decrypt_secret
deliver c cfg env d (err e) db = (none, (fail_delivery d.id 0 env.written_at db).1)
deliver c cfg env d (ok sub) db =
    send c cfg env d sub (decrypt_secret c cfg.encryption_key sub.callback_secret) db

unfoldable pub one_claimed :
    Crypto → Config → Attempt → Result Error (Option Delivery) → Db → Bool × Option Post × Db
unfolding deliver
one_claimed c cfg env (err e) db = (false, none, db)
one_claimed c cfg env (ok none) db = (false, none, db)
one_claimed c cfg env (ok (some d)) db =
    let sent = deliver c cfg env d (get_subscription d.subscription_id db) db in
    (true, sent.0, sent.1)

-- Whether there was a delivery to work on, what was posted, and the store after it.
unfoldable pub one : Crypto → Config → Attempt → Db → Bool × Option Post × Db
unfolding one_claimed
one c cfg env db =
    let claimed = claim_next_delivery env.claimed_at db in one_claimed c cfg env claimed.0 claimed.1
