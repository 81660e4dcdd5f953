-- ===== src/Proxy/RateLimit.antt =====
-- cmd/proxy/ratelimit.go, `rateLimiter`: the token bucket of each client. A float64 number of tokens
-- is an exact count of units here, 60·10^9 to a token: a nanosecond at `rpm` refills `rpm` units.
-- Times are nanoseconds that do not run backwards, as those of Go's monotonic clock do not.
pub mod Buckets
pub mod Charge
pub mod Rate
use proxy_manager.Prelude.{
  ℕ, zero, suc, ◌+◌, ◌-◌, ◌*◌, ◌^◌, min, Bool, true, false, not, ◌&&◌, ◌||◌, List, [], ◌∷◌, map,
  Option, none, some, Bytes, bytes_eq, ◌==◌, ltb, leb, if◌then◌else◌, length,
}
use proxy_manager.Prelude.Assoc.{lookup, insert}

-- The units of one token.
abbrev pub token : ℕ
token = 60 * 10 ^ 9

abbrev pub idle_evict : ℕ
idle_evict = 1800 * 10 ^ 9

abbrev pub max_buckets : ℕ
max_buckets = 50000

pub record Bucket : Type 0 where
  pub tokens : ℕ
  pub last_refill : ℕ
  pub last_seen : ℕ

pub record RateLimiter : Type 0 where
  pub buckets : List (Bytes × Bucket)
  pub rate : ℕ
  pub capacity : ℕ

unfoldable pub new_rate_limiter : ℕ → RateLimiter
new_rate_limiter rpm = record { buckets = []; rate = rpm; capacity = rpm * token }

unfoldable pub set_rate : ℕ → RateLimiter → RateLimiter
set_rate rpm rl = record rl { rate = rpm; capacity = rpm * token }

unfoldable pub bucket_found : Bytes → ℕ → RateLimiter → Option Bucket → Option Bucket × RateLimiter
bucket_found key now rl (some b) = (some b, rl)
bucket_found key now rl none =
    if leb max_buckets (length rl.buckets)
    then (none, rl)
    else (let b : Bucket = record { tokens = rl.capacity; last_refill = now; last_seen = now } in
        (some b, record rl { buckets = insert key b rl.buckets }))

-- `none` where the table is full.
unfoldable pub get_or_create : Bytes → ℕ → RateLimiter → Option Bucket × RateLimiter
get_or_create key now rl = bucket_found key now rl (lookup key rl.buckets)

unfoldable pub refilled : RateLimiter → ℕ → Bucket → ℕ
refilled rl now b = min rl.capacity (b.tokens + (now - b.last_refill) * rl.rate)

-- The refill and the charge: whether a token was left, and the bucket afterwards.
unfoldable pub charge : RateLimiter → ℕ → Bucket → Bool × Bucket
charge rl now b =
    let full = refilled rl now b in
    if ltb full token
    then (false, record { tokens = full; last_refill = now; last_seen = now })
    else (true, record { tokens = full - token; last_refill = now; last_seen = now })

unfoldable pub charge_in : Bytes → ℕ → RateLimiter → Option Bucket → Bool × RateLimiter
charge_in key now rl none = (false, rl)
charge_in key now rl (some b) =
    let (allowed, b') = charge rl now b in
    (allowed, record rl { buckets = insert key b' rl.buckets })

unfoldable pub allow : Bytes → ℕ → RateLimiter → Bool × RateLimiter
allow key now rl = let (found, rl') = get_or_create key now rl in charge_in key now rl' found

pub record BucketSnapshot : Type 0 where
  pub key : Bytes
  pub tokens : ℕ
  pub capacity : ℕ

unfoldable pub snapshot : ℕ → RateLimiter → List BucketSnapshot
snapshot now rl =
    map (λ e. record { key = e.0; tokens = refilled rl now e.1; capacity = rl.capacity }) rl.buckets

-- One tick of gc.
unfoldable pub sweep : ℕ → List (Bytes × Bucket) → List (Bytes × Bucket)
sweep now [] = []
sweep now ((k, b) ∷ m) =
    let rest = sweep now m in if ltb (b.last_seen + idle_evict) now then rest else (k, b) ∷ rest

unfoldable pub gc : ℕ → RateLimiter → RateLimiter
gc now rl = record rl { buckets = sweep now rl.buckets }
