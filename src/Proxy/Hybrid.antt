-- ===== src/Proxy/Hybrid.antt =====
-- cmd/proxy/redisrl.go, `hybridLimiter`: the limiter shared through Redis with the in-memory one to fall
-- back on, behind a circuit breaker. The Redis side is the interface redisPrimary, on a state of its
-- own. A call reads the clock twice: when it tests the breaker, and after the call of Redis.
pub mod Outage
mod Examples
use proxy_manager.Prelude.{
  ℕ, suc, ◌+◌, ◌*◌, ◌^◌, Bool, true, false, List, [], ◌∷◌, ◌++◌, Bytes, nat_eq, ◌==◌, ltb, leb,
  contains, codes, if◌then◌else◌,
}
use proxy_manager.Prelude.Results.{Result, ok, err}
use proxy_manager.Proxy.RateLimit.{RateLimiter, new_rate_limiter, BucketSnapshot}
use proxy_manager.Proxy.RateLimit

abbrev pub redis_failure_threshold : ℕ
redis_failure_threshold = 3

abbrev pub redis_breaker_cooldown : ℕ
redis_breaker_cooldown = 30 * 10 ^ 9

-- redisPrimary: an error is without its text.
pub record RedisPrimary (P : Type 0) : Type 0 where
  pub ask : Bytes → P → Result (Unit {0}) Bool × P
  pub change_rate : ℕ → P → P
  pub view : P → Result (Unit {0}) (List BucketSnapshot)

-- `open_until` is 0 for the zero time.
pub record HybridLimiter (P : Type 0) : Type 0 where
  pub primary : P
  pub fallback : RateLimiter
  pub failures : ℕ
  pub open_until : ℕ

unfoldable pub new_hybrid_limiter : {P : Type 0} → P → ℕ → HybridLimiter P
new_hybrid_limiter p rpm = record {
  primary = p;
  fallback = new_rate_limiter rpm;
  failures = 0;
  open_until = 0;
}

unfoldable pub breaker_open : {P : Type 0} → HybridLimiter P → ℕ → Bool
breaker_open h now = ltb now h.open_until

unfoldable pub record_failure : {P : Type 0} → ℕ → HybridLimiter P → HybridLimiter P
record_failure now h = record h {
  failures = suc h.failures;
  open_until =
      if leb redis_failure_threshold (suc h.failures)
      then now + redis_breaker_cooldown
      else h.open_until;
}

unfoldable pub record_success : {P : Type 0} → HybridLimiter P → HybridLimiter P
record_success h = record h { failures = 0; open_until = 0 }

abbrev pub ask_fallback : {P : Type 0} → Bytes → ℕ → HybridLimiter P → Bool × HybridLimiter P
ask_fallback key now h =
    let (allowed, rl) = RateLimit.allow key now h.fallback in (allowed, record h { fallback = rl })

abbrev pub primary_said :
    {P : Type 0} → Bytes → ℕ → HybridLimiter P → Result (Unit {0}) Bool × P → Bool × HybridLimiter P
primary_said key now h (err e, p) =
    ask_fallback key now (record_failure now (record h { primary = p }))
primary_said key now h (ok allowed, p) = (allowed, record_success (record h { primary = p }))

unfoldable pub hybrid_allow :
    {P : Type 0} → RedisPrimary P → Bytes → ℕ → ℕ → HybridLimiter P → Bool × HybridLimiter P
hybrid_allow redis key start now h =
    if breaker_open h start
    then ask_fallback key now h
    else primary_said key now h (redis.ask key h.primary)

unfoldable pub hybrid_set_rate :
    {P : Type 0} → RedisPrimary P → ℕ → HybridLimiter P → HybridLimiter P
hybrid_set_rate redis rpm h = record h {
  primary = redis.change_rate rpm h.primary;
  fallback = RateLimit.set_rate rpm h.fallback;
}

abbrev pub viewed :
    List BucketSnapshot → Result (Unit {0}) (List BucketSnapshot) → List BucketSnapshot
viewed local (ok snap) = snap
viewed local (err e) = local

unfoldable pub hybrid_snapshot :
    {P : Type 0} → RedisPrimary P → ℕ → ℕ → HybridLimiter P → List BucketSnapshot
hybrid_snapshot redis start now h =
    let local = RateLimit.snapshot now h.fallback in
    if breaker_open h start then local else viewed local (redis.view h.primary)

-- The metacharacters of a glob, each with a backslash before it.
unfoldable pub glob_escape : Bytes → Bytes
glob_escape [] = []
glob_escape (c ∷ s) =
    let rest = glob_escape s in if contains (codes "\\*?[]") c then b'\\' ∷ c ∷ rest else c ∷ rest
