-- ===== src/Proxy/Hybrid/Outage.antt =====
-- cmd/proxy/redisrl.go: `hybridLimiter` while Redis fails, and when it is asked again.
use proxy_manager.Prelude.{
  ℕ, suc, ◌+◌, ◌≤◌, ◌≡◌, refl, ap, Bool, true, false, List, [], ◌∷◌, Bytes, nat_eq, ltb, leb, All,
  if◌then◌else◌, Bool-cases, inl, inr, arith,
}
use proxy_manager.Prelude.Results.{Result, ok, err}
use proxy_manager.Proxy.RateLimit.{RateLimiter}
use proxy_manager.Proxy.RateLimit
use proxy_manager.Proxy.Hybrid.{
  redis_breaker_cooldown, redis_failure_threshold, new_hybrid_limiter, RedisPrimary, HybridLimiter,
  breaker_open, record_failure, record_success, primary_said, hybrid_allow,
}

-- A call of Allow: its key, when it tests the breaker and when it is answered.
pub record AllowCall : Type 0 where
  pub key : Bytes
  pub start : ℕ
  pub now : ℕ

-- The answers to a sequence of calls, and the in-memory limiter afterwards.
abbrev pub local_run : List AllowCall → RateLimiter → List Bool × RateLimiter
local_run [] rl = ([], rl)
local_run (c ∷ cs) rl =
    let (b, rl') = RateLimit.allow c.key c.now rl in
    let (bs, rl'') = local_run cs rl' in (b ∷ bs, rl'')

fresh :
    {P : Type 0} (p : P) (rpm t : ℕ)
    → (new_hybrid_limiter p rpm).open_until ≤ t + redis_breaker_cooldown
unfolding new_hybrid_limiter
fresh p rpm t = omega arith

module _ {P : Type 0} (redis : RedisPrimary P) where
  abbrev pub hybrid_run : List AllowCall → HybridLimiter P → List Bool × HybridLimiter P
  hybrid_run [] h = ([], h)
  hybrid_run (c ∷ cs) h =
      let (b, h') = hybrid_allow redis c.key c.start c.now h in
      let (bs, h'') = hybrid_run cs h' in (b ∷ bs, h'')

  -- Redis answers every request with an error.
  abbrev pub IsDown : Type 0
  IsDown = (key : Bytes) (p : P) → (redis.ask key p).0 ≡ err tt

  step_local :
      (key : Bytes) (start now : ℕ) (h : HybridLimiter P)
      → IsDown
      → ((hybrid_allow redis key start now h).0 ≡ (RateLimit.allow key now h.fallback).0)
        × ((hybrid_allow redis key start now h).1.fallback ≡ (RateLimit.allow key now h.fallback).1)
  unfolding hybrid_allow record_failure
  step_local key start now h down = elim (Bool-cases (breaker_open h start)) [
    | inl open_now ↦ rw open_now (refl, refl)
    | inr closed ↦ rw closed (failing (redis.ask key h.primary) (down key h.primary))
  ]
    where
      failing :
          (r : Result (Unit {0}) Bool × P)
          → r.0 ≡ err tt
          → ((primary_said key now h r).0 ≡ (RateLimit.allow key now h.fallback).0)
            × ((primary_said key now h r).1.fallback ≡ (RateLimit.allow key now h.fallback).1)
      failing (err e, p) down = (refl, refl)
      failing (ok b, p) down = cc

  -- While Redis fails, the limiter answers every sequence of calls as the in-memory limiter alone does
  -- that it carries: it neither lets all through nor refuses all.
  pub hybrid_run-local_run :
      (cs : List AllowCall) (h : HybridLimiter P)
      → IsDown
      → ((hybrid_run cs h).0 ≡ (local_run cs h.fallback).0)
        × ((hybrid_run cs h).1.fallback ≡ (local_run cs h.fallback).1)
  hybrid_run-local_run [] h down = (refl, refl)
  hybrid_run-local_run (c ∷ cs) h down =
      let (answer, kept) = step_local c.key c.start c.now h down in
      let (answers, final) =
        hybrid_run-local_run cs (hybrid_allow redis c.key c.start c.now h).1 down in
      (
        rw (← kept, ← answer) (ap ((hybrid_allow redis c.key c.start c.now h).0 ∷◌) answers),
        rw (← kept) final,
      )

  -- The breaker is open for no longer than the cooldown after `t`.
  abbrev OpensUntil : ℕ → HybridLimiter P → Type 0
  OpensUntil t h = h.open_until ≤ t + redis_breaker_cooldown

  step-OpensUntil :
      (c : AllowCall) (t : ℕ) (h : HybridLimiter P)
      → c.now ≤ t
      → OpensUntil t h
      → OpensUntil t (hybrid_allow redis c.key c.start c.now h).1
  unfolding hybrid_allow record_failure record_success
  step-OpensUntil c t h before until = elim (Bool-cases (breaker_open h c.start)) [
    | inl open_now ↦ rw open_now until
    | inr closed ↦ rw closed (answered (redis.ask c.key h.primary))
  ]
    where
      opened :
          (b : Bool)
          → (if b then c.now + redis_breaker_cooldown else h.open_until)
            ≤ t + redis_breaker_cooldown
      opened true = omega (arith, before)
      opened false = until

      answered : (r : Result (Unit {0}) Bool × P) → OpensUntil t (primary_said c.key c.now h r).1
      answered (err e, p) = opened (leb redis_failure_threshold (suc h.failures))
      answered (ok b, p) = omega arith

  run-OpensUntil :
      (cs : List AllowCall) (t : ℕ) (h : HybridLimiter P)
      → All (λ c. c.now ≤ t) cs
      → OpensUntil t h
      → OpensUntil t (hybrid_run cs h).1
  run-OpensUntil [] t h before until = until
  run-OpensUntil (c ∷ cs) t h before until =
      run-OpensUntil cs t (hybrid_allow redis c.key c.start c.now h).1 before.1
        (step-OpensUntil c t h before.0 until)

  -- A call that starts 30 seconds or more after the last answer, whatever came before, asks Redis
  -- again; when Redis answers it, that is the answer, and the breaker is closed with no failure counted.
  pub hybrid_run-recovers :
      (cs : List AllowCall) (p p' : P) (rpm t start now : ℕ) (key : Bytes) (answer : Bool)
      → All (λ c. c.now ≤ t) cs
      → t + redis_breaker_cooldown ≤ start
      → redis.ask key (hybrid_run cs (new_hybrid_limiter p rpm)).1.primary ≡ (ok answer, p')
      → hybrid_allow redis key start now (hybrid_run cs (new_hybrid_limiter p rpm)).1 ≡ (
        answer,
        record {
          primary = p';
          fallback = (hybrid_run cs (new_hybrid_limiter p rpm)).1.fallback;
          failures = 0;
          open_until = 0;
        },
      )
  unfolding hybrid_allow record_success breaker_open
  hybrid_run-recovers cs p p' rpm t start now key answer before later said =
      rw (closed (hybrid_run cs (new_hybrid_limiter p rpm)).1.open_until until, said) refl
    where
      until : OpensUntil t (hybrid_run cs (new_hybrid_limiter p rpm)).1
      until = run-OpensUntil cs t (new_hybrid_limiter p rpm) before (fresh p rpm t)

      closed : (u : ℕ) → u ≤ t + redis_breaker_cooldown → ltb start u ≡ false
      closed u le = ground (arith, le, later)
