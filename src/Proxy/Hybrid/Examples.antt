-- ===== src/Proxy/Hybrid/Examples.antt =====
-- cmd/proxy/redisrl.go with a Redis that is down, or up again after some requests.
use proxy_manager.Prelude.{
  ℕ, zero, suc, ◌*◌, ◌^◌, ◌≡◌, refl, Bool, false, List, [], ◌∷◌, codes, arith,
}
use proxy_manager.Prelude.Results.{Result, ok, err}
use proxy_manager.Proxy.Hybrid.{
  RedisPrimary, HybridLimiter, new_hybrid_limiter, hybrid_allow, breaker_open, record_failure,
  record_success,
}
use proxy_manager.Proxy.Hybrid.Outage.{
  AllowCall, local_run, hybrid_run, hybrid_run-local_run, hybrid_run-recovers,
}

-- Requests that still fail are counted down; afterwards every request is refused by Redis.
abbrev fails_for : ℕ → Result (Unit {0}) Bool × ℕ
fails_for zero = (ok false, 0)
fails_for (suc n) = (err tt, n)

abbrev failing : RedisPrimary ℕ
failing = record { ask = λ key n. fails_for n; change_rate = λ rpm n. n; view = λ n. err tt }

abbrev down : RedisPrimary ℕ
down = record { ask = λ key n. (err tt, n); change_rate = λ rpm n. n; view = λ n. err tt }

abbrev at_time : ℕ → AllowCall
at_time t = record { key = codes "a"; start = t; now = t }

abbrev calls : List AllowCall
calls = at_time 1 ∷ at_time 2 ∷ at_time 3 ∷ at_time 4 ∷ []

abbrev unasked : HybridLimiter ℕ
unasked = new_hybrid_limiter 0 2

hybrid_run-local_run_example :
    ((hybrid_run down calls unasked).0 ≡ (local_run calls unasked.fallback).0)
    × ((hybrid_run down calls unasked).1.fallback ≡ (local_run calls unasked.fallback).1)
hybrid_run-local_run_example = hybrid_run-local_run down calls unasked (λ key p. refl)

recovers_asked :
    failing.ask (codes "a") (hybrid_run failing calls (new_hybrid_limiter 3 2)).1.primary
    ≡ (ok false, 0)
unfolding hybrid_allow new_hybrid_limiter breaker_open record_failure record_success
recovers_asked = refl

hybrid_run-recovers_example :
    hybrid_allow failing
      (codes "a")
      (40 * 10 ^ 9)
      (40 * 10 ^ 9)
      (hybrid_run failing calls (new_hybrid_limiter 3 2)).1
    ≡ (
      false,
      record {
        primary = 0;
        fallback = (hybrid_run failing calls (new_hybrid_limiter 3 2)).1.fallback;
        failures = 0;
        open_until = 0;
      },
    )
hybrid_run-recovers_example =
    hybrid_run-recovers failing calls 3 0 2 4 (40 * 10 ^ 9) (40 * 10 ^ 9) (codes "a") false
      (omega arith, (omega arith, (omega arith, (omega arith, tt)))) (omega arith) recovers_asked
