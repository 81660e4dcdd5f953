-- ===== src/Proxy/RateLimitExamples.antt =====
-- The limiter's theorem at a concrete input.
use proxy_manager.Prelude.{◌≤◌, ◌+◌, ◌*◌, ◌-◌, refl, [], ◌∷◌, codes, arith}
use proxy_manager.Proxy.RateLimit.{RateLimiter, token}
use proxy_manager.Proxy.RateLimit.Buckets.{IsSound}
use proxy_manager.Proxy.RateLimit.Rate.{asked, ticked, granted, granted-le}

abbrev two_a_minute : RateLimiter
two_a_minute = record { buckets = []; rate = 2; capacity = 2 * token }

two_a_minute-IsSound : IsSound 0 two_a_minute
two_a_minute-IsSound = record { full = refl; single = tt; past = tt }

granted-le_example :
    granted
        (codes "a")
        (asked (codes "a") 1 ∷ asked (codes "b") 2 ∷ asked (codes "a") 3 ∷ ticked 4 ∷ [])
        two_a_minute
      * token
    ≤ 2 * token + (5 - 0) * 2
granted-le_example =
    granted-le (codes "a") 0 5
      (asked (codes "a") 1 ∷ asked (codes "b") 2 ∷ asked (codes "a") 3 ∷ ticked 4 ∷ []) two_a_minute
      two_a_minute-IsSound (omega arith, (omega arith, (omega arith, (omega arith, omega arith))))
