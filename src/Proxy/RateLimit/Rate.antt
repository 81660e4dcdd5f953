-- ===== src/Proxy/RateLimit/Rate.antt =====
-- cmd/proxy/ratelimit.go: how often a client is let through over a stretch of time.
use proxy_manager.Prelude.{
  ℕ, ◌+◌, ◌-◌, ◌*◌, ◌≤◌, ◌≡◌, ap, subst, refl, Bool, true, false, List, [], ◌∷◌, Bytes, bytes_eq,
  ◌==◌, if◌then◌else◌, Bool-cases, Option-cases, inl, inr, arith,
}
use proxy_manager.Prelude.Assoc.{lookup}
use proxy_manager.Proxy.RateLimit.{token, RateLimiter, refilled, allow, gc}
use proxy_manager.Proxy.RateLimit.Buckets.{
  potential_of, potential, IsSound, potential-grows, later-All, sweep-potential, gc-IsSound,
  refill_add,
}
use proxy_manager.Proxy.RateLimit.Charge.{
  cost, refilled-le, allow-potential, allow-potential_other, allow-IsSound, allow-rate,
}

-- What happens to a limiter: a client asks, or gc ticks.
pub data LimiterEvent : Type 0 where
  asked : Bytes → ℕ → LimiterEvent
  ticked : ℕ → LimiterEvent

abbrev pub time_of : LimiterEvent → ℕ
time_of (asked key now) = now
time_of (ticked now) = now

abbrev pub limiter_event : LimiterEvent → RateLimiter → Bool × RateLimiter
limiter_event (asked key now) rl = allow key now rl
limiter_event (ticked now) rl = (false, gc now rl)

abbrev granted_to : Bytes → LimiterEvent → Bool → ℕ
granted_to key (asked j now) true = if j == key then 1 else 0
granted_to key _ _ = 0

-- How often the client was let through.
abbrev pub granted : Bytes → List LimiterEvent → RateLimiter → ℕ
granted key [] rl = 0
granted key (x ∷ xs) rl =
    granted_to key x (limiter_event x rl).0 + granted key xs (limiter_event x rl).1

-- The times run from one to the other and not backwards.
abbrev pub IsOrdered : ℕ → ℕ → List LimiterEvent → Type 0
IsOrdered from to [] = from ≤ to
IsOrdered from to (x ∷ xs) = (from ≤ time_of x) × IsOrdered (time_of x) to xs

later-IsSound : (s t : ℕ) (rl : RateLimiter) → s ≤ t → IsSound s rl → IsSound t rl
later-IsSound s t rl h ok = record {
  full = ok.full;
  single = ok.single;
  past = later-All s t rl.buckets h ok.past;
}

event-IsSound :
    (x : LimiterEvent) (rl : RateLimiter)
    → IsSound (time_of x) rl
    → IsSound (time_of x) (limiter_event x rl).1
unfolding gc
event-IsSound (asked key now) rl ok = allow-IsSound key now rl ok
event-IsSound (ticked now) rl ok = gc-IsSound now rl ok

event-rate : (x : LimiterEvent) (rl : RateLimiter) → (limiter_event x rl).1.rate ≡ rl.rate
unfolding gc
event-rate (asked key now) rl = allow-rate key now rl
event-rate (ticked now) rl = refl

granted_cost :
    (key j : Bytes) (now : ℕ) (r : Bool)
    → granted_to key (asked j now) r * token ≡ (if j == key then cost r else 0)
granted_cost key j now true = ground arith
granted_cost key j now false = ground arith

gc-potential :
    (key : Bytes) (now : ℕ) (rl : RateLimiter)
    → IsSound now rl
    → potential key now (gc now rl) ≡ potential key now rl
unfolding gc potential potential_of refilled
gc-potential key now rl ok = sweep-potential key now rl rl.buckets ok.full ok.single ok.past

event-potential :
    (key : Bytes) (x : LimiterEvent) (rl : RateLimiter)
    → IsSound (time_of x) rl
    → granted_to key x (limiter_event x rl).0 * token
        + potential key (time_of x) (limiter_event x rl).1
      ≡ potential key (time_of x) rl
unfolding gc
event-potential key (asked j now) rl ok = elim (Bool-cases (j == key)) [
  | inl same ↦
      let paid =
        subst
          (λ i. cost (allow j now rl).0 + potential i now (allow j now rl).1 ≡ potential i now rl)
          ((bytes_eq.eq_test_iff j key).0 same) (allow-potential j now rl) in
      rw (granted_cost key j now (allow j now rl).0, same) paid
  | inr apart ↦
      rw (granted_cost key j now (allow j now rl).0, apart)
        (omega (arith, allow-potential_other j key now rl apart))
]
event-potential key (ticked now) rl ok = omega (arith, gc-potential key now rl ok)

ordered-le : (from to : ℕ) (xs : List LimiterEvent) → IsOrdered from to xs → from ≤ to
ordered-le from to [] h = h
ordered-le from to (x ∷ xs) h = omega (arith, h.0, ordered-le (time_of x) to xs h.1)

granted-potential :
    (key : Bytes) (from to : ℕ) (xs : List LimiterEvent) (rl : RateLimiter)
    → IsSound from rl
    → IsOrdered from to xs
    → granted key xs rl * token ≤ potential key from rl + (to - from) * rl.rate
granted-potential key from to [] rl ok h = omega arith
granted-potential key from to (x ∷ xs) rl ok h =
    let t = time_of x in
    let at_time = later-IsSound from t rl h.0 ok in
    let grows = potential-grows key from t rl ok h.0 in
    let paid = event-potential key x rl at_time in
    let rest =
      granted-potential key t to xs (limiter_event x rl).1 (event-IsSound x rl at_time) h.1 in
    let same_rate : (to - t) * (limiter_event x rl).1.rate ≡ (to - t) * rl.rate =
      ap (λ r. (to - t) * r) (event-rate x rl) in
    let whole = refill_add 0 from t to rl.rate h.0 (ordered-le t to xs h.1) in
    omega (arith, grows, paid, rest, same_rate, whole)

potential-le : (key : Bytes) (now : ℕ) (rl : RateLimiter) → potential key now rl ≤ rl.capacity
unfolding potential potential_of
potential-le key now rl = elim (Option-cases (lookup key rl.buckets)) [
  | inl missing ↦ rw (missing, potential_of) (omega arith)
  | inr (b, found) ↦ rw (found, potential_of) (refilled-le rl now b)
]

-- From any sound state of a limiter, whatever the clients ask and whenever gc ticks, a client is let
-- through in a stretch of time no more often than a full bucket and the refill of that time allow.
pub granted-le :
    (key : Bytes) (from to : ℕ) (xs : List LimiterEvent) (rl : RateLimiter)
    → IsSound from rl
    → IsOrdered from to xs
    → granted key xs rl * token ≤ rl.capacity + (to - from) * rl.rate
granted-le key from to xs rl ok h =
    omega (arith, granted-potential key from to xs rl ok h, potential-le key from rl)
