-- ===== src/Proxy/RateLimit/Buckets.antt =====
-- cmd/proxy/ratelimit.go: what a client could spend at a time, and what gc does to it.
use native.Mathlib.Nat.{add-mul}
use proxy_manager.Prelude.{
  ℕ, ◌+◌, ◌-◌, ◌*◌, ◌≤◌, ◌<◌, min, ◌≡◌, sym, subst, refl, List, [], ◌∷◌, Option, none, some, Bytes,
  bytes_eq, ◌==◌, ltb, All, Bool-cases, Option-cases, ltb→lt, inl, inr, arith,
}
use proxy_manager.Prelude.Assoc.{lookup, HasOneEach, lookup-All}
use proxy_manager.Proxy.RateLimit.{token, idle_evict, Bucket, RateLimiter, refilled, sweep, gc}

-- Refills add up.
pub refill_add : (x l s t r : ℕ) → l ≤ s → s ≤ t → x + (t - l) * r ≡ (x + (s - l) * r) + (t - s) * r
refill_add x l s t r h k =
    let split : t - l ≡ (s - l) + (t - s) = omega (arith, h, k) in
    rw (split, add-mul (s - l) (t - s) r) (omega arith)

-- A minimum grows by no more than what is added.
min_grows : (c a d : ℕ) → min c (a + d) ≤ min c a + d
min_grows c a d = omega arith

refilled-grows :
    (rl : RateLimiter) (s t : ℕ) (b : Bucket)
    → b.last_refill ≤ s
    → s ≤ t
    → refilled rl t b ≤ refilled rl s b + (t - s) * rl.rate
unfolding refilled
refilled-grows rl s t b h k =
    rw (refill_add b.tokens b.last_refill s t rl.rate h k)
      (min_grows rl.capacity (b.tokens + (s - b.last_refill) * rl.rate) ((t - s) * rl.rate))

-- What a client could spend now: its bucket refilled, or the full one it would get.
unfoldable pub potential_of : RateLimiter → ℕ → Option Bucket → ℕ
potential_of rl now none = rl.capacity
potential_of rl now (some b) = refilled rl now b

unfoldable pub potential : Bytes → ℕ → RateLimiter → ℕ
unfolding potential_of
potential key now rl = potential_of rl now (lookup key rl.buckets)

abbrev pub IsPast : ℕ → Bytes × Bucket → Type 0
IsPast now e = (e.1.last_refill ≤ now) × (e.1.last_refill ≤ e.1.last_seen)

pub record IsSound (now : ℕ) (rl : RateLimiter) : Type 0 where
  pub full : rl.capacity ≡ rl.rate * token
  pub single : HasOneEach rl.buckets
  pub past : All (IsPast now) rl.buckets

pub potential-grows :
    (key : Bytes) (s t : ℕ) (rl : RateLimiter)
    → IsSound s rl
    → s ≤ t
    → potential key t rl ≤ potential key s rl + (t - s) * rl.rate
unfolding potential potential_of
potential-grows key s t rl ok h = elim (Option-cases (lookup key rl.buckets)) [
  | inl missing ↦ rw (missing, potential_of) (omega arith)
  | inr (b, found) ↦
      let past = lookup-All (IsPast s) key b rl.buckets ok.past found in
      rw (found, potential_of) (refilled-grows rl s t b past.0 h)
]

pub later-All : (s t : ℕ) (m : List (Bytes × Bucket)) → s ≤ t → All (IsPast s) m → All (IsPast t) m
later-All s t [] h p = tt
later-All s t (e ∷ m) h p = ((omega (arith, h, p.0.0), p.0.1), later-All s t m h p.1)

-- A bucket that nobody used for half an hour is full.
idle_full :
    (c x r l seen now : ℕ)
    → c ≡ r * token
    → l ≤ seen
    → seen + idle_evict < now
    → min c (x + (now - l) * r) ≡ c
idle_full c x r l seen now full h k =
    let split : now - l ≡ idle_evict + (now - l - idle_evict) = omega (arith, h, k) in
    rw (split, add-mul idle_evict (now - l - idle_evict) r) (omega (arith, full))

sweep-lookup-none :
    (key : Bytes) (now : ℕ) (m : List (Bytes × Bucket))
    → lookup key m ≡ none
    → lookup key (sweep now m) ≡ none
unfolding sweep
sweep-lookup-none key now [] h = refl
sweep-lookup-none key now ((k, b) ∷ m) h = elim (Bool-cases (k == key)) [
  | inl same ↦ absurd (ground (arith, same, h))
  | inr apart ↦
      let rest = sweep-lookup-none key now m (ground (arith, apart, h)) in
      elim (Bool-cases (ltb (b.last_seen + idle_evict) now)) [
        | inl idle ↦ rw idle rest
        | inr used ↦ rw (used, apart) rest
      ]
]

pub sweep-potential :
    (key : Bytes) (now : ℕ) (rl : RateLimiter) (m : List (Bytes × Bucket))
    → rl.capacity ≡ rl.rate * token
    → HasOneEach m
    → All (IsPast now) m
    → potential_of rl now (lookup key (sweep now m)) ≡ potential_of rl now (lookup key m)
unfolding sweep potential_of refilled
sweep-potential key now rl [] full one past = refl
sweep-potential key now rl ((k, b) ∷ m) full one past =
    let rest = sweep-potential key now rl m full one.1 past.1 in
    elim (Bool-cases (ltb (b.last_seen + idle_evict) now)) [
      | inr used ↦ elim (Bool-cases (k == key)) [
        | inl same ↦ rw (used, same) refl
        | inr apart ↦ rw (used, apart) rest
      ]
      | inl idle ↦ elim (Bool-cases (k == key)) [
        | inl same ↦
            let gone =
              sweep-lookup-none key now m
                (subst (λ i. lookup i m ≡ none) ((bytes_eq.eq_test_iff k key).0 same) one.0) in
            rw (idle, same, gone, potential_of)
              (sym (
                idle_full rl.capacity b.tokens rl.rate b.last_refill b.last_seen now full past.0.1
                  (ltb→lt _ _ idle)))
        | inr apart ↦ rw (idle, apart) rest
      ]
    ]

sweep-All :
    (P : Bytes × Bucket → Type 0) (now : ℕ) (m : List (Bytes × Bucket))
    → All P m
    → All P (sweep now m)
unfolding sweep
sweep-All P now [] h = tt
sweep-All P now ((k, b) ∷ m) h = elim (Bool-cases (ltb (b.last_seen + idle_evict) now)) [
  | inl idle ↦ rw idle (sweep-All P now m h.1)
  | inr used ↦ rw used (h.0, sweep-All P now m h.1)
]

sweep-HasOneEach : (now : ℕ) (m : List (Bytes × Bucket)) → HasOneEach m → HasOneEach (sweep now m)
unfolding sweep
sweep-HasOneEach now [] h = tt
sweep-HasOneEach now ((k, b) ∷ m) h = elim (Bool-cases (ltb (b.last_seen + idle_evict) now)) [
  | inl idle ↦ rw idle (sweep-HasOneEach now m h.1)
  | inr used ↦ rw used (sweep-lookup-none k now m h.0, sweep-HasOneEach now m h.1)
]

pub gc-IsSound : (now : ℕ) (rl : RateLimiter) → IsSound now rl → IsSound now (gc now rl)
unfolding gc
gc-IsSound now rl ok = record {
  full = ok.full;
  single = sweep-HasOneEach now rl.buckets ok.single;
  past = sweep-All (IsPast now) now rl.buckets ok.past;
}
