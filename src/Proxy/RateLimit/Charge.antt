-- ===== src/Proxy/RateLimit/Charge.antt =====
-- cmd/proxy/ratelimit.go: what one call of Allow takes out of the buckets.
use proxy_manager.Prelude.{
  ℕ, ◌+◌, ◌-◌, ◌*◌, ◌≤◌, min, ◌≡◌, ◌∙◌, refl, Bool, true, false, some, Bytes, bytes_eq, ◌==◌, ltb,
  leb, length, Bool-cases, Option-cases, ltb-false→le, inl, inr, ◌⊎◌, arith,
}
use proxy_manager.Prelude.Assoc.{lookup, insert, lookup-insert, insert-HasOneEach, insert-All}
use proxy_manager.Proxy.RateLimit.{
  token, max_buckets, Bucket, RateLimiter, bucket_found, get_or_create, refilled, charge, charge_in,
  allow,
}
use proxy_manager.Proxy.RateLimit.Buckets.{potential_of, potential, IsPast, IsSound}

-- The units that an answer costs.
abbrev pub cost : Bool → ℕ
cost true = token
cost false = 0

refill_now : (c x now r : ℕ) → x ≤ c → min c (x + (now - now) * r) ≡ x
refill_now c x now r h =
    let none_passed : now - now ≡ 0 = omega arith in rw none_passed (omega (arith, h))

pub refilled-le : (rl : RateLimiter) (now : ℕ) (b : Bucket) → refilled rl now b ≤ rl.capacity
unfolding refilled
refilled-le rl now b = omega arith

fresh_refilled :
    (rl : RateLimiter) (now x : ℕ)
    → x ≤ rl.capacity
    → refilled rl now (record { tokens = x; last_refill = now; last_seen = now }) ≡ x
unfolding refilled
fresh_refilled rl now x h = refill_now rl.capacity x now rl.rate h

charge-potential :
    (rl : RateLimiter) (now : ℕ) (b : Bucket)
    → cost (charge rl now b).0 + refilled rl now (charge rl now b).1 ≡ refilled rl now b
unfolding charge
charge-potential rl now b = elim (Bool-cases (ltb (refilled rl now b) token)) [
  | inl short ↦
      rw short (omega (arith, fresh_refilled rl now (refilled rl now b) (refilled-le rl now b)))
  | inr enough ↦
      let paid = ltb-false→le (refilled rl now b) token enough in
      let most = refilled-le rl now b in
      rw enough (rw (fresh_refilled rl now (refilled rl now b - token) (omega arith)) (omega arith))
]

-- The limiter with this client's bucket in it, as Allow finds or makes it.
record IsReady (key : Bytes) (now : ℕ) (rl : RateLimiter) (b : Bucket) (rl' : RateLimiter)
    : Type 0 where
  same_capacity : rl'.capacity ≡ rl.capacity
  same_rate : rl'.rate ≡ rl.rate
  spendable : refilled rl' now b ≡ potential key now rl
  others : (j : Bytes) → (key == j) ≡ false → lookup j rl'.buckets ≡ lookup j rl.buckets
  sound : IsSound now rl → IsSound now rl'

allow-cases :
    (key : Bytes) (now : ℕ) (rl : RateLimiter)
    → (allow key now rl ≡ (false, rl))
      ⊎ ((b : Bucket) × (rl' : RateLimiter) × IsReady key now rl b rl'
          × (allow key now rl ≡ charge_in key now rl' (some b)))
unfolding allow get_or_create bucket_found charge_in potential potential_of
allow-cases key now rl = elim (Option-cases (lookup key rl.buckets)) [
  | inr (b, found) ↦ inr (
    b,
    rl,
    record {
      same_capacity = refl;
      same_rate = refl;
      spendable = rw (found, potential_of) refl;
      others = λ j h. refl;
      sound = λ s. s;
    },
    rw (found, bucket_found) refl,
  )
  | inl missing ↦ elim (Bool-cases (leb max_buckets (length rl.buckets))) [
    | inl full ↦ inl (rw (missing, bucket_found, full) refl)
    | inr room ↦
        let b : Bucket = record { tokens = rl.capacity; last_refill = now; last_seen = now } in
        inr (
          b,
          record rl { buckets = insert key b rl.buckets },
          record {
            same_capacity = refl;
            same_rate = refl;
            spendable =
                rw (missing, potential_of)
                  (unfold refilled in refill_now rl.capacity rl.capacity now rl.rate (omega arith));
            others = λ j h. rw (lookup-insert key j b rl.buckets, h) refl;
            sound = λ s. record {
              full = s.full;
              single = insert-HasOneEach key b rl.buckets s.single;
              past = insert-All (IsPast now) key b rl.buckets (omega arith, omega arith) s.past;
            };
          },
          rw (missing, bucket_found, room) refl,
        )
  ]
]

-- Of a bucket in the limiter: what the charge costs, and what it leaves alone.
charge_in-potential :
    (key : Bytes) (now : ℕ) (rl : RateLimiter) (b : Bucket)
    → cost (charge_in key now rl (some b)).0 + potential key now (charge_in key now rl (some b)).1
      ≡ refilled rl now b
unfolding charge_in potential potential_of refilled
charge_in-potential key now rl b =
    rw (lookup-insert key key (charge rl now b).1 rl.buckets, (bytes_eq.eq_test_iff key key).1 refl)
      (charge-potential rl now b)

charge-IsPast :
    (rl : RateLimiter) (now : ℕ) (b : Bucket)
    → ((charge rl now b).1.last_refill ≤ now)
      × ((charge rl now b).1.last_refill ≤ (charge rl now b).1.last_seen)
unfolding charge
charge-IsPast rl now b = elim (Bool-cases (ltb (refilled rl now b) token)) [
  | inl short ↦ rw short (omega arith, omega arith)
  | inr enough ↦ rw enough (omega arith, omega arith)
]

charge_in-IsSound :
    (key : Bytes) (now : ℕ) (rl : RateLimiter) (b : Bucket)
    → IsSound now rl
    → IsSound now (charge_in key now rl (some b)).1
unfolding charge_in
charge_in-IsSound key now rl b s = record {
  full = s.full;
  single = insert-HasOneEach key _ rl.buckets s.single;
  past = insert-All (IsPast now) key _ rl.buckets (charge-IsPast rl now b) s.past;
}

pub allow-potential :
    (key : Bytes) (now : ℕ) (rl : RateLimiter)
    → cost (allow key now rl).0 + potential key now (allow key now rl).1 ≡ potential key now rl
allow-potential key now rl = elim (allow-cases key now rl) [
  | inl refused ↦ rw refused (omega arith)
  | inr (b, rl', ready, charged) ↦ rw charged (charge_in-potential key now rl' b ∙ ready.spendable)
]

pub allow-IsSound :
    (key : Bytes) (now : ℕ) (rl : RateLimiter) → IsSound now rl → IsSound now (allow key now rl).1
allow-IsSound key now rl s = elim (allow-cases key now rl) [
  | inl refused ↦ rw refused s
  | inr (b, rl', ready, charged) ↦ rw charged (charge_in-IsSound key now rl' b (ready.sound s))
]

pub allow-rate : (key : Bytes) (now : ℕ) (rl : RateLimiter) → (allow key now rl).1.rate ≡ rl.rate
unfolding charge_in
allow-rate key now rl = elim (allow-cases key now rl) [
  | inl refused ↦ rw refused refl
  | inr (b, rl', ready, charged) ↦ rw charged ready.same_rate
]

pub allow-potential_other :
    (key j : Bytes) (now : ℕ) (rl : RateLimiter)
    → (key == j) ≡ false
    → potential j now (allow key now rl).1 ≡ potential j now rl
unfolding charge_in potential potential_of refilled
allow-potential_other key j now rl apart = elim (allow-cases key now rl) [
  | inl refused ↦ rw refused refl
  | inr (b, rl', ready, charged) ↦
      rw
        (
          charged,
          lookup-insert key j (charge rl' now b).1 rl'.buckets,
          apart,
          ready.others j apart,
          ready.same_capacity,
          ready.same_rate,
        )
        refl
]
