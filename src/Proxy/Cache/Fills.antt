-- ===== src/Proxy/Cache/Fills.antt =====
-- cmd/proxy/cache.go: the fills in flight and the requests that own them, over the calls of all requests.
use proxy_manager.Prelude.{
  ℕ, zero, suc, ◌≡◌, ◌∙◌, sym, ap, refl, true, false, List, [], ◌∷◌, ◌++◌, none, some, Bytes,
  bytes_eq, nat_eq, ◌==◌, if◌then◌else◌, length, Bool-cases, Option-cases, inl, inr, arith,
}
use proxy_manager.Prelude.Assoc.{HasOneEach, lookup, insert, lookup-insert, lookup-delete}
use proxy_manager.Proxy.Cache.{
  CacheEntry, Entries, ResponseCache, new_response_cache, set_ttl, is_expired, drop_entry, get,
  get_found, drop_expired, oldest, over_bounds, evict_oldest, evict_locked, store_entry, put,
  begin_fill, begin_found, end_fill,
}

-- The requests that own a fill, with its key. One that waited in vain fetches the key as nobody's
-- owner, and is not among them.
abbrev pub Owners : Type 0
Owners = List (Bytes × ℕ)

-- The calls of the handler on the store, in any interleaving of the requests.
pub data Reached : ResponseCache → Owners → Type 0 where
  fresh : (ttl : ℕ) → Reached (new_response_cache ttl) []
  claimed :
      (k : Bytes) (f : ℕ) {c : ResponseCache} (c' : ResponseCache) {os : Owners}
      → Reached c os
      → begin_fill k c ≡ ((f, true), c')
      → Reached c' ((k, f) ∷ os)
  parked :
      (k : Bytes) (f : ℕ) {c : ResponseCache} (c' : ResponseCache) {os : Owners}
      → Reached c os
      → begin_fill k c ≡ ((f, false), c')
      → Reached c' os
  ended :
      (k : Bytes) (f : ℕ) {c : ResponseCache} (xs ys : Owners)
      → Reached c (xs ++ (k, f) ∷ ys)
      → Reached (end_fill k f c) (xs ++ ys)
  read_from :
      (k : Bytes) (now : ℕ) {c : ResponseCache} {os : Owners}
      → Reached c os
      → Reached (get k now c).1 os
  stored :
      (k : Bytes) (e : CacheEntry) (now : ℕ) {c : ResponseCache} (c' : ResponseCache) {os : Owners}
      → Reached c os
      → put k e now c ≡ some c'
      → Reached c' os
  retimed : (d : ℕ) {c : ResponseCache} {os : Owners} → Reached c os → Reached (set_ttl d c) os

-- Each key has one owner at most, and is in flight exactly while it has one.
pub record IsClaimed (c : ResponseCache) (os : Owners) : Type 0 where
  pub single : HasOneEach os
  pub held : (k : Bytes) → lookup k c.inflight ≡ lookup k os

lookup-owner :
    (xs ys : Owners) (k : Bytes) (f : ℕ)
    → HasOneEach (xs ++ (k, f) ∷ ys)
    → lookup k (xs ++ (k, f) ∷ ys) ≡ some f
lookup-owner [] ys k f h = rw ((bytes_eq.eq_test_iff k k).1 refl) refl
lookup-owner ((i, g) ∷ xs) ys k f h =
    ground (arith, lookup-owner xs ys k f h.1, bytes_eq.eq_test_iff i k, h.0)

lookup-without :
    (xs ys : Owners) (k j : Bytes) (f : ℕ)
    → HasOneEach (xs ++ (k, f) ∷ ys)
    → lookup j (xs ++ ys) ≡ (if k == j then none else lookup j (xs ++ (k, f) ∷ ys))
lookup-without [] ys k j f h = ground (arith, bytes_eq.eq_test_iff k j, h.0)
lookup-without ((i, g) ∷ xs) ys k j f h = ground (
  arith,
  bytes_eq.eq_test_iff k j,
  bytes_eq.eq_test_iff i j,
  lookup-owner xs ys k f h.1,
  lookup-without xs ys k j f h.1,
  h.0,
)

HasOneEach-without :
    (xs ys : Owners) (k : Bytes) (f : ℕ) → HasOneEach (xs ++ (k, f) ∷ ys) → HasOneEach (xs ++ ys)
HasOneEach-without [] ys k f h = h.1
HasOneEach-without ((i, g) ∷ xs) ys k f h =
    (ground (arith, lookup-without xs ys k i f h.1, h.0), HasOneEach-without xs ys k f h.1)

drop_expired-inflight :
    (now : ℕ) (rest : Entries) (c : ResponseCache) → (drop_expired now rest c).inflight ≡ c.inflight
unfolding drop_expired drop_entry
drop_expired-inflight now [] c = refl
drop_expired-inflight now ((k, e) ∷ rest) c = elim (Bool-cases (is_expired c.ttl now e)) [
  | inl stale ↦ rw (stale, drop_expired) (drop_expired-inflight now rest (drop_entry k e c))
  | inr live ↦ rw (live, drop_expired) (drop_expired-inflight now rest c)
]

evict_oldest-inflight :
    (fuel : ℕ) (c c' : ResponseCache) → evict_oldest fuel c ≡ some c' → c'.inflight ≡ c.inflight
unfolding evict_oldest drop_entry
evict_oldest-inflight zero c c' = λ h. cc
evict_oldest-inflight (suc fuel) c c' = elim (Bool-cases (over_bounds c)) [
  | inr within ↦ rw (within, evict_oldest) (λ h. ground (arith, h))
  | inl over ↦ elim (Option-cases (oldest c.entries)) [
    | inl nothing ↦ rw (over, evict_oldest, nothing) (λ h. absurd (cc))
    | inr ((k, e), found) ↦
        rw (over, evict_oldest, found) (λ h. evict_oldest-inflight fuel (drop_entry k e c) c' h)
  ]
]

pub put-inflight :
    (k : Bytes) (e : CacheEntry) (now : ℕ) (c c' : ResponseCache)
    → put k e now c ≡ some c'
    → c'.inflight ≡ c.inflight
unfolding put evict_locked store_entry
put-inflight k e now c c' =
    let c1 = store_entry k e c in
    let c2 = drop_expired now c1.entries c1 in
    elim (Bool-cases (over_bounds c1)) [
      | inl over ↦
          rw (over, put)
            (λ h.
              evict_oldest-inflight (suc (length c2.entries)) c2 c' h
              ∙ drop_expired-inflight now c1.entries c1)
      | inr within ↦ rw (within, put) (λ h. ground (arith, h))
    ]

get-inflight : (k : Bytes) (now : ℕ) (c : ResponseCache) → (get k now c).1.inflight ≡ c.inflight
unfolding get get_found drop_entry
get-inflight k now c = elim (Option-cases (lookup k c.entries)) [
  | inl missing ↦ rw (missing, get_found) refl
  | inr (e, found) ↦
      rw (found, get_found)
        (elim (Bool-cases (is_expired c.ttl now e)) [
          | inl stale ↦ rw stale refl
          | inr live ↦ rw live refl
        ])
]

set_ttl-inflight : (d : ℕ) (c : ResponseCache) → (set_ttl d c).inflight ≡ c.inflight
unfolding set_ttl
set_ttl-inflight d c = elim (Bool-cases (d == c.ttl)) [
  | inl same ↦ rw same refl
  | inr other ↦ rw other refl
]

claims_of :
    (k : Bytes) (f : ℕ) (c c' : ResponseCache)
    → begin_fill k c ≡ ((f, true), c')
    → (lookup k c.inflight ≡ none) × (c'.inflight ≡ insert k f c.inflight)
unfolding begin_fill begin_found
claims_of k f c c' = elim (Option-cases (lookup k c.inflight)) [
  | inl free ↦
      rw (free, begin_found)
        (λ h. (
          refl,
          sym (ap (λ x. x.1.inflight) h) ∙ ap (λ n. insert k n c.inflight) (ap (λ x. x.0.0) h),
        ))
  | inr (g, taken) ↦ rw (taken, begin_found) (λ h. absurd (cc))
]

parks_of : (k : Bytes) (f : ℕ) (c c' : ResponseCache) → begin_fill k c ≡ ((f, false), c') → c' ≡ c
unfolding begin_fill begin_found
parks_of k f c c' = elim (Option-cases (lookup k c.inflight)) [
  | inl free ↦ rw (free, begin_found) (λ h. absurd (cc))
  | inr (g, taken) ↦ rw (taken, begin_found) (λ h. sym (ap (λ x. x.1) h))
]

pub end_fill-held :
    (k j : Bytes) (f : ℕ) (c : ResponseCache)
    → lookup k c.inflight ≡ some f
    → lookup j (end_fill k f c).inflight ≡ (if k == j then none else lookup j c.inflight)
unfolding end_fill
end_fill-held k j f c h = rw (h, (nat_eq.eq_test_iff f f).1 refl) (lookup-delete k j c.inflight)

-- In any interleaving of the calls of all requests, each key has at most one registered owner of its
-- fill, and the store has a fill in flight for a key exactly while the owner that it names has not
-- ended it, so that nobody waits for a fill that no request will end.
pub fills-IsClaimed : {c : ResponseCache} {os : Owners} → Reached c os → IsClaimed c os
unfolding new_response_cache
fills-IsClaimed (fresh ttl) = record { single = tt; held = λ k. refl }
fills-IsClaimed (claimed k f {c = c} c' r h) =
    let before = fills-IsClaimed r in
    let (free, added) = claims_of k f c c' h in
    record {
      single = (sym (before.held k) ∙ free, before.single);
      held = λ j. rw (added, lookup-insert k j f c.inflight, before.held j) refl;
    }
fills-IsClaimed (parked k f {c = c} c' r h) = rw (parks_of k f c c' h) (fills-IsClaimed r)
fills-IsClaimed (ended k f {c = c} xs ys r) =
    let before = fills-IsClaimed r in
    let owned = before.held k ∙ lookup-owner xs ys k f before.single in
    record {
      single = HasOneEach-without xs ys k f before.single;
      held = λ j.
          rw (end_fill-held k j f c owned, before.held j)
            (sym (lookup-without xs ys k j f before.single));
    }
fills-IsClaimed (read_from k now {c = c} r) =
    let before = fills-IsClaimed r in
    record {
      single = before.single;
      held = λ j. ap (lookup j) (get-inflight k now c) ∙ before.held j;
    }
fills-IsClaimed (stored k e now {c = c} c' r h) =
    let before = fills-IsClaimed r in
    record {
      single = before.single;
      held = λ j. ap (lookup j) (put-inflight k e now c c' h) ∙ before.held j;
    }
fills-IsClaimed (retimed d {c = c} r) =
    let before = fills-IsClaimed r in
    record {
      single = before.single;
      held = λ j. ap (lookup j) (set_ttl-inflight d c) ∙ before.held j;
    }
