-- ===== src/Proxy/Cache/Bounds.antt =====
-- cmd/proxy/cache.go: the bounds of the store, and the eviction that restores them.
use proxy_manager.Prelude.{
  ℕ, zero, suc, ◌≤◌, ◌<◌, ◌≡◌, ◌∙◌, ap, refl, false, [], ◌∷◌, some, Bytes, bytes_eq, length,
  Bool-cases, Option-cases, inl, inr, arith, ltb-false→le, or-false,
}
use proxy_manager.Prelude.Assoc.{HasOneEach, lookup}
use proxy_manager.Proxy.Cache.{
  CacheEntry, Entries, ResponseCache, is_expired, drop_entry, drop_expired, oldest, over_bounds,
  evict_oldest, evict_locked, put, store_entry, cache_max_entries, cache_max_bytes,
}
use proxy_manager.Proxy.Cache.Invariant.{IsSound, total, drop_entry-IsSound, store_entry-IsSound}
use proxy_manager.Proxy.Cache.Oldest.{
  HasAll, oldest-All, oldest-none, HasAll-self, HasAll-delete, length-delete-lt,
}

drop_expired-IsSound :
    (now : ℕ) (rest : Entries) (c : ResponseCache)
    → HasOneEach rest
    → HasAll c.entries rest
    → IsSound c
    → IsSound (drop_expired now rest c)
unfolding drop_expired
drop_expired-IsSound now [] c one has s = s
drop_expired-IsSound now ((k, e) ∷ rest) c one has s = elim (Bool-cases (is_expired c.ttl now e)) [
  | inl stale ↦ rw stale (
      drop_expired-IsSound now rest (drop_entry k e c) one.1
        (unfold drop_entry in HasAll-delete k c.entries rest one.0 has.1)
        (drop_entry-IsSound k e c has.0 s))
  | inr live ↦ rw live (drop_expired-IsSound now rest c one.1 has.1 s)
]

-- A store within its bounds whose count is exact.
pub record IsBounded (c : ResponseCache) : Type 0 where
  pub sound : IsSound c
  pub few : length c.entries ≤ cache_max_entries
  pub small : c.bytes ≤ cache_max_bytes

within_bounds : (c : ResponseCache) → over_bounds c ≡ false → IsSound c → IsBounded c
unfolding over_bounds
within_bounds c h s =
    let (few, small) = or-false _ _ h in
    record { sound = s; few = ltb-false→le _ _ few; small = ltb-false→le _ _ small }

-- An empty store is within its bounds, so the loop finds an entry to drop.
empty_within : (c : ResponseCache) → IsSound c → c.entries ≡ [] → over_bounds c ≡ false
unfolding over_bounds
empty_within c s e =
    let none_stored : c.bytes ≡ 0 = s.counted ∙ ap total e in
    let no_entries : length c.entries ≡ 0 = ap length e in rw (no_entries, none_stored) refl

evict_oldest-IsBounded :
    (fuel : ℕ) (c : ResponseCache)
    → length c.entries < fuel
    → IsSound c
    → (c' : ResponseCache) × (evict_oldest fuel c ≡ some c') × IsBounded c'
unfolding evict_oldest
evict_oldest-IsBounded zero c h s = elim h [ ]
evict_oldest-IsBounded (suc fuel) c h s = elim (Bool-cases (over_bounds c)) [
  | inr within ↦ (c, rw (within, evict_oldest) refl, within_bounds c within s)
  | inl over ↦ elim (Option-cases (oldest c.entries)) [
    | inl nothing ↦ let ok = empty_within c s (oldest-none c.entries nothing) in absurd (cc)
    | inr ((k, e), found) ↦
        let held =
          oldest-All (λ x. lookup x.0 c.entries ≡ some x.1) c.entries (k, e)
            (HasAll-self c.entries s.single) found in
        let fewer = length-delete-lt k c.entries e held in
        let (c', ends, ok) =
          evict_oldest-IsBounded fuel (drop_entry k e c) (unfold drop_entry in omega arith)
            (drop_entry-IsSound k e c held s) in
        (c', rw (over, evict_oldest, found) ends, ok)
  ]
]

evict_locked-IsBounded :
    (now : ℕ) (c : ResponseCache)
    → IsSound c
    → (c' : ResponseCache) × (evict_locked now c ≡ some c') × IsBounded c'
unfolding evict_locked
evict_locked-IsBounded now c s =
    let swept = drop_expired now c.entries c in
    evict_oldest-IsBounded (suc (length swept.entries)) swept (omega arith)
      (drop_expired-IsSound now c.entries c s.single (HasAll-self c.entries s.single) s)

-- A put always returns, and leaves the store with at most 1024 entries and 32 MiB of bodies, each
-- key once and the byte count exact, whatever the store and however large the new body; where the
-- store was sound before.
pub put-IsBounded :
    (key : Bytes) (e : CacheEntry) (now : ℕ) (c : ResponseCache)
    → IsSound c
    → (c' : ResponseCache) × (put key e now c ≡ some c') × IsBounded c'
unfolding put
put-IsBounded key e now c s =
    let stored = store_entry key e c in
    let ok = store_entry-IsSound key e c s in
    elim (Bool-cases (over_bounds stored)) [
      | inl over ↦ rw (over, put) (evict_locked-IsBounded now stored ok)
      | inr within ↦ (stored, rw (within, put) refl, within_bounds stored within ok)
    ]
