-- ===== src/Proxy/Cache/Reads.antt =====
-- What a read of the store returns.
use proxy_manager.Prelude.{
  ℕ, ◌+◌, ◌<◌, ◌≡◌, ◌↔◌, refl, false, Option, none, some, Bytes, bytes_eq, nat_eq, ◌==◌,
  if◌then◌else◌, Bool-cases, Option-cases, inl, inr, arith,
}
use proxy_manager.Prelude.Assoc.{lookup, lookup-insert}
use proxy_manager.Proxy.Cache.{
  CacheEntry, ResponseCache, is_expired, get, get_found, over_bounds, put, store_entry,
}

live_iff :
    (ttl now : ℕ) (e : CacheEntry) → (is_expired ttl now e ≡ false) ↔ (now < e.stored_at + ttl)
unfolding is_expired
live_iff ttl now e = (ground arith, ground arith)

-- A read returns the stored response until it has lived for the TTL, and never after.
pub get-some_iff :
    (k : Bytes) (now : ℕ) (c : ResponseCache) (e : CacheEntry)
    → ((get k now c).0 ≡ some e) ↔ ((lookup k c.entries ≡ some e) × (now < e.stored_at + c.ttl))
unfolding get get_found
get-some_iff k now c e = elim (Option-cases (lookup k c.entries)) [
  | inl missing ↦ rw (missing, get_found) ((λ h. absurd (cc)), (λ h. absurd (cc)))
  | inr (f, found) ↦
      rw (found, get_found)
        (elim (Bool-cases (is_expired c.ttl now f)) [
          | inl stale ↦ rw stale (
            (λ h. absurd (cc)),
            (λ h.
                let same : f ≡ e = ground (arith, h.0) in
                let live = (live_iff c.ttl now e).1 h.1 in absurd (cc)),
          )
          | inr live ↦ rw live (
            (λ h. (
              h,
              (live_iff c.ttl now e).0 (let same : f ≡ e = ground (arith, h) in rw (← same) live),
            )),
            (λ h. h.0),
          )
        ])
]

-- What of a stored entry a read returns.
pub unless_expired : ℕ → ℕ → Option CacheEntry → Option CacheEntry
unless_expired ttl now none = none
unless_expired ttl now (some e) = if is_expired ttl now e then none else some e

pub get_lem :
    (k : Bytes) (now : ℕ) (c : ResponseCache)
    → (get k now c).0 ≡ unless_expired c.ttl now (lookup k c.entries)
unfolding get get_found unless_expired
get_lem k now c = elim (Option-cases (lookup k c.entries)) [
  | inl missing ↦ rw (missing, get_found, unless_expired) refl
  | inr (f, found) ↦
      rw (found, get_found, unless_expired)
        (elim (Bool-cases (is_expired c.ttl now f)) [
          | inl stale ↦ rw stale refl
          | inr live ↦ rw live refl
        ])
]

-- Within the bounds a put is read back until its TTL has passed, and the reads of the other keys
-- are those of before, so that no key ever answers with another's response.
pub get-put :
    (key k : Bytes) (e : CacheEntry) (now later : ℕ) (c : ResponseCache)
    → over_bounds (store_entry key e c) ≡ false
    → later < e.stored_at + c.ttl
    → (c' : ResponseCache) × (put key e now c ≡ some c')
      × ((get k later c').0 ≡ (if key == k then some e else (get k later c).0))
unfolding put store_entry unless_expired
get-put key k e now later c within alive = (store_entry key e c, rw (within, put) refl, read)
  where
    read : (get k later (store_entry key e c)).0 ≡ (if key == k then some e else (get k later c).0)
    read =
        rw
          (
            get_lem k later (store_entry key e c),
            get_lem k later c,
            lookup-insert key k e c.entries,
          )
          (elim (Bool-cases (key == k)) [
            | inl same ↦ rw (same, (live_iff c.ttl later e).1 alive) refl
            | inr apart ↦ rw apart refl
          ])
