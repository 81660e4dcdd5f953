-- ===== src/Proxy/Cache.antt =====
-- cmd/proxy/cache.go, `responseCache`: a route's store of responses, with its bounds, its eviction
-- and the coalescing of fills. The order in which Go ranges over a map is that of the list. Fills
-- are pointers in Go, references here. `bytes` is an int64 there; that it never falls below 0, so
-- that the subtraction of ℕ is Go's, is part of the invariant of Cache/Invariant.
pub mod Oldest
pub mod Invariant
pub mod Bounds
pub mod Reads
pub mod Fills
use proxy_manager.Prelude.{
  ℕ, zero, suc, ◌+◌, ◌-◌, ◌*◌, ◌^◌, Bool, true, false, not, ◌&&◌, ◌||◌, List, [], ◌∷◌, Option, none,
  some, Bytes, bytes_eq, nat_eq, ◌==◌, ltb, leb, if◌then◌else◌, length,
}
use proxy_manager.Prelude.Assoc.{lookup, insert, delete}

abbrev pub cache_max_body : ℕ
cache_max_body = 2 ^ 20

abbrev pub cache_max_entries : ℕ
cache_max_entries = 1024

abbrev pub cache_max_bytes : ℕ
cache_max_bytes = 32 * 2 ^ 20

pub record CacheEntry : Type 0 where
  pub status : ℕ
  pub header : List (Bytes × List Bytes)
  pub body : Bytes
  pub stored_at : ℕ

abbrev pub Entries : Type 0
Entries = List (Bytes × CacheEntry)

pub record ResponseCache : Type 0 where
  pub ttl : ℕ
  pub entries : Entries
  pub inflight : List (Bytes × ℕ)
  pub bytes : ℕ
  pub next_fill : ℕ

unfoldable pub new_response_cache : ℕ → ResponseCache
new_response_cache ttl = record { ttl = ttl; entries = []; inflight = []; bytes = 0; next_fill = 0 }

-- A change of the TTL empties the store.
unfoldable pub set_ttl : ℕ → ResponseCache → ResponseCache
set_ttl d c = if d == c.ttl then c else record c { ttl = d; entries = []; bytes = 0 }

-- `!now.Before(e.storedAt.Add(c.ttl))`
unfoldable pub is_expired : ℕ → ℕ → CacheEntry → Bool
is_expired ttl now e = not (ltb now (e.stored_at + ttl))

unfoldable pub drop_entry : Bytes → CacheEntry → ResponseCache → ResponseCache
drop_entry key e c = record c { entries = delete key c.entries; bytes = c.bytes - length e.body }

get_found : Bytes → ℕ → ResponseCache → Option CacheEntry → Option CacheEntry × ResponseCache
get_found key now c none = (none, c)
get_found key now c (some e) =
    if is_expired c.ttl now e then (none, drop_entry key e c) else (some e, c)

unfoldable pub get : Bytes → ℕ → ResponseCache → Option CacheEntry × ResponseCache
unfolding get_found
get key now c = get_found key now c (lookup key c.entries)

-- The first pass of evictLocked, over the entries as they stood before it.
unfoldable pub drop_expired : ℕ → Entries → ResponseCache → ResponseCache
drop_expired now [] c = c
drop_expired now ((k, e) ∷ rest) c =
    drop_expired now rest (if is_expired c.ttl now e then drop_entry k e c else c)

-- The scan for the oldest entry; the first of several stays.
unfoldable pub oldest_from : Bytes × CacheEntry → Entries → Bytes × CacheEntry
oldest_from best [] = best
oldest_from best ((k, e) ∷ rest) =
    oldest_from (if ltb e.stored_at best.1.stored_at then (k, e) else best) rest

unfoldable pub oldest : Entries → Option (Bytes × CacheEntry)
oldest [] = none
oldest (x ∷ xs) = some (oldest_from x xs)

unfoldable pub over_bounds : ResponseCache → Bool
over_bounds c = ltb cache_max_entries (length c.entries) || ltb cache_max_bytes c.bytes

-- The second pass: `none` is the fault of an empty store that is over its bounds, or spent fuel.
unfoldable pub evict_oldest : ℕ → ResponseCache → Option ResponseCache
evict_oldest zero c = none
evict_oldest (suc fuel) c = elim (over_bounds c) [
  | false ↦ some c
  | true ↦ elim (oldest c.entries) [
    | none ↦ none
    | some (k, e) ↦ evict_oldest fuel (drop_entry k e c)
  ]
]

unfoldable pub evict_locked : ℕ → ResponseCache → Option ResponseCache
evict_locked now c =
    let c' = drop_expired now c.entries c in evict_oldest (suc (length c'.entries)) c'

abbrev pub body_size : Option CacheEntry → ℕ
body_size none = 0
body_size (some e) = length e.body

unfoldable pub store_entry : Bytes → CacheEntry → ResponseCache → ResponseCache
store_entry key e c = record c {
  entries = insert key e c.entries;
  bytes = c.bytes - body_size (lookup key c.entries) + length e.body;
}

unfoldable pub put : Bytes → CacheEntry → ℕ → ResponseCache → Option ResponseCache
put key e now c =
    let c' = store_entry key e c in if over_bounds c' then evict_locked now c' else some c'

begin_found : Bytes → ResponseCache → Option ℕ → (ℕ × Bool) × ResponseCache
begin_found key c (some f) = ((f, false), c)
begin_found key c none = (
  (c.next_fill, true),
  record c { inflight = insert key c.next_fill c.inflight; next_fill = suc c.next_fill },
)

-- The fill to wait for, or a new one that the caller owns.
unfoldable pub begin_fill : Bytes → ResponseCache → (ℕ × Bool) × ResponseCache
unfolding begin_found
begin_fill key c = begin_found key c (lookup key c.inflight)

abbrev pub is_fill : Option ℕ → ℕ → Bool
is_fill none f = false
is_fill (some g) f = g == f

unfoldable pub end_fill : Bytes → ℕ → ResponseCache → ResponseCache
end_fill key f c =
    if is_fill (lookup key c.inflight) f then record c { inflight = delete key c.inflight } else c
