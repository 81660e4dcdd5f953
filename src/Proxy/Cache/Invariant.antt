-- ===== src/Proxy/Cache/Invariant.antt =====
-- cmd/proxy/cache.go: the byte count and the keys of the store, through its operations.
use proxy_manager.Prelude.{
  ℕ, ◌+◌, ◌≡◌, subst, refl, [], ◌∷◌, some, Bytes, bytes_eq, nat_eq, ◌==◌, length, Bool-cases,
  Option-cases, inl, inr, arith,
}
use proxy_manager.Prelude.Assoc.{
  lookup, insert, delete, HasOneEach, delete-absent, delete-HasOneEach, insert-HasOneEach,
}
use proxy_manager.Proxy.Cache.{
  CacheEntry, Entries, ResponseCache, new_response_cache, set_ttl, is_expired, drop_entry, get,
  get_found, body_size, store_entry,
}

abbrev pub total : Entries → ℕ
total [] = 0
total ((k, e) ∷ m) = length e.body + total m

pub record IsSound (c : ResponseCache) : Type 0 where
  pub counted : c.bytes ≡ total c.entries
  pub single : HasOneEach c.entries

pub total-delete :
    (k : Bytes) (m : Entries) → HasOneEach m → total (delete k m) + body_size (lookup k m) ≡ total m
total-delete k [] h = refl
total-delete k ((j, e) ∷ m) h =
    ground (arith, total-delete k m h.1, bytes_eq.eq_test_iff j k, delete-absent k m)

pub total-insert :
    (k : Bytes) (e : CacheEntry) (m : Entries)
    → total (insert k e m) + body_size (lookup k m) ≡ total m + length e.body
total-insert k e [] = omega arith
total-insert k e ((j, f) ∷ m) = ground (arith, total-insert k e m)

-- Dropping an entry of the store keeps its count exact: the subtraction never stops at 0.
pub drop_entry-IsSound :
    (k : Bytes) (e : CacheEntry) (c : ResponseCache)
    → lookup k c.entries ≡ some e
    → IsSound c
    → IsSound (drop_entry k e c)
unfolding drop_entry
drop_entry-IsSound k e c at s = record {
  counted = omega (arith, s.counted, freed);
  single = delete-HasOneEach k c.entries s.single;
}
  where
    freed : total (delete k c.entries) + length e.body ≡ total c.entries
    freed =
        subst (λ o. total (delete k c.entries) + body_size o ≡ total c.entries) at
          (total-delete k c.entries s.single)

pub store_entry-IsSound :
    (k : Bytes) (e : CacheEntry) (c : ResponseCache) → IsSound c → IsSound (store_entry k e c)
unfolding store_entry
store_entry-IsSound k e c s = record {
  counted = omega (arith, s.counted, total-insert k e c.entries, total-delete k c.entries s.single);
  single = insert-HasOneEach k e c.entries s.single;
}

new_response_cache-IsSound : (ttl : ℕ) → IsSound (new_response_cache ttl)
unfolding new_response_cache
new_response_cache-IsSound ttl = record { counted = refl; single = tt }

pub set_ttl-IsSound : (d : ℕ) (c : ResponseCache) → IsSound c → IsSound (set_ttl d c)
unfolding set_ttl
set_ttl-IsSound d c s = elim (Bool-cases (d == c.ttl)) [
  | inl same ↦ rw same s
  | inr other ↦ rw other (record { counted = refl; single = tt })
]

pub get-IsSound : (k : Bytes) (now : ℕ) (c : ResponseCache) → IsSound c → IsSound (get k now c).1
unfolding get get_found
get-IsSound k now c s = elim (Option-cases (lookup k c.entries)) [
  | inl missing ↦ rw (missing, get_found) s
  | inr (e, found) ↦
      rw (found, get_found)
        (elim (Bool-cases (is_expired c.ttl now e)) [
          | inl stale ↦ rw stale (drop_entry-IsSound k e c found s)
          | inr live ↦ rw live s
        ])
]
