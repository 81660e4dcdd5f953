-- ===== src/Proxy/Cache/Oldest.antt =====
-- The entry that eviction drops, and the loops that drop entries.
use proxy_manager.Prelude.{
  ◌≤◌, ◌<◌, ◌≡◌, subst, refl, [], ◌∷◌, none, some, Bytes, bytes_eq, ltb, length, All, Bool-cases,
  inl, inr, arith,
}
use proxy_manager.Prelude.Assoc.{HasOneEach, lookup, delete, lookup-delete}
use proxy_manager.Proxy.Cache.{CacheEntry, Entries, oldest_from, oldest}

-- The store has each of these entries under its key.
abbrev pub HasAll : Entries → Entries → Type 0
HasAll m xs = All (λ x. lookup x.0 m ≡ some x.1) xs

oldest_from-All :
    (P : Bytes × CacheEntry → Type 0) (best : Bytes × CacheEntry) (xs : Entries)
    → P best
    → All P xs
    → P (oldest_from best xs)
unfolding oldest_from
oldest_from-All P best [] p h = p
oldest_from-All P best ((k, e) ∷ xs) p h = elim (Bool-cases (ltb e.stored_at best.1.stored_at)) [
  | inl older ↦ rw older (oldest_from-All P (k, e) xs h.0 h.1)
  | inr not_older ↦ rw not_older (oldest_from-All P best xs p h.1)
]

pub oldest-All :
    (P : Bytes × CacheEntry → Type 0) (xs : Entries) (x : Bytes × CacheEntry)
    → All P xs
    → oldest xs ≡ some x
    → P x
unfolding oldest
oldest-All P [] x h e = cc
oldest-All P (y ∷ xs) x h e = subst P (ground arith) (oldest_from-All P y xs h.0 h.1)

pub oldest-none : (xs : Entries) → oldest xs ≡ none → xs ≡ []
unfolding oldest
oldest-none [] h = refl
oldest-none (x ∷ xs) h = cc

-- A lookup in a longer list, past a key that is not the one looked for.
HasAll-cons :
    (k : Bytes) (e : CacheEntry) (m xs : Entries)
    → lookup k xs ≡ none
    → HasAll m xs
    → HasAll ((k, e) ∷ m) xs
HasAll-cons k e m [] h p = tt
HasAll-cons k e m ((j, f) ∷ xs) h p = (
  ground (arith, lookup-delete k j m, bytes_eq.eq_test_iff j k, bytes_eq.eq_test_iff k j, p.0),
  HasAll-cons k e m xs (ground arith) p.1,
)

pub HasAll-self : (m : Entries) → HasOneEach m → HasAll m m
HasAll-self [] h = tt
HasAll-self ((k, e) ∷ m) h =
    (rw ((bytes_eq.eq_test_iff k k).1 refl) refl, HasAll-cons k e m m h.0 (HasAll-self m h.1))

pub HasAll-delete :
    (k : Bytes) (m xs : Entries) → lookup k xs ≡ none → HasAll m xs → HasAll (delete k m) xs
HasAll-delete k m [] h p = tt
HasAll-delete k m ((j, f) ∷ xs) h p = (
  ground (arith, lookup-delete k j m, bytes_eq.eq_test_iff j k, bytes_eq.eq_test_iff k j, p.0),
  HasAll-delete k m xs (ground arith) p.1,
)

length-delete-le : (k : Bytes) (m : Entries) → length (delete k m) ≤ length m
length-delete-le k [] = omega arith
length-delete-le k ((j, f) ∷ m) = ground (arith, length-delete-le k m)

pub length-delete-lt :
    (k : Bytes) (m : Entries) (e : CacheEntry)
    → lookup k m ≡ some e
    → length (delete k m) < length m
length-delete-lt k [] e h = cc
length-delete-lt k ((j, f) ∷ m) e h = ground (arith, length-delete-lt k m e, length-delete-le k m)
