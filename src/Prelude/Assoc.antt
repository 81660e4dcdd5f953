-- ===== src/Prelude/Assoc.antt =====
-- Go's maps, as association lists: a write replaces the key's entry, a deletion removes it.
use mathlib.Core.Path.{◌≡◌, refl, subst}
use mathlib.Core.Logic.{inl, inr}
use mathlib.Core.List.{List, [], ◌∷◌}
use mathlib.Core.Option.{Option, none, some}
use native.Mathlib.Omega.{arith}
use proxy_manager.Prelude.Tests.{HasEq, ◌==◌, if◌then◌else◌, Bool-cases}
use proxy_manager.Prelude.Lists.{All}

module _ {ℓ κ} {K : Type ℓ} {V : Type κ} ⦃e : HasEq K⦄ where
  abbrev pub lookup : K → List (K × V) → Option V
  lookup k [] = none
  lookup k ((j, v) ∷ m) = if j == k then some v else lookup k m

  abbrev pub insert : K → V → List (K × V) → List (K × V)
  insert k v [] = (k, v) ∷ []
  insert k v ((j, w) ∷ m) = if j == k then (k, v) ∷ m else (j, w) ∷ insert k v m

  abbrev pub delete : K → List (K × V) → List (K × V)
  delete k [] = []
  delete k ((j, w) ∷ m) = if j == k then delete k m else (j, w) ∷ delete k m

  pub lookup-insert :
      (k j : K) (v : V) (m : List (K × V))
      → lookup j (insert k v m) ≡ (if k == j then some v else lookup j m)
  lookup-insert k j v [] = refl
  lookup-insert k j v ((i, w) ∷ m) =
      ground (arith, e.eq_test_iff k j, e.eq_test_iff i k, e.eq_test_iff i j, lookup-insert k j v m)

  pub lookup-delete :
      (k j : K) (m : List (K × V)) → lookup j (delete k m) ≡ (if k == j then none else lookup j m)
  lookup-delete k j [] = ground arith
  lookup-delete k j ((i, w) ∷ m) =
      ground (arith, e.eq_test_iff k j, e.eq_test_iff i k, e.eq_test_iff i j, lookup-delete k j m)

  -- Each key once.
  abbrev pub HasOneEach : List (K × V) → Type κ
  HasOneEach [] = Unit
  HasOneEach ((j, v) ∷ m) = (lookup j m ≡ none) × HasOneEach m

  pub insert-HasOneEach :
      (k : K) (v : V) (m : List (K × V)) → HasOneEach m → HasOneEach (insert k v m)
  insert-HasOneEach k v [] h = (refl, tt)
  insert-HasOneEach k v ((j, w) ∷ m) h = elim (Bool-cases (j == k)) [
    | inl same ↦ rw same (rw (← (e.eq_test_iff j k).0 same) h.0, h.1)
    | inr apart ↦ rw apart (
      ground (arith, lookup-insert k j v m, e.eq_test_iff j k, e.eq_test_iff k j),
      insert-HasOneEach k v m h.1,
    )
  ]

  -- A property of all entries, from that of the new one.
  pub insert-All :
      (P : K × V → Type κ) (k : K) (v : V) (m : List (K × V))
      → P (k, v)
      → All P m
      → All P (insert k v m)
  insert-All P k v [] p h = (p, tt)
  insert-All P k v ((j, w) ∷ m) p h = elim (Bool-cases (j == k)) [
    | inl same ↦ rw same (p, h.1)
    | inr apart ↦ rw apart (h.0, insert-All P k v m p h.1)
  ]

  pub lookup-All :
      (P : K × V → Type κ) (k : K) (v : V) (m : List (K × V))
      → All P m
      → lookup k m ≡ some v
      → P (k, v)
  lookup-All P k v [] h found = absurd (cc)
  lookup-All P k v ((j, w) ∷ m) h found = elim (Bool-cases (j == k)) [
    | inl same ↦
        let here : w ≡ v = ground (arith, found) in
        subst (λ i. P (i, v)) ((e.eq_test_iff j k).0 same) (subst (λ x. P (j, x)) here h.0)
    | inr apart ↦ lookup-All P k v m h.1 (ground (arith, found))
  ]

  pub delete-absent : (k : K) (m : List (K × V)) → lookup k m ≡ none → delete k m ≡ m
  delete-absent k [] h = refl
  delete-absent k ((j, w) ∷ m) h = ground (arith, delete-absent k m)

  pub delete-HasOneEach : (k : K) (m : List (K × V)) → HasOneEach m → HasOneEach (delete k m)
  delete-HasOneEach k [] h = tt
  delete-HasOneEach k ((j, w) ∷ m) h = elim (Bool-cases (j == k)) [
    | inl same ↦ rw same (delete-HasOneEach k m h.1)
    | inr apart ↦ rw apart (ground (arith, lookup-delete k j m), delete-HasOneEach k m h.1)
  ]

  pub delete-All : (P : K × V → Type κ) (k : K) (m : List (K × V)) → All P m → All P (delete k m)
  delete-All P k [] h = tt
  delete-All P k ((j, w) ∷ m) h = elim (Bool-cases (j == k)) [
    | inl same ↦ rw same (delete-All P k m h.1)
    | inr apart ↦ rw apart (h.0, delete-All P k m h.1)
  ]
