-- ===== src/Prelude/Sorting.antt =====
-- sort.SliceStable by a size, the largest first.
use Prim.Native.Nat.{ℕ, ◌≤◌}
use mathlib.Core.Logic.{inl, inr}
use mathlib.Core.List.{List, [], ◌∷◌}
use native.Mathlib.Omega.{arith}
use proxy_manager.Prelude.Tests.{ltb, if◌then◌else◌, Bool-cases, ltb-false→le}
use proxy_manager.Prelude.Lists.{All, In}

module _ {A : Type 0} (size : A → ℕ) where
  unfoldable pub place : A → List A → List A
  place a [] = a ∷ []
  place a (x ∷ xs) = let rest = place a xs in if ltb (size a) (size x) then x ∷ rest else a ∷ x ∷ xs

  unfoldable pub sort_stable : List A → List A
  sort_stable [] = []
  sort_stable (x ∷ xs) = place x (sort_stable xs)

  abbrev pub IsBelow : A → A → Type 0
  IsBelow a x = size x ≤ size a

  abbrev pub IsSorted : List A → Type 0
  IsSorted [] = Unit
  IsSorted (x ∷ xs) = All (IsBelow x) xs × IsSorted xs

  place-All : (P : A → Type 0) (a : A) (xs : List A) → P a → All P xs → All P (place a xs)
  unfolding place
  place-All P a [] p q = (p, tt)
  place-All P a (x ∷ xs) p q = elim (Bool-cases (ltb (size a) (size x))) [
    | inl larger ↦ rw larger (q.0, place-All P a xs p q.1)
    | inr not_larger ↦ rw not_larger (p, q)
  ]

  pub sort_stable-All : (P : A → Type 0) (xs : List A) → All P xs → All P (sort_stable xs)
  unfolding sort_stable
  sort_stable-All P [] q = tt
  sort_stable-All P (x ∷ xs) q = place-All P x (sort_stable xs) q.0 (sort_stable-All P xs q.1)

  IsBelow-All : (a x : A) (xs : List A) → IsBelow a x → All (IsBelow x) xs → All (IsBelow a) xs
  IsBelow-All a x [] p q = tt
  IsBelow-All a x (y ∷ xs) p q = (omega (arith, p, q.0), IsBelow-All a x xs p q.1)

  place-IsSorted : (a : A) (xs : List A) → IsSorted xs → IsSorted (place a xs)
  unfolding place
  place-IsSorted a [] s = (tt, tt)
  place-IsSorted a (x ∷ xs) s = elim (Bool-cases (ltb (size a) (size x))) [
    | inl larger ↦
        let below : IsBelow x a = ground arith in
        rw larger (place-All (IsBelow x) a xs below s.0, place-IsSorted a xs s.1)
    | inr not_larger ↦
        let below : IsBelow a x = ltb-false→le (size a) (size x) not_larger in
        rw not_larger ((below, IsBelow-All a x xs below s.0), s)
  ]

  pub sort_stable-IsSorted : (xs : List A) → IsSorted (sort_stable xs)
  unfolding sort_stable
  sort_stable-IsSorted [] = tt
  sort_stable-IsSorted (x ∷ xs) = place-IsSorted x (sort_stable xs) (sort_stable-IsSorted xs)

  place-In : (b a : A) (xs : List A) → In b (a ∷ xs) → In b (place a xs)
  unfolding place
  place-In b a [] m = m
  place-In b a (x ∷ xs) m = elim (Bool-cases (ltb (size a) (size x))) [
    | inr not_larger ↦ rw not_larger m
    | inl larger ↦ rw larger (elim m [
      | inl e ↦ inr (place-In b a xs (inl e))
      | inr (inl e) ↦ inl e
      | inr (inr n) ↦ inr (place-In b a xs (inr n))
    ])
  ]

  pub sort_stable-In : (b : A) (xs : List A) → In b xs → In b (sort_stable xs)
  unfolding sort_stable
  sort_stable-In b (x ∷ xs) (inl e) = place-In b x (sort_stable xs) (inl e)
  sort_stable-In b (x ∷ xs) (inr m) = place-In b x (sort_stable xs) (inr (sort_stable-In b xs m))
  sort_stable-In b [] m = elim m [ ]
