-- ===== src/Proxy/Pick/Rotation.antt =====
-- cmd/proxy/router.go: successive selections from one pool.
use native.Mathlib.Nat.{
  zero-add, add-zero, suc-add, mod-lt, mod-eq_of_lt, mul-add-mod_self_right, div-add-mod',
}
use mathlib.Core.List.{map-append}
use mathlib.Core.Path.{ap₂, ◌≡⟨◌⟩◌, ◌∎}
use proxy_manager.Prelude.{
  ℕ, zero, suc, ◌+◌, ◌-◌, ◌*◌, ◌/◌, ◌%◌, ◌^◌, ◌≤◌, ◌<◌, ◌≡◌, refl, ap, ◌∙◌, sym, List, [], ◌∷◌,
  ◌++◌, map, some, length, get_elem?, take, drop, take-all, length-drop, arith, nat_eq,
}
use proxy_manager.Proxy.Backend.{Backend}
use proxy_manager.Proxy.Group.{RouteGroup}
use proxy_manager.Proxy.Pick.{Pick, chosen, pool_index, index_pool, pick_from}
use proxy_manager.Proxy.Pick.Pool.{pool_index-lt}

-- The results of n selections in a row.
unfoldable pub picks : ℕ → (RouteGroup → Pick × RouteGroup) → RouteGroup → List Pick
picks zero select g = []
picks (suc n) select g = (select g).0 ∷ picks n select (select g).1

after_picks : ℕ → (RouteGroup → Pick × RouteGroup) → RouteGroup → RouteGroup
after_picks zero select g = g
after_picks (suc n) select g = after_picks n select (select g).1

picks-add :
    (m n : ℕ) (select : RouteGroup → Pick × RouteGroup) (g : RouteGroup)
    → picks (m + n) select g ≡ picks m select g ++ picks n select (after_picks m select g)
unfolding picks after_picks
picks-add zero n select g = rw (zero-add)
picks-add (suc m) n select g =
    rw suc-add (ap (◌∷◌ (select g).0) (picks-add m n select (select g).1))

module _ {A : Type 0} where
  drop-get_elem? :
      (xs : List A) (r : ℕ)
      → r < length xs
      → (x : A) × (get_elem? xs r ≡ some x) × (drop r xs ≡ x ∷ drop (suc r) xs)
  drop-get_elem? [] r h = elim h [ ]
  drop-get_elem? (x ∷ xs) zero h = (x, refl, refl)
  drop-get_elem? (x ∷ xs) (suc r) h = drop-get_elem? xs r (omega arith)

next_turn : (c n k q : ℕ) → c ≡ q * n + k → k < n → c + (n - k) ≡ (q + 1) * n + 0
next_turn c n k q e h = omega arith

module _ (b : Backend) (bs : List Backend) where
  abbrev pool : List Backend
  pool = b ∷ bs

  -- One selection at position r of the round.
  pick_from-step :
      (r q : ℕ) (x : Backend) (g : RouteGroup)
      → g.cursor ≡ q * length pool + r
      → r < length pool
      → get_elem? pool r ≡ some x
      → g.cursor < 2 ^ 63
      → pick_from pool g ≡ (chosen x, record g { cursor = g.cursor + 1 })
  unfolding pick_from index_pool
  pick_from-step r q x g e small found early =
      let at : g.cursor % length pool ≡ r =
        rw e (mul-add-mod_self_right q (length pool) r ∙ mod-eq_of_lt small) in
      let index : pool_index g.cursor (length pool) ≡ some r =
        pool_index-lt g.cursor (length pool) early ∙ ap some at in
      let next : (g.cursor + 1) % 2 ^ 64 ≡ g.cursor + 1 = omega arith in
      rw (index, found, index_pool, next) refl

  picks-segment :
      (n r q : ℕ) (g : RouteGroup)
      → g.cursor ≡ q * length pool + r
      → r + n ≤ length pool
      → g.cursor + n ≤ 2 ^ 63
      → (picks n (pick_from pool) g ≡ map chosen (take n (drop r pool)))
        × (after_picks n (pick_from pool) g ≡ record g { cursor = g.cursor + n })
  unfolding picks after_picks
  picks-segment zero r q g e fits early = (refl, rw add-zero refl)
  picks-segment (suc n) r q g e fits early =
      let (x, found, split) = drop-get_elem? pool r (omega arith) in
      let step = pick_from-step r q x g e (omega arith) found (omega arith) in
      let ih =
        picks-segment n (suc r) q (record g { cursor = g.cursor + 1 }) (omega arith) (omega arith)
          (omega arith) in
      let moved : g.cursor + 1 + n ≡ g.cursor + suc n = omega arith in
      (
        rw (step, split) (ap (◌∷◌ (chosen x)) ih.0),
        rw (step, ih.1) (ap (λ (c : ℕ). record g { cursor = c }) moved),
      )

  -- As many selections as the pool is long: the pool, turned to start at the cursor.
  pub picks-round :
      (g : RouteGroup)
      → g.cursor + length pool ≤ 2 ^ 63
      → picks (length pool) (pick_from pool) g
        ≡ map chosen (drop (g.cursor % length pool) pool ++ take (g.cursor % length pool) pool)
  picks-round g early =
      let n = length pool in
      let k = g.cursor % n in
      let q = g.cursor / n in
      let below : k < n = mod-lt g.cursor (omega arith) in
      let start : g.cursor ≡ q * n + k = sym (div-add-mod' g.cursor n) in
      let first = picks-segment (n - k) k q g start (omega arith) (omega arith) in
      let wrapped : g.cursor + (n - k) ≡ (q + 1) * n + 0 = next_turn g.cursor n k q start below in
      let second =
        picks-segment k 0 (q + 1) (record g { cursor = g.cursor + (n - k) }) wrapped (omega arith)
          (omega arith) in
      let split : n ≡ (n - k) + k = omega arith in
      let rest : take (n - k) (drop k pool) ≡ drop k pool =
        take-all (n - k) (drop k pool) (omega (arith, length-drop k pool)) in
      let select = pick_from pool in
      picks n select g
      ≡⟨ ap (λ m. picks m select g) split ⟩ picks ((n - k) + k) select g
      ≡⟨ picks-add (n - k) k select g ⟩
        picks (n - k) select g ++ picks k select (after_picks (n - k) select g)
      ≡⟨ ap₂ ◌++◌ first.0 (ap (picks k select) first.1 ∙ second.0) ⟩
        map chosen (take (n - k) (drop k pool)) ++ map chosen (take k pool)
      ≡⟨ sym (map-append chosen _ _) ⟩ map chosen (take (n - k) (drop k pool) ++ take k pool)
      ≡⟨ ap (λ xs. map chosen (xs ++ take k pool)) rest ⟩ map chosen (drop k pool ++ take k pool) ∎
