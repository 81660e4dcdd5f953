-- ===== src/Proxy/Pick/Fair.antt =====
-- cmd/proxy/router.go: the turns of the backends over one round of the weighted round robin.
use mathlib.Core.Path.{◌≡⟨◌⟩◌, ◌∎}
use proxy_manager.Prelude.{
  ℕ, zero, suc, ◌+◌, ◌%◌, ◌^◌, ◌≤◌, ◌<◌, ◌≡◌, ◌≢◌, refl, sym, ap, ◌∙◌, inl, inr, Bool, true, false,
  ◌&&◌, List, [], ◌∷◌, ◌++◌, map, Option, length, take, drop, replicate, if◌then◌else◌, ◌==◌,
  nat_eq, bool_eq, subst, All, In, In-All, Bool-cases, arith,
}
use proxy_manager.Proxy.Backend.{Backend, Variant}
use proxy_manager.Proxy.Group.{RouteGroup}
use proxy_manager.Proxy.Pick.{
  Pick, nobody, chosen, panics, weighted_pool, weight_floor, in_pool, in_tier, pick_from, pick_pool,
  pick_tier, or_else, pick_by, pick_healthy,
}
use proxy_manager.Proxy.Pick.Pool.{
  weight_floor_pos, pick_from-nobody, or_else_same, IsServable-in_pool, in_tier-in_pool,
  in_pool-IsServable, IsServable,
}
use proxy_manager.Proxy.Pick.Sound.{IsChosen}
use proxy_manager.Proxy.Pick.Rotation.{picks, picks-round}

-- How often the backend named `r` stands in a list, or was returned.
abbrev pub turns : ℕ → List Backend → ℕ
turns r [] = 0
turns r (b ∷ bs) = (if b.ref == r then 1 else 0) + turns r bs

abbrev is_turn : ℕ → Pick → ℕ
is_turn r (chosen b) = if b.ref == r then 1 else 0
is_turn r nobody = 0
is_turn r panics = 0

abbrev pub turns_of : ℕ → List Pick → ℕ
turns_of r [] = 0
turns_of r (p ∷ ps) = is_turn r p + turns_of r ps

-- No two backends of a group are one object.
abbrev pub HasDistinctRefs : List Backend → Type 0
HasDistinctRefs [] = Unit
HasDistinctRefs (b ∷ bs) = All (λ c. c.ref ≢ b.ref) bs × HasDistinctRefs bs

turns_of-map : (r : ℕ) (bs : List Backend) → turns_of r (map chosen bs) ≡ turns r bs
turns_of-map r [] = refl
turns_of-map r (b ∷ bs) = omega (arith, turns_of-map r bs)

turns-append : (r : ℕ) (bs cs : List Backend) → turns r (bs ++ cs) ≡ turns r bs + turns r cs
turns-append r [] cs = omega arith
turns-append r (b ∷ bs) cs = omega (arith, turns-append r bs cs)

turns-take-drop :
    (r n : ℕ) (bs : List Backend) → turns r (take n bs) + turns r (drop n bs) ≡ turns r bs
turns-take-drop r zero bs = omega arith
turns-take-drop r (suc n) [] = omega arith
turns-take-drop r (suc n) (b ∷ bs) = omega (arith, turns-take-drop r n bs)

turns-replicate : (n : ℕ) (b : Backend) → turns b.ref (replicate n b) ≡ n
turns-replicate zero b = refl
turns-replicate (suc n) b = ground (arith, turns-replicate n b)

turns-replicate_ne : (r n : ℕ) (b : Backend) → b.ref ≢ r → turns r (replicate n b) ≡ 0
turns-replicate_ne r zero b h = refl
turns-replicate_ne r (suc n) b h = ground (arith, turns-replicate_ne r n b h)

module _ (keep : Backend → Bool) where
  turns-weighted_pool_ne :
      (r : ℕ) (bs : List Backend) → All (λ c. c.ref ≢ r) bs → turns r (weighted_pool keep bs) ≡ 0
  unfolding weighted_pool
  turns-weighted_pool_ne r [] h = refl
  turns-weighted_pool_ne r (b ∷ bs) h = ground (
    arith,
    turns-weighted_pool_ne r bs h.1,
    turns-append r (replicate (weight_floor b) b) (weighted_pool keep bs),
    turns-replicate_ne r (weight_floor b) b h.0,
  )

  -- A backend that passes has its weight of places in the pool.
  turns-weighted_pool :
      (b : Backend) (bs : List Backend)
      → HasDistinctRefs bs
      → In b bs
      → keep b ≡ true
      → turns b.ref (weighted_pool keep bs) ≡ weight_floor b
  unfolding weighted_pool
  turns-weighted_pool b [] d m k = elim m [ ]
  turns-weighted_pool b (c ∷ bs) d (inl e) k =
      let apart : All (λ x. x.ref ≢ b.ref) bs = subst (λ y. All (λ x. x.ref ≢ y.ref) bs) e d.0 in
      rw (e, k)
        (omega (
          arith,
          turns-append b.ref (replicate (weight_floor b) b) (weighted_pool keep bs),
          turns-replicate (weight_floor b) b,
          turns-weighted_pool_ne b.ref bs apart,
        ))
  turns-weighted_pool b (c ∷ bs) d (inr m) k =
      let apart : c.ref ≢ b.ref = λ e. In-All (λ x. x.ref ≢ c.ref) bs d.0 m (sym e) in
      ground (
        arith,
        turns-weighted_pool b bs d.1 m k,
        turns-append b.ref (replicate (weight_floor c) c) (weighted_pool keep bs),
        turns-replicate_ne b.ref (weight_floor c) c apart,
      )

-- The peers serve only if the local tier is empty.
pub first_tier : List Backend → List Backend → List Backend
first_tier [] peers = peers
first_tier (b ∷ bs) peers = b ∷ bs

-- The pool that a selection draws from.
unfoldable pub active_pool : Bool → List ℕ → Bool → Option Variant → RouteGroup → List Backend
unfolding first_tier
active_pool ih skip allow v g =
    if g.spread && allow
    then weighted_pool (in_pool skip ih v) g.backends
    else first_tier (weighted_pool (in_tier skip false ih v) g.backends)
        (if allow then weighted_pool (in_tier skip true ih v) g.backends else [])

tiers_draw :
    (local : List Backend) (peers : RouteGroup → List Backend) (g : RouteGroup) (allow : Bool)
    → or_else (pick_from local g) (λ g'. if allow then pick_from (peers g') g' else (nobody, g'))
      ≡ pick_from (first_tier local (if allow then peers g else [])) g
unfolding pick_from first_tier
tiers_draw [] peers g true = refl
tiers_draw [] peers g false = refl
tiers_draw (b ∷ bs) peers g allow =
    or_else_same (pick_from (b ∷ bs) g) _
      (λ h. let e : b ∷ bs ≡ [] = pick_from-nobody (b ∷ bs) g h in cc)

turns-first_tier :
    (r w : ℕ) (local peers : List Backend)
    → turns r local ≡ w
    → 0 < w
    → turns r (first_tier local peers) ≡ w
unfolding first_tier
turns-first_tier r w [] peers e pos = absurd (omega arith)
turns-first_tier r w (b ∷ bs) peers e pos = e

weighted_pool_empty :
    (keep : Backend → Bool) (bs : List Backend)
    → ((c : Backend) → In c bs → keep c ≡ false)
    → weighted_pool keep bs ≡ []
unfolding weighted_pool
weighted_pool_empty keep [] h = refl
weighted_pool_empty keep (b ∷ bs) h =
    rw (h b (inl refl)) (weighted_pool_empty keep bs (λ c m. h c (inr m)))

round_of :
    (b : Backend) (pool : List Backend) (g : RouteGroup)
    → g.cursor + length pool ≤ 2 ^ 63
    → turns_of b.ref (picks (length pool) (pick_from pool) g) ≡ turns b.ref pool
unfolding picks
round_of b [] g early = refl
round_of b (c ∷ cs) g early =
    let pool = c ∷ cs in
    let k = g.cursor % length pool in
    turns_of b.ref (picks (length pool) (pick_from pool) g)
    ≡⟨ ap (turns_of b.ref) (picks-round c cs g early) ⟩
      turns_of b.ref (map chosen (drop k pool ++ take k pool))
    ≡⟨ turns_of-map b.ref (drop k pool ++ take k pool) ⟩ turns b.ref (drop k pool ++ take k pool)
    ≡⟨ turns-append b.ref (drop k pool) (take k pool) ⟩
      turns b.ref (drop k pool) + turns b.ref (take k pool)
    ≡⟨ omega (arith, turns-take-drop b.ref k pool) ⟩ turns b.ref pool ∎

module _ (ih : Bool) (skip : List ℕ) (allow : Bool) (v : Option Variant) where
  pub pick_by-draws :
      (g : RouteGroup) → pick_by ih skip allow v g ≡ pick_from (active_pool ih skip allow v g) g
  unfolding pick_by pick_pool pick_tier active_pool
  pick_by-draws g = elim (Bool-cases (g.spread && allow)) [
    | inl joined ↦ rw joined refl
    | inr apart ↦ rw apart (
        tiers_draw (weighted_pool (in_tier skip false ih v) g.backends)
          (λ g'. weighted_pool (in_tier skip true ih v) g'.backends) g allow)
  ]

  active_pool-pick_from :
      (pool : List Backend) (g : RouteGroup)
      → active_pool ih skip allow v (pick_from pool g).1 ≡ active_pool ih skip allow v g
  unfolding pick_from active_pool
  active_pool-pick_from [] g = refl
  active_pool-pick_from (b ∷ bs) g = refl

  picks-draw :
      (n : ℕ) (pool : List Backend) (g : RouteGroup)
      → active_pool ih skip allow v g ≡ pool
      → picks n (pick_by ih skip allow v) g ≡ picks n (pick_from pool) g
  unfolding picks
  picks-draw zero pool g e = refl
  picks-draw (suc n) pool g e =
      let here : pick_by ih skip allow v g ≡ pick_from pool g =
        pick_by-draws g ∙ ap (λ p. pick_from p g) e in
      rw here (
        ap (◌∷◌ (pick_from pool g).0)
          (picks-draw n pool (pick_from pool g).1 (active_pool-pick_from pool g ∙ e)))

  in_tier_of :
      (wl : Bool) (c : Backend)
      → IsServable ih skip v c
      → c.learned ≡ wl
      → in_tier skip wl ih v c ≡ true
  in_tier_of wl c s l =
      let passed = IsServable-in_pool skip ih v c s in
      let same = (bool_eq.eq_test_iff c.learned wl).1 l in
      rw (in_tier-in_pool skip ih v c wl, same) passed

  no_local_passes :
      (b : Backend) (g : RouteGroup)
      → IsChosen skip ih v g allow b
      → b.learned ≡ true
      → g.spread ≡ false
      → weighted_pool (in_tier skip false ih v) g.backends ≡ []
  no_local_passes b g c l apart = weighted_pool_empty _ g.backends λ d m.
      elim (Bool-cases (in_tier skip false ih v d)) [
        | inl passes ↦
            let both : ((d.learned == false) && in_pool skip ih v d) ≡ true =
              sym (in_tier-in_pool skip ih v d false) ∙ passes in
            let is_local : d.learned ≡ false = (bool_eq.eq_test_iff _ _).0 (ground arith) in
            absurd
              (c.local_first l apart d m is_local (in_pool-IsServable skip ih v d (ground arith)))
        | inr fails ↦ fails
      ]

  -- A backend that a selection may return has its weight of places in the pool.
  turns-active_pool :
      (b : Backend) (g : RouteGroup)
      → HasDistinctRefs g.backends
      → IsChosen skip ih v g allow b
      → turns b.ref (active_pool ih skip allow v g) ≡ weight_floor b
  unfolding active_pool
  turns-active_pool b g d c = elim (Bool-cases (g.spread && allow)) [
    | inl joined ↦
        rw joined (
          turns-weighted_pool _ b g.backends d c.listed (IsServable-in_pool skip ih v b c.servable))
    | inr apart ↦ rw apart (elim (Bool-cases b.learned) [
      | inl is_peer ↦
          let allowed = c.peer_allowed is_peer in
          let alone : g.spread ≡ false = ground arith in
          rw (no_local_passes b g c is_peer alone, allowed, first_tier)
            (turns-weighted_pool _ b g.backends d c.listed (in_tier_of true b c.servable is_peer))
      | inr is_local ↦
          turns-first_tier b.ref (weight_floor b) _ _
            (turns-weighted_pool _ b g.backends d c.listed (in_tier_of false b c.servable is_local))
            (weight_floor_pos b)
    ])
  ]

-- Over as many selections in a row as the pool has places, with nothing else changing, pickHealthy
-- returns each backend that may serve exactly as often as its weight says (once, if that is below
-- 1), wherever the cursor stands before 2^63 and for whatever mixture of tiers and spread.
pub pick_healthy_fair :
    (skip : List ℕ) (allow : Bool) (v : Option Variant) (g : RouteGroup) (b : Backend)
    → HasDistinctRefs g.backends
    → IsChosen skip false v g allow b
    → g.cursor + length (active_pool false skip allow v g) ≤ 2 ^ 63
    → turns_of b.ref
        (picks (length (active_pool false skip allow v g)) (pick_healthy skip allow v) g)
      ≡ weight_floor b
unfolding pick_healthy
pick_healthy_fair skip allow v g b d c early =
    let pool = active_pool false skip allow v g in
    ap (turns_of b.ref) (picks-draw false skip allow v (length pool) pool g refl)
    ∙ (round_of b pool g early ∙ turns-active_pool false skip allow v b g d c)
