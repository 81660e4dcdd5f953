-- ===== src/Proxy/Pick/Pool.antt =====
-- The weighted pool, and one selection from it.
use native.Mathlib.Nat.{mod-lt}
use proxy_manager.Prelude.{
  ℕ, zero, suc, ◌%◌, ◌^◌, ◌<◌, ◌≡◌, ◌≢◌, ◌↔◌, refl, ◌⊎◌, inl, inr, Bool, true, false, ◌&&◌, List,
  [], ◌∷◌, ◌++◌, Option, none, some, ◌==◌, nat_eq, bool_eq, length, get_elem?, replicate, All,
  All-append, All-replicate, get_elem?-lt, In, Bool-cases, arith, contains_iff, ◌∙◌,
}
use proxy_manager.Proxy.Backend.{
  variant_a, variant_b, variant_beq, Backend, Variant, excluded_from, in_variant,
}
use proxy_manager.Proxy.Group.{RouteGroup}
use proxy_manager.Proxy.Pick.{
  Pick, nobody, chosen, panics, pool_index, index_pool, pick_from, weighted_pool, weight_floor,
  in_pool, in_tier, or_else,
}

pub weight_floor_pos : (b : Backend) → 0 < weight_floor b
unfolding weight_floor
weight_floor_pos b = ground arith

replicate-ne-nil {ℓ} : {A : Type ℓ} (n : ℕ) (a : A) (xs : List A) → 0 < n → replicate n a ++ xs ≢ []
replicate-ne-nil zero a xs h = absurd (omega arith)
replicate-ne-nil (suc n) a xs h = ground arith

module _ (keep : Backend → Bool) where
  pub weighted_pool-All :
      (bs cs : List Backend)
      → All (λ c. In c cs) bs
      → All (λ c. In c cs × (keep c ≡ true)) (weighted_pool keep bs)
  unfolding weighted_pool
  weighted_pool-All [] cs h = tt
  weighted_pool-All (b ∷ bs) cs h = elim (Bool-cases (keep b)) [
    | inl kept ↦ rw kept (
        All-append _ (replicate _ b) _ (All-replicate _ _ b (h.0, kept))
          (weighted_pool-All bs cs h.1))
    | inr dropped ↦ rw dropped (weighted_pool-All bs cs h.1)
  ]

  pub weighted_pool-nil :
      (bs : List Backend) → weighted_pool keep bs ≡ [] → All (λ c. keep c ≡ false) bs
  unfolding weighted_pool
  weighted_pool-nil [] h = tt
  weighted_pool-nil (b ∷ bs) h = elim (Bool-cases (keep b)) [
    | inl kept ↦
        absurd (replicate-ne-nil _ b (weighted_pool keep bs) (weight_floor_pos b) (rw kept at h))
    | inr dropped ↦ (dropped, weighted_pool-nil bs (rw dropped at h))
  ]

pub All-In : (bs cs : List Backend) → ((c : Backend) → In c bs → In c cs) → All (λ c. In c cs) bs
All-In [] cs h = tt
All-In (b ∷ bs) cs h = (h b (inl refl), All-In bs cs (λ c i. h c (inr i)))

pub Pick-cases : (p : Pick) → (p ≡ nobody) ⊎ (((c : Backend) × (p ≡ chosen c)) ⊎ (p ≡ panics))
Pick-cases nobody = inl refl
Pick-cases (chosen c) = inr (inl (c, refl))
Pick-cases panics = inr (inr refl)

pub nobody_or_not : (p : Pick) → (p ≡ nobody) ⊎ (p ≢ nobody)
nobody_or_not nobody = inl refl
nobody_or_not (chosen c) = inr (λ e. cc)
nobody_or_not panics = inr (λ e. cc)

pub or_else_same :
    (r : Pick × RouteGroup) (k : RouteGroup → Pick × RouteGroup) → r.0 ≢ nobody → or_else r k ≡ r
or_else_same (nobody, g) k h = absurd (h refl)
or_else_same (chosen c, g) k h = refl
or_else_same (panics, g) k h = refl

index_pool-chosen :
    (o : Option ℕ) (pool : List Backend) (c : Backend)
    → index_pool o pool ≡ chosen c
    → (i : ℕ) × (get_elem? pool i ≡ some c)
unfolding index_pool
index_pool-chosen none pool c h = cc
index_pool-chosen (some i) pool c h = (i, ground arith)

index_pool-ne-nobody : (o : Option ℕ) (pool : List Backend) → index_pool o pool ≢ nobody
unfolding index_pool
index_pool-ne-nobody none pool = ground arith
index_pool-ne-nobody (some i) pool = ground arith

pub pick_from-chosen :
    (pool : List Backend) (g : RouteGroup) (c : Backend)
    → (pick_from pool g).0 ≡ chosen c
    → (i : ℕ) × (get_elem? pool i ≡ some c)
unfolding pick_from
pick_from-chosen [] g c h = cc
pick_from-chosen (b ∷ bs) g c h = index_pool-chosen _ (b ∷ bs) c h

pub pick_from-nobody :
    (pool : List Backend) (g : RouteGroup) → (pick_from pool g).0 ≡ nobody → pool ≡ []
unfolding pick_from
pick_from-nobody [] g h = refl
pick_from-nobody (b ∷ bs) g h = absurd (index_pool-ne-nobody _ (b ∷ bs) h)

pub pick_from-nobody_same :
    (pool : List Backend) (g : RouteGroup)
    → (pick_from pool g).0 ≡ nobody
    → pick_from pool g ≡ (nobody, g)
unfolding pick_from
pick_from-nobody_same [] g h = refl
pick_from-nobody_same (b ∷ bs) g h = absurd (index_pool-ne-nobody _ (b ∷ bs) h)

pub pick_from-keeps :
    (pool : List Backend) (g : RouteGroup)
    → ((pick_from pool g).1.backends ≡ g.backends) × ((pick_from pool g).1.spread ≡ g.spread)
unfolding pick_from
pick_from-keeps [] g = (refl, refl)
pick_from-keeps (b ∷ bs) g = (refl, refl)

index_pool-ne-panics :
    (pool : List Backend) (i : ℕ) → i < length pool → index_pool (some i) pool ≢ panics
unfolding index_pool
index_pool-ne-panics pool i h = let found = get_elem?-lt pool i h in ground arith

pub pool_index-lt : (c n : ℕ) → c < 2 ^ 63 → pool_index c n ≡ some (c % n)
unfolding pool_index
pool_index-lt c n h = ground arith

pub pick_from-ne-panics :
    (pool : List Backend) (g : RouteGroup) → g.cursor < 2 ^ 63 → (pick_from pool g).0 ≢ panics
unfolding pick_from
pick_from-ne-panics [] g h = ground arith
pick_from-ne-panics (b ∷ bs) g h =
    rw (pool_index-lt g.cursor (length (b ∷ bs)) h)
      (index_pool-ne-panics (b ∷ bs) _ (mod-lt g.cursor (omega arith)))

-- Who may be chosen, in terms of the backend's state.
pub record IsServable (ignore_health : Bool) (skip : List ℕ) (variant : Option Variant)
    (c : Backend) : Type 0 where
  pub untried : ¬ In c.ref skip
  pub docker : c.docker_unhealthy ≡ false
  pub undrained : c.draining ≡ false
  pub probed : (ignore_health ≡ true) ⊎ (c.healthy_flag ≡ true)
  pub matching : (v : Variant) → variant ≡ some v → c.variant ≡ v

variant_beq_iff : (v w : Variant) → (variant_beq v w ≡ true) ↔ (v ≡ w)
variant_beq_iff variant_a variant_a = ((λ h. refl), (λ h. refl))
variant_beq_iff variant_a variant_b = ((λ h. cc), (λ h. cc))
variant_beq_iff variant_b variant_a = ((λ h. cc), (λ h. cc))
variant_beq_iff variant_b variant_b = ((λ h. refl), (λ h. refl))

pub in_variant_iff :
    (o : Option Variant) (c : Backend)
    → (in_variant o c ≡ true) ↔ ((v : Variant) → o ≡ some v → c.variant ≡ v)
unfolding in_variant
in_variant_iff none c = ((λ _ v e. cc), (λ _. refl))
in_variant_iff (some w) c = (
  (λ h v e. let same : w ≡ v = cc in (variant_beq_iff c.variant w).0 h ∙ same),
  (λ h. (variant_beq_iff c.variant w).1 (h w refl)),
)

module _ (skip : List ℕ) (ih : Bool) (v : Option Variant) (c : Backend) where
  pub in_pool-IsServable : in_pool skip ih v c ≡ true → IsServable ih skip v c
  unfolding in_pool excluded_from
  in_pool-IsServable h = record {
    untried = ground (arith, contains_iff skip c.ref);
    docker = ground arith;
    undrained = ground arith;
    probed = ground arith;
    matching = (in_variant_iff v c).0 (ground arith);
  }

  pub IsServable-in_pool : IsServable ih skip v c → in_pool skip ih v c ≡ true
  unfolding in_pool excluded_from
  IsServable-in_pool s =
      let ok = (in_variant_iff v c).1 s.matching in
      ground (arith, s.untried, contains_iff skip c.ref)

  pub in_tier-in_pool :
      (wl : Bool) → in_tier skip wl ih v c ≡ (c.learned == wl) && in_pool skip ih v c
  unfolding in_tier in_pool
  in_tier-in_pool wl = ground arith
