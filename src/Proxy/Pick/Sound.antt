-- ===== src/Proxy/Pick/Sound.antt =====
-- What pickHealthy and pickAny return, and when they return nothing.
use proxy_manager.Prelude.{
  ℕ, ◌^◌, ◌<◌, ◌≡◌, ◌≢◌, ◌↔◌, inl, inr, Bool, true, false, ◌&&◌, List, Option, ◌==◌, nat_eq,
  bool_eq, All-get_elem?, In, In-All, Bool-cases, arith, ◌∙◌, sym,
}
use proxy_manager.Proxy.Backend.{Backend, Variant}
use proxy_manager.Proxy.Group.{RouteGroup}
use proxy_manager.Proxy.Pick.{
  Pick, nobody, chosen, panics, in_pool, in_tier, pick_pool, pick_tier, pick_by, pick_healthy,
  pick_any,
}
use proxy_manager.Proxy.Pick.Pool.{
  All-In, nobody_or_not, Pick-cases, or_else_same, pick_from-chosen, pick_from-nobody,
  pick_from-ne-panics, pick_from-nobody_same, weighted_pool-All, weighted_pool-nil,
  in_pool-IsServable, IsServable-in_pool, in_tier-in_pool, IsServable,
}

module _ (skip : List ℕ) (ih : Bool) (v : Option Variant) (g : RouteGroup) where
  pick_pool-chosen :
      (c : Backend)
      → (pick_pool skip ih v g).0 ≡ chosen c
      → In c g.backends × IsServable ih skip v c
  unfolding pick_pool
  pick_pool-chosen c h =
      let (i, e) = pick_from-chosen _ g c h in
      let found =
        All-get_elem? _ _ i
          (weighted_pool-All (in_pool skip ih v) g.backends g.backends (All-In _ _ (λ _ m. m))) e in
      (found.0, in_pool-IsServable skip ih v c found.1)

  pick_tier-chosen :
      (wl : Bool) (c : Backend)
      → (pick_tier skip wl ih v g).0 ≡ chosen c
      → In c g.backends × IsServable ih skip v c × (c.learned ≡ wl)
  unfolding pick_tier
  pick_tier-chosen wl c h =
      let (i, e) = pick_from-chosen _ g c h in
      let found =
        All-get_elem? _ _ i
          (weighted_pool-All (in_tier skip wl ih v) g.backends g.backends (All-In _ _ (λ _ m. m)))
          e in
      let both : ((c.learned == wl) && in_pool skip ih v c) ≡ true =
        sym (in_tier-in_pool skip ih v c wl) ∙ found.1 in
      (
        found.0,
        in_pool-IsServable skip ih v c (ground arith),
        (bool_eq.eq_test_iff _ _).0 (ground arith),
      )

  pick_pool-nobody :
      (pick_pool skip ih v g).0 ≡ nobody
      → (c : Backend) → In c g.backends
      → ¬ IsServable ih skip v c
  unfolding pick_pool
  pick_pool-nobody h c m s =
      let none_pass = weighted_pool-nil _ g.backends (pick_from-nobody _ g h) in
      let failed = In-All _ g.backends none_pass m in
      let passed = IsServable-in_pool skip ih v c s in cc

  pick_tier-nobody :
      (wl : Bool)
      → (pick_tier skip wl ih v g).0 ≡ nobody
      → (c : Backend) → In c g.backends
      → c.learned ≡ wl
      → ¬ IsServable ih skip v c
  unfolding pick_tier
  pick_tier-nobody wl h c m l s =
      let none_pass = weighted_pool-nil _ g.backends (pick_from-nobody _ g h) in
      let failed = In-All _ g.backends none_pass m in
      let passed = IsServable-in_pool skip ih v c s in
      let same = (bool_eq.eq_test_iff c.learned wl).1 l in
      let split = in_tier-in_pool skip ih v c wl in ground arith

  pick_tier-nobody_same :
      (wl : Bool) → (pick_tier skip wl ih v g).0 ≡ nobody → pick_tier skip wl ih v g ≡ (nobody, g)
  unfolding pick_tier
  pick_tier-nobody_same wl h = pick_from-nobody_same _ g h

  -- The ways through pickHealthy and pickAny.
  pick_by_cases :
      (allow : Bool) (P : Pick → Type 0)
      → (g.spread ≡ true → allow ≡ true → P (pick_pool skip ih v g).0)
      → ((g.spread && allow) ≡ false
          → (pick_tier skip false ih v g).0 ≢ nobody
          → P (pick_tier skip false ih v g).0)
      → ((g.spread && allow) ≡ false
          → (pick_tier skip false ih v g).0 ≡ nobody
          → allow ≡ true
          → P (pick_tier skip true ih v g).0)
      → ((pick_tier skip false ih v g).0 ≡ nobody → allow ≡ false → P nobody)
      → P (pick_by ih skip allow v g).0
  unfolding pick_by
  pick_by_cases allow P pool local peer alone = elim (Bool-cases (g.spread && allow)) [
    | inl joined ↦ rw joined (pool (ground arith) (ground arith))
    | inr apart ↦ rw apart (elim (nobody_or_not (pick_tier skip false ih v g).0) [
      | inl empty ↦ rw (pick_tier-nobody_same false empty) (elim (Bool-cases allow) [
        | inl yes_peer ↦ rw yes_peer (peer apart empty yes_peer)
        | inr no_peer ↦ rw no_peer (alone empty no_peer)
      ])
      | inr found ↦ rw (or_else_same (pick_tier skip false ih v g) _ found) (local apart found)
    ])
  ]

  -- What is known of the chosen backend.
  pub record IsChosen (allow : Bool) (c : Backend) : Type 0 where
    pub listed : In c g.backends
    pub servable : IsServable ih skip v c
    pub peer_allowed : c.learned ≡ true → allow ≡ true
    pub local_first :
        c.learned ≡ true
        → g.spread ≡ false
        → (d : Backend) → In d g.backends
        → d.learned ≡ false
        → ¬ IsServable ih skip v d

  pick_by-IsChosen :
      (allow : Bool) (c : Backend) → (pick_by ih skip allow v g).0 ≡ chosen c → IsChosen allow c
  pick_by-IsChosen allow c =
      pick_by_cases allow (λ p. p ≡ chosen c → IsChosen allow c)
        (λ spread allowed h.
          let found = pick_pool-chosen c h in
          record {
            listed = found.0;
            servable = found.1;
            peer_allowed = λ _. allowed;
            local_first = λ _ apart. absurd (cc);
          })
        (λ apart some_local h.
          let found = pick_tier-chosen false c h in
          record {
            listed = found.0;
            servable = found.1;
            peer_allowed = λ l. absurd (cc);
            local_first = λ l. absurd (cc);
          })
        (λ apart empty allowed h.
          let found = pick_tier-chosen true c h in
          record {
            listed = found.0;
            servable = found.1;
            peer_allowed = λ _. allowed;
            local_first = λ _ _. pick_tier-nobody false empty;
          })
        (λ _ _ h. absurd (cc))

  pick_by-nobody :
      (allow : Bool) (c : Backend)
      → (pick_by ih skip allow v g).0 ≡ nobody
      → In c g.backends
      → (c.learned ≡ true → allow ≡ true)
      → ¬ IsServable ih skip v c
  pick_by-nobody allow c =
      pick_by_cases allow
        (λ p.
          p ≡ nobody
          → In c g.backends
          → (c.learned ≡ true → allow ≡ true)
          → ¬ IsServable ih skip v c)
        (λ spread allowed h m _. pick_pool-nobody h c m)
        (λ apart some_local h. absurd (some_local h))
        (λ apart empty allowed h m _. elim (Bool-cases c.learned) [
          | inl is_peer ↦ pick_tier-nobody true h c m is_peer
          | inr is_local ↦ pick_tier-nobody false empty c m is_local
        ])
        (λ empty refused _ m q. elim (Bool-cases c.learned) [
          | inl is_peer ↦ let allowed = q is_peer in absurd (cc)
          | inr is_local ↦ pick_tier-nobody false empty c m is_local
        ])

  pick_by-ne-panics : (allow : Bool) → g.cursor < 2 ^ 63 → (pick_by ih skip allow v g).0 ≢ panics
  unfolding pick_pool pick_tier
  pick_by-ne-panics allow early =
      pick_by_cases allow (λ p. p ≢ panics) (λ _ _. pick_from-ne-panics _ g early)
        (λ _ _. pick_from-ne-panics _ g early) (λ _ _ _. pick_from-ne-panics _ g early)
        (λ _ _ h. absurd (cc))

  pick_by-nobody_iff :
      (allow : Bool)
      → g.cursor < 2 ^ 63
      → ((pick_by ih skip allow v g).0 ≡ nobody) ↔ (
          (c : Backend)
          → In c g.backends
          → (c.learned ≡ true → allow ≡ true)
          → ¬ IsServable ih skip v c)
  pick_by-nobody_iff allow early = (
    (λ h c m q. pick_by-nobody allow c h m q),
    (λ h. elim (Pick-cases (pick_by ih skip allow v g).0) [
      | inl empty ↦ empty
      | inr (inl (c, e)) ↦
          let found = pick_by-IsChosen allow c e in
          absurd (h c found.listed found.peer_allowed found.servable)
      | inr (inr broken) ↦ absurd (pick_by-ne-panics allow early broken)
    ]),
  )

module _ (skip : List ℕ) (allow : Bool) (v : Option Variant) (g : RouteGroup) where
  -- A backend that pickHealthy returns is in the group, was not tried before, is of the variant
  -- asked for, passes its probes and Docker's check and is not draining; it is a peer's only if
  -- peers are allowed, and, without spread, only if no local backend would do.
  pub pick_healthy_sound :
      (c : Backend) → (pick_healthy skip allow v g).0 ≡ chosen c → IsChosen skip false v g allow c
  unfolding pick_healthy
  pick_healthy_sound c h = pick_by-IsChosen skip false v g allow c h

  -- Before 2^63 selections pickHealthy returns nil exactly when no backend of the group that the
  -- request may use is untried, of the variant, and healthy.
  pub pick_healthy-nobody_iff :
      g.cursor < 2 ^ 63
      → ((pick_healthy skip allow v g).0 ≡ nobody) ↔ (
          (c : Backend)
          → In c g.backends
          → (c.learned ≡ true → allow ≡ true)
          → ¬ IsServable false skip v c)
  unfolding pick_healthy
  pick_healthy-nobody_iff early = pick_by-nobody_iff skip false v g allow early

  -- Panic mode doubts the probes alone: its choice is still untried, of the variant, not draining
  -- and not reported unhealthy by Docker, and the tiers are the same.
  pub pick_any_sound :
      (c : Backend) → (pick_any skip allow v g).0 ≡ chosen c → IsChosen skip true v g allow c
  unfolding pick_any
  pick_any_sound c h = pick_by-IsChosen skip true v g allow c h

  pub pick_any-nobody_iff :
      g.cursor < 2 ^ 63
      → ((pick_any skip allow v g).0 ≡ nobody) ↔ (
          (c : Backend)
          → In c g.backends
          → (c.learned ≡ true → allow ≡ true)
          → ¬ IsServable true skip v c)
  unfolding pick_any
  pick_any-nobody_iff early = pick_by-nobody_iff skip true v g allow early

  pub pick_any-nobody :
      (pick_any skip allow v g).0 ≡ nobody
      → (c : Backend) → In c g.backends
      → (c.learned ≡ true → allow ≡ true)
      → ¬ IsServable true skip v c
  unfolding pick_any
  pick_any-nobody h c m = pick_by-nobody skip true v g allow c h m

  pub pick_healthy-ne-panics : g.cursor < 2 ^ 63 → (pick_healthy skip allow v g).0 ≢ panics
  unfolding pick_healthy
  pick_healthy-ne-panics early = pick_by-ne-panics skip false v g allow early

  pub pick_any-ne-panics : g.cursor < 2 ^ 63 → (pick_any skip allow v g).0 ≢ panics
  unfolding pick_any
  pick_any-ne-panics early = pick_by-ne-panics skip true v g allow early
