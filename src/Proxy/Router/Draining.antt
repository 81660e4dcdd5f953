-- ===== src/Proxy/Router/Draining.antt =====
-- cmd/proxy/router.go: the drains over Sets and the signals of containers, and the picks under them.
use proxy_manager.Prelude.{
  ℕ, ◌+◌, ◌≤◌, ◌≡◌, ◌≢◌, ap, subst, refl, Bool, true, false, ◌&&◌, List, [], ◌∷◌, Option, some,
  Bytes, bytes_eq, nat_eq, ◌==◌, ltb, All, All-map, All-map_any, In, In-All, Bool-cases, inl, inr,
  ◌⊎◌, arith,
}
use proxy_manager.Prelude.Assoc.{lookup, insert, lookup-insert, lookup-delete}
use proxy_manager.Proxy.Backend.{Backend, Variant, mark_healthy}
use proxy_manager.Proxy.Group.{RouteGroup}
use proxy_manager.Proxy.Pick.{chosen, pick_healthy, pick_any}
use proxy_manager.Proxy.Pick.Sound.{pick_healthy_sound, pick_any_sound}
use proxy_manager.Proxy.Router.{
  Router, drain_ttl, map_backends, drain_container, mark_draining, clear_draining, drain_expired,
  prune_drains, drain_listed, is_some, is_nonempty, apply_draining_locked, sort_routes,
  carry_health, set_routes,
}

-- What changes the drains: a Set, a stop signal of a container, the end of one.
pub data RouterEvent : Type 0 where
  refreshed : ℕ → List RouteGroup → RouterEvent
  stopped : Bytes → ℕ → RouterEvent
  cleared : Bytes → RouterEvent

abbrev pub router_event : RouterEvent → Router → Router
router_event (refreshed now gs) r = set_routes now gs r
router_event (stopped id now) r = mark_draining id now r
router_event (cleared id) r = clear_draining id r

abbrev pub router_events : List RouterEvent → Router → Router
router_events [] r = r
router_events (x ∷ xs) r = router_events xs (router_event x r)

-- No end of the container, and no event outside of the drain's lifetime.
abbrev pub KeepsDrain : Bytes → ℕ → RouterEvent → Type 0
KeepsDrain id since (refreshed now gs) = now ≤ since + drain_ttl
KeepsDrain id since (stopped j now) = since ≤ now
KeepsDrain id since (cleared j) = j ≢ id

abbrev IsDrainedAt : Bytes → Backend → Type 0
IsDrainedAt id b = b.container_id ≡ id → b.draining ≡ true

abbrev IsDrainedIn : Bytes → RouteGroup → Type 0
IsDrainedIn id g = All (IsDrainedAt id) g.backends

record IsDraining (id : Bytes) (since : ℕ) (r : Router) : Type 0 where
  marked : (at : ℕ) × (lookup id r.drain_set ≡ some at) × (since ≤ at)
  drained : All (IsDrainedIn id) r.groups

drain_container-sets : (id : Bytes) (b : Backend) → IsDrainedAt id (drain_container id b)
unfolding drain_container
drain_container-sets id b = elim (Bool-cases (b.container_id == id)) [
  | inl same ↦ rw same (λ _. refl)
  | inr other ↦
      rw other (λ e. let same = (bytes_eq.eq_test_iff b.container_id id).1 e in absurd (cc))
]

drain_container-keeps :
    (id j : Bytes) (b : Backend) → IsDrainedAt id b → IsDrainedAt id (drain_container j b)
unfolding drain_container
drain_container-keeps id j b d = elim (Bool-cases (b.container_id == j)) [
  | inl same ↦ rw same (λ _. refl)
  | inr other ↦ rw other d
]

lookup-insert_same :
    (id : Bytes) (now : ℕ) (m : List (Bytes × ℕ)) → lookup id (insert id now m) ≡ some now
lookup-insert_same id now m =
    rw (lookup-insert id id now m, (bytes_eq.eq_test_iff id id).1 refl) refl

mark_draining-IsDraining :
    (id : Bytes) (now : ℕ) (r : Router) → id ≢ [] → IsDraining id now (mark_draining id now r)
unfolding mark_draining map_backends
mark_draining-IsDraining [] now r h = absurd (h refl)
mark_draining-IsDraining (c ∷ id) now r h = record {
  marked = (now, lookup-insert_same (c ∷ id) now r.drain_set, omega arith);
  drained =
      All-map_any (IsDrainedIn (c ∷ id)) _ r.groups (λ g.
        All-map_any (IsDrainedAt (c ∷ id)) _ g.backends (λ b. drain_container-sets (c ∷ id) b));
}

mark_draining-keeps :
    (id j : Bytes) (since now : ℕ) (r : Router)
    → since ≤ now
    → IsDraining id since r
    → IsDraining id since (mark_draining j now r)
unfolding mark_draining map_backends
mark_draining-keeps id [] since now r h d = d
mark_draining-keeps id (c ∷ j) since now r h d = record {
  marked = elim (Bool-cases ((c ∷ j) == id)) [
    | inl same ↦ (now, rw (lookup-insert (c ∷ j) id now r.drain_set, same) refl, h)
    | inr other ↦
        (d.marked.0, rw (lookup-insert (c ∷ j) id now r.drain_set, other) d.marked.1, d.marked.2)
  ];
  drained =
      All-map (IsDrainedIn id) (IsDrainedIn id) _ r.groups
        (λ g p.
          All-map (IsDrainedAt id) (IsDrainedAt id) _ g.backends
            (λ b q. drain_container-keeps id (c ∷ j) b q) p)
        d.drained;
}

prune_drains-live :
    (id : Bytes) (now at : ℕ) (m : List (Bytes × ℕ))
    → drain_expired now at ≡ false
    → lookup id m ≡ some at
    → lookup id (prune_drains now m) ≡ some at
unfolding prune_drains
prune_drains-live id now at [] live h = cc
prune_drains-live id now at ((j, a) ∷ m) live h = elim (Bool-cases (j == id)) [
  | inl same ↦
      let equal : a ≡ at = ground (arith, h) in
      let fresh : drain_expired now a ≡ false = rw equal live in rw (fresh, same) (ap some equal)
  | inr apart ↦
      let rest = prune_drains-live id now at m live (ground (arith, h)) in
      elim (Bool-cases (drain_expired now a)) [
        | inl stale ↦ rw stale rest
        | inr fresh ↦ rw (fresh, apart) rest
      ]
]

listed_lem :
    (id : Bytes) (at : ℕ) (m : List (Bytes × ℕ))
    → id ≢ []
    → lookup id m ≡ some at
    → (is_nonempty id && is_some (lookup id m)) ≡ true
listed_lem [] at m nonempty h = absurd (nonempty refl)
listed_lem (c ∷ id) at m nonempty h = rw h refl

drain_listed-sets :
    (id : Bytes) (at : ℕ) (m : List (Bytes × ℕ)) (b : Backend)
    → id ≢ []
    → lookup id m ≡ some at
    → IsDrainedAt id (drain_listed m b)
unfolding drain_listed
drain_listed-sets id at m b nonempty h =
    elim (Bool-cases (is_nonempty b.container_id && is_some (lookup b.container_id m))) [
      | inl hit ↦ rw hit (λ _. refl)
      | inr miss ↦ rw miss (λ e.
          let missed = subst (λ i. (is_nonempty i && is_some (lookup i m)) ≡ false) e miss in
          let listed = listed_lem id at m nonempty h in absurd (cc))
    ]

not_expired : (since ttl at now : ℕ) → now ≤ since + ttl → since ≤ at → ltb (at + ttl) now ≡ false
not_expired since ttl at now h k = ground arith

set_routes-keeps :
    (id : Bytes) (since now : ℕ) (gs : List RouteGroup) (r : Router)
    → id ≢ []
    → now ≤ since + drain_ttl
    → IsDraining id since r
    → IsDraining id since (set_routes now gs r)
unfolding set_routes apply_draining_locked carry_health map_backends mark_healthy
set_routes-keeps id since now gs r nonempty h d =
    let (at, found, later) = d.marked in
    let kept =
      prune_drains-live id now at r.drain_set (not_expired since drain_ttl at now h later) found in
    record {
      marked = (at, kept, later);
      drained =
          All-map (IsDrainedIn id) (IsDrainedIn id) _ _
            (λ g p. All-map (IsDrainedAt id) (IsDrainedAt id) _ g.backends (λ b q. q) p)
            (All-map_any (IsDrainedIn id) _ (sort_routes gs) (λ g.
              All-map_any (IsDrainedAt id) _ g.backends
                (λ b. drain_listed-sets id at _ b nonempty kept)));
    }

event-IsDraining :
    (id : Bytes) (since : ℕ) (x : RouterEvent) (r : Router)
    → id ≢ []
    → KeepsDrain id since x
    → IsDraining id since r
    → IsDraining id since (router_event x r)
unfolding clear_draining
event-IsDraining id since (refreshed now gs) r nonempty k d =
    set_routes-keeps id since now gs r nonempty k d
event-IsDraining id since (stopped j now) r nonempty k d = mark_draining-keeps id j since now r k d
event-IsDraining id since (cleared j) r nonempty k d = record {
  marked = (
    d.marked.0,
    rw (lookup-delete j id r.drain_set) (elim (Bool-cases (j == id)) [
      | inl same ↦ absurd (k ((bytes_eq.eq_test_iff j id).0 same))
      | inr other ↦ rw other d.marked.1
    ]),
    d.marked.2,
  );
  drained = d.drained;
}

events-IsDraining :
    (id : Bytes) (since : ℕ) (xs : List RouterEvent) (r : Router)
    → id ≢ []
    → All (KeepsDrain id since) xs
    → IsDraining id since r
    → IsDraining id since (router_events xs r)
events-IsDraining id since [] r nonempty k d = d
events-IsDraining id since (x ∷ xs) r nonempty k d =
    events-IsDraining id since xs (router_event x r) nonempty k.1
      (event-IsDraining id since x r nonempty k.0 d)

-- From the stop signal of a container on, no pick, not even panic mode's, returns one of its
-- backends, through any Sets and any signals for other containers, until the container's own end
-- is reported or ten minutes have passed.
pub mark_draining-unpicked :
    (id : Bytes) (since : ℕ) (xs : List RouterEvent) (r : Router)
    → id ≢ []
    → All (KeepsDrain id since) xs
    → (g : RouteGroup) → In g (router_events xs (mark_draining id since r)).groups
    → (skip : List ℕ) (allow_peer : Bool) (v : Option Variant) (b : Backend)
    → ((pick_healthy skip allow_peer v g).0 ≡ chosen b)
      ⊎ ((pick_any skip allow_peer v g).0 ≡ chosen b)
    → b.container_id ≢ id
mark_draining-unpicked id since xs r nonempty k g m skip allow_peer v b picked e =
    let d =
      events-IsDraining id since xs _ nonempty k (mark_draining-IsDraining id since r nonempty) in
    let group = In-All (IsDrainedIn id) _ d.drained m in
    elim picked [
      | inl h ↦
          let found = pick_healthy_sound skip allow_peer v g b h in
          let drained = In-All (IsDrainedAt id) g.backends group found.listed e in
          let undrained = found.servable.undrained in cc
      | inr h ↦
          let found = pick_any_sound skip allow_peer v g b h in
          let drained = In-All (IsDrainedAt id) g.backends group found.listed e in
          let undrained = found.servable.undrained in cc
    ]
