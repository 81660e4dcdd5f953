-- ===== src/Proxy/Router/Tombstones.antt =====
-- cmd/proxy/router.go: the tombstones that a Set leaves, and the requests they answer.
use proxy_manager.Prelude.{
  ℕ, ◌+◌, ◌<◌, ◌≡◌, ◌≢◌, ◌∙◌, sym, ap, subst, refl, Bool, true, false, ◌&&◌, ◌||◌, List, [], ◌∷◌,
  map, Option, none, some, Bytes, bytes_eq, ◌==◌, ltb, All, In, All-append, In-map, contains,
  contains_iff, Bool-cases, or-false, inl, inr, arith, length, equal_fold, has_prefix, to_lower,
  split_unique,
}
use proxy_manager.Prelude.Sorting.{sort_stable-All}
use proxy_manager.Proxy.Group.{RouteGroup}
use proxy_manager.Proxy.Router.{
  RouteTombstone, route_tombstone_ttl, fold_key, group_fold_key, tombstone_key, keep_tombstones,
  new_tombstone, add_tombstones, sort_tombstones, reconcile_tombstones_locked, Router, prev_health,
  set_routes, apply_draining_locked, sort_routes, carry_health, map_backends, tombstoned,
  more_specific,
}

pub differ : (s t : Bytes) → s ≢ t → (s == t) ≡ false
differ s t h = elim (Bool-cases (s == t)) [
  | inl same ↦ absurd (h ((bytes_eq.eq_test_iff s t).0 same))
  | inr other ↦ other
]

pub keep_tombstones-seen :
    (now : ℕ) (k : Bytes) (live seen : List Bytes) (ts : List RouteTombstone)
    → All (λ t. tombstone_key t ≢ k) ts
    → contains seen k ≡ false
    → contains (keep_tombstones now live seen ts).1 k ≡ false
unfolding keep_tombstones
keep_tombstones-seen now k live seen [] h unseen = unseen
keep_tombstones-seen now k live seen (t ∷ ts) h unseen =
    elim (Bool-cases
      (ltb t.until now || contains live (tombstone_key t) || contains seen (tombstone_key t))) [
        | inl dropped ↦
            rw (dropped, keep_tombstones) (keep_tombstones-seen now k live seen ts h.1 unseen)
        | inr kept ↦
            let apart : (tombstone_key t == k) ≡ false = differ (tombstone_key t) k h.0 in
            rw (kept, keep_tombstones)
              (keep_tombstones-seen now k live (tombstone_key t ∷ seen) ts h.1 (rw apart unseen))
      ]

-- The tombstone of this route, set at this time.
pub record IsTombOf (now : ℕ) (g : RouteGroup) (t : RouteTombstone) : Type 0 where
  pub same_host : t.host ≡ to_lower g.host
  pub same_path : t.path ≡ g.path_prefix
  pub lifetime : t.until ≡ now + route_tombstone_ttl

abbrev pub HasPlainHost : RouteGroup → Type 0
HasPlainHost g = All (λ c. c ≢ b'|') (to_lower g.host)

pub fold_key_unique :
    (g h : RouteGroup)
    → HasPlainHost g
    → HasPlainHost h
    → group_fold_key g ≡ group_fold_key h
    → (to_lower g.host ≡ to_lower h.host) × (g.path_prefix ≡ h.path_prefix)
unfolding fold_key
fold_key_unique g h p q e =
    split_unique b'|' (to_lower g.host) (to_lower h.host) g.path_prefix h.path_prefix p q e

pub add_tombstones-has :
    (now : ℕ) (live seen : List Bytes) (prev : List RouteGroup) (g : RouteGroup)
    → All HasPlainHost prev
    → HasPlainHost g
    → In g prev
    → contains live (group_fold_key g) ≡ false
    → contains seen (group_fold_key g) ≡ false
    → (t : RouteTombstone) × In t (add_tombstones now live seen prev) × IsTombOf now g t
unfolding add_tombstones new_tombstone
add_tombstones-has now live seen (h ∷ prev) g plain pg m gone unseen =
    elim (Bool-cases (contains live (group_fold_key h) || contains seen (group_fold_key h))) [
      | inl skipped ↦ elim m [
        | inl e ↦
            let none_live = ap (λ x. contains live (group_fold_key x)) e ∙ gone in
            let none_seen = ap (λ x. contains seen (group_fold_key x)) e ∙ unseen in
            absurd (ground (arith, skipped, none_live, none_seen))
        | inr n ↦
            rw (skipped, add_tombstones)
              (add_tombstones-has now live seen prev g plain.1 pg n gone unseen)
      ]
      | inr added ↦ elim (Bool-cases (group_fold_key h == group_fold_key g)) [
        | inl same ↦
            let (hosts, paths) =
              fold_key_unique h g plain.0 pg ((bytes_eq.eq_test_iff _ _).0 same) in
            rw (added, add_tombstones)
              (
                new_tombstone now h,
                inl refl,
                record { same_host = hosts; same_path = paths; lifetime = refl },
              )
        | inr other ↦ elim m [
          | inl e ↦ absurd (let same = (bytes_eq.eq_test_iff _ _).1 (ap group_fold_key e) in cc)
          | inr n ↦
              let unseen' : contains (group_fold_key h ∷ seen) (group_fold_key g) ≡ false =
                rw other unseen in
              let (t, inside, ok) =
                add_tombstones-has now live (group_fold_key h ∷ seen) prev g plain.1 pg n gone
                  unseen' in
              rw (added, add_tombstones) (t, inr inside, ok)
        ]
      ]
    ]
add_tombstones-has now live seen [] g plain pg m gone unseen = elim m [ ]

pub tombstoned-In :
    (now : ℕ) (ts : List RouteTombstone) (host path : Bytes) (group : Option RouteGroup)
    (t : RouteTombstone)
    → In t ts
    → equal_fold host t.host ≡ true
    → has_prefix path t.path ≡ true
    → ltb t.until now ≡ false
    → more_specific t group ≡ true
    → tombstoned now ts host path group ≡ true
unfolding tombstoned
tombstoned-In now (u ∷ ts) host path group t (inl e) h p u' m =
    subst (λ x. tombstoned now (x ∷ ts) host path group ≡ true) (sym e) (rw (h, p, u', m) refl)
tombstoned-In now (u ∷ ts) host path group t (inr n) h p u' m =
    rw (tombstoned-In now ts host path group t n h p u' m) (ground arith)
tombstoned-In now [] host path group t n h p u m = elim n [ ]

pub to_lower_twice : (s : Bytes) → to_lower (to_lower s) ≡ to_lower s
to_lower_twice [] = refl
to_lower_twice (c ∷ s) = ground (arith, to_lower_twice s)

pub and-true : (p q : Bool) → (p && q) ≡ true → (p ≡ true) × (q ≡ true)
and-true true q h = (refl, h)
and-true false q h = cc

pub shorter_lem :
    (t : RouteTombstone) (group : Option RouteGroup)
    → ((h : RouteGroup) → group ≡ some h → length h.path_prefix < length t.path)
    → more_specific t group ≡ true
shorter_lem t none h = refl
shorter_lem t (some g) h = let shorter = h g refl in ground arith

-- No tombstone stands for a live route.
unfoldable pub IsApart : List RouteTombstone → List RouteGroup → Type 0
IsApart ts gs = All (λ t. contains (map group_fold_key gs) (tombstone_key t) ≡ false) ts

keep_tombstones-apart :
    (now : ℕ) (live seen : List Bytes) (ts : List RouteTombstone)
    → All (λ t. contains live (tombstone_key t) ≡ false) (keep_tombstones now live seen ts).0
unfolding keep_tombstones
keep_tombstones-apart now live seen [] = tt
keep_tombstones-apart now live seen (t ∷ ts) =
    elim (Bool-cases
      (ltb t.until now || contains live (tombstone_key t) || contains seen (tombstone_key t))) [
        | inl dropped ↦ rw (dropped, keep_tombstones) (keep_tombstones-apart now live seen ts)
        | inr kept ↦
            rw (kept, keep_tombstones)
              (
                (or-false _ _ (or-false _ _ kept).0).1,
                keep_tombstones-apart now live (tombstone_key t ∷ seen) ts,
              )
      ]

add_tombstones-apart :
    (now : ℕ) (live seen : List Bytes) (prev : List RouteGroup)
    → All (λ t. contains live (tombstone_key t) ≡ false) (add_tombstones now live seen prev)
unfolding add_tombstones new_tombstone tombstone_key fold_key
add_tombstones-apart now live seen [] = tt
add_tombstones-apart now live seen (g ∷ prev) =
    elim (Bool-cases (contains live (group_fold_key g) || contains seen (group_fold_key g))) [
      | inl skipped ↦ rw (skipped, add_tombstones) (add_tombstones-apart now live seen prev)
      | inr added ↦
          rw (added, add_tombstones)
            ((or-false _ _ added).0, add_tombstones-apart now live (group_fold_key g ∷ seen) prev)
    ]

reconcile-IsApart :
    (now : ℕ) (prev gs : List RouteGroup) (tombs : List RouteTombstone)
    → IsApart (reconcile_tombstones_locked now prev gs tombs) gs
unfolding IsApart reconcile_tombstones_locked sort_tombstones
reconcile-IsApart now prev gs tombs =
    let live = map group_fold_key gs in
    let kept = keep_tombstones now live [] tombs in
    sort_stable-All (λ t. length t.path) _ _
      (All-append _ kept.0 _ (keep_tombstones-apart now live [] tombs)
        (add_tombstones-apart now live kept.1 prev))

pub keys_kept :
    (f : RouteGroup → RouteGroup) (gs : List RouteGroup)
    → ((g : RouteGroup) → group_fold_key (f g) ≡ group_fold_key g)
    → map group_fold_key (map f gs) ≡ map group_fold_key gs
keys_kept f [] same = refl
keys_kept f (g ∷ gs) same = rw (same g, keys_kept f gs same) refl

-- After each Set, whatever was before, no tombstone stands for a route that is live.
pub set_routes-IsApart :
    (now : ℕ) (gs : List RouteGroup) (r : Router)
    → IsApart (set_routes now gs r).tombstones (set_routes now gs r).groups
unfolding IsApart set_routes carry_health map_backends
set_routes-IsApart now gs r =
    let drained = (apply_draining_locked now (sort_routes gs) r).0 in
    rw (keys_kept (carry_health (prev_health r.groups [])) drained (λ _. refl))
      (reconcile-IsApart now r.groups drained r.tombstones)

pub unlisted_lem :
    (k : Bytes) (gs : List RouteGroup)
    → All (λ h. group_fold_key h ≢ k) gs
    → contains (map group_fold_key gs) k ≡ false
unlisted_lem k [] h = refl
unlisted_lem k (g ∷ gs) h = rw (differ (group_fold_key g) k h.0, unlisted_lem k gs h.1) refl

pub older_lem :
    (ts : List RouteTombstone) (gs : List RouteGroup) (g : RouteGroup)
    → In g gs
    → IsApart ts gs
    → All (λ t. tombstone_key t ≢ group_fold_key g) ts
unfolding IsApart
older_lem [] gs g m apart = tt
older_lem (t ∷ ts) gs g m apart = (
  λ e.
      let listed =
        (contains_iff (map group_fold_key gs) (group_fold_key g)).1
          (In-map group_fold_key g gs m) in
      let unlisted = ap (contains (map group_fold_key gs)) (sym e) ∙ apart.0 in cc,
  older_lem ts gs g m apart.1,
)
