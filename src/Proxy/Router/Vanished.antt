-- ===== src/Proxy/Router/Vanished.antt =====
-- cmd/proxy/router.go: a route that a Set no longer has, over that Set and the later ones.
use proxy_manager.Prelude.{
  ℕ, ◌+◌, ◌≤◌, ◌<◌, ◌≡◌, ◌≢◌, ◌∙◌, ap, refl, true, false, ◌||◌, List, [], ◌∷◌, map, Option, some,
  Bytes, bytes_eq, ◌==◌, ltb, All, In, In-All, In-append_left, In-append_right, All-append,
  contains, Bool-cases, or-false, inl, inr, arith, length, equal_fold, has_prefix, to_lower,
}
use proxy_manager.Prelude.Sorting.{sort_stable-In, sort_stable-All}
use proxy_manager.Proxy.Group.{RouteGroup}
use proxy_manager.Proxy.Router.{
  RouteTombstone, route_tombstone_ttl, fold_key, group_fold_key, tombstone_key, keep_tombstones,
  new_tombstone, add_tombstones, sort_tombstones, reconcile_tombstones_locked, Router, drain_listed,
  prune_drains, prev_health, set_routes, apply_draining_locked, sort_routes, carry_health,
  map_backends, matches_route, tombstoned,
}
use proxy_manager.Proxy.Router.Tombstones.{
  keep_tombstones-seen, HasPlainHost, fold_key_unique, add_tombstones-has, tombstoned-In,
  to_lower_twice, and-true, shorter_lem, IsApart, keys_kept, unlisted_lem, older_lem,
}

-- Several Sets, each with its time.
abbrev pub sets_after : List (ℕ × List RouteGroup) → Router → Router
sets_after [] r = r
sets_after ((now, gs) ∷ xs) r = sets_after xs (set_routes now gs r)

keep_tombstones-All :
    (P : RouteTombstone → Type 0) (now : ℕ) (live seen : List Bytes) (ts : List RouteTombstone)
    → All P ts
    → All P (keep_tombstones now live seen ts).0
unfolding keep_tombstones
keep_tombstones-All P now live seen [] h = tt
keep_tombstones-All P now live seen (t ∷ ts) h =
    elim (Bool-cases
      (ltb t.until now || contains live (tombstone_key t) || contains seen (tombstone_key t))) [
        | inl dropped ↦ rw (dropped, keep_tombstones) (keep_tombstones-All P now live seen ts h.1)
        | inr kept ↦
            rw (kept, keep_tombstones)
              (h.0, keep_tombstones-All P now live (tombstone_key t ∷ seen) ts h.1)
      ]

module _ (later : ℕ) (g : RouteGroup) where
  -- It answers for the route at `later` still.
  record Lasts (t : RouteTombstone) : Type 0 where
    same_host : t.host ≡ to_lower g.host
    same_path : t.path ≡ g.path_prefix
    until_then : later ≤ t.until

  abbrev LastsIfOf : RouteTombstone → Type 0
  LastsIfOf t = tombstone_key t ≡ group_fold_key g → Lasts t

  record Stands (r : Router) : Type 0 where
    stands : (t : RouteTombstone) × In t r.tombstones × (tombstone_key t ≡ group_fold_key g)
    lasting : All LastsIfOf r.tombstones
    gone : contains (map group_fold_key r.groups) (group_fold_key g) ≡ false

  keep_tombstones-stands :
      (now : ℕ) (live seen : List Bytes) (ts : List RouteTombstone) (t : RouteTombstone)
      → now ≤ later
      → contains live (group_fold_key g) ≡ false
      → contains seen (group_fold_key g) ≡ false
      → All LastsIfOf ts
      → In t ts
      → tombstone_key t ≡ group_fold_key g
      → (u : RouteTombstone) × In u (keep_tombstones now live seen ts).0
        × (tombstone_key u ≡ group_fold_key g)
  unfolding keep_tombstones
  keep_tombstones-stands now live seen [] t early absent unseen lasting m own = elim m [ ]
  keep_tombstones-stands now live seen (u ∷ ts) t early absent unseen lasting m own =
      elim (Bool-cases (tombstone_key u == group_fold_key g)) [
        | inl same ↦
            let mine : tombstone_key u ≡ group_fold_key g = (bytes_eq.eq_test_iff _ _).0 same in
            let lasts = (lasting.0 mine).until_then in
            let young : ltb u.until now ≡ false = ground arith in
            let kept : (ltb u.until now
                  || contains live (tombstone_key u)
                  || contains seen (tombstone_key u))
                ≡ false =
              rw (mine, young, absent, unseen) refl in
            rw (kept, keep_tombstones) (u, inl refl, mine)
        | inr other ↦
            let m' : In t ts = elim m [
              | inl e ↦
                  absurd (let same = (bytes_eq.eq_test_iff _ _).1 (ap tombstone_key e ∙ own) in cc)
              | inr n ↦ n
            ] in
            elim (Bool-cases (
              ltb u.until now
              || contains live (tombstone_key u)
              || contains seen (tombstone_key u))) [
                | inl dropped ↦
                    rw (dropped, keep_tombstones)
                      (keep_tombstones-stands now live seen ts t early absent unseen lasting.1 m'
                        own)
                | inr kept ↦
                    let unseen' : contains (tombstone_key u ∷ seen) (group_fold_key g) ≡ false =
                      rw other unseen in
                    let (v, inside, mine) =
                      keep_tombstones-stands now live (tombstone_key u ∷ seen) ts t early absent
                        unseen' lasting.1 m' own in
                    rw (kept, keep_tombstones) (v, inr inside, mine)
              ]
      ]

  add_tombstones-All :
      (now : ℕ) (live seen : List Bytes) (prev : List RouteGroup)
      → All (λ h. LastsIfOf (new_tombstone now h)) prev
      → All LastsIfOf (add_tombstones now live seen prev)
  unfolding add_tombstones
  add_tombstones-All now live seen [] h = tt
  add_tombstones-All now live seen (x ∷ prev) h =
      elim (Bool-cases (contains live (group_fold_key x) || contains seen (group_fold_key x))) [
        | inl skipped ↦ rw (skipped, add_tombstones) (add_tombstones-All now live seen prev h.1)
        | inr added ↦
            rw (added, add_tombstones)
              (h.0, add_tombstones-All now live (group_fold_key x ∷ seen) prev h.1)
      ]

  others_only :
      (now : ℕ) (prev : List RouteGroup)
      → contains (map group_fold_key prev) (group_fold_key g) ≡ false
      → All (λ h. LastsIfOf (new_tombstone now h)) prev
  unfolding new_tombstone tombstone_key fold_key
  others_only now [] h = tt
  others_only now (x ∷ prev) h =
      let (apart, rest) =
        or-false (group_fold_key x == group_fold_key g)
          (contains (map group_fold_key prev) (group_fold_key g)) h in
      (
        (λ mine. absurd (let same = (bytes_eq.eq_test_iff _ _).1 mine in cc)),
        others_only now prev rest,
      )

  own_only :
      (now : ℕ) (prev : List RouteGroup)
      → All HasPlainHost prev
      → HasPlainHost g
      → later ≤ now + route_tombstone_ttl
      → All (λ h. LastsIfOf (new_tombstone now h)) prev
  unfolding new_tombstone tombstone_key fold_key
  own_only now [] plain pg soon = tt
  own_only now (x ∷ prev) plain pg soon = (
    (λ mine.
        let (hosts, paths) = fold_key_unique x g plain.0 pg mine in
        record { same_host = hosts; same_path = paths; until_then = soon }),
    own_only now prev plain.1 pg soon,
  )

  not_of :
      (ts : List RouteTombstone)
      → All (λ t. tombstone_key t ≢ group_fold_key g) ts
      → All LastsIfOf ts
  not_of [] h = tt
  not_of (t ∷ ts) h = ((λ own. absurd (h.0 own)), not_of ts h.1)

  unlisted :
      (now : ℕ) (gs : List RouteGroup) (r : Router)
      → All (λ h. group_fold_key h ≢ group_fold_key g) gs
      → contains
          (map group_fold_key (apply_draining_locked now (sort_routes gs) r).0)
          (group_fold_key g)
        ≡ false
  unfolding apply_draining_locked map_backends sort_routes
  unlisted now gs r without =
      ap (λ ks. contains ks (group_fold_key g))
        (keys_kept (map_backends (drain_listed (prune_drains now r.drain_set))) (sort_routes gs)
          (λ _. refl))
      ∙ unlisted_lem (group_fold_key g) (sort_routes gs) (sort_stable-All _ _ gs without)

  -- A Set without the route, from before `later`, leaves what answers for it.
  set_routes-Stands :
      (now : ℕ) (gs : List RouteGroup) (r : Router)
      → now ≤ later
      → All (λ h. group_fold_key h ≢ group_fold_key g) gs
      → Stands r
      → Stands (set_routes now gs r)
  unfolding set_routes apply_draining_locked map_backends sort_routes carry_health
      reconcile_tombstones_locked sort_tombstones
  set_routes-Stands now gs r early without s =
      let drained = (apply_draining_locked now (sort_routes gs) r).0 in
      let live = map group_fold_key drained in
      let kept = keep_tombstones now live [] r.tombstones in
      let absent = unlisted now gs r without in
      let (t, m, own) = s.stands in
      let (u, inside, mine) =
        keep_tombstones-stands now live [] r.tombstones t early absent refl s.lasting m own in
      record {
        stands =
            (u, sort_stable-In (λ t. length t.path) u _ (In-append_left u kept.0 _ inside), mine);
        lasting =
            sort_stable-All (λ t. length t.path) _ _
              (All-append _ kept.0 _ (keep_tombstones-All _ now live [] r.tombstones s.lasting)
                (add_tombstones-All now live kept.1 r.groups (others_only now r.groups s.gone)));
        gone =
            ap (λ ks. contains ks (group_fold_key g))
              (keys_kept (carry_health (prev_health r.groups [])) drained (λ _. refl))
            ∙ absent;
      }

  -- And so does the Set that removes the route.
  set_routes-vanished :
      (now : ℕ) (gs : List RouteGroup) (r : Router)
      → IsApart r.tombstones r.groups
      → All HasPlainHost r.groups
      → In g r.groups
      → All (λ h. group_fold_key h ≢ group_fold_key g) gs
      → later ≤ now + route_tombstone_ttl
      → Stands (set_routes now gs r)
  unfolding set_routes apply_draining_locked map_backends sort_routes carry_health tombstone_key
      reconcile_tombstones_locked sort_tombstones fold_key
  set_routes-vanished now gs r apart plain m without soon =
      let drained = (apply_draining_locked now (sort_routes gs) r).0 in
      let live = map group_fold_key drained in
      let kept = keep_tombstones now live [] r.tombstones in
      let absent = unlisted now gs r without in
      let none_older = older_lem r.tombstones r.groups g m apart in
      let pg = In-All HasPlainHost r.groups plain m in
      let unseen =
        keep_tombstones-seen now (group_fold_key g) live [] r.tombstones none_older refl in
      let (t, added, ok) = add_tombstones-has now live kept.1 r.groups g plain pg m absent unseen in
      record {
        stands = (
          t,
          sort_stable-In (λ t. length t.path) t _ (In-append_right t kept.0 _ added),
          rw (ok.same_host, ok.same_path) refl,
        );
        lasting =
            sort_stable-All (λ t. length t.path) _ _
              (All-append _ kept.0 _
                (keep_tombstones-All _ now live [] r.tombstones (not_of r.tombstones none_older))
                (add_tombstones-All now live kept.1 r.groups
                  (own_only now r.groups plain pg soon)));
        gone =
            ap (λ ks. contains ks (group_fold_key g))
              (keys_kept (carry_health (prev_health r.groups [])) drained (λ _. refl))
            ∙ absent;
      }

  sets_after-Stands :
      (xs : List (ℕ × List RouteGroup)) (r : Router)
      → All (λ x. (x.0 ≤ later) × All (λ h. group_fold_key h ≢ group_fold_key g) x.1) xs
      → Stands r
      → Stands (sets_after xs r)
  sets_after-Stands [] r h s = s
  sets_after-Stands ((now, gs) ∷ xs) r h s =
      sets_after-Stands xs (set_routes now gs r) h.1 (set_routes-Stands now gs r h.0.0 h.0.1 s)

  Stands-tombstoned :
      (host path : Bytes) (r : Router) (group : Option RouteGroup)
      → matches_route host path g ≡ true
      → ((h : RouteGroup) → group ≡ some h → length h.path_prefix < length g.path_prefix)
      → Stands r
      → tombstoned later r.tombstones host path group ≡ true
  unfolding matches_route
  Stands-tombstoned host path r group fits specific s =
      let (t, m, own) = s.stands in
      let lasts = In-All LastsIfOf r.tombstones s.lasting m own in
      let (host_fits, path_fits) =
        and-true (equal_fold host g.host) (has_prefix path g.path_prefix) fits in
      let lasting = lasts.until_then in
      tombstoned-In later r.tombstones host path group t m
        (rw (lasts.same_host, to_lower_twice g.host) host_fits) (rw lasts.same_path path_fits)
        (not_past t.until lasting) (shorter_lem t group (λ h e. rw lasts.same_path (specific h e)))
    where
      not_past : (n : ℕ) → later ≤ n → ltb n later ≡ false
      not_past n h = ground arith

-- From the Set that removes a route on, over all the Sets without it that follow, each request that
-- matches the route and has no live match as specific is found tombstoned, until five minutes, in
-- nanoseconds, have passed since the route was removed; where no tombstone stood for a live route,
-- as each Set leaves it, and no host has a bar in it.
pub set_routes-tombstoned :
    (now later : ℕ) (host path : Bytes) (gs : List RouteGroup) (sets : List (ℕ × List RouteGroup))
    (r : Router) (g : RouteGroup) (group : Option RouteGroup)
    → IsApart r.tombstones r.groups
    → All HasPlainHost r.groups
    → In g r.groups
    → All (λ h. group_fold_key h ≢ group_fold_key g) gs
    → All (λ x. (x.0 ≤ later) × All (λ h. group_fold_key h ≢ group_fold_key g) x.1) sets
    → matches_route host path g ≡ true
    → later ≤ now + 300_000_000_000
    → ((h : RouteGroup) → group ≡ some h → length h.path_prefix < length g.path_prefix)
    → tombstoned later (sets_after sets (set_routes now gs r)).tombstones host path group ≡ true
set_routes-tombstoned now later host path gs sets r g group apart plain m without after fits soon
      specific =
    Stands-tombstoned later g host path (sets_after sets (set_routes now gs r)) group fits specific
      (sets_after-Stands later g sets (set_routes now gs r) after
        (set_routes-vanished later g now gs r apart plain m without soon))
