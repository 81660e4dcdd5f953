-- ===== src/Proxy/Router/Routes.antt =====
-- cmd/proxy/router.go: the route that a request is matched to after a Set.
use proxy_manager.Prelude.{
  ℕ, ◌≤◌, ◌≡◌, ap, refl, true, List, [], ◌∷◌, map, some, Bytes, length, All-map, In, In-All, In-map,
  Bool-cases, inl, inr, arith,
}
use proxy_manager.Prelude.Sorting.{IsBelow, IsSorted, sort_stable-IsSorted, sort_stable-In}
use proxy_manager.Proxy.Group.{RouteGroup}
use proxy_manager.Proxy.Router.{
  Router, map_backends, drain_listed, prune_drains, apply_draining_locked, sort_routes,
  carry_health, prev_health, set_routes, matches_route, find_route,
}

abbrev path_size : RouteGroup → ℕ
path_size g = length g.path_prefix

-- A change of the backends alone keeps the order.
map-IsSorted :
    (f : RouteGroup → RouteGroup) (gs : List RouteGroup)
    → ((g : RouteGroup) → (f g).path_prefix ≡ g.path_prefix)
    → IsSorted path_size gs
    → IsSorted path_size (map f gs)
map-IsSorted f [] same s = tt
map-IsSorted f (g ∷ gs) same s = (
  All-map (IsBelow path_size g) (IsBelow path_size (f g)) f gs (λ h p. rw (same h, same g) p) s.0,
  map-IsSorted f gs same s.1,
)

find_route-longest :
    (host path : Bytes) (h : RouteGroup) (gs : List RouteGroup)
    → IsSorted path_size gs
    → In h gs
    → matches_route host path h ≡ true
    → (g : RouteGroup) × (find_route host path gs ≡ some g)
      × (matches_route host path g ≡ true)
      × In g gs
      × IsBelow path_size g h
unfolding find_route
find_route-longest host path h (g ∷ gs) s m fits = elim (Bool-cases (matches_route host path g)) [
  | inl hit ↦ (
    g,
    rw hit refl,
    hit,
    inl refl,
    elim m [ inl e ↦ rw e (omega arith) | inr n ↦ In-All (IsBelow path_size g) gs s.0 n ],
  )
  | inr miss ↦ elim m [
    | inl e ↦ let same = ap (matches_route host path) e in absurd (cc)
    | inr n ↦
        let (k, found, ok, inside, longest) = find_route-longest host path h gs s.1 n fits in
        (k, rw miss found, ok, inr inside, longest)
  ]
]
find_route-longest host path h [] s m fits = elim m [ ]

-- What Set publishes of a group.
unfoldable pub published : ℕ → Router → RouteGroup → RouteGroup
published now r g =
    carry_health (prev_health r.groups [])
      (map_backends (drain_listed (prune_drains now r.drain_set)) g)

published-path :
    (now : ℕ) (r : Router) (g : RouteGroup) → (published now r g).path_prefix ≡ g.path_prefix
unfolding published carry_health map_backends
published-path now r g = refl

map-map :
    (f h : RouteGroup → RouteGroup) (gs : List RouteGroup)
    → map f (map h gs) ≡ map (λ g. f (h g)) gs
map-map f h [] = refl
map-map f h (g ∷ gs) = ap (◌∷◌ (f (h g))) (map-map f h gs)

pub set_routes-groups :
    (now : ℕ) (gs : List RouteGroup) (r : Router)
    → (set_routes now gs r).groups ≡ map (published now r) (sort_routes gs)
unfolding set_routes apply_draining_locked published
set_routes-groups now gs r = map-map _ _ (sort_routes gs)

-- After a Set, a request that some given route matches is served by a matching route whose path is
-- at least as long, whatever the order in which the routes were given.
pub set_routes-find_route :
    (now : ℕ) (host path : Bytes) (gs : List RouteGroup) (r : Router) (h : RouteGroup)
    → In h gs
    → matches_route host path h ≡ true
    → (g : RouteGroup) × (find_route host path (set_routes now gs r).groups ≡ some g)
      × (matches_route host path g ≡ true)
      × (length h.path_prefix ≤ length g.path_prefix)
unfolding published carry_health map_backends matches_route sort_routes
set_routes-find_route now host path gs r h m fits =
    let sorted =
      map-IsSorted (published now r) (sort_routes gs) (published-path now r)
        (sort_stable-IsSorted path_size gs) in
    let listed = In-map (published now r) h (sort_routes gs) (sort_stable-In path_size h gs m) in
    let (g, found, ok, _, longest) =
      find_route-longest host path (published now r h) _ sorted listed fits in
    (g, rw (set_routes-groups now gs r) found, ok, longest)
