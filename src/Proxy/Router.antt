-- ===== src/Proxy/Router.antt =====
-- cmd/proxy/router.go, `Router`: the published groups, the containers that drain and the routes that
-- vanished, with Set, markDraining, clearDraining and the match of a request to its route. Of Set
-- the limiters, caches, transports and A/B runs are left out: they change other fields.
pub mod Routes
pub mod Draining
pub mod Tombstones
pub mod Vanished
use proxy_manager.Prelude.{
  ℕ, zero, suc, ◌+◌, ◌*◌, ◌^◌, Bool, true, false, not, ◌&&◌, ◌||◌, List, [], ◌∷◌, ◌++◌, map, Option,
  none, some, Bytes, bytes_eq, nat_eq, codes, ◌==◌, ltb, if◌then◌else◌, length, filter, any,
  contains, has_prefix, to_lower, equal_fold,
}
use proxy_manager.Prelude.Assoc.{lookup, insert, delete}
use proxy_manager.Prelude.Sorting.{sort_stable}
use proxy_manager.Proxy.Backend.{Backend, Variant, variant_a, variant_b, mark_healthy}
use proxy_manager.Proxy.Group.{RouteGroup, route_key}

abbrev second : ℕ
second = 10 ^ 9

abbrev pub drain_ttl : ℕ
drain_ttl = 600 * second

abbrev pub route_tombstone_ttl : ℕ
route_tombstone_ttl = 300 * second

-- `until` is the source's name.
pub record RouteTombstone : Type 0 where
  pub host : Bytes
  pub path : Bytes
  pub until : ℕ

pub record Router : Type 0 where
  pub groups : List RouteGroup
  pub drain_set : List (Bytes × ℕ)
  pub tombstones : List RouteTombstone

unfoldable pub map_backends : (Backend → Backend) → RouteGroup → RouteGroup
map_backends f g = record g { backends = map f g.backends }

unfoldable pub drain_container : Bytes → Backend → Backend
drain_container id b = if b.container_id == id then record b { draining = true } else b

unfoldable pub mark_draining : Bytes → ℕ → Router → Router
mark_draining [] now r = r
mark_draining (c ∷ id) now r = record r {
  drain_set = insert (c ∷ id) now r.drain_set;
  groups = map (map_backends (drain_container (c ∷ id))) r.groups;
}

abbrev add_transport : Option ℕ → List ℕ → List ℕ
add_transport none idle = idle
add_transport (some t) idle = if contains idle t then idle else idle ++ t ∷ []

abbrev idle_of : Bytes → List Backend → List ℕ → List ℕ
idle_of id [] idle = idle
idle_of id (b ∷ bs) idle =
    idle_of id bs (if b.container_id == id then add_transport b.transport idle else idle)

-- The transports whose idle connections markDraining closes, each once.
unfoldable pub idle_transports : Bytes → List RouteGroup → List ℕ → List ℕ
idle_transports id [] idle = idle
idle_transports id (g ∷ gs) idle = idle_transports id gs (idle_of id g.backends idle)

unfoldable pub clear_draining : Bytes → Router → Router
clear_draining id r = record r { drain_set = delete id r.drain_set }

-- `now.Sub(at) > drainTTL`
abbrev pub drain_expired : ℕ → ℕ → Bool
drain_expired now at = ltb (at + drain_ttl) now

unfoldable pub prune_drains : ℕ → List (Bytes × ℕ) → List (Bytes × ℕ)
prune_drains now [] = []
prune_drains now ((id, at) ∷ m) =
    let rest = prune_drains now m in if drain_expired now at then rest else (id, at) ∷ rest

abbrev is_some {ℓ} : {A : Type ℓ} → Option A → Bool
is_some none = false
is_some (some a) = true

abbrev is_nonempty : Bytes → Bool
is_nonempty [] = false
is_nonempty (c ∷ s) = true

unfoldable pub drain_listed : List (Bytes × ℕ) → Backend → Backend
drain_listed drains b =
    if is_nonempty b.container_id && is_some (lookup b.container_id drains)
    then record b { draining = true }
    else b

unfoldable pub apply_draining_locked : ℕ → List RouteGroup → Router → List RouteGroup × Router
apply_draining_locked now gs r =
    (let drains = prune_drains now r.drain_set in
      (map (map_backends (drain_listed drains)) gs, record r { drain_set = drains }))

-- sort.SliceStable by the length of the path, longest first.
unfoldable pub sort_routes : List RouteGroup → List RouteGroup
sort_routes gs = sort_stable (λ g. length g.path_prefix) gs

abbrev variant_text : Variant → Bytes
variant_text variant_a = []
variant_text variant_b = codes "B"

unfoldable pub health_key : RouteGroup → Backend → Bytes
health_key g b =
    route_key g.host g.path_prefix
    ++ (codes "|" ++ (b.url ++ (codes "|" ++ variant_text b.variant)))

abbrev health_of : RouteGroup → List Backend → List (Bytes × Bool) → List (Bytes × Bool)
health_of g [] m = m
health_of g (b ∷ bs) m = health_of g bs (insert (health_key g b) b.healthy_flag m)

-- `prevHealth`: of two backends with one key the later counts.
unfoldable pub prev_health : List RouteGroup → List (Bytes × Bool) → List (Bytes × Bool)
prev_health [] m = m
prev_health (g ∷ gs) m = prev_health gs (health_of g g.backends m)

abbrev or_healthy : Option Bool → Bool
or_healthy none = true
or_healthy (some h) = h

unfoldable pub carry_health : List (Bytes × Bool) → RouteGroup → RouteGroup
carry_health m g = map_backends (λ b. mark_healthy (or_healthy (lookup (health_key g b) m)) b) g

unfoldable pub fold_key : Bytes → Bytes → Bytes
fold_key host path = to_lower host ++ (codes "|" ++ path)

abbrev pub group_fold_key : RouteGroup → Bytes
group_fold_key g = fold_key g.host g.path_prefix

unfoldable pub tombstone_key : RouteTombstone → Bytes
tombstone_key t = t.host ++ (codes "|" ++ t.path)

-- The old tombstones that stay, and the keys seen so far.
unfoldable pub keep_tombstones :
    ℕ → List Bytes → List Bytes → List RouteTombstone → List RouteTombstone × List Bytes
keep_tombstones now live seen [] = ([], seen)
keep_tombstones now live seen (t ∷ ts) =
    elim (ltb t.until now || contains live (tombstone_key t) || contains seen (tombstone_key t)) [
      | true ↦ keep_tombstones now live seen ts
      | false ↦
          let (rest, seen') = keep_tombstones now live (tombstone_key t ∷ seen) ts in
          (t ∷ rest, seen')
    ]

unfoldable pub new_tombstone : ℕ → RouteGroup → RouteTombstone
new_tombstone now g = record {
  host = to_lower g.host;
  path = g.path_prefix;
  until = now + route_tombstone_ttl;
}

-- The tombstones of the routes of the previous groups that are gone.
unfoldable pub add_tombstones : ℕ → List Bytes → List Bytes → List RouteGroup → List RouteTombstone
add_tombstones now live seen [] = []
add_tombstones now live seen (g ∷ gs) =
    elim (contains live (group_fold_key g) || contains seen (group_fold_key g)) [
      | true ↦ add_tombstones now live seen gs
      | false ↦ new_tombstone now g ∷ add_tombstones now live (group_fold_key g ∷ seen) gs
    ]

unfoldable pub sort_tombstones : List RouteTombstone → List RouteTombstone
sort_tombstones ts = sort_stable (λ t. length t.path) ts

unfoldable pub reconcile_tombstones_locked :
    ℕ → List RouteGroup → List RouteGroup → List RouteTombstone → List RouteTombstone
reconcile_tombstones_locked now prev gs tombs =
    let live = map group_fold_key gs in
    let (kept, seen) = keep_tombstones now live [] tombs in
    sort_tombstones (kept ++ add_tombstones now live seen prev)

unfoldable pub set_routes : ℕ → List RouteGroup → Router → Router
set_routes now gs r =
    let (drained, r') = apply_draining_locked now (sort_routes gs) r in
    record r' {
      groups = map (carry_health (prev_health r.groups [])) drained;
      tombstones = reconcile_tombstones_locked now r.groups drained r.tombstones;
    }

unfoldable pub matches_route : Bytes → Bytes → RouteGroup → Bool
matches_route host path g = equal_fold host g.host && has_prefix path g.path_prefix

-- The match of ServeHTTP: the first group that fits.
unfoldable pub find_route : Bytes → Bytes → List RouteGroup → Option RouteGroup
find_route host path [] = none
find_route host path (g ∷ gs) =
    if matches_route host path g then some g else find_route host path gs

abbrev more_specific : RouteTombstone → Option RouteGroup → Bool
more_specific t none = true
more_specific t (some g) = ltb (length g.path_prefix) (length t.path)

unfoldable pub tombstoned : ℕ → List RouteTombstone → Bytes → Bytes → Option RouteGroup → Bool
tombstoned now [] host path group = false
tombstoned now (t ∷ ts) host path group =
    let covers = equal_fold host t.host && has_prefix path t.path && not (ltb t.until now) in
    (covers && more_specific t group) || tombstoned now ts host path group
