-- ===== src/Proxy/RouterExamples.antt =====
-- The router's theorems at concrete inputs.
use proxy_manager.Prelude.{
  ℕ, ◌<◌, subst, Option, ◌≡◌, ◌≤◌, ◌≢◌, refl, inl, inr, true, false, [], ◌∷◌, none, some, codes,
  length, arith, bytes_eq,
}
use proxy_manager.Proxy.Backend.{Backend, variant_a, excluded_from, in_variant}
use proxy_manager.Proxy.Group.{RouteGroup}
use proxy_manager.Proxy.Pick.{
  pick_healthy, pick_tier, pick_from, weighted_pool, weight_floor, in_tier,
}
use proxy_manager.Proxy.Router.{
  Router, map_backends, drain_container, clear_draining, mark_draining, fold_key, set_routes,
  matches_route, find_route, tombstoned,
}
use proxy_manager.Proxy.Router.Routes.{set_routes-find_route}
use proxy_manager.Proxy.Router.Draining.{stopped, cleared, mark_draining-unpicked}
use proxy_manager.Proxy.Router.Tombstones.{IsApart, set_routes-IsApart}
use proxy_manager.Proxy.Router.Vanished.{sets_after, set_routes-tombstoned}

abbrev one : Backend
one = record {
  ref = 1;
  url = codes "http://10.0.0.1:80";
  weight = 1;
  container = codes "web-1";
  health_path = [];
  proxy = none;
  healthy_flag = true;
  sticky_id = codes "aa";
  consec_fails = 0;
  docker_unhealthy = false;
  learned = false;
  peer_id = [];
  variant = variant_a;
  peer_test_id = [];
  container_id = codes "c1";
  draining = false;
  transport = none;
}

abbrev two : Backend
two = record one { ref = 2; container_id = codes "c2" }

abbrev site : RouteGroup
site = record {
  host = codes "h";
  path_prefix = [];
  strip_prefix = false;
  name = codes "app";
  service = codes "web";
  backends = one ∷ two ∷ [];
  drop_headers = [];
  sticky = false;
  cache_ttl = 0;
  cache_paths = [];
  cache = none;
  auth_required = false;
  auth_users = [];
  auth_mode = [];
  rate_limit = false;
  rate_rpm = 0;
  limiter = none;
  spread = false;
  spread_local = false;
  cursor = 0;
  panic_log_at = 0;
  static = false;
}

abbrev api : RouteGroup
api = record site { path_prefix = codes "/api" }

abbrev prefix_size : Option RouteGroup → ℕ
prefix_size none = 0
prefix_size (some g) = length g.path_prefix

abbrev running : Router
running = record { groups = api ∷ site ∷ []; drain_set = []; tombstones = [] }

set_routes-find_route_example :
    (g : RouteGroup) × (find_route
        (codes "H")
        (codes "/api/x")
        (set_routes 5 (site ∷ api ∷ []) running).groups
      ≡ some g)
    × (matches_route (codes "H") (codes "/api/x") g ≡ true)
    × (4 ≤ length g.path_prefix)
unfolding matches_route
set_routes-find_route_example =
    set_routes-find_route 5 (codes "H") (codes "/api/x") (site ∷ api ∷ []) running api
      (inr (inl refl)) refl

abbrev drained_site : RouteGroup
drained_site = record site { backends = record one { draining = true } ∷ two ∷ [] }

mark_draining-unpicked_example : codes "c2" ≢ codes "c1"
unfolding mark_draining map_backends drain_container pick_healthy pick_tier pick_from weighted_pool
    weight_floor in_tier excluded_from in_variant clear_draining
mark_draining-unpicked_example =
    mark_draining-unpicked (codes "c1") 7 (stopped (codes "c9") 8 ∷ cleared (codes "c8") ∷ [])
      running (λ e. cc) (omega arith, ((λ e. cc), tt)) drained_site (inr (inl refl)) [] true none
      two (inl refl)

set_routes-IsApart_example :
    IsApart (set_routes 9 (site ∷ []) running).tombstones (set_routes 9 (site ∷ []) running).groups
set_routes-IsApart_example = set_routes-IsApart 9 (site ∷ []) running

set_routes-tombstoned_example :
    tombstoned 20
      (sets_after ((12, site ∷ []) ∷ (15, []) ∷ []) (set_routes 9 (site ∷ []) running)).tombstones
      (codes "h")
      (codes "/api/x")
      (some site)
    ≡ true
unfolding IsApart fold_key matches_route
set_routes-tombstoned_example =
    set_routes-tombstoned 9 20 (codes "h") (codes "/api/x") (site ∷ [])
      ((12, site ∷ []) ∷ (15, []) ∷ []) running api (some site) tt
      (((λ e. omega (arith, e)), tt), (((λ e. omega (arith, e)), tt), tt)) (inl refl)
      ((λ e. cc), tt) ((omega arith, ((λ e. cc), tt)), ((omega arith, tt), tt)) refl (omega arith)
      (λ h e. subst (λ o. prefix_size o < 4) e (omega arith))
