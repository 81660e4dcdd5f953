-- ===== src/Proxy/Group.antt =====
-- cmd/proxy/router.go, `RouteGroup`: one route, host and path prefix, with its backends.
use proxy_manager.Prelude.{ℕ, Bool, List, Option, Bytes, ◌++◌, codes}
use proxy_manager.Proxy.Backend.{Backend}

-- A limiter or a cache of the router is named by a reference.
pub record RouteGroup : Type 0 where
  pub host : Bytes
  pub path_prefix : Bytes
  pub strip_prefix : Bool
  pub name : Bytes
  pub service : Bytes
  pub backends : List Backend
  pub drop_headers : List Bytes
  pub sticky : Bool
  pub cache_ttl : ℕ
  pub cache_paths : List Bytes
  pub cache : Option ℕ
  pub auth_required : Bool
  pub auth_users : List Bytes
  pub auth_mode : Bytes
  pub rate_limit : Bool
  pub rate_rpm : ℕ
  pub limiter : Option ℕ
  pub spread : Bool
  pub spread_local : Bool
  pub cursor : ℕ
  pub panic_log_at : ℕ
  pub static : Bool

-- host + "|" + path, the key under which the router keeps what outlives a refresh.
unfoldable pub route_key : Bytes → Bytes → Bytes
route_key host path = host ++ (codes "|" ++ path)

unfoldable pub group_key : RouteGroup → Bytes
unfolding route_key
group_key g = route_key g.host g.path_prefix
