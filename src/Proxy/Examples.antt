-- ===== src/Proxy/Examples.antt =====
-- The routing theorems at concrete inputs, and runs of the code.
use proxy_manager.Prelude.{
  zero, suc, ◌≡◌, ◌↔◌, refl, inl, inr, Bool, true, false, [], ◌∷◌, none, some, codes, All, In,
  arith,
}
use proxy_manager.Proxy.Backend.{Backend, variant_a, healthy, excluded_from, in_variant}
use proxy_manager.Proxy.Backend.Hysteresis.{after_probes, healthy-after_probes}
use proxy_manager.Proxy.Group.{RouteGroup}
use proxy_manager.Proxy.Pick.{
  nobody, pick_healthy, pick_any, pick_from, weighted_pool, weight_floor, in_tier, pick_tier,
}
use proxy_manager.Proxy.Pick.Pool.{IsServable}
use proxy_manager.Proxy.Pick.Sound.{
  IsChosen, pick_healthy_sound, pick_any_sound, pick_healthy-nobody_iff,
}
use proxy_manager.Proxy.Pick.Rotation.{picks}
use proxy_manager.Proxy.Pick.Fair.{turns_of, active_pool, pick_healthy_fair}
use proxy_manager.Proxy.Body.{
  Request, prepare_retry_body, payload, breaks_off, CanReplay, IsCopyWhole, prepare_retry_body_lem,
}
use proxy_manager.Proxy.Dispatch.{World, no_error, backend_error, proxy_to_group}
use proxy_manager.Proxy.Dispatch.Attempts.{AttemptsOk, attempts, proxy_to_group-AttemptsOk}
use proxy_manager.Proxy.Dispatch.Payload.{proxy_to_group-payload}
use proxy_manager.Proxy.Dispatch.Endings.{EndsWell, proxy_to_group-EndsWell}

abbrev local_one : Backend
local_one = record {
  ref = 1;
  url = codes "http://10.0.0.1:80";
  weight = 2;
  container = codes "web-1";
  health_path = [];
  proxy = none;
  healthy_flag = true;
  sticky_id = codes "aa";
  consec_fails = 0;
  docker_unhealthy = false;
  learned = false;
  peer_id = [];
  variant = variant_a;
  peer_test_id = [];
  container_id = codes "c1";
  draining = false;
  transport = none;
}

abbrev local_two : Backend
local_two = record local_one {
  ref = 2;
  weight = 1;
  sticky_id = codes "bb";
  container_id = codes "c2";
}

abbrev sick_two : Backend
sick_two = record local_two { healthy_flag = false }

abbrev peer_three : Backend
peer_three = record local_one {
  ref = 3;
  learned = true;
  weight = 0;
  sticky_id = codes "cc";
  container_id = [];
}

abbrev web : RouteGroup
web = record {
  host = codes "app.example";
  path_prefix = [];
  strip_prefix = false;
  name = codes "app";
  service = codes "web";
  backends = local_one ∷ local_two ∷ peer_three ∷ [];
  drop_headers = [];
  sticky = false;
  cache_ttl = 0;
  cache_paths = [];
  cache = none;
  auth_required = false;
  auth_users = [];
  auth_mode = [];
  rate_limit = false;
  rate_rpm = 0;
  limiter = none;
  spread = false;
  spread_local = false;
  cursor = 7;
  panic_log_at = 0;
  static = false;
}

abbrev sick_web : RouteGroup
sick_web = record web { backends = sick_two ∷ [] }

abbrev peers_only : RouteGroup
peers_only = record web { backends = sick_two ∷ peer_three ∷ [] }

healthy-after_probes_example : healthy (after_probes (false ∷ false ∷ true ∷ []) local_one) ≡ false
healthy-after_probes_example = healthy-after_probes local_one (false ∷ false ∷ true ∷ []) refl

pick_healthy_sound_example : IsChosen [] false none peers_only true peer_three
unfolding pick_healthy pick_tier pick_from weighted_pool weight_floor in_tier excluded_from
    in_variant
pick_healthy_sound_example = pick_healthy_sound [] true none peers_only peer_three refl

pick_any_sound_example : IsChosen [] true none sick_web false sick_two
unfolding pick_any pick_tier pick_from weighted_pool weight_floor in_tier excluded_from in_variant
pick_any_sound_example = pick_any_sound [] false none sick_web sick_two refl

pick_healthy-nobody_iff_example : ((pick_healthy [] false none sick_web).0 ≡ nobody) ↔ (
    (c : Backend)
    → In c (sick_two ∷ [])
    → (c.learned ≡ true → Path Bool false true)
    → ¬ IsServable false [] none c)
pick_healthy-nobody_iff_example = pick_healthy-nobody_iff [] false none sick_web (omega arith)

local_one-IsChosen : IsChosen [] false none web true local_one
local_one-IsChosen = record {
  listed = inl refl;
  servable = record {
    untried = λ m. m;
    docker = refl;
    undrained = refl;
    probed = inr refl;
    matching = λ v e. cc;
  };
  peer_allowed = λ _. refl;
  local_first = λ l. cc;
}

pick_healthy_fair_example : turns_of 1 (picks 3 (pick_healthy [] true none) web) ≡ 2
unfolding active_pool weighted_pool weight_floor in_tier excluded_from in_variant
pick_healthy_fair_example =
    pick_healthy_fair [] true none web local_one (omega arith) local_one-IsChosen (omega arith)

abbrev small_post : Request
small_post = record {
  body = some (record { remaining = codes "q=1"; broken = false });
  get_body = none;
  content_length = some 3;
}

prepare_retry_body_lem_example :
    (payload (prepare_retry_body small_post).0 ≡ codes "q=1")
    × (breaks_off (prepare_retry_body small_post).0 ≡ false)
    × ((prepare_retry_body small_post).1 ≡ true
        → CanReplay small_post (prepare_retry_body small_post).0 × IsCopyWhole small_post)
prepare_retry_body_lem_example = prepare_retry_body_lem small_post (λ bs e. cc)

-- The first attempt fails, all later ones succeed.
abbrev flaky : World
flaky = record {
  now = 0;
  digest = λ bs. bs;
  reply = λ attempt b r. elim attempt [
    | zero ↦ record { failure = backend_error; wrote_header = false; drained = false }
    | suc n ↦ record { failure = no_error; wrote_header = true; drained = false }
  ];
}

proxy_to_group-AttemptsOk_example :
    AttemptsOk true (proxy_to_group flaky true [] web small_post []).0.events
proxy_to_group-AttemptsOk_example =
    proxy_to_group-AttemptsOk flaky true [] web small_post [] (λ _. refl)

proxy_to_group-payload_example :
    All
      (λ t. (payload t.1 ≡ codes "q=1") × (small_post.get_body ≡ none → breaks_off t.1 ≡ false))
      (attempts (proxy_to_group flaky false [] web small_post []).0.events)
proxy_to_group-payload_example =
    proxy_to_group-payload flaky false [] web small_post [] (λ bs e. cc)

proxy_to_group-EndsWell_example :
    EndsWell flaky false
      (prepare_retry_body small_post).1
      (proxy_to_group flaky false [] web small_post []).0
      (proxy_to_group flaky false [] web small_post []).1
proxy_to_group-EndsWell_example =
    proxy_to_group-EndsWell flaky false [] web small_post [] (omega arith)
