-- ===== src/Proxy/Pick/Effect.antt =====
-- cmd/proxy/router.go: what a selection changes of its group.
use proxy_manager.Prelude.{ℕ, ◌+◌, ◌≤◌, ◌≡◌, Bool, true, false, List, [], ◌∷◌, Option, arith}
use proxy_manager.Proxy.Backend.{Backend, Variant}
use proxy_manager.Proxy.Group.{RouteGroup}
use proxy_manager.Proxy.Pick.{nobody, pick_from, pick_healthy, pick_any}
use proxy_manager.Proxy.Pick.Pool.{pick_from-nobody_same, pick_from-keeps}
use proxy_manager.Proxy.Pick.Fair.{pick_by-draws, active_pool}

pick_from-cursor-le :
    (pool : List Backend) (g : RouteGroup) → (pick_from pool g).1.cursor ≤ g.cursor + 1
unfolding pick_from
pick_from-cursor-le [] g = omega arith
pick_from-cursor-le (b ∷ bs) g = omega arith

module _ (skip : List ℕ) (allow : Bool) (v : Option Variant) (g : RouteGroup) where
  pub pick_healthy-nobody_same :
      (pick_healthy skip allow v g).0 ≡ nobody → pick_healthy skip allow v g ≡ (nobody, g)
  unfolding pick_healthy
  pick_healthy-nobody_same h =
      let pool = active_pool false skip allow v g in
      let draws = pick_by-draws false skip allow v g in
      rw draws (pick_from-nobody_same pool g (rw draws at h))

  pub pick_healthy-cursor-le : (pick_healthy skip allow v g).1.cursor ≤ g.cursor + 1
  unfolding pick_healthy
  pick_healthy-cursor-le =
      rw (pick_by-draws false skip allow v g)
        (pick_from-cursor-le (active_pool false skip allow v g) g)

  pub pick_any-cursor-le : (pick_any skip allow v g).1.cursor ≤ g.cursor + 1
  unfolding pick_any
  pick_any-cursor-le =
      rw (pick_by-draws true skip allow v g)
        (pick_from-cursor-le (active_pool true skip allow v g) g)

  pub pick_any-backends : (pick_any skip allow v g).1.backends ≡ g.backends
  unfolding pick_any
  pick_any-backends =
      rw (pick_by-draws true skip allow v g) (pick_from-keeps (active_pool true skip allow v g) g).0
