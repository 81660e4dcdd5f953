-- ===== src/Proxy/Pick.antt =====
-- cmd/proxy/router.go: weighted round robin over the eligible backends of a group, the local tier
-- before the learned one, one pool for a spread group, and the panic mode that ignores probes.
pub mod Pool
pub mod Sound
pub mod Rotation
pub mod Fair
pub mod Effect
use proxy_manager.Prelude.{
  ℕ, suc, ◌+◌, ◌-◌, ◌%◌, ◌^◌, max, Bool, true, false, not, ◌&&◌, ◌||◌, List, [], ◌∷◌, ◌++◌, Option,
  none, some, ltb, ◌==◌, if◌then◌else◌, length, get_elem?, replicate, contains, find?, Bytes,
  nat_eq, bool_eq, bytes_eq,
}
use proxy_manager.Proxy.Backend.{Backend, Variant, excluded_from, in_variant}
use proxy_manager.Proxy.Group.{RouteGroup}

-- The result of a selection: nil, a backend, or an index out of range.
pub data Pick : Type 0 where
  nobody : Pick
  chosen : Backend → Pick
  panics : Pick

-- int(cursor) % n for a uint64 cursor: from 2^63 on the int is negative, and so is the remainder
-- unless it is 0.
unfoldable pub pool_index : ℕ → ℕ → Option ℕ
pool_index cursor n =
    if ltb cursor (2 ^ 63)
    then some (cursor % n)
    else if (2 ^ 64 - cursor) % n == 0
    then some 0
    else none

unfoldable pub index_pool : Option ℕ → List Backend → Pick
index_pool none pool = panics
index_pool (some i) pool = elim (get_elem? pool i) [ none ↦ panics | some b ↦ chosen b ]

-- The cursor moves only if there is a candidate.
unfoldable pub pick_from : List Backend → RouteGroup → Pick × RouteGroup
unfolding pool_index index_pool
pick_from [] g = (nobody, g)
pick_from (b ∷ bs) g = (
  index_pool (pool_index g.cursor (length (b ∷ bs))) (b ∷ bs),
  record g { cursor = (g.cursor + 1) % 2 ^ 64 },
)

-- `w := b.Weight; if w < 1 { w = 1 }`
unfoldable pub weight_floor : Backend → ℕ
weight_floor b = if ltb b.weight 1 then 1 else b.weight

-- Each backend that passes stands in the pool as often as its weight says, at least once.
unfoldable pub weighted_pool : (Backend → Bool) → List Backend → List Backend
weighted_pool keep [] = []
weighted_pool keep (b ∷ bs) =
    let rest = weighted_pool keep bs in
    if keep b then replicate (weight_floor b) b ++ rest else rest

unfoldable pub in_pool : List ℕ → Bool → Option Variant → Backend → Bool
in_pool skip ignore_health variant b =
    not (contains skip b.ref || not (in_variant variant b) || excluded_from ignore_health b)

unfoldable pub in_tier : List ℕ → Bool → Bool → Option Variant → Backend → Bool
in_tier skip want_learned ignore_health variant b = not (
    contains skip b.ref
    || not (b.learned == want_learned)
    || not (in_variant variant b)
    || excluded_from ignore_health b)

unfoldable pub pick_pool : List ℕ → Bool → Option Variant → RouteGroup → Pick × RouteGroup
pick_pool skip ignore_health variant g =
    pick_from (weighted_pool (in_pool skip ignore_health variant) g.backends) g

unfoldable pub pick_tier : List ℕ → Bool → Bool → Option Variant → RouteGroup → Pick × RouteGroup
pick_tier skip want_learned ignore_health variant g =
    pick_from (weighted_pool (in_tier skip want_learned ignore_health variant) g.backends) g

-- `if b := ...; b != nil { return b }`, then the rest.
abbrev pub or_else : Pick × RouteGroup → (RouteGroup → Pick × RouteGroup) → Pick × RouteGroup
or_else (nobody, g) k = k g
or_else (chosen b, g) k = (chosen b, g)
or_else (panics, g) k = (panics, g)

-- What pickHealthy and pickAny share: they differ in whether the probes are read.
unfoldable pub pick_by : Bool → List ℕ → Bool → Option Variant → RouteGroup → Pick × RouteGroup
pick_by ignore_health skip allow_peer variant g =
    if g.spread && allow_peer
    then pick_pool skip ignore_health variant g
    else or_else (pick_tier skip false ignore_health variant g)
        λ g'. if allow_peer then pick_tier skip true ignore_health variant g' else (nobody, g')

unfoldable pub pick_healthy : List ℕ → Bool → Option Variant → RouteGroup → Pick × RouteGroup
unfolding pick_by
pick_healthy skip allow_peer variant g = pick_by false skip allow_peer variant g

unfoldable pub pick_any : List ℕ → Bool → Option Variant → RouteGroup → Pick × RouteGroup
unfolding pick_by
pick_any skip allow_peer variant g = pick_by true skip allow_peer variant g

unfoldable pub backend_by_sticky_id : Bytes → RouteGroup → Option Backend
backend_by_sticky_id id g = find? (λ b. b.sticky_id == id) g.backends
