-- ===== src/Graceful.antt =====
-- internal/graceful/graceful.go, `tracker`: the running requests of a server that drains, and which
-- of them are ended before their time. A request's context is its `cancelled` flag; a connection is
-- a reference, closed once it stands in `closed`. TimeoutFromEnv is here too.
pub mod Draining
pub mod Cut
pub mod Counting
mod Examples
use proxy_manager.Prelude.{
  ℕ, ◌+◌, ◌-◌, ◌*◌, ◌^◌, min, max, Bool, true, false, ◌&&◌, ◌||◌, List, [], ◌∷◌, ◌++◌, map, Option,
  none, some, nat_eq, ◌==◌, if◌then◌else◌, filter, not,
}
use proxy_manager.Prelude.Assoc.{insert, delete}

abbrev second : ℕ
second = 10 ^ 9

-- The constants of the package.
abbrev pub default_timeout : ℕ
default_timeout = 25 * second

abbrev pub default_stream_grace : ℕ
default_stream_grace = 5 * second

abbrev pub min_timeout : ℕ
min_timeout = second

abbrev pub max_timeout : ℕ
max_timeout = 120 * second

-- The environment's durations as time.ParseDuration reads them: `none` where there is none or a
-- bad one. One below 0 counts as 0, to which both clamps take it.
abbrev or_default : Option ℕ → ℕ → ℕ
or_default none def = def
or_default (some d) def = d

unfoldable pub timeout_from_env : Option ℕ → Option ℕ → ℕ × ℕ
timeout_from_env timeout grace =
    let t = min (max (or_default timeout default_timeout) min_timeout) max_timeout in
    (t, min (max (or_default grace default_stream_grace) 0) t)

pub record TrackedReq : Type 0 where
  pub long : Bool
  pub cancelled : Bool

pub record Tracker : Type 0 where
  pub active : ℕ
  pub reqs : List (ℕ × TrackedReq)
  pub hijacked : List ℕ
  pub cut : Bool
  pub closed : List ℕ

unfoldable pub new_tracker : Tracker
new_tracker = record { active = 0; reqs = []; hijacked = []; cut = false; closed = [] }

-- The start of wrap's handler.
unfoldable pub begin_request : ℕ → Bool → Tracker → Tracker
begin_request id is_long t = record t {
  active = t.active + 1;
  reqs = insert id (record { long = is_long; cancelled = is_long && t.cut }) t.reqs;
}

unfoldable pub without : ℕ → List ℕ → List ℕ
without c cs = filter (λ d. not (d == c)) cs

-- Its deferred end, on the connection of the request.
unfoldable pub end_request : ℕ → ℕ → Tracker → Tracker
end_request id conn t = record t {
  active = t.active - 1;
  reqs = delete id t.reqs;
  hijacked = without conn t.hijacked;
}

-- The ConnState hook, on a connection that was hijacked.
unfoldable pub on_hijacked : ℕ → Tracker → Tracker
on_hijacked c t =
    if t.cut then record t { closed = c ∷ t.closed } else record t { hijacked = c ∷ t.hijacked }

unfoldable pub cancel_long : ℕ × TrackedReq → ℕ × TrackedReq
cancel_long e = (e.0, if e.1.long then record e.1 { cancelled = true } else e.1)

unfoldable pub cut_streams : Tracker → Tracker
cut_streams t = record t {
  cut = true;
  reqs = map cancel_long t.reqs;
  closed = t.hijacked ++ t.closed;
}

unfoldable pub cancel : ℕ × TrackedReq → ℕ × TrackedReq
cancel e = (e.0, record e.1 { cancelled = true })

unfoldable pub cancel_all : Tracker → Tracker
cancel_all t = record t { reqs = map cancel t.reqs }

unfoldable pub close_hijacked : Tracker → Tracker
close_hijacked t = record t { cut = true; closed = t.hijacked ++ t.closed }

unfoldable pub active_count : Tracker → ℕ
active_count t = t.active
