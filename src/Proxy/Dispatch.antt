-- ===== src/Proxy/Dispatch.antt =====
-- cmd/proxy/router.go: proxyToGroup, the backend loop of a request, with tryProxy, the backend's
-- error handler, the affinity cookie and the pages that end a request.
--
-- What a backend does with an attempt is the environment's `reply`. An attempt consumes the body.
-- Other requests do not change the group while this one runs, but Docker may drain the backend of
-- an attempt before it ends.
pub mod Loop
pub mod Attempts
pub mod Payload
pub mod Endings
use proxy_manager.Prelude.{
  ℕ, zero, suc, ◌+◌, ◌-◌, ◌*◌, Bool, true, false, not, ◌&&◌, ◌||◌, List, [], ◌∷◌, ◌++◌, Option,
  none, some, Bytes, codes, ltb, if◌then◌else◌, map, filter, has_prefix, nat_eq, ◌==◌,
}
use proxy_manager.Proxy.Backend.{Backend, Variant, healthy, mark_healthy}
use proxy_manager.Proxy.Group.{RouteGroup}
use proxy_manager.Proxy.Pick.{
  Pick, nobody, chosen, panics, or_else, pick_healthy, pick_any, backend_by_sticky_id,
}
use proxy_manager.Proxy.Body.{Body, Request, prepare_retry_body, rewind_body}

-- What `proxy.ServeHTTP` came to: it returned, with a response or after it reported one of the two
-- errors that newBackendErrorHandler tells apart, or it panicked with http.ErrAbortHandler, where a
-- response broke off that had begun.
pub data Failure : Type 0 where
  no_error : Failure
  client_canceled : Failure
  backend_error : Failure
  aborted : Failure

-- What came of one attempt: how ReverseProxy ended, whether any part of a response
-- was written, and whether the container got a stop signal meanwhile.
pub record Reply : Type 0 where
  pub failure : Failure
  pub wrote_header : Bool
  pub drained : Bool

-- The environment: the clock in nanoseconds, the digest of a route's identity as it stands in a
-- cookie's name, and the backends.
pub record World : Type 0 where
  pub now : ℕ
  pub digest : Bytes → Bytes
  pub reply : ℕ → Backend → Request → Reply

-- The effects of a request, the latest first.
pub data Event : Type 0 where
  set_backend : Bytes → Event
  attempted : Backend → Request → Event
  close_idle : ℕ → Event
  page : ℕ → ℕ → Event

pub record Exchange : Type 0 where
  pub group : RouteGroup
  pub request : Request
  pub tried : List ℕ
  pub set_cookies : List Bytes
  pub events : List Event

-- How the loop ends: on an attempt that settles the request, whatever its client got; with one of the
-- pages; or with a pick that panics.
pub data Ending : Type 0 where
  ended_on : Backend → Ending
  not_replayable : Backend → Ending
  unavailable : Ending
  crashed : Ending

abbrev pub max_retries : ℕ
max_retries = 3

abbrev pub transient_retry_after : ℕ
transient_retry_after = 5

abbrev panic_log_interval : ℕ
panic_log_interval = 30 * 1_000_000_000

-- serveUnavailableRetry and serveUnavailable: the status and the Retry-After of the page.
unfoldable pub serve_unavailable_retry : ℕ → ℕ → Exchange → Exchange
serve_unavailable_retry status retry_after s = record s {
  events = page status retry_after ∷ s.events;
}

unfoldable pub serve_unavailable : ℕ → Exchange → Exchange
unfolding serve_unavailable_retry
serve_unavailable status s = serve_unavailable_retry status 300 s

-- The throttle of the panic-mode log line.
unfoldable pub log_panic_once : ℕ → RouteGroup → RouteGroup
log_panic_once now g =
    if ltb (now - g.panic_log_at) panic_log_interval then g else record g { panic_log_at = now }

abbrev sticky_cookie_prefix : Bytes
sticky_cookie_prefix = codes "_pmgr_sticky_"

unfoldable pub sticky_cookie_name : World → RouteGroup → Bytes
sticky_cookie_name w g = sticky_cookie_prefix ++ w.digest (g.host ++ (codes "|" ++ g.path_prefix))

sticky_cookie_path : RouteGroup → Bytes
sticky_cookie_path g = elim g.path_prefix [ [] ↦ codes "/" | c ∷ cs ↦ c ∷ cs ]

-- The header value that http.SetCookie writes.
cookie_header : Bytes → Bytes → Bytes → Bytes
cookie_header name value path =
    (name ++ codes "=")
    ++ (value
        ++ (codes "; Path=" ++ (path ++ codes "; Max-Age=7200; HttpOnly; Secure; SameSite=Lax")))

unfoldable pub set_sticky_cookie : World → RouteGroup → Bytes → List Bytes → List Bytes
unfolding cookie_header sticky_cookie_path
set_sticky_cookie w g id existing =
    let name = sticky_cookie_name w g in
    filter (λ v. not (has_prefix v (name ++ codes "="))) existing
    ++ (cookie_header name id (sticky_cookie_path g) ∷ [])

update_backend : ℕ → (Backend → Backend) → RouteGroup → RouteGroup
update_backend ref f g = record g {
  backends = map (λ (b : Backend). if b.ref == ref then f b else b) g.backends;
}

-- newBackendErrorHandler: a departed client is not the backend's failure.
handle_error : Failure → Backend → Backend
handle_error backend_error b = mark_healthy false b
handle_error _ b = b

-- tryProxy's verdict. A panic leaves tryProxy and the loop, which ends the loop too.
pub attempt_done : Reply → Bool
attempt_done r = elim r.failure [
  | no_error ↦ true
  | aborted ↦ true
  | client_canceled ↦ true
  | backend_error ↦ r.wrote_header
]

pub close_idle_of : Bool → Option ℕ → List Event → List Event
close_idle_of true (some t) events = close_idle t ∷ events
close_idle_of _ _ events = events

-- Whether tryProxy goes on after `proxy.ServeHTTP`.
pub returns : Failure → Bool
returns aborted = false
returns _ = true

-- `proxy.ServeHTTP` and what it leaves of the request's body.
pub consumed : Request → Request
consumed r = elim r.body [
  | none ↦ r
  | some b ↦ record r { body = some (record b { remaining = [] }) }
]

unfoldable pub try_proxy : World → ℕ → Backend → Exchange → Exchange × Bool
unfolding update_backend handle_error attempt_done close_idle_of consumed returns
try_proxy w attempt b s =
    let r = w.reply attempt b s.request in
    (
      record s {
        group =
            update_backend b.ref
              (λ c. handle_error r.failure (record c { draining = c.draining || r.drained }))
              s.group;
        request = consumed s.request;
        events =
            close_idle_of (returns r.failure && (b.draining || r.drained)) b.transport
              (attempted b s.request ∷ s.events);
      },
      attempt_done r,
    )

abbrev is_empty {ℓ} : {A : Type ℓ} → List A → Bool
is_empty [] = true
is_empty (_ ∷ _) = false

-- The pin of an affinity cookie, if it is there and may be honoured.
pub pinned_backend : Bytes → RouteGroup → Option Backend
pinned_backend pin g = if is_empty pin then none else elim (backend_by_sticky_id pin g) [
  | none ↦ none
  | some b ↦ if healthy b && (not b.learned || g.spread) then some b else none
]

pub panic_pick : ℕ → Pick × RouteGroup → Pick × RouteGroup
panic_pick now (chosen b, g) = (chosen b, log_panic_once now g)
panic_pick now r = r

unfoldable pub choose_backend : World → Bool → Bytes → Exchange → Pick × RouteGroup
unfolding pinned_backend panic_pick
choose_backend w hopped pin s = elim (pinned_backend pin s.group) [
  | some b ↦ (chosen b, s.group)
  | none ↦
      or_else (pick_healthy s.tried (not hopped) none s.group)
        λ g. panic_pick w.now (pick_any s.tried (not hopped) none g)
]

-- One attempt on the backend chosen.
unfoldable pub attempt_backend : World → Bool → ℕ → Backend → Exchange → Exchange × Bool
attempt_backend w hopped attempt b s =
    let cookies =
      if s.group.sticky && not hopped
      then set_sticky_cookie w s.group b.sticky_id s.set_cookies
      else s.set_cookies in
    try_proxy w attempt b (record s {
      tried = b.ref ∷ s.tried;
      set_cookies = cookies;
      request = if ltb 0 attempt then rewind_body s.request else s.request;
      events = set_backend b.url ∷ s.events;
    })

-- The loop, with the rounds left and the attempt's number; the pin counts in the first round.
unfoldable pub retry_loop : World → Bool → Bool → ℕ → ℕ → Bytes → Exchange → Exchange × Ending
retry_loop w hopped retryable zero attempt pin s =
    (serve_unavailable_retry 503 transient_retry_after s, unavailable)
retry_loop w hopped retryable (suc left) attempt pin s =
    let (picked, g) = choose_backend w hopped pin s in
    elim picked [
      | nobody ↦
          (serve_unavailable_retry 503 transient_retry_after (record s { group = g }), unavailable)
      | panics ↦ (record s { group = g }, crashed)
      | chosen b ↦
          let (s', done) = attempt_backend w hopped attempt b (record s { group = g }) in
          elim done [
            | true ↦ (s', ended_on b)
            | false ↦ elim retryable [
              | true ↦ retry_loop w hopped retryable left (attempt + 1) [] s'
              | false ↦ (serve_unavailable 502 s', not_replayable b)
            ]
          ]
    ]

abbrev fresh_exchange : RouteGroup → Request → List Bytes → Exchange
fresh_exchange g req cookies = record {
  group = g;
  request = req;
  tried = [];
  set_cookies = cookies;
  events = [];
}

unfoldable pub proxy_to_group :
    World → Bool → Bytes → RouteGroup → Request → List Bytes → Exchange × Ending
proxy_to_group w hopped pin g req cookies =
    let (req', retryable) = prepare_retry_body req in
    retry_loop w hopped retryable max_retries 0 pin (fresh_exchange g req' cookies)
