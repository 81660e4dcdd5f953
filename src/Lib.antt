-- ===== src/Lib.antt =====
-- proxy-manager: a reverse proxy for containers with its dashboard, monitor, edge and auth services,
-- written in Go. This library models the parts that decide, and proves what they promise.
--
-- Text is the list of its bytes; maps are association lists, ranged over in their order; pointers are
-- references; durations and times are natural numbers of nanoseconds. Case folding, trimming and
-- header names are those of ASCII.
--
-- Proxy (cmd/proxy):
-- - Proxy/Backend: `Backend` in cmd/proxy/router.go, its health flag and the probe hysteresis of
--   recordHealthCheck; the variant tests of cmd/proxy/abtest.go. Counters wrap as Go's do.
-- - Proxy/Group, Proxy/Pick: `RouteGroup`, pickHealthy, pickAny, pickTier, pickPool. The cursor is
--   a uint64, and the index taken from it turns negative at 2^63, which the model keeps.
-- - Proxy/Body, Proxy/Dispatch: prepareRetryBody, rewindBody, proxyToGroup and tryProxy. The loop
--   recurs on the three rounds that maxRetries allows, so it needs no fuel. What a backend answers
--   is the environment's, http.ErrAbortHandler included, a panic that ends the loop; other requests
--   do not change the group while one runs.
-- - Proxy/Router: the published groups, the drains and the tombstones of `Router`, with Set,
--   markDraining, clearDraining, applyDrainingLocked, reconcileTombstonesLocked, tombstoned and
--   the match of ServeHTTP. Picks read what a Set publishes.
-- - Proxy/RateLimit: the in-memory limiter of cmd/proxy/ratelimit.go. Tokens are exact there where
--   Go has float64: 60·10^9 units are a token, so that a refill is a whole number of units.
-- - Proxy/Hybrid: `hybridLimiter` of cmd/proxy/redisrl.go with its circuit breaker; Redis is the
--   interface `RedisPrimary`, and a call reads the clock before and after it is asked.
-- - Proxy/Cache, Proxy/Cacheable, Proxy/Recorder: `responseCache` of cmd/proxy/cache.go, its key and
--   its rules of what may be stored, and the cacheRecorder that takes a response in. The eviction
--   loop runs on fuel, one step more than there are entries, which each step lessens.
--   strconv.ParseFloat is a parameter.
-- - Proxy/CacheFlow: serveWithCache, cut where it waits for a fill and where it dispatches; its two
--   deferred calls are steps in the order in which they run.
--
-- Graceful (internal/graceful): the tracker of graceful.go that counts the requests of a draining
-- server and ends its streams, one function for each of its steps, and the clamps of the timeouts.
--
-- Labels (internal/labels): the registry of the labels that are managed centrally, ValidateValue and
-- ValidateChange; Labels/Validators has the validator of each kind of value and the keys in Redis.
-- time.ParseDuration is a parameter.
--
-- Sso (internal/sso): the signed blobs of token.go and, in Sso/Cookie, the session cookie of sso.go.
-- The MAC, base64, hex, encoding/json and strconv.FormatInt are parameters; a theorem names what it
-- needs of them, that a codec reads back what it wrote without the separator, for instance.
--
-- Dashboard (cmd/dashboard):
-- - Dashboard/Claims: `serviceClaims` of rollingop.go, beside a table of locks as its abstract view.
-- - Dashboard/RollingOp: `rollingOpManager` of rollingop.go; the reports of a background job are steps.
-- - Dashboard/Rollout: the staged rollouts of rollout.go. Each public method that holds the service's lock
--   is one step on the tracked rollouts and on an unknown world; the calls to Docker and to the store
--   of onboarded services are a record `Substrate` of functions on that world, each of which may fail.
--   Rollout/Control has startRollout, advanceRollout, doAdvance, abortRollout, checkOne and checkAll.
--   Indexing that would panic is an error of its own.
--
-- Not modelled: network and file input and output, HTML, the dashboard's user interface, Docker's API
-- and what the dashboard asks of it beyond rollouts, peers, A/B tests, login, and the concurrency
-- of requests beyond what is said above. Of Set, the reconciliation of
-- limiters, caches, transports and A/B runs; of ServeHTTP, the gates between match and dispatch.
mod Prelude
pub mod Proxy
pub mod Graceful
pub mod Labels
pub mod Sso
pub mod Dashboard
