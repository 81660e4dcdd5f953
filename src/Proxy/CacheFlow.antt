-- ===== src/Proxy/CacheFlow.antt =====
-- cmd/proxy/router.go, serveWithCache: a request of a cached route, cut where it waits for another
-- request's fill and where it is dispatched. What the dispatch does to the recorder, and whether
-- it returned or panicked, are arguments of the part after it.
pub mod Served
use proxy_manager.Prelude.{
  ℕ, Bool, true, false, Option, none, some, List, [], ◌∷◌, Bytes, if◌then◌else◌,
}
use proxy_manager.Prelude.Options.{◌>>=◌}
use proxy_manager.Proxy.Cache.{CacheEntry, ResponseCache, get, put, begin_fill, end_fill}
use proxy_manager.Proxy.Recorder.{CacheRecorder, bypass, miss, new_recorder, entry}

-- A stored answer, a dispatch past the cache, a wait for a fill, or a dispatch that records,
-- as the owner of a fill or as nobody's.
pub data CacheStart : Type 0 where
  answered : CacheEntry → CacheStart
  bypassing : CacheStart
  parked : ℕ → CacheStart
  filling : Option ℕ → CacheStart

unfoldable pub start_fill : (ℕ × Bool) × ResponseCache → CacheStart × ResponseCache
start_fill ((f, true), c) = (filling (some f), c)
start_fill ((f, false), c) = (parked f, c)

unfoldable pub start_from :
    Bytes → Bool → Option CacheEntry × ResponseCache → CacheStart × ResponseCache
start_from key is_head (some e, c) = (answered e, c)
start_from key is_head (none, c) = if is_head then (bypassing, c) else start_fill (begin_fill key c)

unfoldable pub serve_start : Bool → Bool → Bytes → ℕ → ResponseCache → CacheStart × ResponseCache
serve_start cacheable is_head key now c =
    if cacheable then start_from key is_head (get key now c) else (bypassing, c)

unfoldable pub resume_from : Option CacheEntry × ResponseCache → CacheStart × ResponseCache
resume_from (some e, c) = (answered e, c)
resume_from (none, c) = (filling none, c)

-- After the wait.
unfoldable pub serve_resume : Bytes → ℕ → ResponseCache → CacheStart × ResponseCache
serve_resume key now c = resume_from (get key now c)

unfoldable pub recorder_for : CacheStart → Option CacheRecorder
recorder_for (answered e) = none
recorder_for bypassing = some (new_recorder bypass false)
recorder_for (parked f) = none
recorder_for (filling owner) = some (new_recorder miss true)

unfoldable pub store_recorded : Bytes → ℕ → Option CacheEntry → ResponseCache → Option ResponseCache
store_recorded key now none c = some c
store_recorded key now (some e) c = put key e now c

-- The deferred calls: the owner's endFill, and the store.
pub data DeferredCall : Type 0 where
  releasing : ℕ → DeferredCall
  storing : DeferredCall

unfoldable pub run_call :
    Bytes → Bool → ℕ → CacheRecorder → DeferredCall → ResponseCache → Option ResponseCache
run_call key completed now w (releasing f) c = some (end_fill key f c)
run_call key completed now w storing c =
    if completed then store_recorded key now (entry now w) c else some c

-- As the defer statements register them, the last one first, which is the order they run in.
unfoldable pub deferred : Option ℕ → List DeferredCall
deferred none = storing ∷ []
deferred (some f) = storing ∷ releasing f ∷ []

unfoldable pub run_calls :
    Bytes
    → Bool
    → ℕ
    → CacheRecorder
    → List DeferredCall
    → ResponseCache
    → Option (List ResponseCache)
run_calls key completed now w [] c = some []
run_calls key completed now w (d ∷ ds) c = do
  c' ← run_call key completed now w d c
  rest ← run_calls key completed now w ds c'
  some (c' ∷ rest)

-- What follows the dispatch: the cache after each of the deferred calls in turn, since another
-- request may read it between them.
unfoldable pub serve_finish :
    Option ℕ → Bool → Bytes → ℕ → CacheRecorder → ResponseCache → Option (List ResponseCache)
serve_finish owner completed key now w c = run_calls key completed now w (deferred owner) c
