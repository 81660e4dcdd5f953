-- ===== src/Proxy/CacheExamples.antt =====
-- The cache's theorems at concrete inputs, and runs of the code.
use proxy_manager.Prelude.{
  ◌≡◌, refl, ◌↔◌, ◌<◌, true, false, [], ◌∷◌, none, some, nat_eq, bytes_eq, codes, arith, ◌==◌,
}
use proxy_manager.Proxy.Cache.{
  CacheEntry, ResponseCache, new_response_cache, get, put, over_bounds, store_entry, begin_fill,
}
use proxy_manager.Proxy.Cache.Invariant.{IsSound}
use proxy_manager.Proxy.Cache.Bounds.{IsBounded, put-IsBounded}
use proxy_manager.Proxy.Cache.Reads.{get-some_iff, get-put}
use proxy_manager.Proxy.Cache.Fills.{fresh, claimed, IsClaimed, fills-IsClaimed}
use proxy_manager.Prelude.Assoc.{lookup}
use proxy_manager.Proxy.CacheFlow.{answered, serve_resume, serve_finish}
use proxy_manager.Proxy.CacheFlow.Served.{serve_finish-serves_waiters}
use proxy_manager.Proxy.Cacheable.{
  cache_key, normalize_accept_encoding, codings_of, is_known_coding, coding_dropped,
}
use proxy_manager.Proxy.Cacheable.Keys.{cache_key_unique}
use proxy_manager.Proxy.Recorder.{CacheRecorder, new_writer, miss, new_recorder, entry}
use proxy_manager.Proxy.Recorder.Whole.{status_call, bytes_call, calls, IsWhole, recorder-IsWhole}

abbrev page : CacheEntry
page = record { status = 200; header = []; body = codes "hello"; stored_at = 10 }

abbrev one_page : ResponseCache
one_page = record {
  ttl = 60;
  entries = (codes "k", page) ∷ [];
  inflight = [];
  bytes = 5;
  next_fill = 0;
}

one_page-IsSound : IsSound one_page
one_page-IsSound = record { counted = refl; single = (refl, tt) }

put-IsBounded_example :
    (c' : ResponseCache) × (put (codes "k") page 20 one_page ≡ some c') × IsBounded c'
put-IsBounded_example = put-IsBounded (codes "k") page 20 one_page one_page-IsSound

get-some_iff_example :
    ((get (codes "k") 69 one_page).0 ≡ some page) ↔ ((some page ≡ some page) × (69 < 70))
get-some_iff_example = get-some_iff (codes "k") 69 one_page page

get-put_example :
    (c' : ResponseCache) × (put (codes "k") page 20 one_page ≡ some c')
    × ((get (codes "j") 30 c').0 ≡ none)
unfolding get over_bounds store_entry
get-put_example = get-put (codes "k") (codes "j") page 20 30 one_page refl (omega arith)

fills-IsClaimed_example :
    IsClaimed (begin_fill (codes "k") (new_response_cache 60)).1 ((codes "k", 0) ∷ [])
unfolding begin_fill new_response_cache
fills-IsClaimed_example =
    fills-IsClaimed
      (claimed (codes "k") 0 (begin_fill (codes "k") (new_response_cache 60)).1 (fresh 60) refl)

cache_key_unique_example :
    (codes "h" ≡ codes "h")
    × (codes "/" ≡ codes "/")
    × (codes "q" ≡ codes "q")
    × (normalize_accept_encoding (λ q. q == codes "0") (codes "br, gzip")
        ≡ normalize_accept_encoding (λ q. q == codes "0") (codes "gzip;q=1, br"))
unfolding cache_key normalize_accept_encoding codings_of is_known_coding coding_dropped
cache_key_unique_example =
    cache_key_unique (λ q. q == codes "0") (codes "h") (codes "/") (codes "q") (codes "br, gzip")
      (codes "h") (codes "/") (codes "q") (codes "gzip;q=1, br") ((λ e. cc), tt) ((λ e. cc), tt)
      ((λ e. cc), tt) ((λ e. cc), tt) ((λ e. cc), tt) ((λ e. cc), tt) refl

abbrev streamed : CacheEntry
streamed = record page { header = []; body = codes "ab"; stored_at = 5 }

recorder-IsWhole_example :
    ((calls
        (status_call 200 ∷ bytes_call (codes "ab") ∷ [])
        (new_recorder miss true, new_writer [])).1.sent
      ≡ codes "ab")
    × ((calls
          (status_call 200 ∷ bytes_call (codes "ab") ∷ [])
          (new_recorder miss true, new_writer [])).1.statuses
        ≡ 200 ∷ [])
    × (entry 5
            (calls
              (status_call 200 ∷ bytes_call (codes "ab") ∷ [])
              (new_recorder miss true, new_writer [])).0
          ≡ some streamed
        → IsWhole miss [] (status_call 200 ∷ bytes_call (codes "ab") ∷ []) streamed)
recorder-IsWhole_example =
    recorder-IsWhole miss true [] (status_call 200 ∷ bytes_call (codes "ab") ∷ []) 5 streamed

-- A recorder that took in a whole response.
abbrev recorded_page : CacheRecorder
recorded_page = record {
  mode = miss;
  recording = true;
  wrote_header = true;
  status = 200;
  storable = true;
  header = [];
  buf = codes "ab";
  overflow = false;
  declared_len = some 2;
}

abbrev awaited : ResponseCache
awaited = record one_page { inflight = (codes "j", 0) ∷ []; next_fill = 1 }

serve_finish-serves_waiters_example :
    (c1 : ResponseCache) × (c2 : ResponseCache) × (serve_finish
        (some 0)
        true
        (codes "j")
        5
        recorded_page
        awaited
      ≡ some (c1 ∷ c2 ∷ []))
    × ((serve_resume (codes "j") 6 c1).0 ≡ answered streamed)
    × (lookup (codes "j") c1.inflight ≡ some 0)
    × ((serve_resume (codes "j") 6 c2).0 ≡ answered streamed)
    × (lookup (codes "j") c2.inflight ≡ none)
    × (c3 : ResponseCache) × (serve_finish (some 0) false (codes "j") 5 recorded_page awaited
        ≡ some (awaited ∷ c3 ∷ []))
    × (c3.entries ≡ one_page.entries)
    × (lookup (codes "j") c3.inflight ≡ none)
unfolding entry over_bounds store_entry
serve_finish-serves_waiters_example =
    serve_finish-serves_waiters (codes "j") 0 5 6 recorded_page streamed awaited refl refl refl
      (omega arith)
