-- ===== src/Proxy/CacheFlow/Served.antt =====
-- cmd/proxy/router.go, serveWithCache: what those who waited for a fill find.
use proxy_manager.Prelude.{
  ℕ, ◌+◌, ◌<◌, ◌≡◌, ◌∙◌, sym, ap, refl, Bool, true, false, Option, none, some, [], ◌∷◌, Bytes,
  bytes_eq, nat_eq, ◌==◌, if◌then◌else◌, Bool-cases, inl, inr, arith,
}
use proxy_manager.Prelude.Assoc.{lookup}
use proxy_manager.Proxy.Cache.{
  CacheEntry, ResponseCache, get, over_bounds, store_entry, end_fill, is_fill,
}
use proxy_manager.Proxy.Cache.Reads.{get_lem, get-put}
use proxy_manager.Proxy.Cache.Fills.{put-inflight, end_fill-held}
use proxy_manager.Proxy.Recorder.{CacheRecorder, entry}
use proxy_manager.Proxy.Recorder.Whole.{entry-some}
use proxy_manager.Proxy.CacheFlow.{
  answered, serve_resume, resume_from, store_recorded, run_call, run_calls, deferred, serve_finish,
}

end_fill-keeps :
    (k : Bytes) (f : ℕ) (c : ResponseCache)
    → ((end_fill k f c).entries ≡ c.entries) × ((end_fill k f c).ttl ≡ c.ttl)
unfolding end_fill
end_fill-keeps k f c = elim (Bool-cases (is_fill (lookup k c.inflight) f)) [
  | inl own ↦ rw own (refl, refl)
  | inr stale ↦ rw stale (refl, refl)
]

get-end_fill :
    (k j : Bytes) (f now : ℕ) (c : ResponseCache) → (get j now (end_fill k f c)).0 ≡ (get j now c).0
get-end_fill k j f now c =
    rw
      (
        get_lem j now (end_fill k f c),
        get_lem j now c,
        (end_fill-keeps k f c).0,
        (end_fill-keeps k f c).1,
      )
      refl

resume_from-hit :
    (p : Option CacheEntry × ResponseCache) (e : CacheEntry)
    → p.0 ≡ some e
    → (resume_from p).0 ≡ answered e
unfolding resume_from
resume_from-hit (some x, c) e h = ground (arith, h)
resume_from-hit (none, c) e h = cc

if_true : {A : Type 0} (t : Bool) (x y : A) → t ≡ true → (if t then x else y) ≡ x
if_true t x y h = rw h refl

-- A request that owned a key's fill and returned with a storable response runs two deferred calls.
-- Already the first leaves a store from which everyone who waited for it, until the TTL has passed, is
-- answered, so that none of them goes to the backend, while the fill is still held; the second
-- leaves the answers and frees the key. The response must fit the bounds of the store. Had the
-- dispatch panicked, the same calls would store nothing and free the key as well.
pub serve_finish-serves_waiters :
    (key : Bytes) (f now later : ℕ) (w : CacheRecorder) (e : CacheEntry) (c : ResponseCache)
    → lookup key c.inflight ≡ some f
    → entry now w ≡ some e
    → over_bounds (store_entry key e c) ≡ false
    → later < now + c.ttl
    → (c1 : ResponseCache) × (c2 : ResponseCache) × (serve_finish (some f) true key now w c
        ≡ some (c1 ∷ c2 ∷ []))
      × ((serve_resume key later c1).0 ≡ answered e)
      × (lookup key c1.inflight ≡ some f)
      × ((serve_resume key later c2).0 ≡ answered e)
      × (lookup key c2.inflight ≡ none)
      × (c3 : ResponseCache) × (serve_finish (some f) false key now w c ≡ some (c ∷ c3 ∷ []))
      × (c3.entries ≡ c.entries)
      × (lookup key c3.inflight ≡ none)
unfolding serve_finish deferred run_calls run_call store_recorded serve_resume
serve_finish-serves_waiters key f now later w e c owned recorded fits soon =
    let (_, _, _, made) = entry-some now w e recorded in
    let timed : e.stored_at ≡ now = sym (ap (λ x. x.stored_at) made) in
    let (c1, put_ends, reads) = get-put key key e now later c fits (rw timed soon) in
    let same : (key == key) ≡ true = (bytes_eq.eq_test_iff key key).1 refl in
    let held : lookup key c1.inflight ≡ some f =
      ap (lookup key) (put-inflight key e now c c1 put_ends) ∙ owned in
    let stored = reads ∙ if_true _ _ _ same in
    (
      c1,
      end_fill key f c1,
      rw (recorded, store_recorded, put_ends) refl,
      resume_from-hit (get key later c1) e stored,
      held,
      resume_from-hit (get key later (end_fill key f c1)) e
          (get-end_fill key key f later c1 ∙ stored),
      end_fill-held key key f c1 held ∙ rw same refl,
      end_fill key f c,
      refl,
      (end_fill-keeps key f c).0,
      end_fill-held key key f c owned ∙ rw same refl,
    )
