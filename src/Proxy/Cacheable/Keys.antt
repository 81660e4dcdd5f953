-- ===== src/Proxy/Cacheable/Keys.antt =====
-- Which requests share a key of the cache.
use proxy_manager.Prelude.{Bool, ◌≡◌, ◌≢◌, refl, ◌∷◌, ◌++◌, Bytes, All, append_assoc, split_unique}
use proxy_manager.Proxy.Cacheable.{cache_key, normalize_accept_encoding}

-- Two requests share a key only where host, path, query and codings agree, as long as no host
-- or query has a NUL and no decoded path has a question mark.
pub cache_key_unique :
    (parses_to_zero : Bytes → Bool) (host path query codings host' path' query' codings' : Bytes)
    → All (λ c. c ≢ 0) host
    → All (λ c. c ≢ 0) host'
    → All (λ c. c ≢ b'?') path
    → All (λ c. c ≢ b'?') path'
    → All (λ c. c ≢ 0) query
    → All (λ c. c ≢ 0) query'
    → cache_key parses_to_zero host path query codings
      ≡ cache_key parses_to_zero host' path' query' codings'
    → (host ≡ host')
      × (path ≡ path')
      × (query ≡ query')
      × (normalize_accept_encoding parses_to_zero codings
          ≡ normalize_accept_encoding parses_to_zero codings')
unfolding cache_key
cache_key_unique parses_to_zero host path query codings host' path' query' codings' h h' p p' q q'
      e =
    let (hosts, after_host) = split_unique 0 host host' _ _ h h' e in
    let (paths, after_path) = split_unique b'?' path path' _ _ p p' after_host in
    let (queries, rest) = split_unique 0 query query' _ _ q q' after_path in
    (hosts, paths, queries, rest)

-- The decoded path is not told from the query: a path with a question mark shares its key with
-- another path and query.
pub cache_key-collision :
    (parses_to_zero : Bytes → Bool) (host path more query codings : Bytes)
    → cache_key parses_to_zero host (path ++ b'?' ∷ more) query codings
      ≡ cache_key parses_to_zero host path (more ++ b'?' ∷ query) codings
unfolding cache_key
cache_key-collision parses_to_zero host path more query codings =
    let last = normalize_accept_encoding parses_to_zero codings in
    rw
      (
        append_assoc path (b'?' ∷ more) (b'?' ∷ (query ++ 0 ∷ last)),
        append_assoc more (b'?' ∷ query) (0 ∷ last),
      )
      refl
