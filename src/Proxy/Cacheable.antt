-- ===== src/Proxy/Cacheable.antt =====
-- cmd/proxy/cache.go: which requests and responses may go through the cache, and the cache's key.
pub mod Keys
use proxy_manager.Prelude.{
  ℕ, zero, suc, Bool, true, false, not, ◌&&◌, ◌||◌, List, [], ◌∷◌, ◌++◌, Option, none, some, Bytes,
  bytes_eq, nat_eq, codes, ◌==◌, ltb, if◌then◌else◌, any, contains, drop, has_prefix, to_lower,
}
use proxy_manager.Prelude.Strings.{
  sort_strings, Header, header_values, header_get, header_del, split_on, before_cut, trim_space,
}
use proxy_manager.Proxy.Group.{RouteGroup}
use proxy_manager.Proxy.Cache.{ResponseCache}

-- What the decision reads of a request.
pub record CacheRequest : Type 0 where
  pub method : Bytes
  pub header : Header
  pub orig_path : Bytes

abbrev is_empty {ℓ} : {A : Type ℓ} → List A → Bool
is_empty [] = true
is_empty (x ∷ xs) = false

-- A GET or a HEAD with nothing personal in its headers, below one of the paths where there are any.
unfoldable pub cache_request_eligible : Bool → ℕ → List Bytes → CacheRequest → Bool
cache_request_eligible has_cache ttl paths req =
    has_cache
    && ltb 0 ttl
    && (req.method == codes "GET" || req.method == codes "HEAD")
    && is_empty (header_get (codes "Authorization") req.header)
    && is_empty (header_values (codes "Cookie") req.header)
    && is_empty (header_get (codes "Range") req.header)
    && (is_empty paths || any (has_prefix req.orig_path) paths)

abbrev forbids_storing : Bytes → Bool
forbids_storing tok =
    let name = before_cut b'=' (to_lower (trim_space tok)) in
    name == codes "private" || name == codes "no-store" || name == codes "no-cache"

abbrev varies_beyond : Bytes → Bool
varies_beyond tok =
    let name = to_lower (trim_space tok) in
    not (is_empty name) && not (name == codes "accept-encoding")

unfoldable pub cache_response_storable : Header → Bool
cache_response_storable h =
    is_empty (header_values (codes "Set-Cookie") h)
    && not
        (any (λ v. any forbids_storing (split_on b',' v)) (header_values (codes "Cache-Control") h))
    && not (any (λ v. any varies_beyond (split_on b',' v)) (header_values (codes "Vary") h))

abbrev transfer_headers : List Bytes
transfer_headers =
    codes "Connection"
    ∷ codes "Keep-Alive"
    ∷ codes "Transfer-Encoding"
    ∷ codes "Upgrade"
    ∷ codes "Proxy-Authenticate"
    ∷ codes "Proxy-Authorization"
    ∷ codes "Proxy-Connection"
    ∷ codes "Trailer"
    ∷ codes "Te"
    ∷ codes "Content-Length"
    ∷ codes "X-Cache"
    ∷ codes "Age"
    ∷ []

unfoldable pub del_all : List Bytes → Header → Header
del_all [] h = h
del_all (k ∷ ks) h = del_all ks (header_del k h)

abbrev nonempty_names : List Bytes → List Bytes
nonempty_names [] = []
nonempty_names (tok ∷ toks) =
    let name = trim_space tok in
    let rest = nonempty_names toks in if is_empty name then rest else name ∷ rest

-- The names that the values of Connection list.
abbrev listed_names : List Bytes → List Bytes
listed_names [] = []
listed_names (v ∷ vs) = nonempty_names (split_on b',' v) ++ listed_names vs

unfoldable pub clone_storable_header : Header → Header
clone_storable_header h =
    del_all transfer_headers (del_all (listed_names (header_values (codes "Connection") h)) h)

unfoldable pub is_known_coding : Bytes → Bool
is_known_coding name =
    name == codes "br" || name == codes "deflate" || name == codes "gzip" || name == codes "zstd"

-- strings.CutPrefix(s, "q=")
abbrev after_q : Bytes → Option Bytes
after_q s = if has_prefix s (codes "q=") then some (drop 2 s) else none

abbrev is_zero_weight : (Bytes → Bool) → Option Bytes → Bool
is_zero_weight parses_to_zero none = false
is_zero_weight parses_to_zero (some q) = parses_to_zero q

unfoldable pub coding_dropped : (Bytes → Bool) → List Bytes → Bool
coding_dropped parses_to_zero [] = false
coding_dropped parses_to_zero (p ∷ ps) =
    is_zero_weight parses_to_zero (after_q (to_lower (trim_space p)))
    || coding_dropped parses_to_zero ps

abbrev coding_name : List Bytes → Bytes
coding_name [] = []
coding_name (p ∷ ps) = to_lower (trim_space p)

abbrev parameters_of : List Bytes → List Bytes
parameters_of [] = []
parameters_of (p ∷ ps) = ps

-- The codings that the tokens name, each once; `seen` has those found before.
unfoldable pub codings_of : (Bytes → Bool) → List Bytes → List Bytes → List Bytes
codings_of parses_to_zero seen [] = []
codings_of parses_to_zero seen (tok ∷ toks) =
    let parts = split_on b';' tok in
    let name = coding_name parts in
    elim (is_known_coding name
      && not (coding_dropped parses_to_zero (parameters_of parts) || contains seen name)) [
        | true ↦ name ∷ codings_of parses_to_zero (name ∷ seen) toks
        | false ↦ codings_of parses_to_zero seen toks
      ]

-- strings.Join(ss, ",")
abbrev join_commas : List Bytes → Bytes
join_commas [] = []
join_commas (s ∷ []) = s
join_commas (s ∷ t ∷ ts) = s ++ b',' ∷ join_commas (t ∷ ts)

-- `parses_to_zero` is strconv.ParseFloat's verdict that a text is a number that equals 0.
unfoldable pub normalize_accept_encoding : (Bytes → Bool) → Bytes → Bytes
normalize_accept_encoding parses_to_zero s =
    join_commas (sort_strings (codings_of parses_to_zero [] (split_on b',' s)))

unfoldable pub cache_key : (Bytes → Bool) → Bytes → Bytes → Bytes → Bytes → Bytes
cache_key parses_to_zero host path raw_query accept_encoding =
    host
    ++ 0
      ∷ (path ++ b'?' ∷ (raw_query ++ 0 ∷ normalize_accept_encoding parses_to_zero accept_encoding))
