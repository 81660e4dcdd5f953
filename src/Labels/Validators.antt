-- ===== src/Labels/Validators.antt =====
-- internal/labels/labels.go: the validators of single values, and the keys in Redis. The rune count and
-- the control characters are those of UTF-8; time.ParseDuration is a parameter.
use proxy_manager.Prelude.{
  ℕ, zero, suc, Bool, true, false, not, ◌&&◌, ◌||◌, List, [], ◌∷◌, ◌++◌, Option, none, some, Bytes,
  bytes_eq, nat_eq, codes, ◌==◌, ltb, leb, if◌then◌else◌, length, all, any, contains, has_prefix,
  to_lower,
}
use proxy_manager.Prelude.Strings.{trim_space, parse_int64, split_list}
use proxy_manager.Prelude.Results.{Result, ok, err}

abbrev pub max_weight : ℕ
max_weight = 100

abbrev pub max_drain_seconds : ℕ
max_drain_seconds = 300

abbrev pub max_value_bytes : ℕ
max_value_bytes = 1024

abbrev pub max_keys : ℕ
max_keys = 64

abbrev pub max_name_runes : ℕ
max_name_runes = 64

abbrev pub drop_headers_key : Bytes
drop_headers_key = codes "proxy.drop_headers"

unfoldable pub valid_bool : Bytes → Bool
valid_bool s = s == codes "true" || s == codes "false"

abbrev pub in_range : ℕ → ℕ → Option ℕ → Bool
in_range lo hi none = false
in_range lo hi (some n) = leb lo n && leb n hi

-- `lo` is 0 at least, so that a number below 0 fails as an error does.
unfoldable pub int_range : ℕ → ℕ → Bytes → Bool
int_range lo hi s = in_range lo hi (parse_int64 s)

unfoldable pub valid_abs_path : Bytes → Bool
valid_abs_path s = has_prefix s (codes "/") && not (any (λ c. c == 32 || c == 9) s)

abbrev pub is_cont : Bytes → ℕ → ℕ → Bool
is_cont [] lo hi = false
is_cont (c ∷ s) lo hi = leb lo c && leb c hi

abbrev pub tail_of : Bytes → Bytes
tail_of [] = []
tail_of (c ∷ s) = s

-- The bytes after the first one that belong to its rune, as unicode/utf8 decodes it: none after a
-- byte that starts no valid rune.
abbrev pub rest_width : ℕ → Bytes → ℕ
rest_width c s =
    if leb 0xC2 c && leb c 0xDF
    then (if is_cont s 0x80 0xBF then 1 else 0)
    else if leb 0xE0 c && leb c 0xEF
    then (let lo = if c == 0xE0 then 0xA0 else 0x80 in
        let hi = if c == 0xED then 0x9F else 0xBF in
        if is_cont s lo hi && is_cont (tail_of s) 0x80 0xBF then 2 else 0)
    else if leb 0xF0 c && leb c 0xF4
    then (let lo = if c == 0xF0 then 0x90 else 0x80 in
        let hi = if c == 0xF4 then 0x8F else 0xBF in
        if is_cont s lo hi
          && is_cont (tail_of s) 0x80 0xBF
          && is_cont (tail_of (tail_of s)) 0x80 0xBF
        then 3
        else 0)
    else 0

-- utf8.RuneCountInString, past the bytes of the current rune.
abbrev pub runes_from : ℕ → Bytes → ℕ
runes_from skip [] = 0
runes_from zero (c ∷ s) = suc (runes_from (rest_width c s) s)
runes_from (suc skip) (c ∷ s) = runes_from skip s

unfoldable pub valid_name : Bytes → Bool
valid_name s = leb (runes_from 0 s) max_name_runes

abbrev pub is_alnum : ℕ → Bool
is_alnum c = (leb b'a' c && leb c b'z') || (leb b'A' c && leb c b'Z') || (leb b'0' c && leb c b'9')

abbrev pub is_name_byte : ℕ → Bool
is_name_byte c = is_alnum c || c == b'.' || c == b'_' || c == b'-'

-- serviceNameRE
unfoldable pub service_name_matches : Bytes → Bool
service_name_matches [] = false
service_name_matches (c ∷ s) = is_alnum c && leb (length s) 62 && all is_name_byte s

unfoldable pub valid_service : Bytes → Bool
valid_service svc = service_name_matches svc && not (svc == codes "index" || svc == codes "version")

abbrev pub redis_prefix : Bytes
redis_prefix = codes "pmgr:labels:"

abbrev pub redis_index : Bytes
redis_index = codes "pmgr:labels:index"

abbrev pub redis_version : Bytes
redis_version = codes "pmgr:labels:version"

abbrev pub redis_meta_suffix : Bytes
redis_meta_suffix = codes ":meta"

unfoldable pub redis_service_key : Bytes → Bytes
redis_service_key svc = redis_prefix ++ svc

unfoldable pub redis_meta_key : Bytes → Bytes
redis_meta_key svc = redis_prefix ++ svc ++ redis_meta_suffix

abbrev pub is_nonempty {ℓ} : {A : Type ℓ} → List A → Bool
is_nonempty [] = false
is_nonempty (x ∷ xs) = true

unfoldable pub valid_path_list : Bytes → Bool
valid_path_list s = is_nonempty (split_list s) && all valid_abs_path (split_list s)

unfoldable pub is_token_rune : ℕ → Bool
is_token_rune r = is_alnum r || contains (codes "!#$%&'*+-.^_`|~") r

unfoldable pub valid_header_list : Bytes → Bool
valid_header_list s = is_nonempty (split_list s) && all (all is_token_rune) (split_list s)

abbrev pub starts_c1 : Bytes → Bool
starts_c1 s = is_cont s 0x80 0x9F

-- unicode.IsControl on the runes: the codes below 32, 127, and those from 128 to 159.
unfoldable pub has_control : Bytes → Bool
has_control [] = false
has_control (c ∷ s) = ltb c 32 || c == 127 || (c == 0xC2 && starts_c1 s) || has_control s

pub data TtlError : Type 0 where
  bad_duration negative_duration : TtlError

abbrev pub ttl_of : Option (Bool × ℕ) → Result TtlError ℕ
ttl_of none = err bad_duration
ttl_of (some (negative, n)) = if negative then err negative_duration else ok n

unfoldable pub parse_cache_ttl : (Bytes → Option (Bool × ℕ)) → Bytes → Result TtlError ℕ
parse_cache_ttl parse_duration s =
    let t = trim_space s in
    let word = to_lower t in
    if word == [] || word == codes "0" || word == codes "false" || word == codes "off"
    then ok 0
    else ttl_of (parse_duration t)

abbrev pub is_ok : {E A : Type 0} → Result E A → Bool
is_ok (ok a) = true
is_ok (err e) = false
