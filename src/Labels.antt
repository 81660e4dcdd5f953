-- ===== src/Labels.antt =====
-- internal/labels/labels.go: the registry of the labels that may be managed centrally, the check of
-- a value and that of a change. time.ParseDuration is a parameter: its sign and its length, `none`
-- where it fails.
pub mod Validators
pub mod Change
pub mod Values
pub mod Keys
mod Examples
use proxy_manager.Prelude.{
  ℕ, zero, suc, ◌+◌, ◌-◌, ◌*◌, ◌^◌, Bool, true, false, not, ◌&&◌, ◌||◌, List, [], ◌∷◌, ◌++◌, map,
  Option, none, some, Bytes, bytes_eq, nat_eq, codes, ◌==◌, ltb, leb, if◌then◌else◌, length, all,
  any, contains, find?, has_prefix, to_lower,
}
use proxy_manager.Prelude.Assoc.{lookup, insert, delete}
use proxy_manager.Prelude.Strings.{trim_space, sort_strings, parse_int64, split_list, canonical_key}
use proxy_manager.Prelude.Results.{Result, ok, err, ◌>>=◌, ◌>>◌, require}
use proxy_manager.Labels.Validators.{
  max_weight, max_drain_seconds, max_value_bytes, max_keys, drop_headers_key, valid_bool, int_range,
  valid_abs_path, valid_name, service_name_matches, is_nonempty, valid_path_list, valid_header_list,
  has_control, parse_cache_ttl, is_ok,
}

pub data Class : Type 0 where
  proxy_live dashboard_live security identity per_replica : Class

abbrev pub Labels : Type 0
Labels = List (Bytes × Bytes)

-- `validate` is nil for a key that is never set centrally. The consumer's text is left out.
pub record Spec : Type 0 where
  pub class : Class
  pub validate : Option (Bytes → Bool)

abbrev live_key : Class → (Bytes → Bool) → Spec
live_key c v = record { class = c; validate = some v }

abbrev fixed_spec : Class → Spec
fixed_spec c = record { class = c; validate = none }

unfoldable pub registry : (Bytes → Option (Bool × ℕ)) → List (Bytes × Spec)
registry parse_duration =
    (codes "proxy.weight", live_key proxy_live (int_range 1 max_weight))
    ∷ (codes "proxy.health", live_key proxy_live valid_abs_path)
    ∷ (codes "proxy.strip", live_key proxy_live valid_bool)
    ∷ (codes "proxy.name", live_key proxy_live valid_name)
    ∷ (codes "proxy.ratelimit", live_key proxy_live valid_bool)
    ∷ (codes "proxy.ratelimit.rpm", live_key proxy_live (int_range 1 (2 ^ 31 - 1)))
    ∷ (codes "proxy.sticky", live_key proxy_live valid_bool)
    ∷ (codes "proxy.cache", live_key proxy_live (λ s. is_ok (parse_cache_ttl parse_duration s)))
    ∷ (codes "proxy.cache.paths", live_key proxy_live valid_path_list)
    ∷ (drop_headers_key, live_key proxy_live valid_header_list)
    ∷ (codes "proxy.autoupdate", live_key dashboard_live valid_bool)
    ∷ (codes "proxy.unscalable", live_key dashboard_live valid_bool)
    ∷ (codes "proxy.drain", live_key dashboard_live (int_range 0 max_drain_seconds))
    ∷ (codes "proxy.group", live_key dashboard_live service_name_matches)
    ∷ (codes "proxy.maintenance", live_key dashboard_live valid_abs_path)
    ∷ (codes "proxy.overlap", live_key dashboard_live valid_bool)
    ∷ (codes "proxy.auth", fixed_spec security)
    ∷ (codes "proxy.auth.users", fixed_spec security)
    ∷ (codes "proxy.auth.mode", fixed_spec security)
    ∷ (codes "proxy.enable", fixed_spec identity)
    ∷ (codes "proxy.service", fixed_spec identity)
    ∷ (codes "proxy.host", fixed_spec identity)
    ∷ (codes "proxy.port", fixed_spec identity)
    ∷ (codes "proxy.path", fixed_spec identity)
    ∷ (codes "proxy.canary", fixed_spec per_replica)
    ∷ (codes "proxy.previous_image", fixed_spec per_replica)
    ∷ (codes "proxy.spread", fixed_spec per_replica)
    ∷ []

-- What the registry lacks, and the namespaces that a replica owns whole.
abbrev or_namespace : Bytes → Option Spec → Option Spec
or_namespace key (some s) = some s
or_namespace key none =
    if has_prefix key (codes "proxy.ab.") || has_prefix key (codes "pmgr.env.")
    then some (fixed_spec per_replica)
    else none

unfoldable pub lookup_label : (Bytes → Option (Bool × ℕ)) → Bytes → Option Spec
lookup_label parse_duration key = or_namespace key (lookup key (registry parse_duration))

unfoldable pub is_live : Class → Bool
is_live proxy_live = true
is_live dashboard_live = true
is_live security = false
is_live identity = false
is_live per_replica = false

abbrev live_spec : Option Spec → Bool
live_spec none = false
live_spec (some s) = is_live s.class

unfoldable pub managed : (Bytes → Option (Bool × ℕ)) → Bytes → Bool
managed parse_duration key = live_spec (lookup key (registry parse_duration))

-- `nil_validator` is the panic of a call of a nil function.
pub data LabelError : Type 0 where
  not_central : Bytes → LabelError
  not_settable : Bytes → Class → LabelError
  empty_value too_long control_chars bad_value nil_validator set_and_unset : Bytes → LabelError
  too_many_keys : ℕ → LabelError
  loosens : Bytes → LabelError

abbrev error_of : Bytes → Option Spec → LabelError
error_of key none = not_central key
error_of key (some s) = not_settable key s.class

unfoldable pub key_error : (Bytes → Option (Bool × ℕ)) → Bytes → LabelError
key_error parse_duration key = error_of key (lookup_label parse_duration key)

abbrev validator_of : Option Spec → Option (Bytes → Bool)
validator_of none = none
validator_of (some s) = s.validate

abbrev run_validator : Bytes → Bytes → Option (Bytes → Bool) → Result LabelError (Unit {0})
run_validator key value none = err (nil_validator key)
run_validator key value (some v) = require (v value) (bad_value key)

unfoldable pub validate_value :
    (Bytes → Option (Bool × ℕ)) → Bytes → Bytes → Result LabelError (Unit {0})
validate_value parse_duration key value = do
  require (managed parse_duration key) (key_error parse_duration key)
  require (is_nonempty value) (empty_value key)
  require (leb (length value) max_value_bytes) (too_long key)
  require (not (has_control value)) (control_chars key)
  run_validator key value (validator_of (lookup key (registry parse_duration)))

abbrev is_some {ℓ} : {A : Type ℓ} → Option A → Bool
is_some none = false
is_some (some a) = true

abbrev or_blank : Option Bytes → Bytes
or_blank none = []
or_blank (some v) = v

unfoldable pub unset_each :
    (Bytes → Option (Bool × ℕ)) → Labels → List Bytes → Labels → Result LabelError Labels
unset_each parse_duration set [] next = ok next
unset_each parse_duration set (k ∷ ks) next = do
  require (not (is_some (lookup k set))) (set_and_unset k)
  require (managed parse_duration k) (key_error parse_duration k)
  unset_each parse_duration set ks (delete k next)

unfoldable pub set_each :
    (Bytes → Option (Bool × ℕ)) → Labels → List Bytes → Labels → Result LabelError Labels
set_each parse_duration set [] next = ok next
set_each parse_duration set (k ∷ ks) next = do
  validate_value parse_duration k (or_blank (lookup k set))
  set_each parse_duration set ks (insert k (or_blank (lookup k set)) next)

abbrev keys_of : Labels → List Bytes
keys_of m = map (λ e. e.0) m

-- The labels after the change: those unset are gone, then those set are in.
unfoldable pub next_labels :
    (Bytes → Option (Bool × ℕ)) → Labels → Labels → List Bytes → Result LabelError Labels
next_labels parse_duration current set unset = do
  next ← unset_each parse_duration set unset current
  set_each parse_duration set (sort_strings (keys_of set)) next

-- The headers that a set of labels strips, under their canonical names.
unfoldable pub kept_headers : Labels → List Bytes
kept_headers m = map canonical_key (split_list (or_blank (lookup drop_headers_key m)))

unfoldable pub check_kept : List Bytes → List Bytes → Result LabelError (Unit {0})
check_kept kept [] = ok tt
check_kept kept (h ∷ hs) = do
  require (contains kept (canonical_key h)) (loosens h)
  check_kept kept hs

unfoldable pub check_loosening : Bool → Labels → Labels → Result LabelError (Unit {0})
check_loosening true current next = ok tt
check_loosening false current next =
    check_kept (kept_headers next) (split_list (or_blank (lookup drop_headers_key current)))

unfoldable pub validate_change :
    (Bytes → Option (Bool × ℕ)) → Labels → Labels → List Bytes → Bool → Result LabelError (Unit {0})
validate_change parse_duration current set unset allow_loosen = do
  next ← next_labels parse_duration current set unset
  require (leb (length next) max_keys) (too_many_keys (length next))
  check_loosening allow_loosen current next
