-- ===== src/Labels/Examples.antt =====
-- internal/labels/labels.go on concrete labels.
use proxy_manager.Prelude.{
  ℕ, ◌≤◌, ◌≡◌, ◌≢◌, ◌↔◌, refl, Bool, false, ◌==◌, if◌then◌else◌, bytes_eq, [], ◌∷◌, Option, none,
  some, Bytes, codes, length, All, In,
}
use proxy_manager.Prelude.Assoc.{lookup}
use proxy_manager.Prelude.Strings.{split_list, canonical_key}
use proxy_manager.Prelude.Results.{ok, err}
use proxy_manager.Labels.{
  Labels, next_labels, validate_change, validate_value, kept_headers, or_blank, nil_validator,
  loosens, unset_each, set_each, managed, is_live, registry, check_loosening, check_kept,
}
use proxy_manager.Labels.Validators.{
  drop_headers_key, max_keys, valid_header_list, is_token_rune, has_control, parse_cache_ttl,
}
use proxy_manager.Labels.Change.{IsAllowed, validate_change-safe}
use proxy_manager.Labels.Values.{Accepts, validate_value-Accepts}

-- `30s` is the only duration that this parser knows.
abbrev durations : Bytes → Option (Bool × ℕ)
durations s = if s == codes "30s" then some (false, 30000000000) else none

abbrev before : Labels
before =
    (codes "proxy.auth", codes "true") ∷ (codes "proxy.drop_headers", codes "x-user, Cookie") ∷ []

abbrev changes : Labels
changes =
    (codes "proxy.cache", codes "30s")
    ∷ (codes "proxy.drop_headers", codes "Cookie,X-User,X-Role")
    ∷ []

accepts_change : validate_change durations before changes (codes "proxy.weight" ∷ []) false ≡ ok tt
unfolding validate_change next_labels unset_each set_each managed is_live registry validate_value
    check_loosening check_kept kept_headers valid_header_list is_token_rune has_control
    parse_cache_ttl
accepts_change = refl

refuses_loosening :
    validate_change durations before ((codes "proxy.drop_headers", codes "cookie") ∷ []) [] false
    ≡ err (loosens (codes "x-user"))
unfolding validate_change next_labels unset_each set_each managed is_live registry validate_value
    check_loosening check_kept kept_headers valid_header_list is_token_rune has_control
    parse_cache_ttl
refuses_loosening = refl

validate_change-safe_example :
    (next : Labels) × (next_labels durations before changes (codes "proxy.weight" ∷ []) ≡ ok next)
    × IsAllowed durations before next
    × (length next ≤ max_keys)
    × (false ≡ false
        → All
            (λ h. In (canonical_key h) (kept_headers next))
            (split_list (or_blank (lookup drop_headers_key before))))
validate_change-safe_example =
    validate_change-safe durations before changes (codes "proxy.weight" ∷ []) false accepts_change

validate_value-Accepts_example :
    ((validate_value durations (codes "proxy.strip") (codes "yes") ≡ ok tt)
      ↔ Accepts durations (codes "proxy.strip") (codes "yes"))
    × (validate_value durations (codes "proxy.strip") (codes "yes")
        ≢ err (nil_validator (codes "proxy.strip")))
validate_value-Accepts_example =
    validate_value-Accepts durations (codes "proxy.strip") (codes "yes")
