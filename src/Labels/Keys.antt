-- ===== src/Labels/Keys.antt =====
-- internal/labels/labels.go: the keys of the labels in Redis.
use proxy_manager.Prelude.{
  ℕ, ◌≡◌, ◌≢◌, refl, ap, Bool, true, false, ◌&&◌, ◌||◌, [], ◌∷◌, ◌++◌, Bytes, bytes_eq, nat_eq,
  codes, ◌==◌, length, all, leb,
}
use mathlib.Core.List.{append_cancel_left, append_cancel_right}
use proxy_manager.Labels.Validators.{
  service_name_matches, valid_service, is_alnum, is_name_byte, redis_prefix, redis_index,
  redis_version, redis_meta_suffix, redis_service_key, redis_meta_key,
}

-- What a name of a service is made of.
valid_service-bytes : (svc : Bytes) → valid_service svc ≡ true → all is_name_byte svc ≡ true
unfolding valid_service service_name_matches
valid_service-bytes [] h = cc
valid_service-bytes (c ∷ s) h =
    from_tests (is_alnum c) (leb (length s) 62) (all is_name_byte s) _ (c == b'.') (c == b'_')
      (c == b'-') h
  where
    from_tests :
        (x l m n dot bar dash : Bool)
        → ((x && l && m) && n) ≡ true
        → ((x || dot || bar || dash) && m) ≡ true
    from_tests true true true n dot bar dash h = refl
    from_tests true true false n dot bar dash h = cc
    from_tests true false m n dot bar dash h = cc
    from_tests false l m n dot bar dash h = cc

all-tail : (p : ℕ → Bool) (s t : Bytes) → all p (s ++ t) ≡ true → all p t ≡ true
all-tail p [] t h = h
all-tail p (c ∷ s) t h = all-tail p s t (second (p c) _ h)
  where
    second : (a b : Bool) → (a && b) ≡ true → b ≡ true
    second true b h = h
    second false b h = cc

-- For names that ValidService passes, the key of a service is neither of the two global keys nor the
-- key of any service's metadata, and different services have different keys.
pub redis_keys_distinct :
    (a b : Bytes)
    → valid_service a ≡ true
    → valid_service b ≡ true
    → (redis_service_key a ≢ redis_index)
      × (redis_service_key a ≢ redis_version)
      × (redis_service_key a ≢ redis_meta_key b)
      × (redis_service_key a ≡ redis_service_key b → a ≡ b)
      × (redis_meta_key a ≡ redis_meta_key b → a ≡ b)
unfolding redis_service_key redis_meta_key valid_service service_name_matches
redis_keys_distinct a b va vb = (
  reserved (codes "index") refl,
  reserved (codes "version") refl,
  λ e.
      let same = append_cancel_left redis_prefix a (b ++ redis_meta_suffix) e in
      let colon =
        all-tail is_name_byte b redis_meta_suffix (rw (← same) (valid_service-bytes a va)) in
      cc,
  λ e. append_cancel_left redis_prefix a b e,
  λ e.
      append_cancel_right a b redis_meta_suffix
        (append_cancel_left redis_prefix (a ++ redis_meta_suffix) (b ++ redis_meta_suffix) e),
)
  where
    reserved :
        (name : Bytes) → valid_service name ≡ false → (redis_prefix ++ a) ≢ (redis_prefix ++ name)
    reserved name invalid e =
        let same = append_cancel_left redis_prefix a name e in
        let both = ap valid_service same in cc
