-- ===== src/Sso/Domains.antt =====
-- internal/sso/token.go: the five types of blobs are kept apart.
use proxy_manager.Prelude.{
  ◌≡◌, ◌≢◌, refl, false, [], ◌∷◌, ◌++◌, none, Bytes, nat_eq, bytes_eq, take, ap, ◌==◌,
}
use proxy_manager.Sso.{
  Crypto, mac_input, sign_blob, verify_blob, cut_prefix, client_id_prefix, auth_code_prefix,
  access_token_prefix, refresh_token_prefix, actor_prefix, tag_client, tag_code, tag_access,
  tag_refresh, tag_actor,
}
use mathlib.Core.List.{append_cancel_left}

-- The five types, each with the prefix and the tag of its pair of functions.
pub data Kind : Type 0 where
  client code access refresh actor : Kind

abbrev pub prefix_of : Kind → Bytes
prefix_of client = client_id_prefix
prefix_of code = auth_code_prefix
prefix_of access = access_token_prefix
prefix_of refresh = refresh_token_prefix
prefix_of actor = actor_prefix

abbrev pub tag_of : Kind → Bytes
tag_of client = tag_client
tag_of code = tag_code
tag_of access = tag_access
tag_of refresh = tag_refresh
tag_of actor = tag_actor

-- A blob signed as one type is never verified as another one, whatever tag and secret it is verified
-- with: the prefix is refused.
pub verify_blob-other_kind :
    (lib : Crypto) (k k' : Kind)
    → k ≢ k'
    → (tag' secret secret' payload : Bytes)
    → verify_blob lib
        (sign_blob lib (prefix_of k) (tag_of k) payload secret)
        (prefix_of k')
        tag'
        secret'
      ≡ none
unfolding verify_blob sign_blob cut_prefix
verify_blob-other_kind lib client client differ tag' secret secret' payload = absurd (differ refl)
verify_blob-other_kind lib client code differ tag' secret secret' payload = refl
verify_blob-other_kind lib client access differ tag' secret secret' payload = refl
verify_blob-other_kind lib client refresh differ tag' secret secret' payload = refl
verify_blob-other_kind lib client actor differ tag' secret secret' payload = refl
verify_blob-other_kind lib code client differ tag' secret secret' payload = refl
verify_blob-other_kind lib code code differ tag' secret secret' payload = absurd (differ refl)
verify_blob-other_kind lib code access differ tag' secret secret' payload = refl
verify_blob-other_kind lib code refresh differ tag' secret secret' payload = refl
verify_blob-other_kind lib code actor differ tag' secret secret' payload = refl
verify_blob-other_kind lib access client differ tag' secret secret' payload = refl
verify_blob-other_kind lib access code differ tag' secret secret' payload = refl
verify_blob-other_kind lib access access differ tag' secret secret' payload = absurd (differ refl)
verify_blob-other_kind lib access refresh differ tag' secret secret' payload = refl
verify_blob-other_kind lib access actor differ tag' secret secret' payload = refl
verify_blob-other_kind lib refresh client differ tag' secret secret' payload = refl
verify_blob-other_kind lib refresh code differ tag' secret secret' payload = refl
verify_blob-other_kind lib refresh access differ tag' secret secret' payload = refl
verify_blob-other_kind lib refresh refresh differ tag' secret secret' payload = absurd (differ refl)
verify_blob-other_kind lib refresh actor differ tag' secret secret' payload = refl
verify_blob-other_kind lib actor client differ tag' secret secret' payload = refl
verify_blob-other_kind lib actor code differ tag' secret secret' payload = refl
verify_blob-other_kind lib actor access differ tag' secret secret' payload = refl
verify_blob-other_kind lib actor refresh differ tag' secret secret' payload = refl
verify_blob-other_kind lib actor actor differ tag' secret secret' payload = absurd (differ refl)

-- Two texts that their first 13 bytes tell apart.
apart : (s t : Bytes) → (take 13 s == take 13 t) ≡ false → s ≢ t
apart s t differ e =
    let same = (bytes_eq.eq_test_iff (take 13 s) (take 13 t)).1 (ap (take 13) e) in cc

-- The MAC is over a text that tells the type and the payload: two blobs with the same text to
-- sign are of one type and have one payload.
pub mac_input-injective :
    (k k' : Kind) (p q : Bytes)
    → mac_input (tag_of k) p ≡ mac_input (tag_of k') q
    → (k ≡ k') × (p ≡ q)
unfolding mac_input
mac_input-injective client client p q e = (refl, append_cancel_left (tag_of client ++ 0 ∷ []) p q e)
mac_input-injective client code p q e = absurd (apart _ _ refl e)
mac_input-injective client access p q e = absurd (apart _ _ refl e)
mac_input-injective client refresh p q e = absurd (apart _ _ refl e)
mac_input-injective client actor p q e = absurd (apart _ _ refl e)
mac_input-injective code client p q e = absurd (apart _ _ refl e)
mac_input-injective code code p q e = (refl, append_cancel_left (tag_of code ++ 0 ∷ []) p q e)
mac_input-injective code access p q e = absurd (apart _ _ refl e)
mac_input-injective code refresh p q e = absurd (apart _ _ refl e)
mac_input-injective code actor p q e = absurd (apart _ _ refl e)
mac_input-injective access client p q e = absurd (apart _ _ refl e)
mac_input-injective access code p q e = absurd (apart _ _ refl e)
mac_input-injective access access p q e = (refl, append_cancel_left (tag_of access ++ 0 ∷ []) p q e)
mac_input-injective access refresh p q e = absurd (apart _ _ refl e)
mac_input-injective access actor p q e = absurd (apart _ _ refl e)
mac_input-injective refresh client p q e = absurd (apart _ _ refl e)
mac_input-injective refresh code p q e = absurd (apart _ _ refl e)
mac_input-injective refresh access p q e = absurd (apart _ _ refl e)
mac_input-injective refresh refresh p q e =
    (refl, append_cancel_left (tag_of refresh ++ 0 ∷ []) p q e)
mac_input-injective refresh actor p q e = absurd (apart _ _ refl e)
mac_input-injective actor client p q e = absurd (apart _ _ refl e)
mac_input-injective actor code p q e = absurd (apart _ _ refl e)
mac_input-injective actor access p q e = absurd (apart _ _ refl e)
mac_input-injective actor refresh p q e = absurd (apart _ _ refl e)
mac_input-injective actor actor p q e = (refl, append_cancel_left (tag_of actor ++ 0 ∷ []) p q e)
