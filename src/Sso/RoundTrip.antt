-- ===== src/Sso/RoundTrip.antt =====
-- internal/sso/token.go: signing claims and verifying them.
use proxy_manager.Prelude.{
  ℕ, ◌≡◌, refl, sym, ap, ◌∙◌, ◌≤◌, ltb-false→le, false, some, Bytes, Bool-cases, inl, inr, arith,
}
use proxy_manager.Prelude.Signed.{ℤ, pos, negsuc}
use proxy_manager.Prelude.Options.{◌>>=◌, >>=-eq-some}
use proxy_manager.Sso.{
  Crypto, Json, verify_blob, ClientReg, CodeClaims, AccessClaims, RefreshClaims, ActorClaims,
  sign_client, sign_code, sign_access, sign_refresh, sign_actor, verify_client, verify_code,
  verify_access, verify_refresh, verify_actor, expired, if_fresh, client_id_prefix,
  auth_code_prefix, access_token_prefix, refresh_token_prefix, actor_prefix, tag_client, tag_code,
  tag_access, tag_refresh, tag_actor,
}
use proxy_manager.Sso.Blobs.{IsCodec, IsBlob, verify_blob-accepts, verify_blob-sign_blob}

-- One value of each type of claims, with what encoding/json makes of the type.
pub record Claims : Type 0 where
  pub client_json : Json ClientReg
  pub client : ClientReg
  pub code_json : Json CodeClaims
  pub code : CodeClaims
  pub access_json : Json AccessClaims
  pub access : AccessClaims
  pub refresh_json : Json RefreshClaims
  pub refresh : RefreshClaims
  pub actor_json : Json ActorClaims
  pub actor : ActorClaims

-- The values that encoding/json reads back as they were, as it does where their texts are UTF-8.
pub record IsReadBack (c : Claims) : Type 0 where
  pub client_back : c.client_json.unmarshal (c.client_json.marshal c.client) ≡ some c.client
  pub code_back : c.code_json.unmarshal (c.code_json.marshal c.code) ≡ some c.code
  pub access_back : c.access_json.unmarshal (c.access_json.marshal c.access) ≡ some c.access
  pub refresh_back : c.refresh_json.unmarshal (c.refresh_json.marshal c.refresh) ≡ some c.refresh
  pub actor_back : c.actor_json.unmarshal (c.actor_json.marshal c.actor) ≡ some c.actor

-- What is signed is verified by the verifier of its type with the same secret and comes back as it
-- was; the four types that expire do so while their expiry is not past, and are refused afterwards.
pub verify-sign :
    (lib : Crypto) (c : Claims) (now : ℕ) (secret : Bytes)
    → IsCodec lib.raw_url b'.'
    → IsReadBack c
    → (verify_client lib c.client_json (sign_client lib c.client_json c.client secret) secret
        ≡ some c.client)
      × (verify_code lib c.code_json now (sign_code lib c.code_json c.code secret) secret
          ≡ if_fresh now c.code.exp c.code)
      × (verify_access lib c.access_json now (sign_access lib c.access_json c.access secret) secret
          ≡ if_fresh now c.access.exp c.access)
      × (verify_refresh lib c.refresh_json now
            (sign_refresh lib c.refresh_json c.refresh secret)
            secret
          ≡ if_fresh now c.refresh.exp c.refresh)
      × (verify_actor lib c.actor_json now (sign_actor lib c.actor_json c.actor secret) secret
          ≡ if_fresh now c.actor.exp c.actor)
unfolding verify_client verify_code verify_access verify_refresh verify_actor sign_client sign_code
    sign_access sign_refresh sign_actor
verify-sign lib c now secret codec back = (
  rw
      (
        verify_blob-sign_blob lib client_id_prefix tag_client secret
            (c.client_json.marshal c.client) codec,
        back.client_back,
      )
      refl,
  rw
      (
        verify_blob-sign_blob lib auth_code_prefix tag_code secret (c.code_json.marshal c.code)
            codec,
        back.code_back,
      )
      refl,
  rw
      (
        verify_blob-sign_blob lib access_token_prefix tag_access secret
            (c.access_json.marshal c.access) codec,
        back.access_back,
      )
      refl,
  rw
      (
        verify_blob-sign_blob lib refresh_token_prefix tag_refresh secret
            (c.refresh_json.marshal c.refresh) codec,
        back.refresh_back,
      )
      refl,
  rw
      (
        verify_blob-sign_blob lib actor_prefix tag_actor secret (c.actor_json.marshal c.actor)
            codec,
        back.actor_back,
      )
      refl,
)

if_fresh-some :
    {A : Type 0} (now : ℕ) (exp : ℤ) (a : A) {b : A}
    → if_fresh now exp a ≡ some b
    → (expired now exp ≡ false) × (a ≡ b)
if_fresh-some now exp a h = elim (Bool-cases (expired now exp)) [
  | inl past ↦ absurd (ground (arith, h, past))
  | inr open_still ↦ (open_still, ground (arith, h, open_still))
]

-- The blob of a payload that is read as the claims, with an expiry that is not past.
pub record IsSigned {A : Type 0} (lib : Crypto) (json : Json A) (prefix tag raw secret : Bytes)
    (a : A) : Type 0 where
  pub payload : Bytes
  pub blob : IsBlob lib raw prefix tag secret payload
  pub read : json.unmarshal payload ≡ some a

IsSigned-claims :
    {A : Type 0} (lib : Crypto) (json : Json A) (prefix tag raw secret : Bytes) (now : ℕ)
    (exp_of : A → ℤ) (a : A)
    → (verify_blob lib raw prefix tag secret >>= λ payload.
        json.unmarshal payload >>= λ c. if_fresh now (exp_of c) c)
      ≡ some a
    → IsSigned lib json prefix tag raw secret a × (expired now (exp_of a) ≡ false)
IsSigned-claims {A} lib json prefix tag raw secret now exp_of a h =
    let (payload, verified, h1) = >>=-eq-some (verify_blob lib raw prefix tag secret) _ h in
    let (c, read, h2) = >>=-eq-some (json.unmarshal payload) _ h1 in
    let (fresh, same) = if_fresh-some now (exp_of c) c h2 in
    together payload c verified read fresh same
  where
    together :
        (payload : Bytes) (c : A)
        → verify_blob lib raw prefix tag secret ≡ some payload
        → json.unmarshal payload ≡ some c
        → expired now (exp_of c) ≡ false
        → c ≡ a
        → IsSigned lib json prefix tag raw secret a × (expired now (exp_of a) ≡ false)
    together payload c verified read fresh same = (
      record {
        payload = payload;
        blob = (verify_blob-accepts lib raw prefix tag secret payload).0 verified;
        read = read ∙ ap some same;
      },
      ap (λ x. expired now (exp_of x)) (sym same) ∙ fresh,
    )

-- An expiry that is not past: a number from 0 on, `now` at least.
expired-pos : (now : ℕ) (exp : ℤ) → expired now exp ≡ false → (e : ℕ) × (exp ≡ pos e) × (now ≤ e)
unfolding expired
expired-pos now (pos e) h = (e, refl, ltb-false→le e now h)
expired-pos now (negsuc e) h = cc

-- An access token is accepted only with the prefix of access tokens, a payload that reads as the
-- claims that are returned, the payload's MAC under the tag of access tokens and the secret, and an
-- expiry that is not past.
pub verify_access-IsSigned :
    (lib : Crypto) (json : Json AccessClaims) (now : ℕ) (raw secret : Bytes) (c : AccessClaims)
    → verify_access lib json now raw secret ≡ some c
    → IsSigned lib json access_token_prefix tag_access raw secret c
      × ((e : ℕ) × (c.exp ≡ pos e) × (now ≤ e))
unfolding verify_access
verify_access-IsSigned lib json now raw secret c h =
    let (signed, fresh) =
      IsSigned-claims lib json access_token_prefix tag_access raw secret now (λ x. x.exp) c h in
    (signed, expired-pos now c.exp fresh)
