-- ===== src/Sso.antt =====
-- internal/sso: the signed blobs of token.go and the cookie of sso.go. The library calls are
-- parameters: HMAC-SHA256, the encodings of encoding/base64 and encoding/hex, strconv.FormatInt, and
-- what encoding/json makes of each type of claims. `now` is time.Now().Unix().
pub mod Cookie
pub mod Blobs
pub mod Domains
pub mod RoundTrip
pub mod Session
mod Examples
use proxy_manager.Prelude.{
  ℕ, zero, suc, ◌+◌, Bool, true, false, List, [], ◌∷◌, ◌++◌, Option, none, some, Bytes, bytes_eq,
  nat_eq, codes, ◌==◌, ltb, if◌then◌else◌,
}
use proxy_manager.Prelude.Signed.{ℤ, pos, negsuc}
use proxy_manager.Prelude.Options.{◌>>=◌, guard}

-- An encoding of bytes as text, and back; `none` for an error.
pub record Encoding : Type 0 where
  pub encode : Bytes → Bytes
  pub decode : Bytes → Option Bytes

-- The package's library calls: the MAC of a secret and a message, base64.RawURLEncoding, hex.
pub record Crypto : Type 0 where
  pub hmac : Bytes → Bytes → Bytes
  pub raw_url : Encoding
  pub hex : Encoding
  pub format_int : ℤ → Bytes

-- json.Marshal, whose error the package drops, and json.Unmarshal.
pub record Json (A : Type 0) : Type 0 where
  pub marshal : A → Bytes
  pub unmarshal : Bytes → Option A

abbrev pub client_id_prefix : Bytes
client_id_prefix = codes "pmgcl_"

abbrev pub auth_code_prefix : Bytes
auth_code_prefix = codes "pmgc_"

abbrev pub access_token_prefix : Bytes
access_token_prefix = codes "pmga_"

abbrev pub refresh_token_prefix : Bytes
refresh_token_prefix = codes "pmgf_"

abbrev pub actor_prefix : Bytes
actor_prefix = codes "pmgact_"

abbrev pub tag_client : Bytes
tag_client = codes "pmgr-oauth-client-v1"

abbrev pub tag_code : Bytes
tag_code = codes "pmgr-oauth-code-v1"

abbrev pub tag_access : Bytes
tag_access = codes "pmgr-oauth-at-v1"

abbrev pub tag_refresh : Bytes
tag_refresh = codes "pmgr-oauth-rt-v1"

abbrev pub tag_actor : Bytes
tag_actor = codes "pmgr-actor-v1"

unfoldable pub mac_input : Bytes → Bytes → Bytes
mac_input tag payload = tag ++ 0 ∷ payload

unfoldable pub blob_mac : Crypto → Bytes → Bytes → Bytes → Bytes
blob_mac lib tag payload secret = lib.hmac secret (mac_input tag payload)

unfoldable pub sign_blob : Crypto → Bytes → Bytes → Bytes → Bytes → Bytes
sign_blob lib prefix tag payload secret =
    prefix
    ++ (lib.raw_url.encode payload ++ b'.' ∷ lib.raw_url.encode (blob_mac lib tag payload secret))

-- strings.CutPrefix
unfoldable pub cut_prefix : Bytes → Bytes → Option Bytes
cut_prefix s [] = some s
cut_prefix [] (d ∷ p) = none
cut_prefix (c ∷ s) (d ∷ p) = if c == d then cut_prefix s p else none

abbrev pub cons_before : ℕ → Option (Bytes × Bytes) → Option (Bytes × Bytes)
cons_before c none = none
cons_before c (some (s, t)) = some (c ∷ s, t)

-- strings.Cut at a separator of one byte.
unfoldable pub cut_at : ℕ → Bytes → Option (Bytes × Bytes)
cut_at sep [] = none
cut_at sep (c ∷ s) = if c == sep then some ([], s) else cons_before c (cut_at sep s)

unfoldable pub verify_blob : Crypto → Bytes → Bytes → Bytes → Bytes → Option Bytes
verify_blob lib raw prefix tag secret = do
  body ← cut_prefix raw prefix
  (pay, mac) ← cut_at b'.' body
  payload ← lib.raw_url.decode pay
  sig ← lib.raw_url.decode mac
  guard (blob_mac lib tag payload secret == sig) payload

unfoldable pub expired : ℕ → ℤ → Bool
expired now (pos exp) = ltb exp now
expired now (negsuc exp) = true

abbrev pub if_fresh {ℓ} : {A : Type ℓ} → ℕ → ℤ → A → Option A
if_fresh now exp a = if expired now exp then none else some a

pub record ClientReg : Type 0 where
  pub redirect_uris : List Bytes
  pub name : Bytes
  pub issued_at : ℤ

unfoldable pub sign_client : Crypto → Json ClientReg → ClientReg → Bytes → Bytes
sign_client lib json c secret = sign_blob lib client_id_prefix tag_client (json.marshal c) secret

unfoldable pub verify_client : Crypto → Json ClientReg → Bytes → Bytes → Option ClientReg
verify_client lib json raw secret = do
  payload ← verify_blob lib raw client_id_prefix tag_client secret
  json.unmarshal payload

pub record CodeClaims : Type 0 where
  pub username : Bytes
  pub client_id : Bytes
  pub audience : Bytes
  pub scope : Bytes
  pub redirect_uri : Bytes
  pub code_challenge : Bytes
  pub jti : Bytes
  pub exp : ℤ

unfoldable pub sign_code : Crypto → Json CodeClaims → CodeClaims → Bytes → Bytes
sign_code lib json c secret = sign_blob lib auth_code_prefix tag_code (json.marshal c) secret

unfoldable pub verify_code : Crypto → Json CodeClaims → ℕ → Bytes → Bytes → Option CodeClaims
verify_code lib json now raw secret = do
  payload ← verify_blob lib raw auth_code_prefix tag_code secret
  c ← json.unmarshal payload
  if_fresh now c.exp c

pub record AccessClaims : Type 0 where
  pub username : Bytes
  pub client_id : Bytes
  pub audience : Bytes
  pub scope : Bytes
  pub exp : ℤ

unfoldable pub sign_access : Crypto → Json AccessClaims → AccessClaims → Bytes → Bytes
sign_access lib json c secret = sign_blob lib access_token_prefix tag_access (json.marshal c) secret

unfoldable pub verify_access : Crypto → Json AccessClaims → ℕ → Bytes → Bytes → Option AccessClaims
verify_access lib json now raw secret = do
  payload ← verify_blob lib raw access_token_prefix tag_access secret
  c ← json.unmarshal payload
  if_fresh now c.exp c

pub record RefreshClaims : Type 0 where
  pub username : Bytes
  pub client_id : Bytes
  pub audience : Bytes
  pub scope : Bytes
  pub jti : Bytes
  pub exp : ℤ

unfoldable pub sign_refresh : Crypto → Json RefreshClaims → RefreshClaims → Bytes → Bytes
sign_refresh lib json c secret =
    sign_blob lib refresh_token_prefix tag_refresh (json.marshal c) secret

unfoldable pub verify_refresh :
    Crypto → Json RefreshClaims → ℕ → Bytes → Bytes → Option RefreshClaims
verify_refresh lib json now raw secret = do
  payload ← verify_blob lib raw refresh_token_prefix tag_refresh secret
  c ← json.unmarshal payload
  if_fresh now c.exp c

pub record ActorClaims : Type 0 where
  pub username : Bytes
  pub ip : Bytes
  pub exp : ℤ

unfoldable pub sign_actor : Crypto → Json ActorClaims → ActorClaims → Bytes → Bytes
sign_actor lib json c secret = sign_blob lib actor_prefix tag_actor (json.marshal c) secret

unfoldable pub verify_actor : Crypto → Json ActorClaims → ℕ → Bytes → Bytes → Option ActorClaims
verify_actor lib json now raw secret = do
  payload ← verify_blob lib raw actor_prefix tag_actor secret
  c ← json.unmarshal payload
  if_fresh now c.exp c
