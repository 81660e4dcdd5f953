-- ===== src/Sso/Examples.antt =====
-- internal/sso with concrete codecs: bytes shifted out of the separators' way.
use proxy_manager.Prelude.{
  ℕ, ◌+◌, ◌-◌, ◌/◌, ◌%◌, ◌≤◌, ◌≡◌, ◌≢◌, ◌↔◌, refl, ap, [], ◌∷◌, ◌++◌, map, Option, none, some,
  Bytes, codes, All, nat_eq, contains, if◌then◌else◌, arith,
}
use proxy_manager.Prelude.Signed.{ℤ, pos, negsuc}
use proxy_manager.Sso.{
  Encoding, Crypto, Json, ClientReg, CodeClaims, AccessClaims, RefreshClaims, ActorClaims,
  sign_blob, verify_blob, mac_input, sign_access, verify_access, verify_client, verify_code,
  verify_refresh, verify_actor, sign_client, sign_code, sign_refresh, sign_actor, if_fresh, expired,
  access_token_prefix, tag_access, cut_at, cut_prefix, blob_mac,
}
use proxy_manager.Sso.Cookie.{sign, verify}
use proxy_manager.Sso.Blobs.{IsCodec, IsBlob, verify_blob-accepts}
use proxy_manager.Sso.Domains.{client, code, prefix_of, tag_of, verify_blob-other_kind}
use proxy_manager.Sso.RoundTrip.{Claims, IsReadBack, IsSigned, verify-sign, verify_access-IsSigned}
use proxy_manager.Sso.Session.{IsPrinted, cookie-verify-sign}

abbrev shifted : Bytes → Bytes
shifted b = map (λ x. x + 200) b

abbrev unshifted : Bytes → Option Bytes
unshifted b = some (map (λ x. x - 200) b)

abbrev shift_code : Encoding
shift_code = record { encode = shifted; decode = unshifted }

shift_back : (b : Bytes) → map (λ x. x - 200) (shifted b) ≡ b
shift_back [] = refl
shift_back (x ∷ b) = rw (shift_back b) (ap (λ y. y ∷ b) (omega arith))

shift_clear : (sep : ℕ) → sep ≤ 199 → (b : Bytes) → All (λ c. c ≢ sep) (shifted b)
shift_clear sep low [] = tt
shift_clear sep low (x ∷ b) = ((λ e. omega (arith, e, low)), shift_clear sep low b)

shift_IsCodec : (sep : ℕ) → sep ≤ 199 → IsCodec shift_code sep
shift_IsCodec sep low = record {
  decodes = λ b. ap some (shift_back b);
  clear_of = shift_clear sep low;
}

-- Two digits, which is enough for the expiries below.
abbrev two_digits : ℤ → Bytes
two_digits (pos n) = (n / 10 + 48) ∷ (n % 10 + 48) ∷ []
two_digits (negsuc n) = b'-' ∷ []

abbrev toy : Crypto
toy = record {
  hmac = λ secret message. secret ++ message;
  raw_url = shift_code;
  hex = shift_code;
  format_int = two_digits;
}

toy-IsPrinted : IsPrinted toy 90
toy-IsPrinted = record {
  parses = refl;
  no_bar = ((λ e. omega (arith, e)), ((λ e. omega (arith, e)), tt));
}

abbrev access_claims : AccessClaims
access_claims = record {
  username = codes "ana";
  client_id = [];
  audience = [];
  scope = [];
  exp = pos 90;
}

abbrev by_name : Json AccessClaims
by_name = record {
  marshal = λ c. c.username;
  unmarshal =
      λ b. some (record { username = b; client_id = []; audience = []; scope = []; exp = pos 90 });
}

abbrev one_of : {A : Type 0} → A → Json A
one_of a = record { marshal = λ c. codes "{}"; unmarshal = λ b. some a }

abbrev client_reg : ClientReg
client_reg = record { redirect_uris = []; name = codes "app"; issued_at = pos 5 }

abbrev code_claims : CodeClaims
code_claims = record {
  username = codes "ana";
  client_id = [];
  audience = [];
  scope = [];
  redirect_uri = [];
  code_challenge = [];
  jti = [];
  exp = pos 10;
}

abbrev refresh_claims : RefreshClaims
refresh_claims = record {
  username = codes "ana";
  client_id = [];
  audience = [];
  scope = [];
  jti = [];
  exp = pos 99;
}

abbrev actor_claims : ActorClaims
actor_claims = record { username = codes "ana"; ip = []; exp = negsuc 0 }

abbrev samples : Claims
samples = record {
  client_json = one_of client_reg;
  client = client_reg;
  code_json = one_of code_claims;
  code = code_claims;
  access_json = by_name;
  access = access_claims;
  refresh_json = one_of refresh_claims;
  refresh = refresh_claims;
  actor_json = one_of actor_claims;
  actor = actor_claims;
}

samples_back : IsReadBack samples
samples_back = record {
  client_back = refl;
  code_back = refl;
  access_back = refl;
  refresh_back = refl;
  actor_back = refl;
}

verify-sign_example :
    (verify_client toy samples.client_json
        (sign_client toy samples.client_json client_reg (codes "key"))
        (codes "key")
      ≡ some client_reg)
    × (verify_code toy samples.code_json 50
          (sign_code toy samples.code_json code_claims (codes "key"))
          (codes "key")
        ≡ if_fresh 50 (pos 10) code_claims)
    × (verify_access toy by_name 50
          (sign_access toy by_name access_claims (codes "key"))
          (codes "key")
        ≡ if_fresh 50 (pos 90) access_claims)
    × (verify_refresh toy samples.refresh_json 50
          (sign_refresh toy samples.refresh_json refresh_claims (codes "key"))
          (codes "key")
        ≡ if_fresh 50 (pos 99) refresh_claims)
    × (verify_actor toy samples.actor_json 50
          (sign_actor toy samples.actor_json actor_claims (codes "key"))
          (codes "key")
        ≡ if_fresh 50 (negsuc 0) actor_claims)
verify-sign_example =
    verify-sign toy samples 50 (codes "key") (shift_IsCodec b'.' (omega arith)) samples_back

token_accepted :
    verify_access toy by_name 50 (sign_access toy by_name access_claims (codes "key")) (codes "key")
    ≡ some access_claims
unfolding expired verify_access sign_access verify_blob sign_blob cut_at cut_prefix blob_mac
    mac_input
token_accepted = refl

verify_access-IsSigned_example :
    IsSigned toy by_name access_token_prefix tag_access
      (sign_access toy by_name access_claims (codes "key"))
      (codes "key")
      access_claims
    × ((e : ℕ) × (pos 90 ≡ pos e) × (50 ≤ e))
verify_access-IsSigned_example =
    verify_access-IsSigned toy by_name 50 (sign_access toy by_name access_claims (codes "key"))
      (codes "key") access_claims token_accepted

verify_blob-accepts_example :
    (verify_blob toy (codes "pmga_junk") access_token_prefix tag_access (codes "key") ≡ some [])
    ↔ IsBlob toy (codes "pmga_junk") access_token_prefix tag_access (codes "key") []
verify_blob-accepts_example =
    verify_blob-accepts toy (codes "pmga_junk") access_token_prefix tag_access (codes "key") []

client_ne_code : client ≢ code
client_ne_code e = cc

verify_blob-other_kind_example :
    verify_blob toy
      (sign_blob toy (prefix_of client) (tag_of client) (codes "{}") (codes "key"))
      (prefix_of code)
      (tag_of code)
      (codes "key")
    ≡ none
verify_blob-other_kind_example =
    verify_blob-other_kind toy client code client_ne_code (tag_of code) (codes "key") (codes "key")
      (codes "{}")

cookie-verify-sign_example :
    verify toy 50 (sign toy (codes "ana") (pos 90) (codes "key")) (codes "key")
    ≡ (if contains (codes "ana") b'|' then none else if_fresh 50 (pos 90) (codes "ana"))
cookie-verify-sign_example =
    cookie-verify-sign toy b'a' (codes "na") 90 50 (codes "key") (shift_IsCodec b'|' (omega arith))
      toy-IsPrinted
