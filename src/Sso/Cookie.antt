-- ===== src/Sso/Cookie.antt =====
-- internal/sso/sso.go: the cookie `username|expiry|hex(mac)`.
use proxy_manager.Prelude.{ℕ, List, [], ◌∷◌, ◌++◌, Option, none, some, Bytes, bytes_eq, ◌==◌}
use proxy_manager.Prelude.Signed.{ℤ, pos}
use proxy_manager.Prelude.Strings.{split_on, parse_int64}
use proxy_manager.Sso.{Crypto, if_fresh}
use proxy_manager.Prelude.Options.{◌>>=◌, guard}

unfoldable pub sign : Crypto → Bytes → ℤ → Bytes → Bytes
sign lib username exp secret =
    let payload = username ++ b'|' ∷ lib.format_int exp in
    payload ++ b'|' ∷ lib.hex.encode (lib.hmac secret payload)

-- The three parts, the first of them not empty.
abbrev pub three_parts : List Bytes → Option (Bytes × Bytes × Bytes)
three_parts ((c ∷ user) ∷ exp ∷ mac ∷ []) = some (c ∷ user, exp, mac)
three_parts _ = none

-- An expiry below 0 is past, so that it fails as a number that does not parse.
unfoldable pub verify : Crypto → ℕ → Bytes → Bytes → Option Bytes
verify lib now raw secret = do
  (user, exp, mac) ← three_parts (split_on b'|' raw)
  exp_unix ← parse_int64 exp
  sig ← lib.hex.decode mac
  name ← guard (lib.hmac secret (user ++ b'|' ∷ exp) == sig) user
  if_fresh now (pos exp_unix) name
