-- ===== src/Sso/Blobs.antt =====
-- internal/sso/token.go: what verifyBlob accepts.
use proxy_manager.Prelude.{
  ℕ, ◌≡◌, ◌≢◌, ◌↔◌, ◌∙◌, refl, sym, ap, false, [], ◌∷◌, ◌++◌, Option, none, some, Bytes, bytes_eq,
  nat_eq, ◌==◌, All, Bool-cases, inl, inr, arith,
}
use proxy_manager.Prelude.Options.{guard, >>=-eq-some, guard-some}
use proxy_manager.Sso.{
  Crypto, Encoding, blob_mac, sign_blob, verify_blob, cut_prefix, cut_at, cons_before,
}

-- An encoding that is read back, and whose texts are without a byte.
pub record IsCodec (e : Encoding) (sep : ℕ) : Type 0 where
  pub decodes : (b : Bytes) → e.decode (e.encode b) ≡ some b
  pub clear_of : (b : Bytes) → All (λ c. c ≢ sep) (e.encode b)

cut_prefix-append : (p s : Bytes) → cut_prefix (p ++ s) p ≡ some s
unfolding cut_prefix
cut_prefix-append [] s = refl
cut_prefix-append (c ∷ p) s = rw ((nat_eq.eq_test_iff c c).1 refl) (cut_prefix-append p s)

cut_prefix-some : (s p t : Bytes) → cut_prefix s p ≡ some t → s ≡ p ++ t
unfolding cut_prefix
cut_prefix-some s [] t h = ground (arith, h)
cut_prefix-some [] (d ∷ p) t h = cc
cut_prefix-some (c ∷ s) (d ∷ p) t h = elim (Bool-cases (c == d)) [
  | inl same ↦
      let rest = cut_prefix-some s p t (ground (arith, h, same)) in
      let first = (nat_eq.eq_test_iff c d).0 same in rw (rest, first) refl
  | inr other ↦ absurd (ground (arith, h, other))
]

pub cut_at-append :
    (sep : ℕ) (s t : Bytes) → All (λ c. c ≢ sep) s → cut_at sep (s ++ sep ∷ t) ≡ some (s, t)
unfolding cut_at
cut_at-append sep [] t h = rw ((nat_eq.eq_test_iff sep sep).1 refl) refl
cut_at-append sep (c ∷ s) t h = elim (Bool-cases (c == sep)) [
  | inl same ↦ absurd (h.0 ((nat_eq.eq_test_iff c sep).0 same))
  | inr other ↦ rw (other, cut_at-append sep s t h.1) refl
]

cons_before-some :
    (c : ℕ) (o : Option (Bytes × Bytes)) (a b : Bytes)
    → cons_before c o ≡ some (a, b)
    → (a' : Bytes) × (o ≡ some (a', b)) × (a ≡ c ∷ a')
cons_before-some c none a b h = cc
cons_before-some c (some (s, t)) a b h = (s, ground (arith, h), ground (arith, h))

pub cut_at-some :
    (sep : ℕ) (s a b : Bytes)
    → cut_at sep s ≡ some (a, b)
    → (s ≡ a ++ sep ∷ b) × All (λ c. c ≢ sep) a
unfolding cut_at
cut_at-some sep [] a b h = cc
cut_at-some sep (c ∷ s) a b h = elim (Bool-cases (c == sep)) [
  | inl same ↦
      let here : [] ≡ a = ground (arith, h, same) in
      let rest : s ≡ b = ground (arith, h, same) in
      let first = (nat_eq.eq_test_iff c sep).0 same in rw (← here, ← rest, first) (refl, tt)
  | inr other ↦
      let kept : cons_before c (cut_at sep s) ≡ some (a, b) = ground (arith, h, other) in
      let (a', read, grows) = cons_before-some c (cut_at sep s) a b kept in
      let (shape, clear) = cut_at-some sep s a' b read in longer a' grows shape clear other
]
  where
    longer :
        (a' : Bytes)
        → a ≡ c ∷ a'
        → s ≡ a' ++ sep ∷ b
        → All (λ d. d ≢ sep) a'
        → (c == sep) ≡ false
        → (c ∷ s ≡ a ++ sep ∷ b) × All (λ d. d ≢ sep) a
    longer a' grows shape clear other =
        rw (grows, shape) (refl, ((λ same. ground (arith, same, other)), clear))

-- The text is the prefix, a payload, a dot and the MAC of that payload under the tag.
pub record IsBlob (lib : Crypto) (raw prefix tag secret payload : Bytes) : Type 0 where
  pub pay : Bytes
  pub mac : Bytes
  pub shape : raw ≡ prefix ++ (pay ++ b'.' ∷ mac)
  pub one_dot : All (λ c. c ≢ b'.') pay
  pub decoded : lib.raw_url.decode pay ≡ some payload
  pub signed : lib.raw_url.decode mac ≡ some (blob_mac lib tag payload secret)

accepted-IsBlob :
    (lib : Crypto) (raw prefix tag secret payload : Bytes)
    → verify_blob lib raw prefix tag secret ≡ some payload
    → IsBlob lib raw prefix tag secret payload
unfolding verify_blob
accepted-IsBlob lib raw prefix tag secret payload h =
    let (body, cut_ok, h1) = >>=-eq-some (cut_prefix raw prefix) _ h in
    let ((pay, mac), dot, h2) = >>=-eq-some (cut_at b'.' body) _ h1 in
    let (p, decoded, h3) = >>=-eq-some (lib.raw_url.decode pay) _ h2 in
    let (sig, read, h4) = >>=-eq-some (lib.raw_url.decode mac) _ h3 in
    steps body pay mac p sig cut_ok dot decoded read h4
  where
    steps :
        (body pay mac p sig : Bytes)
        → cut_prefix raw prefix ≡ some body
        → cut_at b'.' body ≡ some (pay, mac)
        → lib.raw_url.decode pay ≡ some p
        → lib.raw_url.decode mac ≡ some sig
        → guard (blob_mac lib tag p secret == sig) p ≡ some payload
        → IsBlob lib raw prefix tag secret payload
    steps body pay mac p sig cut_ok dot decoded read checked =
        let (matches, same) = guard-some (blob_mac lib tag p secret == sig) p checked in
        let (parts, clear) = cut_at-some b'.' body pay mac dot in
        let equal = (bytes_eq.eq_test_iff (blob_mac lib tag p secret) sig).0 matches in
        record {
          pay = pay;
          mac = mac;
          shape = cut_prefix-some raw prefix body cut_ok ∙ ap (prefix ++◌) parts;
          one_dot = clear;
          decoded = decoded ∙ ap some same;
          signed = read ∙ ap some (sym equal ∙ ap (λ x. blob_mac lib tag x secret) same);
        }

IsBlob-accepted :
    (lib : Crypto) (raw prefix tag secret payload : Bytes)
    → IsBlob lib raw prefix tag secret payload
    → verify_blob lib raw prefix tag secret ≡ some payload
unfolding verify_blob
IsBlob-accepted lib raw prefix tag secret payload b =
    let mac = blob_mac lib tag payload secret in
    rw
      (
        b.shape,
        cut_prefix-append prefix (b.pay ++ b'.' ∷ b.mac),
        cut_at-append b'.' b.pay b.mac b.one_dot,
        b.decoded,
        b.signed,
        (bytes_eq.eq_test_iff mac mac).1 refl,
      )
      refl

-- A text is verified with a payload exactly when it is the prefix, an encoding of the payload without
-- a dot, a dot, and an encoding of that payload's MAC under the tag and the secret.
pub verify_blob-accepts :
    (lib : Crypto) (raw prefix tag secret payload : Bytes)
    → (verify_blob lib raw prefix tag secret ≡ some payload)
      ↔ IsBlob lib raw prefix tag secret payload
verify_blob-accepts lib raw prefix tag secret payload = (
  accepted-IsBlob lib raw prefix tag secret payload,
  IsBlob-accepted lib raw prefix tag secret payload,
)

pub verify_blob-sign_blob :
    (lib : Crypto) (prefix tag secret payload : Bytes)
    → IsCodec lib.raw_url b'.'
    → verify_blob lib (sign_blob lib prefix tag payload secret) prefix tag secret ≡ some payload
unfolding sign_blob
verify_blob-sign_blob lib prefix tag secret payload codec =
    IsBlob-accepted lib (sign_blob lib prefix tag payload secret) prefix tag secret payload
      (record {
        pay = lib.raw_url.encode payload;
        mac = lib.raw_url.encode (blob_mac lib tag payload secret);
        shape = refl;
        one_dot = codec.clear_of payload;
        decoded = codec.decodes payload;
        signed = codec.decodes (blob_mac lib tag payload secret);
      })
