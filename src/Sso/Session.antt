-- ===== src/Sso/Session.antt =====
-- internal/sso/sso.go: signing a cookie and verifying it.
use proxy_manager.Prelude.{
  ℕ, ◌≡◌, ◌≢◌, refl, ap, ◌∙◌, true, false, List, [], ◌∷◌, ◌++◌, Option, none, some, Bytes, or-false,
  bytes_eq, nat_eq, ◌==◌, if◌then◌else◌, All, contains, Bool-cases, inl, inr, arith,
}
use proxy_manager.Prelude.Signed.{pos}
use proxy_manager.Prelude.Strings.{split_on, cons_head, parse_int64}
use proxy_manager.Prelude.Options.{◌>>=◌, guard}
use proxy_manager.Sso.{Crypto, if_fresh}
use proxy_manager.Sso.Cookie.{sign, verify, three_parts}
use proxy_manager.Sso.Blobs.{IsCodec}

-- strconv.FormatInt prints what ParseInt reads, without a bar.
pub record IsPrinted (lib : Crypto) (exp : ℕ) : Type 0 where
  pub parses : parse_int64 (lib.format_int (pos exp)) ≡ some exp
  pub no_bar : All (λ c. c ≢ b'|') (lib.format_int (pos exp))

-- What a split makes is not empty.
split_on-cons :
    (sep : ℕ) (s : Bytes) → (a : Bytes) × (rest : List Bytes) × (split_on sep s ≡ a ∷ rest)
split_on-cons sep [] = ([], [], refl)
split_on-cons sep (c ∷ s) = elim (Bool-cases (c == sep)) [
  | inl same ↦ ([], split_on sep s, rw same refl)
  | inr other ↦
      let (a, rest, e) = split_on-cons sep s in (c ∷ a, rest, rw other (ap (cons_head c) e))
]

cons_head-append :
    (c : ℕ) (xs ys : List Bytes) (a : Bytes) (rest : List Bytes)
    → xs ≡ a ∷ rest
    → cons_head c (xs ++ ys) ≡ cons_head c xs ++ ys
cons_head-append c xs ys a rest e = rw e refl

split_on-append :
    (sep : ℕ) (s t : Bytes) → split_on sep (s ++ sep ∷ t) ≡ split_on sep s ++ split_on sep t
split_on-append sep [] t = rw ((nat_eq.eq_test_iff sep sep).1 refl) refl
split_on-append sep (c ∷ s) t = elim (Bool-cases (c == sep)) [
  | inl same ↦ rw same (ap ([] ∷◌) (split_on-append sep s t))
  | inr other ↦
      let (a, rest, e) = split_on-cons sep s in
      rw other (
        ap (cons_head c) (split_on-append sep s t)
        ∙ cons_head-append c (split_on sep s) (split_on sep t) a rest e)
]

split_on-clear : (sep : ℕ) (s : Bytes) → All (λ c. c ≢ sep) s → split_on sep s ≡ s ∷ []
split_on-clear sep [] h = refl
split_on-clear sep (c ∷ s) h = elim (Bool-cases (c == sep)) [
  | inl same ↦ absurd (h.0 ((nat_eq.eq_test_iff c sep).0 same))
  | inr other ↦ rw other (ap (cons_head c) (split_on-clear sep s h.1))
]

clear_of_absent : (sep : ℕ) (s : Bytes) → contains s sep ≡ false → All (λ c. c ≢ sep) s
clear_of_absent sep [] h = tt
clear_of_absent sep (c ∷ s) h =
    let (other, rest) = or-false (c == sep) (contains s sep) h in
    ((λ same. ground (arith, same, other)), clear_of_absent sep s rest)

-- A separator makes two parts at least.
split_on-two :
    (sep : ℕ) (s : Bytes)
    → contains s sep ≡ true
    → (a b : Bytes) × (rest : List Bytes) × (split_on sep s ≡ a ∷ b ∷ rest)
split_on-two sep [] h = cc
split_on-two sep (c ∷ s) h = elim (Bool-cases (c == sep)) [
  | inl same ↦ let (b, rest, e) = split_on-cons sep s in ([], b, rest, rw same (ap ([] ∷◌) e))
  | inr other ↦
      let later : contains s sep ≡ true = ground (arith, h, other) in
      let (a, b, rest, e) = split_on-two sep s later in
      (c ∷ a, b, rest, rw other (ap (cons_head c) e))
]

split_on-three :
    (sep : ℕ) (u e m : Bytes)
    → All (λ c. c ≢ sep) e
    → All (λ c. c ≢ sep) m
    → split_on sep ((u ++ sep ∷ e) ++ sep ∷ m) ≡ (split_on sep u ++ e ∷ []) ++ m ∷ []
split_on-three sep u e m he hm =
    rw
      (
        split_on-append sep (u ++ sep ∷ e) m,
        split_on-append sep u e,
        split_on-clear sep e he,
        split_on-clear sep m hm,
      )
      refl

too_many :
    (a b exp mac : Bytes) (rest : List Bytes)
    → three_parts (((a ∷ b ∷ rest) ++ exp ∷ []) ++ mac ∷ []) ≡ none
too_many [] b exp mac rest = refl
too_many (c ∷ a) b exp mac [] = refl
too_many (c ∷ a) b exp mac (r ∷ []) = refl
too_many (c ∷ a) b exp mac (r ∷ q ∷ rest) = refl

-- A cookie is verified under the secret that signed it and gives its user until it has expired; a user
-- with a bar in the name is never let in, so that the bar cannot move the parts.
pub cookie-verify-sign :
    (lib : Crypto) (c : ℕ) (user : Bytes) (exp now : ℕ) (secret : Bytes)
    → IsCodec lib.hex b'|'
    → IsPrinted lib exp
    → verify lib now (sign lib (c ∷ user) (pos exp) secret) secret
      ≡ (if contains (c ∷ user) b'|' then none else if_fresh now (pos exp) (c ∷ user))
unfolding sign verify
cookie-verify-sign lib c user exp now secret hex printed =
    elim (Bool-cases (contains (c ∷ user) b'|')) [
      | inl barred ↦
          let (a, b, rest, e) = split_on-two b'|' (c ∷ user) barred in
          rw barred (
            ap (λ o. o >>= after)
              (ap three_parts (parts ∙ ap joined e) ∙ too_many a b digits mac rest))
      | inr clean ↦ rw clean (
          ap (λ o. o >>= after)
            (ap three_parts (
              parts
              ∙ ap joined (split_on-clear b'|' (c ∷ user) (clear_of_absent b'|' (c ∷ user) clean))))
          ∙ finish)
    ]
  where
    digits : Bytes
    digits = lib.format_int (pos exp)

    signed : Bytes
    signed = lib.hmac secret ((c ∷ user) ++ b'|' ∷ digits)

    mac : Bytes
    mac = lib.hex.encode signed

    joined : List Bytes → List Bytes
    joined us = (us ++ digits ∷ []) ++ mac ∷ []

    parts :
        split_on b'|' (((c ∷ user) ++ b'|' ∷ digits) ++ b'|' ∷ mac)
        ≡ joined (split_on b'|' (c ∷ user))
    parts = split_on-three b'|' (c ∷ user) digits mac printed.no_bar (hex.clear_of signed)

    after : Bytes × Bytes × Bytes → Option Bytes
    after (u, e, m) = do
      exp_unix ← parse_int64 e
      sig ← lib.hex.decode m
      name ← guard (lib.hmac secret (u ++ b'|' ∷ e) == sig) u
      if_fresh now (pos exp_unix) name

    finish : after (c ∷ user, digits, mac) ≡ if_fresh now (pos exp) (c ∷ user)
    finish =
        rw (printed.parses, hex.decodes signed, (bytes_eq.eq_test_iff signed signed).1 refl) refl
