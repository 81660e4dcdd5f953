-- ===== src/Proxy/Body.antt =====
-- cmd/proxy/router.go, prepareRetryBody and rewindBody: a request body that can be sent again.
use proxy_manager.Prelude.{
  ℕ, ◌+◌, ◌*◌, ◌<◌, ◌≡◌, refl, Bool, true, false, ◌&&◌, ◌||◌, [], Option, none, some, Bytes, ltb,
  if◌then◌else◌, length, take, drop, ◌++◌, arith, Bool-cases, inl, inr, ap, ◌⊎◌, Option-cases, ◌∙◌,
  sym, subst, take-all, take-append-drop, length-take_lt,
}

-- A reader: what it yields, and whether an error follows in place of the end.
pub record Body : Type 0 where
  pub remaining : Bytes
  pub broken : Bool

-- `body` is `none` for nil and http.NoBody, `content_length` is `none` for -1, and `get_body` is
-- what each call of GetBody yields.
pub record Request : Type 0 where
  pub body : Option Body
  pub get_body : Option Bytes
  pub content_length : Option ℕ

abbrev pub max_replay_body : ℕ
max_replay_body = 64 * 1024

abbrev is_some {ℓ} : {A : Type ℓ} → Option A → Bool
is_some none = false
is_some (some _) = true

abbrev exceeds : Option ℕ → ℕ → Bool
exceeds none n = false
exceeds (some k) n = ltb n k

-- io.ReadAll(io.LimitReader(orig, n)): the bytes read, and whether the error was met.
abbrev read_limited : ℕ → Body → Bytes × Bool
read_limited n b = (take n b.remaining, b.broken && ltb (length b.remaining) n)

-- io.MultiReader(bytes.NewReader(buf), orig), after buf was read off orig.
abbrev put_back : Bytes → ℕ → Body → Body
put_back buf n b = record b { remaining = buf ++ drop n b.remaining }

buffer : Request → Body → Request × Bool
buffer req b =
    let limit = max_replay_body + 1 in
    let (buf, failed) = read_limited limit b in
    if failed || ltb max_replay_body (length buf)
    then (record req { body = some (put_back buf limit b) }, false)
    else (
      record req { get_body = some buf; body = some (record { remaining = buf; broken = false }) },
      true,
    )

prepare_from : Request → Option Body → Request × Bool
unfolding buffer
prepare_from req none = (req, true)
prepare_from req (some b) =
    if is_some req.get_body
    then (req, true)
    else if exceeds req.content_length max_replay_body
    then (req, false)
    else buffer req b

-- The request as the attempts use it, and whether it may be retried.
unfoldable pub prepare_retry_body : Request → Request × Bool
unfolding prepare_from
prepare_retry_body req = prepare_from req req.body

unfoldable pub rewind_body : Request → Request
rewind_body req = elim req.get_body [
  | none ↦ req
  | some bs ↦ record req { body = some (record { remaining = bs; broken = false }) }
]

-- The bytes that a backend that reads the body receives, up to its end or to the error.
abbrev pub payload : Request → Bytes
payload req = elim req.body [ none ↦ [] | some b ↦ b.remaining ]

-- Whether a backend that reads the body to its end meets an error there.
abbrev pub breaks_off : Request → Bool
breaks_off req = elim req.body [ none ↦ false | some b ↦ b.broken ]

-- GetBody, where the request came with one, yields the body.
abbrev pub HasOwnCopy : Request → Type 0
HasOwnCopy req = (bs : Bytes) → req.get_body ≡ some bs → payload req ≡ bs

not_over : (failed : Bool) (n m : ℕ) → (failed || ltb m n) ≡ false → n < m + 1
not_over true n m h = cc
not_over false n m h = ground arith

unbroken :
    (broken : Bool) (n limit m : ℕ)
    → ((broken && ltb n limit) || ltb max_replay_body m) ≡ false
    → n < limit
    → broken ≡ false
unbroken false n limit m h short = refl
unbroken true n limit m h short = ground (arith, h)

len_of : {n : ℕ} {xs ys : Bytes} → xs ≡ ys → length xs < n → length ys < n
len_of {n} e h = subst (λ zs. length zs < n) e h

buffer_lem :
    (req : Request) (b : Body)
    → (payload (buffer req b).0 ≡ b.remaining)
      × (breaks_off (buffer req b).0 ≡ b.broken)
      × ((buffer req b).1 ≡ true
          → ((buffer req b).0.get_body ≡ some b.remaining) × (b.broken ≡ false))
unfolding buffer
buffer_lem req b =
    let limit = max_replay_body + 1 in
    elim (Bool-cases (
      (b.broken && ltb (length b.remaining) limit)
      || ltb max_replay_body (length (take limit b.remaining)))) [
        | inl kept ↦ rw kept (take-append-drop limit b.remaining, refl, λ h. cc)
        | inr read ↦
            let short = not_over _ (length (take limit b.remaining)) max_replay_body read in
            let whole : take limit b.remaining ≡ b.remaining =
              take-all limit b.remaining (omega (arith, length-take_lt limit b.remaining short)) in
            let sound = unbroken b.broken (length b.remaining) limit _ read (len_of whole short) in
            rw read (whole, sym sound, λ _. (ap some whole, sound))
      ]

-- A rewind brings the payload back.
abbrev pub CanReplay : Request → Request → Type 0
CanReplay req r = (r.get_body ≡ some (payload req)) ⊎ ((r.get_body ≡ none) × (r.body ≡ none))

-- What is copied here, for want of a GetBody, was read to its end without an error.
abbrev pub IsCopyWhole : Request → Type 0
IsCopyWhole req = req.get_body ≡ none → breaks_off req ≡ false

prepare_from_lem :
    (req : Request) (o : Option Body)
    → req.body ≡ o
    → HasOwnCopy req
    → (payload (prepare_from req o).0 ≡ payload req)
      × (breaks_off (prepare_from req o).0 ≡ breaks_off req)
      × ((prepare_from req o).1 ≡ true → CanReplay req (prepare_from req o).0 × IsCopyWhole req)
unfolding prepare_from
prepare_from_lem req none e own = (
  refl,
  refl,
  λ _. (
    elim (Option-cases req.get_body) [
      | inl without ↦ inr (without, e)
      | inr (bs, copy) ↦ inl (copy ∙ ap some (sym (own bs copy)))
    ],
    λ _. rw e refl,
  ),
)
prepare_from_lem req (some b) e own =
    let start : payload req ≡ b.remaining = rw e refl in
    elim (Option-cases req.get_body) [
      | inr (bs, copy) ↦
          let own_copy : is_some req.get_body ≡ true = rw copy refl in
          rw own_copy
            (refl, refl, λ _. (inl (copy ∙ ap some (sym (own bs copy))), λ without. absurd (cc)))
      | inl without ↦
          let no_copy : is_some req.get_body ≡ false = rw without refl in
          rw no_copy (elim (Bool-cases (exceeds req.content_length max_replay_body)) [
            | inl large ↦ rw large (refl, refl, λ h. absurd (cc))
            | inr small ↦
                let read = buffer_lem req b in
                let ending : breaks_off req ≡ b.broken = rw e refl in
                rw small (
                  read.0 ∙ sym start,
                  read.1 ∙ sym ending,
                  λ h. (inl ((read.2 h).0 ∙ ap some (sym start)), λ _. ending ∙ (read.2 h).1),
                )
          ])
    ]

-- Reading ahead loses nothing: a read of the prepared request's body yields the bytes that the
-- original would have, and then ends or fails as it would have; and the request may be retried
-- only with a copy of all of it at hand, or with no body at all, and where the copy is made here,
-- only if the body ended without an error.
pub prepare_retry_body_lem :
    (req : Request)
    → HasOwnCopy req
    → (payload (prepare_retry_body req).0 ≡ payload req)
      × (breaks_off (prepare_retry_body req).0 ≡ breaks_off req)
      × ((prepare_retry_body req).1 ≡ true
          → CanReplay req (prepare_retry_body req).0 × IsCopyWhole req)
unfolding prepare_retry_body
prepare_retry_body_lem req own = prepare_from_lem req req.body refl own
