-- ===== src/Proxy/Dispatch/Payload.antt =====
-- cmd/proxy/router.go: the body that an attempt carries.
use proxy_manager.Prelude.{
  ℕ, suc, ◌<◌, ◌≡◌, ◌∙◌, sym, ◌⊎◌, inl, inr, refl, Bool, true, false, List, [], ltb, none, some,
  Bytes, All, Bool-cases, arith,
}
use proxy_manager.Proxy.Backend.{Backend}
use proxy_manager.Proxy.Group.{RouteGroup}
use proxy_manager.Proxy.Body.{
  Request, rewind_body, prepare_retry_body, payload, breaks_off, HasOwnCopy, CanReplay,
  prepare_retry_body_lem,
}
use proxy_manager.Proxy.Dispatch.{
  World, Exchange, attempt_backend, try_proxy, consumed, proxy_to_group, fresh_exchange,
  serve_unavailable_retry, serve_unavailable,
}
use proxy_manager.Proxy.Dispatch.Loop.{Keeps, retry_loop_inv, chosen_group}
use proxy_manager.Proxy.Dispatch.Attempts.{attempts, latest, attempts-attempt_backend}

module _ (whole : Bytes) where
  -- A rewind brings the whole body back.
  abbrev Restores : Request → Type 0
  Restores r = (r.get_body ≡ some whole) ⊎ ((r.get_body ≡ none) × (r.body ≡ none) × (whole ≡ []))

  payload-rewind_body : (r : Request) → Restores r → payload (rewind_body r) ≡ whole
  unfolding rewind_body
  payload-rewind_body r (inl copy) = rw (copy, rewind_body) refl
  payload-rewind_body r (inr (no_copy, no_body, e)) = rw (no_copy, rewind_body, no_body, e) refl

  breaks_off-rewind_body : (r : Request) → Restores r → breaks_off (rewind_body r) ≡ false
  unfolding rewind_body
  breaks_off-rewind_body r (inl copy) = rw (copy, rewind_body) refl
  breaks_off-rewind_body r (inr (no_copy, no_body, e)) = rw (no_copy, rewind_body, no_body) refl

  rewind_body-Restores : (r : Request) → Restores r → Restores (rewind_body r)
  unfolding rewind_body
  rewind_body-Restores r (inl copy) = inl (ground arith)
  rewind_body-Restores r (inr (no_copy, no_body, e)) = inr (ground arith, ground arith, e)

  consumed-Restores : (r : Request) → Restores r → Restores (consumed r)
  unfolding consumed
  consumed-Restores r (inl copy) = inl (ground arith)
  consumed-Restores r (inr (no_copy, no_body, e)) = inr (ground arith, ground arith, e)

-- A body of these bytes that, if the client's is `bare`, ends as that does.
abbrev ReadsAs : Bytes → Type 0 → Bool → Request → Type 0
ReadsAs whole bare broken r = (payload r ≡ whole) × (bare → breaks_off r ≡ broken)

module _ (w : World) (hopped retryable : Bool) (whole : Bytes) (bare : Type 0) (broken : Bool) where
  abbrev AllWhole : Exchange → Type 0
  AllWhole s = All (λ t. ReadsAs whole bare broken t.1) (attempts s.events)

  record Tracks (left attempt : ℕ) (pin : Bytes) (s : Exchange) : Type 0 where
    seen : AllWhole s
    restores : retryable ≡ true → Restores whole s.request
    sound : retryable ≡ true → bare → broken ≡ false
    start :
        ((attempt ≡ 0) × ReadsAs whole bare broken s.request) ⊎ ((0 < attempt) × (retryable ≡ true))

  attempt-AllWhole :
      (left attempt : ℕ) (pin : Bytes) (s : Exchange) (b : Backend)
      → Tracks (suc left) attempt pin s
      → AllWhole (attempt_backend w hopped attempt b (chosen_group w hopped retryable pin s)).0
  attempt-AllWhole left attempt pin s b t =
      let s' = chosen_group w hopped retryable pin s in
      let sent : ReadsAs whole bare broken (latest w hopped attempt b s') = elim t.start [
        | inl (first, p) ↦ rw first p
        | inr (later, again) ↦
            let on : ltb 0 attempt ≡ true = ground arith in
            let back = t.restores again in
            rw on (
              payload-rewind_body whole s.request back,
              λ plain. breaks_off-rewind_body whole s.request back ∙ sym (t.sound again plain),
            )
      ] in
      rw (attempts-attempt_backend w hopped attempt b s').0 (sent, t.seen)

  attempt-Restores :
      (attempt : ℕ) (s : Exchange) (b : Backend)
      → Restores whole s.request
      → Restores whole (attempt_backend w hopped attempt b s).0.request
  unfolding attempt_backend try_proxy
  attempt-Restores attempt s b r =
      consumed-Restores whole (latest w hopped attempt b s) (elim (Bool-cases (ltb 0 attempt)) [
        | inl later ↦ rw later (rewind_body-Restores whole s.request r)
        | inr now ↦ rw now r
      ])

  keeps : Keeps w hopped retryable Tracks (λ s _. AllWhole s)
  unfolding serve_unavailable_retry serve_unavailable
  keeps = record {
    spent = λ _ _ _ t. t.seen;
    empty = λ _ _ _ _ t _. t.seen;
    fault = λ _ _ _ _ t _. t.seen;
    done = λ left attempt pin s b t _ _. attempt-AllWhole left attempt pin s b t;
    more = λ left attempt pin s b t _ _ again. record {
      seen = attempt-AllWhole left attempt pin s b t;
      sound = t.sound;
      restores = λ _. attempt-Restores attempt _ b (t.restores again);
      start = inr (omega arith, again);
    };
    stuck = λ left attempt pin s b t _ _ _. attempt-AllWhole left attempt pin s b t;
  }

-- Each attempt, the first and the retries, sends a body with the bytes of the client's, which ends or
-- breaks off as that does if no copy came with the request, whatever the backends reply; where a
-- copy that came with the request is one of its body.
pub proxy_to_group-payload :
    (w : World) (hopped : Bool) (pin : Bytes) (g : RouteGroup) (req : Request)
    (cookies : List Bytes)
    → HasOwnCopy req
    → All
        (λ t. (payload t.1 ≡ payload req) × (req.get_body ≡ none → breaks_off t.1 ≡ breaks_off req))
        (attempts (proxy_to_group w hopped pin g req cookies).0.events)
unfolding proxy_to_group
proxy_to_group-payload w hopped pin g req cookies own =
    let (req', retryable) = prepare_retry_body req in
    let (same, ending, whole) = prepare_retry_body_lem req own in
    retry_loop_inv w hopped retryable _ _
      (keeps w hopped retryable (payload req) (req.get_body ≡ none) (breaks_off req)) 3 0 pin
      (fresh_exchange g req' cookies)
      (record {
        seen = tt;
        restores = λ again. of_replay req' (whole again).0 same;
        sound = λ again. (whole again).1;
        start = inl (refl, (same, λ _. ending));
      })
  where
    of_replay : (r : Request) → CanReplay req r → payload r ≡ payload req → Restores (payload req) r
    of_replay r (inl copy) same = inl copy
    of_replay r (inr (no_copy, no_body)) same =
        let nothing : payload r ≡ [] = rw no_body refl in inr (no_copy, no_body, sym same ∙ nothing)
