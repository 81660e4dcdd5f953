-- ===== src/Proxy/Dispatch/Endings.antt =====
-- cmd/proxy/router.go: how a request ends.
use proxy_manager.Prelude.{
  ℕ, suc, ◌+◌, ◌^◌, ◌≤◌, ◌<◌, ◌≡◌, ◌≢◌, ◌∙◌, sym, ap, subst, ◌⊎◌, inl, inr, refl, Bool, true, false,
  not, ◌&&◌, List, [], ◌∷◌, Option, none, some, Bytes, length, In, Bool-cases, arith,
}
use proxy_manager.Proxy.Backend.{Backend}
use proxy_manager.Proxy.Group.{RouteGroup}
use proxy_manager.Proxy.Pick.{Pick, nobody, chosen, panics}
use proxy_manager.Proxy.Pick.Pool.{IsServable}
use proxy_manager.Proxy.Pick.Sound.{pick_any-nobody, pick_healthy-ne-panics, pick_any-ne-panics}
use proxy_manager.Proxy.Pick.Effect.{
  pick_healthy-nobody_same, pick_healthy-cursor-le, pick_any-cursor-le, pick_any-backends,
}
use proxy_manager.Proxy.Body.{Request, prepare_retry_body}
use proxy_manager.Proxy.Dispatch.{
  World, Failure, no_error, client_canceled, backend_error, aborted, Reply, Exchange, Event,
  set_backend, attempted, close_idle, page, Ending, ended_on, not_replayable, unavailable, crashed,
  attempt_done, choose_backend, attempt_backend, try_proxy, close_idle_of, proxy_to_group,
  fresh_exchange, panic_pick, log_panic_once, serve_unavailable_retry, serve_unavailable,
}
use proxy_manager.Proxy.Dispatch.Loop.{
  Keeps, retry_loop_inv, chosen_group, choose_backend_cases, healthy_choice, panic_choice,
  panic_pick_0,
}
use proxy_manager.Proxy.Dispatch.Attempts.{attempts, latest, attempts-attempt_backend}

-- The pages served, as status and Retry-After, the latest first.
abbrev pub pages : List Event → List (ℕ × ℕ)
pages [] = []
pages (set_backend u ∷ es) = pages es
pages (attempted b r ∷ es) = pages es
pages (close_idle t ∷ es) = pages es
pages (page st ra ∷ es) = (st, ra) ∷ pages es

pages-close_idle_of :
    (d : Bool) (t : Option ℕ) (es : List Event) → pages (close_idle_of d t es) ≡ pages es
unfolding close_idle_of
pages-close_idle_of true none es = refl
pages-close_idle_of true (some t) es = refl
pages-close_idle_of false t es = refl

pages-attempt_backend :
    (w : World) (hopped : Bool) (attempt : ℕ) (b : Backend) (s : Exchange)
    → (pages (attempt_backend w hopped attempt b s).0.events ≡ pages s.events)
      × ((attempt_backend w hopped attempt b s).0.group.cursor ≡ s.group.cursor)
unfolding attempt_backend try_proxy
pages-attempt_backend w hopped attempt b s =
    let r = latest w hopped attempt b s in
    (pages-close_idle_of _ b.transport (attempted b r ∷ set_backend b.url ∷ s.events), refl)

-- Nothing is left to try: every backend not tried is reported unhealthy by Docker, is draining, or
-- is a peer's while the request came from one.
abbrev pub IsExhausted : Bool → Exchange → Type 0
IsExhausted hopped s =
    (b : Backend)
    → In b s.group.backends
    → ¬ In b.ref s.tried
    → (b.docker_unhealthy ≡ true) ⊎ (b.draining ≡ true) ⊎ ((hopped ≡ true) × (b.learned ≡ true))

-- The attempt left the request as it was: the backend failed before any part of a response.
abbrev pub HasFailed : Reply → Type 0
HasFailed r = (r.failure ≡ backend_error) × (r.wrote_header ≡ false)

-- The attempt settled the request: with a response, with a client that left, or with a response
-- that broke off after its beginning had been sent.
abbrev pub HasSettled : Reply → Type 0
HasSettled r =
    (r.failure ≡ no_error)
    ⊎ (r.failure ≡ client_canceled)
    ⊎ (r.failure ≡ aborted)
    ⊎ ((r.failure ≡ backend_error) × (r.wrote_header ≡ true))

-- Every attempt failed; their list has the latest first, and their numbers begin at 0.
abbrev pub AllFailed : World → List (Backend × Request) → Type 0
AllFailed w [] = Unit
AllFailed w ((b, r) ∷ ts) = HasFailed (w.reply (length ts) b r) × AllFailed w ts

-- What each ending says.
abbrev pub EndsWell : World → Bool → Bool → Exchange → Ending → Type 0
EndsWell w hopped retryable s (ended_on b) =
    (pages s.events ≡ [])
    × (r : Request) × (earlier : List (Backend × Request)) × (attempts s.events ≡ (b, r) ∷ earlier)
    × HasSettled (w.reply (length earlier) b r)
    × AllFailed w earlier
EndsWell w hopped retryable s (not_replayable b) =
    (pages s.events ≡ (502, 300) ∷ [])
    × (retryable ≡ false)
    × (r : Request) × (attempts s.events ≡ (b, r) ∷ [])
    × HasFailed (w.reply 0 b r)
EndsWell w hopped retryable s unavailable =
    (pages s.events ≡ (503, 5) ∷ [])
    × AllFailed w (attempts s.events)
    × ((length (attempts s.events) ≡ 3) ⊎ IsExhausted hopped s)
EndsWell w hopped retryable s crashed = ⊥

HasFailed-verdict : (r : Reply) → attempt_done r ≡ false → HasFailed r
unfolding attempt_done
HasFailed-verdict r h = by_failure r.failure refl
  where
    by_failure : (f : Failure) → f ≡ r.failure → HasFailed r
    by_failure no_error e = ground (arith, e, h)
    by_failure client_canceled e = ground (arith, e, h)
    by_failure aborted e = ground (arith, e, h)
    by_failure backend_error e = ground (arith, e, h)

HasSettled-verdict : (r : Reply) → attempt_done r ≡ true → HasSettled r
unfolding attempt_done
HasSettled-verdict r h = by_failure r.failure refl
  where
    by_failure : (f : Failure) → f ≡ r.failure → HasSettled r
    by_failure no_error e = inl (sym e)
    by_failure client_canceled e = inr (inl (sym e))
    by_failure aborted e = inr (inr (inl (sym e)))
    by_failure backend_error e = inr (inr (inr (sym e, ground (arith, e, h))))

verdict :
    (w : World) (hopped : Bool) (attempt : ℕ) (b : Backend) (s : Exchange)
    → (attempt_backend w hopped attempt b s).1
      ≡ attempt_done (w.reply attempt b (latest w hopped attempt b s))
unfolding attempt_backend try_proxy
verdict w hopped attempt b s = refl

nil_of_length {ℓ} : {A : Type ℓ} (xs : List A) → length xs ≡ 0 → xs ≡ []
nil_of_length [] h = refl
nil_of_length (x ∷ xs) h = absurd (omega arith)

panic_pick-backends :
    (now : ℕ) (r : Pick × RouteGroup)
    → ((panic_pick now r).1.backends ≡ r.1.backends) × ((panic_pick now r).1.cursor ≡ r.1.cursor)
unfolding panic_pick log_panic_once
panic_pick-backends now (nobody, g) = (refl, refl)
panic_pick-backends now (chosen b, g) = (ground arith, ground arith)
panic_pick-backends now (panics, g) = (refl, refl)

unservable :
    (hopped : Bool) (tried : List ℕ) (b : Backend)
    → ¬ In b.ref tried
    → ((b.learned ≡ true → not hopped ≡ true) → ¬ IsServable true tried none b)
    → (b.docker_unhealthy ≡ true) ⊎ (b.draining ≡ true) ⊎ ((hopped ≡ true) × (b.learned ≡ true))
unservable hopped tried b fresh h = elim (Bool-cases b.docker_unhealthy) [
  | inl sick ↦ inl sick
  | inr well ↦ elim (Bool-cases b.draining) [
    | inl drains ↦ inr (inl drains)
    | inr stays ↦ elim (Bool-cases (hopped && b.learned)) [
      | inl loops ↦ inr (inr (ground arith, ground arith))
      | inr may ↦ absurd (
          h (λ l. ground arith)
            (record {
              untried = fresh;
              docker = well;
              undrained = stays;
              probed = inl refl;
              matching = λ v e. cc;
            }))
    ]
  ]
]

module _ (w : World) (hopped : Bool) (pin : Bytes) (s : Exchange) where
  choose_backend-IsExhausted :
      (choose_backend w hopped pin s).0 ≡ nobody
      → IsExhausted hopped (record s { group = (choose_backend w hopped pin s).1 })
  choose_backend-IsExhausted =
      choose_backend_cases w hopped pin s
        (λ r. r.0 ≡ nobody → IsExhausted hopped (record s { group = r.1 })) (λ b e h. absurd (cc))
        (λ found h. absurd (found h))
        (λ empty h b m fresh.
          let none_left : (panic_choice w hopped pin s).0 ≡ nobody =
            sym (panic_pick_0 w.now (panic_choice w hopped pin s)) ∙ h in
          let listed : In b (healthy_choice w hopped pin s).1.backends =
            subst (In b)
              ((panic_pick-backends w.now (panic_choice w hopped pin s)).0
                ∙ pick_any-backends s.tried (not hopped) none (healthy_choice w hopped pin s).1)
              m in
          unservable hopped s.tried b fresh (λ allowed.
            pick_any-nobody s.tried (not hopped) none (healthy_choice w hopped pin s).1 none_left b
              listed allowed))

  choose_backend-cursor :
      s.group.cursor < 2 ^ 63
      → ((choose_backend w hopped pin s).0 ≢ panics)
        × ((choose_backend w hopped pin s).1.cursor ≤ s.group.cursor + 1)
  choose_backend-cursor early =
      choose_backend_cases w hopped pin s (λ r. (r.0 ≢ panics) × (r.1.cursor ≤ s.group.cursor + 1))
        (λ b e. ((λ h. cc), omega arith))
        (λ found. (
          pick_healthy-ne-panics s.tried (not hopped) none s.group early,
          pick_healthy-cursor-le s.tried (not hopped) none s.group,
        ))
        (λ empty.
          let tried = s.tried in
          let hc = healthy_choice w hopped pin s in
          let pc = panic_choice w hopped pin s in
          let same : hc.1.cursor ≡ s.group.cursor =
            ap (λ (r : Pick × RouteGroup). r.1.cursor)
              (pick_healthy-nobody_same tried (not hopped) none s.group empty) in
          let before : hc.1.cursor < 2 ^ 63 = omega arith in
          (
            (λ h.
                pick_any-ne-panics tried (not hopped) none hc.1 before
                  (sym (panic_pick_0 w.now pc) ∙ h)),
            omega (
              arith,
              (panic_pick-backends w.now pc).1,
              pick_any-cursor-le tried (not hopped) none hc.1,
            ),
          ))

module _ (w : World) (hopped retryable : Bool) where
  record Tracks (left attempt : ℕ) (pin : Bytes) (s : Exchange) : Type 0 where
    count : length (attempts s.events) ≡ attempt
    rounds : attempt + left ≡ 3
    failures : AllFailed w (attempts s.events)
    silent : pages s.events ≡ []
    early : s.group.cursor + left ≤ 2 ^ 63
    once : retryable ≡ false → attempt ≡ 0

  failed_now :
      (left attempt : ℕ) (pin : Bytes) (s : Exchange) (b : Backend)
      → Tracks left attempt pin s
      → (attempt_backend w hopped attempt b (chosen_group w hopped retryable pin s)).1 ≡ false
      → HasFailed (
          w.reply
            (length (attempts s.events))
            b
            (latest w hopped attempt b (chosen_group w hopped retryable pin s)))
  failed_now left attempt pin s b t failed =
      let s' = chosen_group w hopped retryable pin s in
      rw t.count (HasFailed-verdict _ (sym (verdict w hopped attempt b s') ∙ failed))

  next :
      (left attempt : ℕ) (pin : Bytes) (s : Exchange) (b : Backend)
      → Tracks (suc left) attempt pin s
      → (attempt_backend w hopped attempt b (chosen_group w hopped retryable pin s)).1 ≡ false
      → retryable ≡ true
      → Tracks left
          (attempt + 1)
          []
          (attempt_backend w hopped attempt b (chosen_group w hopped retryable pin s)).0
  next left attempt pin s b t failed again =
      let s' = chosen_group w hopped retryable pin s in
      let (log, _) = attempts-attempt_backend w hopped attempt b s' in
      let (quiet, still) = pages-attempt_backend w hopped attempt b s' in
      let moved = (choose_backend-cursor w hopped pin s (omega (arith, t.early))).1 in
      record {
        count = rw log (omega (arith, t.count));
        rounds = omega (arith, t.rounds);
        failures = rw log (failed_now (suc left) attempt pin s b t failed, t.failures);
        silent = quiet ∙ t.silent;
        early = omega (arith, still, moved, t.early);
        once = λ e. absurd (cc);
      }

  keeps : Keeps w hopped retryable Tracks (EndsWell w hopped retryable)
  unfolding serve_unavailable_retry serve_unavailable
  keeps = record {
    spent = λ attempt pin s t.
        (ap (◌∷◌ (503, 5)) t.silent, t.failures, inl (omega (arith, t.count, t.rounds)));
    empty = λ left attempt pin s t e.
        (ap (◌∷◌ (503, 5)) t.silent, t.failures, inr (choose_backend-IsExhausted w hopped pin s e));
    fault = λ left attempt pin s t e.
        (choose_backend-cursor w hopped pin s (omega (arith, t.early))).0 e;
    done = λ left attempt pin s b t e over.
        let s' = chosen_group w hopped retryable pin s in
        (
          (pages-attempt_backend w hopped attempt b s').0 ∙ t.silent,
          latest w hopped attempt b s',
          attempts s.events,
          (attempts-attempt_backend w hopped attempt b s').0,
          rw t.count (HasSettled-verdict _ (sym (verdict w hopped attempt b s') ∙ over)),
          t.failures,
        );
    more = λ left attempt pin s b t e failed again. next left attempt pin s b t failed again;
    stuck = λ left attempt pin s b t e failed no_retry.
        let s' = chosen_group w hopped retryable pin s in
        let start = t.count ∙ t.once no_retry in
        (
          ap (◌∷◌ (502, 300)) ((pages-attempt_backend w hopped attempt b s').0 ∙ t.silent),
          no_retry,
          latest w hopped attempt b s',
          (attempts-attempt_backend w hopped attempt b s').0
              ∙ ap (◌∷◌ (b, latest w hopped attempt b s'))
                  (nil_of_length (attempts s.events) start),
          subst (λ n. HasFailed (w.reply n b (latest w hopped attempt b s'))) start
              (failed_now (suc left) attempt pin s b t failed),
        );
  }

-- Every request ends, and no more than one response is begun. Either the attempt on the backend
-- tried last settled it, with a response, with a client that left, or with a response that broke
-- off after its beginning had been sent, and no page was sent; or there is one page, a 502 if one
-- backend was tried and the body cannot be sent again, and a 503 with the short Retry-After if
-- three backends were tried, or every backend not tried is reported unhealthy by Docker, is
-- draining, or is a peer's while the request came from a peer. Every attempt but one that settled
-- the request failed before any part of a response was written. The loop never panics in a pick,
-- if the cursor stands at most at 2^63 - 3.
pub proxy_to_group-EndsWell :
    (w : World) (hopped : Bool) (pin : Bytes) (g : RouteGroup) (req : Request)
    (cookies : List Bytes)
    → g.cursor + 3 ≤ 2 ^ 63
    → EndsWell w hopped
        (prepare_retry_body req).1
        (proxy_to_group w hopped pin g req cookies).0
        (proxy_to_group w hopped pin g req cookies).1
unfolding proxy_to_group
proxy_to_group-EndsWell w hopped pin g req cookies early =
    let (req', retryable) = prepare_retry_body req in
    retry_loop_inv w hopped retryable _ _ (keeps w hopped retryable) 3 0 pin
      (fresh_exchange g req' cookies)
      (record {
        count = refl;
        rounds = refl;
        failures = tt;
        silent = refl;
        early = early;
        once = λ _. refl;
      })
