-- ===== src/Proxy/Dispatch/Attempts.antt =====
-- Which backends a request is tried on.
use proxy_manager.Prelude.{
  ℕ, suc, ◌+◌, ◌≡◌, ◌≢◌, ◌≤◌, ap, ◌⊎◌, inl, inr, refl, Bool, true, false, not, List, [], ◌∷◌,
  if◌then◌else◌, ltb, Option, none, some, Bytes, length, All, In, Bool-cases, arith,
}
use proxy_manager.Proxy.Backend.{Backend, healthy}
use proxy_manager.Proxy.Group.{RouteGroup}
use proxy_manager.Proxy.Pick.{chosen}
use proxy_manager.Proxy.Pick.Sound.{IsChosen, pick_healthy_sound, pick_any_sound}
use proxy_manager.Proxy.Body.{Request, rewind_body, prepare_retry_body}
use proxy_manager.Proxy.Dispatch.{
  World, Exchange, Event, set_backend, attempted, close_idle, page, choose_backend, attempt_backend,
  try_proxy, close_idle_of, proxy_to_group, fresh_exchange, serve_unavailable_retry,
  serve_unavailable,
}
use proxy_manager.Proxy.Dispatch.Loop.{
  Keeps, retry_loop_inv, choose_backend_by, chosen_group, pinned_backend_lem,
}

-- The attempts of a request, the latest first.
abbrev pub attempts : List Event → List (Backend × Request)
attempts [] = []
attempts (set_backend u ∷ es) = attempts es
attempts (attempted b r ∷ es) = (b, r) ∷ attempts es
attempts (close_idle t ∷ es) = attempts es
attempts (page st ra ∷ es) = attempts es

abbrev pub refs_of : List (Backend × Request) → List ℕ
refs_of [] = []
refs_of ((b, r) ∷ ts) = b.ref ∷ refs_of ts

abbrev pub HasNoRepeat : List ℕ → Type 0
HasNoRepeat [] = Unit
HasNoRepeat (x ∷ xs) = (¬ In x xs) × HasNoRepeat xs

-- A backend that a request may be sent to, whatever the probes say.
pub record IsFit (hopped : Bool) (b : Backend) : Type 0 where
  pub docker : b.docker_unhealthy ≡ false
  pub undrained : b.draining ≡ false
  pub local_only : hopped ≡ true → b.learned ≡ false

-- What the log of a request says of its attempts.
abbrev pub AttemptsOk : Bool → List Event → Type 0
AttemptsOk hopped es =
    HasNoRepeat (refs_of (attempts es))
    × All (λ t. IsFit hopped t.0) (attempts es)
    × (length (refs_of (attempts es)) ≤ 3)

attempts-close_idle_of :
    (d : Bool) (t : Option ℕ) (es : List Event) → attempts (close_idle_of d t es) ≡ attempts es
unfolding close_idle_of
attempts-close_idle_of true none es = refl
attempts-close_idle_of true (some t) es = refl
attempts-close_idle_of false t es = refl

abbrev pub latest : World → Bool → ℕ → Backend → Exchange → Request
latest w hopped attempt b s = if ltb 0 attempt then rewind_body s.request else s.request

pub attempts-attempt_backend :
    (w : World) (hopped : Bool) (attempt : ℕ) (b : Backend) (s : Exchange)
    → (attempts (attempt_backend w hopped attempt b s).0.events
        ≡ (b, latest w hopped attempt b s) ∷ attempts s.events)
      × ((attempt_backend w hopped attempt b s).0.tried ≡ b.ref ∷ s.tried)
unfolding attempt_backend try_proxy
attempts-attempt_backend w hopped attempt b s =
    let r = latest w hopped attempt b s in
    (attempts-close_idle_of _ b.transport (attempted b r ∷ set_backend b.url ∷ s.events), refl)

healthy_lem : (b : Backend) → healthy b ≡ true → (b.docker_unhealthy ≡ false) × (b.draining ≡ false)
unfolding healthy
healthy_lem b h = (ground arith, ground arith)

choose_backend-IsFit :
    (w : World) (hopped : Bool) (pin : Bytes) (s : Exchange)
    → (pin ≡ []) ⊎ (s.tried ≡ [])
    → (hopped ≡ true → pin ≡ [])
    → (b : Backend) → (choose_backend w hopped pin s).0 ≡ chosen b
    → (¬ In b.ref s.tried) × IsFit hopped b
choose_backend-IsFit w hopped pin s first unpinned =
    choose_backend_by w hopped pin s (λ b. (¬ In b.ref s.tried) × IsFit hopped b)
      (λ b e.
        let (given, ok) = pinned_backend_lem pin s.group b e in
        (fresh b.ref given, of_pin b given ok))
      (λ b h. of_choice b false (pick_healthy_sound s.tried (not hopped) none s.group b h))
      (λ b h. of_choice b true (pick_any_sound s.tried (not hopped) none _ b h))
  where
    fresh : (r : ℕ) → pin ≢ [] → ¬ In r s.tried
    fresh r given = elim first [ inl e ↦ absurd (given e) | inr e ↦ rw e (λ m. m) ]

    of_pin : (b : Backend) → pin ≢ [] → healthy b ≡ true → IsFit hopped b
    of_pin b given ok = record {
      docker = (healthy_lem b ok).0;
      undrained = (healthy_lem b ok).1;
      local_only = λ h. absurd (given (unpinned h));
    }

    of_choice :
        (b : Backend) (ih : Bool) {g : RouteGroup}
        → IsChosen s.tried ih none g (not hopped) b
        → (¬ In b.ref s.tried) × IsFit hopped b
    of_choice b ih c = (
      c.servable.untried,
      record {
        docker = c.servable.docker;
        undrained = c.servable.undrained;
        local_only = λ h. elim (Bool-cases b.learned) [
          | inl peer ↦ let allowed = c.peer_allowed peer in ground arith
          | inr is_local ↦ is_local
        ];
      },
    )

module _ (w : World) (hopped retryable : Bool) where
  record Tracks (left attempt : ℕ) (pin : Bytes) (s : Exchange) : Type 0 where
    logged : refs_of (attempts s.events) ≡ s.tried
    apart : HasNoRepeat s.tried
    fits : All (λ t. IsFit hopped t.0) (attempts s.events)
    room : length s.tried + left ≤ 3
    first : (pin ≡ []) ⊎ (s.tried ≡ [])
    unpinned : hopped ≡ true → pin ≡ []

  next :
      (left attempt : ℕ) (pin : Bytes) (s : Exchange) (b : Backend)
      → Tracks (suc left) attempt pin s
      → (choose_backend w hopped pin s).0 ≡ chosen b
      → Tracks left
          (attempt + 1)
          []
          (attempt_backend w hopped attempt b (chosen_group w hopped retryable pin s)).0
  next left attempt pin s b t e =
      let s' = chosen_group w hopped retryable pin s in
      let (log, tried) = attempts-attempt_backend w hopped attempt b s' in
      let (fresh, fit) = choose_backend-IsFit w hopped pin s t.first t.unpinned b e in
      let room : length (b.ref ∷ s.tried) + left ≤ 3 = omega (arith, t.room) in
      record {
        logged = rw (log, tried) (ap (◌∷◌ b.ref) t.logged);
        apart = rw tried (fresh, t.apart);
        fits = rw log (fit, t.fits);
        room = rw tried room;
        first = inl refl;
        unpinned = λ _. refl;
      }

  ends :
      {left attempt : ℕ} {pin : Bytes} {s : Exchange}
      → Tracks left attempt pin s
      → AttemptsOk hopped s.events
  ends {left} {s} t = (rw t.logged t.apart, t.fits, rw t.logged (omega (arith, t.room)))

  keeps : Keeps w hopped retryable Tracks (λ s _. AttemptsOk hopped s.events)
  unfolding serve_unavailable_retry serve_unavailable
  keeps = record {
    spent = λ _ _ _ t. ends t;
    empty = λ _ _ _ _ t _. ends t;
    fault = λ _ _ _ _ t _. ends t;
    done = λ left attempt pin s b t e _. ends (next left attempt pin s b t e);
    more = λ left attempt pin s b t e _ _. next left attempt pin s b t e;
    stuck = λ left attempt pin s b t e _ _. ends (next left attempt pin s b t e);
  }

-- A request is sent to at most three backends, to none of them twice, never to one that Docker
-- reports unhealthy or that is draining, and, if a peer forwarded it, never to another peer; where
-- a forwarded request carries no pin, as ServeHTTP sees to.
pub proxy_to_group-AttemptsOk :
    (w : World) (hopped : Bool) (pin : Bytes) (g : RouteGroup) (req : Request)
    (cookies : List Bytes)
    → (hopped ≡ true → pin ≡ [])
    → AttemptsOk hopped (proxy_to_group w hopped pin g req cookies).0.events
unfolding proxy_to_group
proxy_to_group-AttemptsOk w hopped pin g req cookies unpinned =
    let (req', retryable) = prepare_retry_body req in
    retry_loop_inv w hopped retryable _ _ (keeps w hopped retryable) 3 0 pin
      (fresh_exchange g req' cookies)
      (record {
        logged = refl;
        apart = tt;
        fits = tt;
        room = omega arith;
        first = inr refl;
        unpinned = unpinned;
      })
