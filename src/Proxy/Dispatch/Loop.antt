-- ===== src/Proxy/Dispatch/Loop.antt =====
-- The rule for the retry loop, and what a choice of backend comes from.
use proxy_manager.Prelude.{
  ℕ, zero, suc, ◌+◌, ◌≡◌, ◌≢◌, ◌∙◌, sym, subst, inl, inr, refl, Bool, true, false, not, [], ◌∷◌,
  none, some, Bytes, Bool-cases, Option-cases, arith,
}
use proxy_manager.Proxy.Backend.{Backend, healthy}
use proxy_manager.Proxy.Group.{RouteGroup}
use proxy_manager.Proxy.Pick.{Pick, nobody, chosen, panics, or_else, pick_healthy, pick_any}
use proxy_manager.Proxy.Pick.Pool.{Pick-cases, nobody_or_not, or_else_same}
use proxy_manager.Proxy.Dispatch.{
  World, Exchange, Ending, ended_on, not_replayable, unavailable, crashed, serve_unavailable_retry,
  serve_unavailable, transient_retry_after, choose_backend, pinned_backend, panic_pick,
  attempt_backend, retry_loop,
}

module _ (w : World) (hopped retryable : Bool) where
  abbrev pub chosen_group : Bytes → Exchange → Exchange
  chosen_group pin s = record s { group = (choose_backend w hopped pin s).1 }

  -- What holds before each round and makes the ending right.
  pub record Keeps (P : ℕ → ℕ → Bytes → Exchange → Type 0) (Q : Exchange → Ending → Type 0)
      : Type 0 where
    pub spent :
        (attempt : ℕ) (pin : Bytes) (s : Exchange)
        → P zero attempt pin s
        → Q (serve_unavailable_retry 503 transient_retry_after s) unavailable
    pub empty :
        (left attempt : ℕ) (pin : Bytes) (s : Exchange)
        → P (suc left) attempt pin s
        → (choose_backend w hopped pin s).0 ≡ nobody
        → Q (serve_unavailable_retry 503 transient_retry_after (chosen_group pin s)) unavailable
    pub fault :
        (left attempt : ℕ) (pin : Bytes) (s : Exchange)
        → P (suc left) attempt pin s
        → (choose_backend w hopped pin s).0 ≡ panics
        → Q (chosen_group pin s) crashed
    pub done :
        (left attempt : ℕ) (pin : Bytes) (s : Exchange) (b : Backend)
        → P (suc left) attempt pin s
        → (choose_backend w hopped pin s).0 ≡ chosen b
        → (attempt_backend w hopped attempt b (chosen_group pin s)).1 ≡ true
        → Q (attempt_backend w hopped attempt b (chosen_group pin s)).0 (ended_on b)
    pub more :
        (left attempt : ℕ) (pin : Bytes) (s : Exchange) (b : Backend)
        → P (suc left) attempt pin s
        → (choose_backend w hopped pin s).0 ≡ chosen b
        → (attempt_backend w hopped attempt b (chosen_group pin s)).1 ≡ false
        → retryable ≡ true
        → P left (attempt + 1) [] (attempt_backend w hopped attempt b (chosen_group pin s)).0
    pub stuck :
        (left attempt : ℕ) (pin : Bytes) (s : Exchange) (b : Backend)
        → P (suc left) attempt pin s
        → (choose_backend w hopped pin s).0 ≡ chosen b
        → (attempt_backend w hopped attempt b (chosen_group pin s)).1 ≡ false
        → retryable ≡ false
        → Q
            (serve_unavailable 502 (attempt_backend w hopped attempt b (chosen_group pin s)).0)
            (not_replayable b)

  pub retry_loop_inv :
      (P : ℕ → ℕ → Bytes → Exchange → Type 0) (Q : Exchange → Ending → Type 0)
      → Keeps P Q
      → (left attempt : ℕ) (pin : Bytes) (s : Exchange) → P left attempt pin s
      → Q
          (retry_loop w hopped retryable left attempt pin s).0
          (retry_loop w hopped retryable left attempt pin s).1
  unfolding retry_loop
  retry_loop_inv P Q keep zero attempt pin s p = keep.spent attempt pin s p
  retry_loop_inv P Q keep (suc left) attempt pin s p =
      elim (Pick-cases (choose_backend w hopped pin s).0) [
        | inl none_left ↦ rw (none_left, retry_loop) (keep.empty left attempt pin s p none_left)
        | inr (inr broken) ↦ rw (broken, retry_loop) (keep.fault left attempt pin s p broken)
        | inr (inl (b, found)) ↦
            let tried = attempt_backend w hopped attempt b (chosen_group pin s) in
            rw (found, retry_loop)
              (elim (Bool-cases tried.1) [
                | inl over ↦ rw over (keep.done left attempt pin s b p found over)
                | inr failed ↦ rw failed (elim (Bool-cases retryable) [
                  | inl again ↦ rw again (
                      retry_loop_inv P Q keep left (attempt + 1) [] tried.0
                        (keep.more left attempt pin s b p found failed again))
                  | inr once ↦ rw once (keep.stuck left attempt pin s b p found failed once)
                ])
              ])
      ]

or_else_nobody :
    (r : Pick × RouteGroup) (k : RouteGroup → Pick × RouteGroup)
    → r.0 ≡ nobody
    → or_else r k ≡ k r.1
or_else_nobody (nobody, g) k h = refl
or_else_nobody (chosen b, g) k h = cc
or_else_nobody (panics, g) k h = cc

pub panic_pick_0 : (now : ℕ) (r : Pick × RouteGroup) → (panic_pick now r).0 ≡ r.0
unfolding panic_pick
panic_pick_0 now (nobody, g) = refl
panic_pick_0 now (chosen b, g) = refl
panic_pick_0 now (panics, g) = refl

module _ (w : World) (hopped : Bool) (pin : Bytes) (s : Exchange) where
  abbrev pub healthy_choice : Pick × RouteGroup
  healthy_choice = pick_healthy s.tried (not hopped) none s.group

  abbrev pub panic_choice : Pick × RouteGroup
  panic_choice = pick_any s.tried (not hopped) none healthy_choice.1

  pub choose_backend_cases :
      (P : Pick × RouteGroup → Type 0)
      → ((b : Backend) → pinned_backend pin s.group ≡ some b → P (chosen b, s.group))
      → (healthy_choice.0 ≢ nobody → P healthy_choice)
      → (healthy_choice.0 ≡ nobody → P (panic_pick w.now panic_choice))
      → P (choose_backend w hopped pin s)
  unfolding choose_backend
  choose_backend_cases P pinned picked panicked = elim (Option-cases (pinned_backend pin s.group)) [
    | inr (b, e) ↦ rw (e, choose_backend) (pinned b e)
    | inl e ↦
        rw (e, choose_backend)
          (elim (nobody_or_not healthy_choice.0) [
            | inl empty ↦ rw (or_else_nobody healthy_choice _ empty) (panicked empty)
            | inr found ↦ rw (or_else_same healthy_choice _ found) (picked found)
          ])
  ]

  -- What is known of the backend chosen, whichever way.
  pub choose_backend_by :
      (P : Backend → Type 0)
      → ((b : Backend) → pinned_backend pin s.group ≡ some b → P b)
      → ((b : Backend) → healthy_choice.0 ≡ chosen b → P b)
      → ((b : Backend) → panic_choice.0 ≡ chosen b → P b)
      → (b : Backend) → (choose_backend w hopped pin s).0 ≡ chosen b
      → P b
  choose_backend_by P pinned picked panicked b =
      choose_backend_cases (λ r. r.0 ≡ chosen b → P b)
        (λ c e h. let same : c ≡ b = ground arith in subst P same (pinned c e)) (λ _ h. picked b h)
        (λ _ h. panicked b (sym (panic_pick_0 w.now panic_choice) ∙ h))

pub pinned_backend_lem :
    (pin : Bytes) (g : RouteGroup) (b : Backend)
    → pinned_backend pin g ≡ some b
    → (pin ≢ []) × (healthy b ≡ true)
unfolding pinned_backend
pinned_backend_lem [] g b h = cc
pinned_backend_lem (c ∷ cs) g b h = ((λ e. cc), ground arith)
