-- ===== src/Dashboard/Rollout/Completion.antt =====
-- cmd/dashboard/rollout.go: how many advances a rollout takes.
use proxy_manager.Prelude.{
  ℕ, zero, suc, ◌+◌, ◌-◌, ◌≤◌, ◌≡◌, ◌∙◌, sym, ap, subst, true, some, Bytes, bytes_eq, length, inl,
  inr, arith,
}
use proxy_manager.Prelude.Assoc.{lookup}
use proxy_manager.Dashboard.Rollout.{completed, RolloutState, rollout_active, Substrate, Manager}
use proxy_manager.Dashboard.Rollout.Control.{next_step, advance_rollout}
use proxy_manager.Dashboard.Rollout.Tracked.Kept.{AllTracked}
use proxy_manager.Dashboard.Rollout.Tracked.Moves.{advance_rollout-Keeps}
use proxy_manager.Dashboard.Rollout.Progress.{IsWell, advance_rollout-Moved}

further :
    (k : ℕ) (st n : RolloutState)
    → length st.steps ≤ suc k + st.step_idx
    → n ≡ next_step st
    → length n.steps ≤ k + n.step_idx
further k st n few e = subst (λ x. length x.steps ≤ k + x.step_idx) (sym e) (omega (arith, few))

module _ {W : Type 0} where
  abbrev pub advances : Substrate W → Bytes → ℕ → Manager W → Manager W
  advances sub name zero s = s
  advances sub name (suc n) s = advances sub name n (advance_rollout sub name s).1

  pub record Completes (sub : Substrate W) (name : Bytes) (bound : ℕ) (s : Manager W) : Type 0 where
    pub times : ℕ
    pub bounded : times ≤ bound
    pub final : RolloutState
    pub reached : lookup name (advances sub name times s).rollouts ≡ some final
    pub done : final.status ≡ completed

  one_more :
      {sub : Substrate W} {name : Bytes} {k : ℕ} {s : Manager W}
      → Completes sub name k (advance_rollout sub name s).1
      → Completes sub name (suc k) s
  one_more rest = record {
    times = suc rest.times;
    bounded = (let le = rest.bounded in omega (arith, le));
    final = rest.final;
    reached = rest.reached;
    done = rest.done;
  }

  Completes-within :
      (sub : Substrate W) (name : Bytes) (k : ℕ) (st : RolloutState) (s : Manager W)
      → IsWell sub
      → AllTracked s.rollouts
      → lookup name s.rollouts ≡ some st
      → rollout_active st.status ≡ true
      → length st.steps ≤ k + st.step_idx
      → Completes sub name k s
  Completes-within sub name zero st s well all found active few =
      absurd (let inside = (all name st found).within in omega (arith, inside, few))
  Completes-within sub name (suc k) st s well all found active few =
      let m = advance_rollout-Moved sub name st s well all found active in
      let kept = advance_rollout-Keeps sub name s all in
      elim m.either [
        | inl done ↦ record {
          times = 1;
          bounded = omega arith;
          final = m.now;
          reached = m.found;
          done = done;
        }
        | inr (next, more) ↦ one_more (
            Completes-within sub name k m.now (advance_rollout sub name s).1 well kept m.found
              (ap (λ x. rollout_active x.status) next ∙ active) (further k st m.now few next))
      ]

  -- While Docker does what it is asked and the canaries stay healthy, an active rollout is completed
  -- after at most as many advances as it has steps left, the one it stands at counted.
  pub rollout-Completes :
      (sub : Substrate W) (name : Bytes) (st : RolloutState) (s : Manager W)
      → IsWell sub
      → AllTracked s.rollouts
      → lookup name s.rollouts ≡ some st
      → rollout_active st.status ≡ true
      → Completes sub name (length st.steps - st.step_idx) s
  rollout-Completes sub name st s well all found active =
      Completes-within sub name (length st.steps - st.step_idx) st s well all found active
        (let inside = (all name st found).within in omega (arith, inside))
