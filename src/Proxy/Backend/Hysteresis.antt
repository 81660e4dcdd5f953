-- ===== src/Proxy/Backend/Hysteresis.antt =====
-- What a history of probes does to a backend's health.
use proxy_manager.Prelude.{
  ℕ, suc, ◌%◌, ◌^◌, ◌≡◌, Bool, true, false, not, ◌&&◌, List, [], ◌∷◌, arith,
}
use proxy_manager.Proxy.Backend.{Backend, record_health_check, healthy}

-- The probes in the order in which they ran, oldest last.
unfoldable pub after_probes : List Bool → Backend → Backend
after_probes [] b = b
after_probes (ok ∷ earlier) b = record_health_check ok (after_probes earlier b)

-- The verdict of a history over a first verdict, with no failure counted: a success clears a
-- backend, two failures in a row condemn it, a single failure leaves the verdict as it was.
abbrev pub probe_verdict : Bool → List Bool → Bool
probe_verdict first [] = first
probe_verdict first (true ∷ _) = true
probe_verdict first (false ∷ []) = first
probe_verdict first (false ∷ true ∷ _) = true
probe_verdict first (false ∷ false ∷ _) = false

abbrev failures_in_a_row : List Bool → ℕ
failures_in_a_row (false ∷ earlier) = suc (failures_in_a_row earlier)
failures_in_a_row _ = 0

record Tracks (b : Backend) (history : List Bool) (c : Backend) : Type 0 where
  flag : c.healthy_flag ≡ probe_verdict b.healthy_flag history
  count : c.consec_fails ≡ failures_in_a_row history % 2 ^ 32
  docker : c.docker_unhealthy ≡ b.docker_unhealthy
  drain : c.draining ≡ b.draining

module _ (b : Backend) where
  probe-Tracks :
      (ok : Bool) (earlier : List Bool) (c : Backend)
      → Tracks b earlier c
      → Tracks b (ok ∷ earlier) (record_health_check ok c)
  unfolding record_health_check
  probe-Tracks true earlier c t = ground arith
  probe-Tracks false [] c t = ground arith
  probe-Tracks false (true ∷ earlier) c t = ground arith
  probe-Tracks false (false ∷ []) c t = ground arith
  probe-Tracks false (false ∷ true ∷ earlier) c t = ground arith
  probe-Tracks false (false ∷ false ∷ earlier) c t = ground arith

  after_probes-Tracks :
      (history : List Bool) → b.consec_fails ≡ 0 → Tracks b history (after_probes history b)
  unfolding after_probes
  after_probes-Tracks [] z = ground arith
  after_probes-Tracks (ok ∷ earlier) z =
      probe-Tracks ok earlier (after_probes earlier b) (after_probes-Tracks earlier z)

-- After any number of probes, a backend that starts with no counted failure is healthy exactly when
-- Docker does not report it unhealthy, it is not draining, and the verdict of the probes is good:
-- a wrap of the failure counter changes nothing.
pub healthy-after_probes :
    (b : Backend) (history : List Bool)
    → b.consec_fails ≡ 0
    → healthy (after_probes history b)
      ≡ (not b.docker_unhealthy && not b.draining && probe_verdict b.healthy_flag history)
unfolding healthy
healthy-after_probes b history z = let t = after_probes-Tracks b history z in ground arith
