-- ===== src/Proxy/Backend.antt =====
-- cmd/proxy/router.go, `Backend`: one upstream with its health state, and the probe hysteresis;
-- cmd/proxy/abtest.go, the variant tests on it. A Go pointer to a backend is its `ref`.
pub mod Hysteresis
use proxy_manager.Prelude.{
  ℕ, ◌+◌, ◌%◌, ◌^◌, Bool, true, false, not, ◌&&◌, ◌||◌, Option, none, some, Bytes, ltb, leb,
  if◌then◌else◌,
}

-- The variant "B" of an A/B test; every other value is A.
pub data Variant : Type 0 where
  variant_a variant_b : Variant

-- *httputil.ReverseProxy, of which the router reads and sets the transport alone.
pub record ReverseProxy : Type 0 where
  pub transport : Option ℕ

pub record Backend : Type 0 where
  pub ref : ℕ
  pub url : Bytes
  pub weight : ℕ
  pub container : Bytes
  pub health_path : Bytes
  pub proxy : Option ReverseProxy
  pub healthy_flag : Bool
  pub sticky_id : Bytes
  pub consec_fails : ℕ
  pub docker_unhealthy : Bool
  pub learned : Bool
  pub peer_id : Bytes
  pub variant : Variant
  pub peer_test_id : Bytes
  pub container_id : Bytes
  pub draining : Bool
  pub transport : Option ℕ

abbrev pub unhealthy_after_consecutive_fails : ℕ
unhealthy_after_consecutive_fails = 2

unfoldable pub mark_healthy : Bool → Backend → Backend
mark_healthy ok b = record b { healthy_flag = ok }

-- atomic.Int32: the bit pattern wraps, and its upper half reads as a negative number.
abbrev int32_ge : ℕ → ℕ → Bool
int32_ge n k = ltb n (2 ^ 31) && leb k n

failed_probe : Backend → Backend
unfolding mark_healthy
failed_probe b =
    if int32_ge b.consec_fails unhealthy_after_consecutive_fails then mark_healthy false b else b

unfoldable pub record_health_check : Bool → Backend → Backend
unfolding failed_probe mark_healthy
record_health_check true b = mark_healthy true (record b { consec_fails = 0 })
record_health_check false b =
    failed_probe (record b { consec_fails = (b.consec_fails + 1) % 2 ^ 32 })

unfoldable pub healthy : Backend → Bool
healthy b = not b.docker_unhealthy && not b.draining && b.healthy_flag

unfoldable pub excluded_from : Bool → Backend → Bool
excluded_from ignore_health b =
    if b.docker_unhealthy || b.draining then true else not ignore_health && not b.healthy_flag

abbrev pub variant_name : Backend → Variant
variant_name b = b.variant

abbrev pub variant_beq : Variant → Variant → Bool
variant_beq variant_a variant_a = true
variant_beq variant_b variant_b = true
variant_beq _ _ = false

-- `none` is the empty filter, which matches everything.
unfoldable pub in_variant : Option Variant → Backend → Bool
in_variant none c = true
in_variant (some v) c = variant_beq (variant_name c) v

unfoldable pub ab_other : Variant → Variant
ab_other variant_b = variant_a
ab_other variant_a = variant_b
