-- ===== src/Dashboard.antt =====
-- cmd/dashboard: what keeps two changes of one service apart, and the staged rollouts.
pub mod Claims
pub mod RollingOp
pub mod Rollout
