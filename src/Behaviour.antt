-- ===== src/Behaviour.antt =====
-- backend/internal/behaviour/baseline.go: personal baselines.
pub mod Baseline
pub mod Recognised
