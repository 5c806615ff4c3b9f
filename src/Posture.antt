-- ===== src/Posture.antt =====
-- backend/internal/posture: the scoring of a device's security signals (signals.go, score.go).
pub mod Model
pub mod Versions
pub mod Score
pub mod Accounting
pub mod Order
pub mod Ranking
pub mod Monotone
