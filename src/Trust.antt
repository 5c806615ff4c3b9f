-- ===== src/Trust.antt =====
-- backend/internal/trust/evaluator.go with the session table of backend/internal/session/store.go:
-- the evaluation of a session and what its decision does to the session.
pub mod Sessions
pub mod Evaluator
pub mod Final
pub mod Enforcement
