-- ===== src/Session.antt =====
-- backend/internal/session: attestation challenges and the beginning of a session (attestation.go
-- and store.go).
pub mod Challenge
pub mod Begin
pub mod Established
pub mod Attested
pub mod Once
pub mod Answer
