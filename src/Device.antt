-- ===== src/Device.antt =====
-- backend/internal/device: enrollment, revocation and signed requests (store.go, signing.go,
-- middleware.go).
pub mod Store
pub mod Signing
pub mod Gate
pub mod Admission
pub mod Enrollment
pub mod Operations
pub mod Revocation
pub mod Token
pub mod Clock
pub mod Replay
pub mod Decimal
pub mod Signed
