-- ===== src/Access.antt =====
-- backend/internal/identity and backend/internal/auth: who may call what.
pub mod Identity
pub mod Guard
pub mod Roles
pub mod Granted
