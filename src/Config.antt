-- ===== src/Config.antt =====
-- backend/internal/config/config.go: what the server starts with.
pub mod Variables
pub mod Load
pub mod Safe
