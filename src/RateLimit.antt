-- ===== src/RateLimit.antt =====
-- backend/internal/httpapi/ratelimit.go: the limiter in Limiter; the other modules prove.
pub mod Limiter
pub mod Window
pub mod Pruning
