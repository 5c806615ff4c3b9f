-- ===== src/Policy.antt =====
-- backend/internal/policy: the definitions in Model, Engine and Defaults; the other modules prove.
pub mod Model
pub mod Engine
pub mod Defaults
pub mod Strictest
pub mod Order
pub mod Decider
pub mod Degraded
pub mod Shipped
pub mod Versions
pub mod History
