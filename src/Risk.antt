-- ===== src/Risk.antt =====
-- backend/internal/risk: the model in Model, the engine in Digits, Engine and Evaluate; the other
-- modules prove.
pub mod Model
pub mod Digits
pub mod Engine
pub mod Evaluate
pub mod Signals
pub mod Score
pub mod Explanation
pub mod Bands
pub mod Codes
pub mod Totality
