-- ===== src/Incident.antt =====
-- backend/internal/incident/incident.go: the incidents, opened and escalated by evaluations and
-- moved through their lifecycle by analysts.
pub mod Store
pub mod Escalation
