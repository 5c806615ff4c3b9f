-- ===== src/Tests/Incident.antt =====
-- Incidents of backend/internal/incident.
use netra.Prelude.{String, none, some, List, [], ◌∷◌, ℤ, pos}
use netra.Incident.Store.{resolved, Incident, Escalation, Write, escalated, moved, writes}
use netra.Incident.Escalation.{RatedBy, ratings, writes-RatedBy, IsConsistent, writes-IsConsistent}

abbrev raised : String → ℤ → Escalation
raised severity risk = record {
  session_id = 1;
  user_id = 2;
  device_id = 3;
  severity = severity;
  risk = risk;
  title = "Elevated risk";
  summary = "";
}

abbrev history : List Write
history =
    escalated (raised "CRITICAL" (pos 95)) 20
    ∷ moved resolved 30
    ∷ escalated (raised "HIGH" (pos 80)) 40
    ∷ []

writes-RatedBy_example :
    RatedBy
      (ratings (("HIGH", pos 75) ∷ []) history)
      (writes "session-1" none (escalated (raised "HIGH" (pos 75)) 10 ∷ history))
writes-RatedBy_example = writes-RatedBy "session-1" (raised "HIGH" (pos 75)) 10 history

writes-IsConsistent_example : IsConsistent (writes "session-1" none history)
writes-IsConsistent_example = writes-IsConsistent "session-1" none history tt

abbrev closed : Incident
closed = record {
  key = "session-1";
  title = "Elevated risk";
  summary = none;
  severity = "HIGH";
  status = resolved;
  user_id = 2;
  device_id = 3;
  session_id = 1;
  peak_risk = pos 80;
  opened_at = 10;
  updated_at = 30;
  closed_at = some 30;
}
