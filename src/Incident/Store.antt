-- ===== src/Incident/Store.antt =====
-- backend/internal/incident/incident.go: the incident's row and the statements that write to it,
-- each one a function on the row that a key holds. Faults of the database are left out: a statement
-- that fails changes nothing.
use netra.Prelude.{
  Bool, true, false, Option, none, some, String, List, [], ◌∷◌, ℤ, ltb_ℤ, ◌==ₛ◌, if◌then◌else◌,
}
use netra.Risk.Model.{Time, Uuid}

pub data Status : Type 0 where
  open_status investigating contained resolved false_positive : Status

-- `ParseStatus`; none where the second result is false.
unfoldable pub parse_status : String → Option Status
parse_status raw =
    if raw ==ₛ "OPEN"
    then some open_status
    else if raw ==ₛ "INVESTIGATING"
    then some investigating
    else if raw ==ₛ "CONTAINED"
    then some contained
    else if raw ==ₛ "RESOLVED"
    then some resolved
    else if raw ==ₛ "FALSE_POSITIVE"
    then some false_positive
    else none

abbrev pub status_text : Status → String
status_text open_status = "OPEN"
status_text investigating = "INVESTIGATING"
status_text contained = "CONTAINED"
status_text resolved = "RESOLVED"
status_text false_positive = "FALSE_POSITIVE"

pub record Incident : Type 0 where
  pub key : String
  pub title : String
  pub summary : Option String
  pub severity : String
  pub status : Status
  pub user_id : Uuid
  pub device_id : Uuid
  pub session_id : Uuid
  pub peak_risk : ℤ
  pub opened_at : Time
  pub updated_at : Time
  pub closed_at : Option Time

-- The values of the INSERT of `OpenOrEscalate`.
pub record Escalation : Type 0 where
  pub session_id : Uuid
  pub user_id : Uuid
  pub device_id : Uuid
  pub severity : String
  pub risk : ℤ
  pub title : String
  pub summary : String

-- NULLIF(s, '')
abbrev pub null_if_empty : String → Option String
null_if_empty s = if s ==ₛ "" then none else some s

-- COALESCE(a, b)
abbrev pub coalesce : Option String → Option String → Option String
coalesce none b = b
coalesce (some a) b = some a

abbrev pub greatest : ℤ → ℤ → ℤ
greatest a b = if ltb_ℤ a b then b else a

-- The row of a key after `OpenOrEscalate`.
unfoldable pub open_or_escalate : String → Option Incident → Escalation → Time → Incident
open_or_escalate key none x now = record {
  key = key;
  title = x.title;
  summary = null_if_empty x.summary;
  severity = x.severity;
  status = open_status;
  user_id = x.user_id;
  device_id = x.device_id;
  session_id = x.session_id;
  peak_risk = x.risk;
  opened_at = now;
  updated_at = now;
  closed_at = none;
}
open_or_escalate key (some i) x now = record i {
  peak_risk = greatest i.peak_risk x.risk;
  severity = if ltb_ℤ i.peak_risk x.risk then x.severity else i.severity;
  summary = coalesce (null_if_empty x.summary) i.summary;
  updated_at = now;
}

abbrev pub is_closed : Status → Bool
is_closed resolved = true
is_closed false_positive = true
is_closed _ = false

-- The row after `SetStatus`; a missing row stays missing, and the function answers ErrNotFound.
unfoldable pub set_status : Option Incident → Status → Time → Option Incident
set_status none status now = none
set_status (some i) status now = some (record i {
  status = status;
  updated_at = now;
  closed_at = if is_closed status then some now else none;
})

-- A write to the row of one key.
pub data Write : Type 0 where
  escalated : Escalation → Time → Write
  moved : Status → Time → Write

unfoldable pub write : String → Option Incident → Write → Option Incident
unfolding open_or_escalate set_status
write key row (escalated x now) = some (open_or_escalate key row x now)
write key row (moved status now) = set_status row status now

unfoldable pub writes : String → Option Incident → List Write → Option Incident
unfolding write
writes key row [] = row
writes key row (w ∷ ws) = writes key (write key row w) ws
