-- ===== src/Tests/Trust.antt =====
-- Sessions evaluated by backend/internal/trust/evaluator.go.
use netra.Prelude.{pos, ◌≡◌, refl, none, some, ◌==◌, if◌then◌else◌}
use netra.Prelude.Text.{ascii}
use netra.Prelude.Double.{tenths_double, tenths-IsExact}
use netra.Policy.Model.{Decision}
use netra.Policy.Defaults.{default_policies}
use netra.Trust.Sessions.{
  Status, record_risk, was_scored, active, restricted, ended, Session, Sessions, read_status,
  apply_decision, touch, end_session, decided, was_touched, was_ended, done, next,
}
use netra.Trust.Evaluator.{evaluate}
use netra.Trust.Final.{IsEndedAt, Steps-IsEndedAt}
use netra.Trust.Enforcement.{Isolates, unattested_is_isolated, apply_decision_misreports}
use netra.Tests.Policy.{ascii-KeepsCapitals}
use netra.Tests.Risk.{engine, suspicious, suspicious-FitsTrust, suspicious-FitsText}

abbrev row : Status → Session
row status = record {
  user_id = 2;
  device_id = 3;
  status = status;
  attestation = "device-signature";
  source_ip = none;
  current_risk = none;
  current_level = none;
  started_at = 5;
  last_seen_at = 6;
  ended_at = none;
}

abbrev closed_row : Session
closed_row = record {
  user_id = 2;
  device_id = 3;
  status = ended;
  attestation = "device-signature";
  source_ip = none;
  current_risk = none;
  current_level = none;
  started_at = 5;
  last_seen_at = 6;
  ended_at = some 6;
}

abbrev only : Session → Sessions
only s = λ k. if k == 1 then some s else none

unattested_is_isolated_example :
    Isolates 1 (evaluate engine default_policies (only (row active)) 1 suspicious "LOGIN" 10 11 12)
unattested_is_isolated_example =
    unattested_is_isolated engine suspicious (only (row active)) 1 "LOGIN" 10 11 12 (row active)
      ascii-KeepsCapitals tenths-IsExact refl suspicious-FitsTrust suspicious-FitsText refl refl
      refl

apply_decision_misreports_example :
    ((apply_decision (only closed_row) 1 Decision.restrict 9).1 ≡ some restricted)
    × (read_status ((apply_decision (only closed_row) 1 Decision.restrict 9).0 1) ≡ some ended)
apply_decision_misreports_example =
    apply_decision_misreports (only closed_row) 1 Decision.restrict 9 closed_row restricted refl
      refl refl

-- A new score, a denial, a touch and an attempt to end the session again.
abbrev later : Sessions
later =
    (end_session
      (touch
        (apply_decision (record_risk (only closed_row) 1 (pos 91) "CRITICAL" 8) 1 Decision.deny 9).0
        1 10)
      1 2 11).0

Steps-IsEndedAt_example : IsEndedAt (some 6) (later 1)
Steps-IsEndedAt_example =
    Steps-IsEndedAt 1 (some 6)
      (next (was_scored 1 (pos 91) "CRITICAL" 8)
        (next (decided 1 Decision.deny 9) (next (was_touched 1 10) (next (was_ended 1 2 11) done))))
      (record { session = closed_row; stored = refl; status = refl; time = refl })
