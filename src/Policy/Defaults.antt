-- ===== src/Policy/Defaults.antt =====
-- backend/internal/policy/defaults.go: the shipped policies. The fields that the literals leave out
-- have Go's zero values.
use netra.Prelude.{String, true, false, none, some, List, [], ◌∷◌, ℕ, pos}
use netra.Policy.Model.{Decision, FailMode, Conditions, Actions, Policy}

abbrev anything : Conditions
anything = record {
  min_risk = none;
  max_risk = none;
  levels = [];
  resource_sensitivity = [];
  require_factors = [];
}

abbrev shipped : String → ℕ → String → String → Conditions → Actions → FailMode → Policy
shipped policy_id priority name description conditions actions fail_mode = record {
  id = 0;
  policy_id = policy_id;
  version = pos 1;
  name = name;
  description = description;
  priority = pos priority;
  enabled = true;
  conditions = conditions;
  actions = actions;
  fail_mode = fail_mode;
  created_by = none;
  created_at = 0;
}

abbrev quietly : Decision → Actions
quietly decision = record {
  decision = decision;
  create_incident = false;
  alert_soc = false;
  message = "";
}

abbrev pub baseline_low : Policy
baseline_low =
    shipped "baseline-low" 100 "Allow low-risk sessions"
      "Routine access from a trusted user on a trusted device."
      (record anything { levels = "LOW" ∷ [] }) (quietly Decision.allow) FailMode.fail_open

abbrev pub baseline_medium : Policy
baseline_medium =
    shipped "baseline-medium" 90 "Monitor medium-risk sessions"
      "Access continues, but the session is recorded for review."
      (record anything { levels = "MEDIUM" ∷ [] }) (quietly Decision.allow_monitor)
      FailMode.fail_open

abbrev pub baseline_elevated : Policy
baseline_elevated =
    shipped "baseline-elevated" 80 "Verify elevated-risk sessions"
      "Additional verification before sensitive operations."
      (record anything { levels = "ELEVATED" ∷ [] })
      (record (quietly Decision.verify) {
        message = "Additional verification is required to continue.";
      })
      FailMode.fail_safe

abbrev pub baseline_high : Policy
baseline_high =
    shipped "baseline-high" 70 "Step up authentication at high risk"
      "The user must re-authenticate before continuing." (record anything { levels = "HIGH" ∷ [] })
      (record (quietly Decision.step_up_mfa) {
        alert_soc = true;
        message = "Please confirm your identity to continue.";
      })
      FailMode.fail_safe

abbrev pub baseline_critical : Policy
baseline_critical =
    shipped "baseline-critical" 10 "Isolate critical-risk sessions"
      "The session is isolated and an incident is opened for the SOC."
      (record anything { levels = "CRITICAL" ∷ [] })
      (record {
        decision = Decision.isolate;
        create_incident = true;
        alert_soc = true;
        message = "Access has been suspended. Your security team has been notified.";
      })
      FailMode.fail_closed

abbrev pub critical_resource_guard : Policy
critical_resource_guard =
    shipped "critical-resource-guard" 20 "Restrict critical resources above elevated risk"
      "The same behaviour is treated differently when a CRITICAL resource is involved."
      (record anything { min_risk = some (pos 51); resource_sensitivity = "CRITICAL" ∷ [] })
      (record {
        decision = Decision.restrict;
        create_incident = true;
        alert_soc = true;
        message = "Access to this resource is restricted at your current risk level.";
      })
      FailMode.fail_closed

abbrev pub new_device_sensitive : Policy
new_device_sensitive =
    shipped "new-device-sensitive" 30 "Step up on a new device reaching sensitive data"
      "A device this user has never worked from, reaching classified material."
      (record anything {
        require_factors = "NEW_DEVICE" ∷ [];
        resource_sensitivity = "SENSITIVE" ∷ "CRITICAL" ∷ [];
      })
      (record (quietly Decision.step_up_mfa) {
        alert_soc = true;
        message = "Confirm your identity to use this device for sensitive resources.";
      })
      FailMode.fail_closed

abbrev pub unattested_session : Policy
unattested_session =
    shipped "unattested-session" 5 "Deny sessions without device attestation"
      "A session should not exist without cryptographic device proof."
      (record anything { require_factors = "UNATTESTED_SESSION" ∷ [] })
      (record {
        decision = Decision.deny;
        create_incident = true;
        alert_soc = true;
        message = "This session could not be verified.";
      })
      FailMode.fail_closed

abbrev pub default_policies : List Policy
default_policies =
    baseline_low ∷ baseline_medium ∷ baseline_elevated ∷ baseline_high ∷ baseline_critical
    ∷ critical_resource_guard ∷ new_device_sensitive ∷ unattested_session ∷ []
