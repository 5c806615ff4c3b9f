-- ===== src/Trust/Evaluator.antt =====
-- backend/internal/trust/evaluator.go, `Evaluate` from the gathered inputs on: the risk engine, the
-- write of the risk to the session, the policy engine and the enforcement, in that order. Every
-- database call succeeds, except for the read of a session that is not there. The incident, the
-- stored decision and the derived events do not touch the session and are left out.
use netra.Prelude.{false, Option, none, some, List, String, Unicode}
use netra.Prelude.Double.{Double}
use netra.Risk.Model.{Time, Uuid, Assessment, level_text}
use netra.Risk.Digits.{◌>>=◌}
use netra.Risk.Engine.{Inputs, Engine, Sensitivity}
use netra.Risk.Evaluate.{evaluate as assess}
use netra.Policy.Model.{Policy, Request, Result}
use netra.Policy.Engine.{new_engine, evaluate as judge}
use netra.Trust.Sessions.{Sessions, Status, record_risk, apply_decision}

-- string(inputs.ResourceSensitivity)
abbrev pub sensitivity_text : Sensitivity → String
sensitivity_text Sensitivity.public = "PUBLIC"
sensitivity_text Sensitivity.internal = "INTERNAL"
sensitivity_text Sensitivity.sensitive = "SENSITIVE"
sensitivity_text Sensitivity.critical = "CRITICAL"

-- The policy request for an assessment.
abbrev pub request_for : Assessment → Sensitivity → Request
request_for assessment sensitivity = record {
  assessment = assessment;
  resource_sensitivity = sensitivity_text sensitivity;
  resource_id = none;
  degraded = false;
}

-- `Outcome`, less the incident's id.
pub record Outcome : Type 0 where
  pub assessment : Assessment
  pub decision : Result
  pub applied : Status

-- The result with the table: an outcome, or none where the function fails.
abbrev pub conclude : Assessment → Result → Option Status → Option Outcome
conclude assessment decision none = none
conclude assessment decision (some applied) =
    some (record { assessment = assessment; decision = decision; applied = applied })

module _ ⦃u : Unicode⦄ where
  -- From the assessment on, with the active policies and the clock readings of the policy engine and of the
  -- database.
  unfoldable pub enforce :
      Sessions
      → Uuid
      → List Policy
      → Sensitivity
      → Assessment
      → Time
      → Time
      → Time
      → Sessions × Option Outcome
  enforce table id policies sensitivity assessment started finished now =
      let decision =
        judge (new_engine policies) (request_for assessment sensitivity) started finished in
      let known =
        record_risk table assessment.session_id assessment.score (level_text assessment.level)
          now in
      let applied = apply_decision known id decision.decision now in
      (applied.0, conclude assessment decision applied.1)

  -- `Evaluate`; none where the number formatting of the risk engine panics.
  unfoldable pub evaluate :
      {W : Type 0} ⦃d : Double W⦄
      → Engine W
      → List Policy
      → Sessions
      → Uuid
      → Inputs W
      → String
      → Time
      → Time
      → Time
      → Option (Sessions × Option Outcome)
  unfolding enforce
  evaluate engine policies table id inputs trigger started finished now = do
    assessed ← assess engine inputs
    some (
        enforce table id policies inputs.resource_sensitivity
          (record assessed { trigger_event = trigger }) started finished now)
