-- ===== src/Policy/Engine.antt =====
-- backend/internal/policy/policy.go: NewEngine, Evaluate, degraded and matches. The clock readings
-- at the start and at the end of an evaluation are arguments.
use Prim.Native.String.{◌++◌ as ◌++ₛ◌}
use netra.Prelude.{
  String, Bool, true, false, not, ◌&&◌, ◌||◌, Option, none, some, List, [], ◌∷◌, ◌++◌, ℤ, pos,
  ltb_ℤ, leb, eqb_ℤ, sub_ℕ, ltb_text, sort_stable, select, any, all, ◌==ₛ◌, Unicode, to_upper,
  equal_fold, if◌then◌else◌,
}
use netra.Prelude.Format.{decimal}
use netra.Risk.Model.{Time, level_text, Factor}
use netra.Policy.Model.{Decision, FailMode, severity, Conditions, Policy, Request, Result}

pub record Engine : Type 0 where
  pub policies : List Policy

-- The comparison of the sort: lower priority numbers first, then by policy id.
unfoldable pub evaluates_before : Policy → Policy → Bool
evaluates_before p q =
    if eqb_ℤ p.priority q.priority
    then ltb_text p.policy_id q.policy_id
    else ltb_ℤ p.priority q.priority

unfoldable pub new_engine : List Policy → Engine
unfolding evaluates_before
new_engine policies = record {
  policies = sort_stable evaluates_before (select (λ p. p.enabled) policies);
}

abbrev is_empty : List String → Bool
is_empty [] = true
is_empty (x ∷ xs) = false

abbrev below_minimum : Option ℤ → ℤ → Bool
below_minimum none score = false
below_minimum (some n) score = ltb_ℤ score n

abbrev above_maximum : Option ℤ → ℤ → Bool
above_maximum none score = false
above_maximum (some n) score = ltb_ℤ n score

-- present[code]
abbrev pub present : List Factor → String → Bool
present factors code = any (λ f. f.code ==ₛ code) factors

module _ ⦃u : Unicode⦄ where
  abbrev pub contains_fold : List String → String → Bool
  contains_fold haystack needle = any (λ candidate. equal_fold candidate needle) haystack

  abbrev pub is_sensitive : String → Bool
  is_sensitive sensitivity = equal_fold sensitivity "SENSITIVE" || equal_fold sensitivity "CRITICAL"

  unfoldable pub matches : Conditions → Request → Bool
  matches conditions request =
      if below_minimum conditions.min_risk request.assessment.score
      then false
      else if above_maximum conditions.max_risk request.assessment.score
      then false
      else if not (is_empty conditions.levels)
          && not (contains_fold conditions.levels (level_text request.assessment.level))
      then false
      else if not (is_empty conditions.resource_sensitivity)
          && not (contains_fold conditions.resource_sensitivity request.resource_sensitivity)
      then false
      else if not (is_empty conditions.require_factors)
      then all (λ code. present request.assessment.factors (to_upper code))
          conditions.require_factors
      else true

  -- fmt.Sprintf("%s@v%d", PolicyID, Version)
  abbrev pub citation : Policy → String
  citation p = p.policy_id ++ₛ "@v" ++ₛ decimal p.version

  decide : Result → Policy → Result
  decide result candidate =
      if leb (severity result.decision) (severity candidate.actions.decision)
      then record result {
        decision = candidate.actions.decision;
        reason = candidate.name;
        policy_id = candidate.policy_id;
        policy_version = candidate.version;
        message = candidate.actions.message;
      }
      else result

  -- The body of the loop for a policy that matches.
  take_match : Result → Policy → Result
  unfolding decide
  take_match result candidate =
      let cited = record result { matched = result.matched ++ citation candidate ∷ [] } in
      let decided = decide cited candidate in
      record decided {
        create_incident = decided.create_incident || candidate.actions.create_incident;
        alert_soc = decided.alert_soc || candidate.actions.alert_soc;
      }

  -- The body of the loop.
  unfoldable pub consider_one : Request → Result → Policy → Result
  unfolding take_match
  consider_one request result candidate =
      if matches candidate.conditions request then take_match result candidate else result

  unfoldable pub consider : Request → Result → List Policy → Result
  consider request result [] = result
  consider request result (candidate ∷ rest) =
      consider request (consider_one request result candidate) rest

  abbrev pub initial : Time → Result
  initial started = record {
    decision = Decision.allow;
    reason = "no policy matched; default allow";
    policy_id = "";
    policy_version = pos 0;
    create_incident = false;
    alert_soc = false;
    message = "";
    matched = [];
    evaluated_at = started;
    latency = pos 0;
  }

  abbrev pub is_fail_closed : FailMode → Bool
  is_fail_closed FailMode.fail_closed = true
  is_fail_closed _ = false

  -- The variable `mode` after the loop.
  unfoldable pub degraded_mode : List Policy → Request → FailMode
  degraded_mode [] request = FailMode.fail_safe
  degraded_mode (candidate ∷ rest) request =
      if matches candidate.conditions request && is_fail_closed candidate.fail_mode
      then FailMode.fail_closed
      else degraded_mode rest request

  -- The `switch` over the mode: the decision and its reason.
  unfoldable pub degraded_outcome : FailMode → Request → Decision × String
  degraded_outcome FailMode.fail_closed request =
      (Decision.deny, "control plane unavailable; policy is fail-closed")
  degraded_outcome FailMode.fail_open request =
      (Decision.allow, "control plane unavailable; policy is fail-open")
  degraded_outcome _ request =
      if is_sensitive request.resource_sensitivity
      then (Decision.restrict, "control plane unavailable; sensitive access restricted")
      else (Decision.allow_monitor, "control plane unavailable; continuing on cached policy")

  unfoldable pub degraded : Engine → Request → Time → Time → Result
  unfolding degraded_mode degraded_outcome
  degraded e request started finished =
      let outcome = degraded_outcome (degraded_mode e.policies request) request in
      record (initial started) {
        decision = outcome.0;
        reason = outcome.1;
        latency = sub_ℕ finished started;
      }

  unfoldable pub evaluate : Engine → Request → Time → Time → Result
  evaluate e request started finished =
      if request.degraded
      then degraded e request started finished
      else record (consider request (initial started) e.policies) {
        latency = sub_ℕ finished started;
      }
