-- ===== src/Policy/Degraded.antt =====
-- Decisions while the control plane cannot be reached.
use netra.Prelude.{
  ◌≤◌, ◌≡◌, refl, ap, ◌∙◌, inl, inr, Bool, true, false, ◌&&◌, List, [], ◌∷◌, arith, any, any-perm,
  Unicode, if_true, Bool-cases, if◌then◌else◌,
}
use netra.Risk.Model.{Time}
use netra.Policy.Model.{Decision, FailMode, severity, Policy, Request}
use netra.Policy.Engine.{
  Engine, new_engine, is_sensitive, is_fail_closed, degraded_mode, degraded_outcome, degraded,
  evaluate,
}
use netra.Policy.Strictest.{applies, active, policies-perm}

module _ ⦃u : Unicode⦄ (r : Request) where
  -- The policy matches and refuses access during an outage.
  abbrev pub closes : Policy → Bool
  closes p = applies r p && is_fail_closed p.fail_mode

  degraded_mode_lem :
      (ps : List Policy)
      → degraded_mode ps r ≡ (if any closes ps then FailMode.fail_closed else FailMode.fail_safe)
  unfolding degraded_mode
  degraded_mode_lem [] = refl
  degraded_mode_lem (p ∷ ps) = elim (Bool-cases (closes p)) [
    | inl e ↦ rw e refl
    | inr e ↦ rw e (degraded_mode_lem ps)
  ]

  outcome :
      (b : Bool)
      → (degraded_outcome (if b then FailMode.fail_closed else FailMode.fail_safe) r).0 ≡ (
          if b
          then Decision.deny
          else if is_sensitive r.resource_sensitivity
          then Decision.restrict
          else Decision.allow_monitor)
  unfolding degraded_outcome
  outcome true = refl
  outcome false = ground arith

  module _ (started finished : Time) (outage : r.degraded ≡ true) where
    evaluate_outage : (e : Engine) → evaluate e r started finished ≡ degraded e r started finished
    unfolding evaluate
    evaluate_outage e = if_true r.degraded _ _ outage

    degraded-decision :
        (e : Engine)
        → (degraded e r started finished).decision
          ≡ (degraded_outcome (degraded_mode e.policies r) r).0
    unfolding degraded
    degraded-decision e = refl

    -- During an outage access is denied if some enabled matching policy is fail-closed; otherwise
    -- it is restricted for a sensitive or critical resource, and allowed with monitoring for any
    -- other. The order and every other fail mode of the stored policies make no difference.
    pub evaluate-degraded :
        (ps : List Policy)
        → (evaluate (new_engine ps) r started finished).decision ≡ (
            if any closes (active r ps)
            then Decision.deny
            else if is_sensitive r.resource_sensitivity
            then Decision.restrict
            else Decision.allow_monitor)
    evaluate-degraded ps =
        ap (λ x. x.decision) (evaluate_outage (new_engine ps))
        ∙ degraded-decision (new_engine ps)
        ∙ ap (λ m. (degraded_outcome m r).0) (degraded_mode_lem (new_engine ps).policies)
        ∙ outcome (any closes (new_engine ps).policies)
        ∙ ap
            (λ b.
              if b
              then Decision.deny
              else if is_sensitive r.resource_sensitivity
              then Decision.restrict
              else Decision.allow_monitor)
            (any-perm closes (policies-perm r ps))

    -- During an outage no request is simply allowed, also where every stored policy is fail-open.
    pub degraded_never_allows :
        (ps : List Policy) → 1 ≤ severity (evaluate (new_engine ps) r started finished).decision
    degraded_never_allows ps = rw (evaluate-degraded ps) (ground arith)
