-- ===== src/Tests/Policy.antt =====
-- Requests decided by backend/internal/policy, with ASCII case mapping.
use Prim.Native.Char.{code}
use mathlib.Core.List.{Memᴰ, Permᴰ}
use netra.Prelude.{
  any-mem, select, ℕ, ◌≤◌, ◌≡◌, refl, Bool, true, false, ◌&&◌, ◌||◌, none, List, [], ◌∷◌, any, pos,
  arith, if◌then◌else◌, leb, ◌==◌,
}
use netra.Prelude.Text.{ascii, ascii-upper_fixed}
use netra.Risk.Model.{Dimension, Level, Action, Assessment, recommended_action}
use netra.Policy.Model.{Decision, severity, Policy, Request}
use netra.Policy.Engine.{new_engine, is_sensitive, evaluate}
use netra.Policy.Defaults.{baseline_low, baseline_critical, unattested_session, default_policies}
use netra.Policy.Decider.{IsDecided, evaluate-IsDecided}
use netra.Policy.Order.{HaveOwnKeys, evaluate_order}
use netra.Policy.Strictest.{
  applies, strictest, asks_incident, asks_alert, active, evaluate-strictest,
}
use netra.Policy.Degraded.{closes, evaluate-degraded}
use netra.Policy.Shipped.{KeepsCapitals, unattested_applies, enforcing, shipped_enforce_level}

pub ascii-KeepsCapitals : KeepsCapitals ascii
ascii-KeepsCapitals = record { upper_capital = λ c h. ascii-upper_fixed c (not_small (code c) h) }
  where
    not_small :
        (n : ℕ) → ((leb 65 n && leb n 90) || n == 95) ≡ true → (leb 97 n && leb n 122) ≡ false
    not_small n h = ground arith

-- A critical assessment of a session without attestation.
abbrev critical : Assessment
critical = record {
  session_id = 1;
  score = pos 91;
  level = Level.critical;
  action = Action.isolate;
  factors =
      record {
        code = "UNATTESTED_SESSION";
        label = "Session lacks device attestation";
        dimension = Dimension.identity;
        contribution = pos 30;
        detail = "established without cryptographic device proof";
      }
      ∷ [];
  dimensions = λ k. none;
  computed_at = 7;
  model_version = "risk-v1";
  trigger_event = "LOGIN";
}

abbrev asked : Bool → Request
asked outage = record {
  assessment = critical;
  resource_sensitivity = "CRITICAL";
  resource_id = none;
  degraded = outage;
}

abbrev some_policies : List Policy
some_policies = baseline_low ∷ baseline_critical ∷ unattested_session ∷ []

abbrev other_order : List Policy
other_order = baseline_critical ∷ baseline_low ∷ unattested_session ∷ []

evaluate-strictest_example :
    let x = evaluate (new_engine some_policies) (asked false) 3 5 in
    (severity x.decision ≡ strictest (asked false) (active (asked false) some_policies))
    × (x.create_incident ≡ any (asks_incident (asked false)) (active (asked false) some_policies))
    × (x.alert_soc ≡ any (asks_alert (asked false)) (active (asked false) some_policies))
evaluate-strictest_example = evaluate-strictest (asked false) 3 5 refl some_policies

some_policies-HaveOwnKeys : HaveOwnKeys (select (λ p. p.enabled) other_order)
some_policies-HaveOwnKeys = ((refl, (refl, tt)), ((refl, tt), (tt, tt)))

evaluate_order_example :
    evaluate (new_engine some_policies) (asked false) 3 5
    ≡ evaluate (new_engine other_order) (asked false) 3 5
evaluate_order_example =
    evaluate_order some_policies other_order (asked false) 3 5 (Permᴰ.swap refl refl)
      some_policies-HaveOwnKeys

hits : applies (asked false) unattested_session ≡ true
hits = unattested_applies (asked false) 3 5 refl ascii-KeepsCapitals refl

some_hit : any (applies (asked false)) (active (asked false) some_policies) ≡ true
some_hit =
    any-mem (applies (asked false)) unattested_session (active (asked false) some_policies) hits
      (Memᴰ.tail (Memᴰ.tail (Memᴰ.head refl)))

evaluate-IsDecided_example :
    IsDecided
      (asked false)
      (evaluate (new_engine some_policies) (asked false) 3 5)
      (active (asked false) some_policies)
evaluate-IsDecided_example = evaluate-IsDecided (asked false) 3 5 some_policies refl some_hit

evaluate-degraded_example : (evaluate (new_engine some_policies) (asked true) 3 5).decision ≡ (
    if any (closes (asked true)) (active (asked true) some_policies)
    then Decision.deny
    else if is_sensitive "CRITICAL"
    then Decision.restrict
    else Decision.allow_monitor)
evaluate-degraded_example = evaluate-degraded (asked true) 3 5 refl some_policies

shipped_enforce_level_example :
    severity (enforcing (recommended_action Level.critical))
    ≤ severity (evaluate (new_engine default_policies) (asked false) 3 5).decision
shipped_enforce_level_example = shipped_enforce_level (asked false) 3 5 refl
