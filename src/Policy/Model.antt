-- ===== src/Policy/Model.antt =====
-- backend/internal/policy/policy.go: decisions, policies and their validation.
use netra.Prelude.{
  ℕ, String, len, Bool, true, false, not, ◌&&◌, ◌||◌, Option, none, some, List, [], ◌∷◌, ltb, ℤ,
  pos, ltb_ℤ, ◌==ₛ◌, Unicode, trim_space, if◌then◌else◌,
}
use netra.Risk.Model.{Time, Uuid, Assessment}

-- `other` is a text that is none of the constants.
pub data Decision : Type 0 where
  allow allow_monitor verify step_up_mfa restrict isolate deny : Decision
  other : String → Decision

pub data FailMode : Type 0 where
  fail_open fail_closed fail_safe : FailMode
  other : String → FailMode

abbrev pub is_known : Decision → Bool
is_known (Decision.other text) = false
is_known _ = true

-- The map `severity`; a missing key reads as 0.
abbrev pub severity : Decision → ℕ
severity Decision.allow = 0
severity Decision.allow_monitor = 1
severity Decision.verify = 2
severity Decision.step_up_mfa = 3
severity Decision.restrict = 4
severity Decision.isolate = 5
severity Decision.deny = 6
severity (Decision.other text) = 0

pub record Conditions : Type 0 where
  pub min_risk : Option ℤ
  pub max_risk : Option ℤ
  pub levels : List String
  pub resource_sensitivity : List String
  pub require_factors : List String

pub record Actions : Type 0 where
  pub decision : Decision
  pub create_incident : Bool
  pub alert_soc : Bool
  pub message : String

pub record Policy : Type 0 where
  pub id : Uuid
  pub policy_id : String
  pub version : ℤ
  pub name : String
  pub description : String
  pub priority : ℤ
  pub enabled : Bool
  pub conditions : Conditions
  pub actions : Actions
  pub fail_mode : FailMode
  pub created_by : Option Uuid
  pub created_at : Time

-- The rejections of `Validate`, one for each message.
pub data Invalid : Type 0 where
  policy_id_length name_length unknown_decision unknown_fail_mode : Invalid
  min_risk_range max_risk_range risk_order no_constraint : Invalid

abbrev outside_scale : Option ℤ → Bool
outside_scale none = false
outside_scale (some n) = ltb_ℤ n (pos 0) || ltb_ℤ (pos 100) n

abbrev crossed : Option ℤ → Option ℤ → Bool
crossed (some low) (some high) = ltb_ℤ high low
crossed _ _ = false

abbrev is_none {ℓ} : {A : Type ℓ} → Option A → Bool
is_none none = true
is_none (some a) = false

abbrev is_empty {ℓ} : {A : Type ℓ} → List A → Bool
is_empty [] = true
is_empty (x ∷ xs) = false

abbrev is_fail_mode : FailMode → Bool
is_fail_mode (FailMode.other text) = false
is_fail_mode _ = true

abbrev is_blank : ⦃u : Unicode⦄ → String → Bool
is_blank ⦃u⦄ s = trim_space s ==ₛ ""

-- `Validate`: none where it returns nil.
unfoldable pub validate : ⦃u : Unicode⦄ → Policy → Option Invalid
validate ⦃u⦄ p =
    if is_blank p.policy_id || ltb 64 (len p.policy_id)
    then some Invalid.policy_id_length
    else if is_blank p.name || ltb 128 (len p.name)
    then some Invalid.name_length
    else if not (is_known p.actions.decision)
    then some Invalid.unknown_decision
    else if not (is_fail_mode p.fail_mode)
    then some Invalid.unknown_fail_mode
    else if outside_scale p.conditions.min_risk
    then some Invalid.min_risk_range
    else if outside_scale p.conditions.max_risk
    then some Invalid.max_risk_range
    else if crossed p.conditions.min_risk p.conditions.max_risk
    then some Invalid.risk_order
    else if is_none p.conditions.min_risk
        && is_none p.conditions.max_risk
        && is_empty p.conditions.levels
        && is_empty p.conditions.resource_sensitivity
        && is_empty p.conditions.require_factors
    then some Invalid.no_constraint
    else none

pub record Request : Type 0 where
  pub assessment : Assessment
  pub resource_sensitivity : String
  pub resource_id : Option Uuid
  pub degraded : Bool

pub record Result : Type 0 where
  pub decision : Decision
  pub reason : String
  pub policy_id : String
  pub policy_version : ℤ
  pub create_incident : Bool
  pub alert_soc : Bool
  pub message : String
  pub matched : List String
  pub evaluated_at : Time
  pub latency : ℤ
