-- ===== src/Risk/Model.antt =====
-- backend/internal/risk/model.go: bands, recommended actions, weights, factors, assessments.
use netra.Prelude.{
  ℕ, String, Bool, true, false, not, ◌&&◌, ◌||◌, Option, List, [], ◌∷◌, ℤ, pos, ltb_ℤ, leb_ℤ, eqb_ℤ,
  ltb_text, sort_stable, if◌then◌else◌,
}
use netra.Prelude.Double.{Double}

-- A time.Time in nanoseconds since Go's zero time, and a uuid.UUID by its 128 bits.
abbrev pub Time : Type 0
Time = ℕ

abbrev pub Uuid : Type 0
Uuid = ℕ

pub data Dimension : Type 0 where
  identity device behaviour network resource history : Dimension

pub Dimension-discrete : Discrete Dimension
Dimension-discrete = hlevel

abbrev pub same_dimension : Dimension → Dimension → Bool
same_dimension Dimension.identity Dimension.identity = true
same_dimension Dimension.device Dimension.device = true
same_dimension Dimension.behaviour Dimension.behaviour = true
same_dimension Dimension.network Dimension.network = true
same_dimension Dimension.resource Dimension.resource = true
same_dimension Dimension.history Dimension.history = true
same_dimension _ _ = false

pub data Level : Type 0 where
  low medium elevated high critical : Level

-- The text of the Go constant.
abbrev pub level_text : Level → String
level_text Level.low = "LOW"
level_text Level.medium = "MEDIUM"
level_text Level.elevated = "ELEVATED"
level_text Level.high = "HIGH"
level_text Level.critical = "CRITICAL"

pub data Action : Type 0 where
  allow allow_monitor verify step_up_mfa restrict isolate : Action

pub record Thresholds : Type 0 where
  pub low : ℤ
  pub medium : ℤ
  pub elevated : ℤ
  pub high : ℤ

abbrev pub default_thresholds : Thresholds
default_thresholds = record { low = pos 30; medium = pos 50; elevated = pos 70; high = pos 85 }

-- `Validate` of the thresholds: true where it returns nil.
unfoldable pub validate : Thresholds → Bool
validate t = not (
    leb_ℤ t.low (pos 0)
    || leb_ℤ t.medium t.low
    || leb_ℤ t.elevated t.medium
    || leb_ℤ t.high t.elevated
    || leb_ℤ (pos 100) t.high)

unfoldable pub level : Thresholds → ℤ → Level
level t score =
    if leb_ℤ score t.low
    then Level.low
    else if leb_ℤ score t.medium
    then Level.medium
    else if leb_ℤ score t.elevated
    then Level.elevated
    else if leb_ℤ score t.high
    then Level.high
    else Level.critical

unfoldable pub recommended_action : Level → Action
recommended_action Level.low = Action.allow
recommended_action Level.medium = Action.allow_monitor
recommended_action Level.elevated = Action.verify
recommended_action Level.high = Action.step_up_mfa
recommended_action Level.critical = Action.isolate

pub record Weights (W : Type 0) : Type 0 where
  pub identity : W
  pub device : W
  pub behaviour : W
  pub network : W
  pub resource : W
  pub history : W

module _ {W : Type 0} where
  unfoldable pub for_dimension : Weights W → Dimension → W
  for_dimension w Dimension.identity = w.identity
  for_dimension w Dimension.device = w.device
  for_dimension w Dimension.behaviour = w.behaviour
  for_dimension w Dimension.network = w.network
  for_dimension w Dimension.resource = w.resource
  for_dimension w Dimension.history = w.history

module _ {W : Type 0} ⦃d : Double W⦄ where
  abbrev pub default_weights : Weights W
  default_weights =
      let one = d.of_int (pos 1) in
      record {
        identity = one;
        device = one;
        behaviour = one;
        network = one;
        resource = one;
        history = one;
      }

  abbrev in_range : W → Bool
  in_range value = not (d.lt value (d.of_int (pos 0)) || d.lt (d.of_int (pos 5)) value)

  -- `Validate` of the weights: true where it returns nil.
  unfoldable pub validate_weights : Weights W → Bool
  validate_weights w =
      in_range w.identity
      && in_range w.device
      && in_range w.behaviour
      && in_range w.network
      && in_range w.resource
      && in_range w.history

pub record Factor : Type 0 where
  pub code : String
  pub label : String
  pub dimension : Dimension
  pub contribution : ℤ
  pub detail : String

pub record Assessment : Type 0 where
  pub session_id : Uuid
  pub score : ℤ
  pub level : Level
  pub action : Action
  pub factors : List Factor
  -- The map: none where the key is absent.
  pub dimensions : Dimension → Option ℤ
  pub computed_at : Time
  pub model_version : String
  pub trigger_event : String

abbrev pub factor_codes : List Factor → List String
factor_codes [] = []
factor_codes (f ∷ fs) = f.code ∷ factor_codes fs

-- `Codes` of an assessment.
abbrev pub codes : Assessment → List String
codes a = factor_codes a.factors

-- The comparison of `sortFactors`: larger contributions first, then by code.
unfoldable pub precedes : Factor → Factor → Bool
precedes f g =
    if eqb_ℤ f.contribution g.contribution
    then ltb_text f.code g.code
    else ltb_ℤ g.contribution f.contribution

unfoldable pub sort_factors : List Factor → List Factor
unfolding precedes
sort_factors = sort_stable precedes
