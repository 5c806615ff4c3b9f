-- ===== src/Risk/Evaluate.antt =====
-- backend/internal/risk/engine.go: Evaluate, from the signals to the clamped and sorted assessment.
use netra.Prelude.{
  String, Option, none, some, List, [], ◌∷◌, ℤ, pos, ◌+ℤ◌, ◌-ℤ◌, ltb_ℤ, if◌then◌else◌,
}
use netra.Prelude.Double.{Double}
use netra.Risk.Model.{
  Dimension, same_dimension, level, recommended_action, Factor, Assessment, sort_factors,
}
use netra.Risk.Digits.{◌>>=◌}
use netra.Risk.Engine.{
  Inputs, Engine, identity_signals, device_signals, behaviour_signals, network_signals,
  resource_signals, history_signals,
}

abbrev pub DimensionMap : Type 0
DimensionMap = Dimension → Option ℤ

-- A missing key reads as 0.
abbrev pub or_zero : Option ℤ → ℤ
or_zero none = pos 0
or_zero (some n) = n

-- dimensions[d] += n
abbrev pub bump : DimensionMap → Dimension → ℤ → DimensionMap
bump dims dim n k = if same_dimension dim k then some (or_zero (dims k) +ℤ n) else dims k

-- The local variables score, dimensions and factors.
pub record Tally : Type 0 where
  pub score : ℤ
  pub dimensions : DimensionMap
  pub factors : List Factor

-- The loop over the factors, from its variables score and dimensions.
unfoldable pub tally_from : ℤ → DimensionMap → List Factor → ℤ × DimensionMap
tally_from score dims [] = (score, dims)
tally_from score dims (f ∷ fs) =
    tally_from (score +ℤ f.contribution) (bump dims f.dimension f.contribution) fs

-- The first of the sorted factors takes the excess over 100; factors[0] of no factors panics.
unfoldable pub absorb : Tally → List Factor → Option Tally
absorb t [] = none
absorb t (f ∷ fs) =
    let excess = t.score -ℤ pos 100 in
    some (record {
      score = pos 100;
      dimensions = bump t.dimensions f.dimension (pos 0 -ℤ excess);
      factors = record f { contribution = f.contribution -ℤ excess } ∷ fs;
    })

unfoldable pub clamp : Tally → Option Tally
unfolding absorb
clamp t = if ltb_ℤ (pos 100) t.score then absorb t (sort_factors t.factors) else some t

abbrev pub model_version : String
model_version = "risk-v1"

module _ {W : Type 0} ⦃d : Double W⦄ where
  unfoldable pub gather_factors : Engine W → Inputs W → Option (List Factor)
  gather_factors e inputs = do
    device ← device_signals e inputs (identity_signals e inputs [])
    behaviour ← behaviour_signals e inputs device
    some (history_signals e inputs (resource_signals e inputs (network_signals e inputs behaviour)))

  unfoldable pub finish : Engine W → Inputs W → Tally → Assessment
  finish e inputs t =
      let score = if ltb_ℤ t.score (pos 0) then pos 0 else t.score in
      record {
        session_id = inputs.session_id;
        score = score;
        level = level e.thresholds score;
        action = recommended_action (level e.thresholds score);
        factors = sort_factors t.factors;
        dimensions = t.dimensions;
        computed_at = inputs.now;
        model_version = model_version;
        trigger_event = "";
      }

  unfoldable pub assess : Engine W → Inputs W → List Factor → Option Assessment
  unfolding tally_from clamp
  assess e inputs factors = do
    let summed = tally_from (pos 0) (λ k. none) factors
    clamped ← clamp (record { score = summed.0; dimensions = summed.1; factors = factors })
    some (finish e inputs clamped)

  unfoldable pub evaluate : Engine W → Inputs W → Option Assessment
  unfolding gather_factors assess finish
  evaluate e inputs = do factors ← gather_factors e inputs; assess e inputs factors
