-- ===== src/Risk/Explanation.antt =====
-- What every assessment that Evaluate returns promises to the analyst who reads it.
use netra.Prelude.{
  ◌≡◌, refl, sym, ◌∙◌, some, List, pos, ◌≤ℤ◌, ltb_ℤ, arith, sum_by-perm, sort_stable-IsSorted,
  IsSorted, Bool-cases, inl, inr,
}
use netra.Prelude.Double.{Double}
use netra.Risk.Model.{
  Dimension, Factor, Assessment, Thresholds, precedes, sort_factors, level, recommended_action,
}
use netra.Risk.Engine.{Inputs, Engine}
use netra.Risk.Evaluate.{or_zero, Tally, clamp, gather_factors, finish, assess, evaluate}
use netra.Risk.Signals.{Returns, Returns-some, Returns-bind}
use netra.Risk.Score.{
  contributed, contributed_to, share, AllPositive, gather_factors-AllPositive, sort_factors-perm,
  precedes_asymm, IsReconciled, clamp-IsReconciled, clamp-InRange, InRange, summed,
  summed-IsReconciled, summed-nonneg,
}

-- The facts about an assessment, under the thresholds of its engine.
pub record IsExplained (t : Thresholds) (a : Assessment) : Type 0 where
  pub reconciled :
      IsReconciled (record { score = a.score; dimensions = a.dimensions; factors = a.factors })
  pub in_range : (pos 0 ≤ℤ a.score) × (a.score ≤ℤ pos 100)
  pub sorted : IsSorted precedes a.factors
  pub leveled : (a.level ≡ level t a.score) × (a.action ≡ recommended_action a.level)

module _ {W : Type 0} ⦃d : Double W⦄ (e : Engine W) (i : Inputs W) where
  finish-score : (t : Tally) → pos 0 ≤ℤ t.score → (finish e i t).score ≡ t.score
  unfolding finish
  finish-score t p = elim (Bool-cases (ltb_ℤ t.score (pos 0))) [
    | inl q ↦ absurd (ground arith)
    | inr q ↦ rw q refl
  ]

  finish-IsExplained :
      (t : Tally) → IsReconciled t → InRange t → IsExplained e.thresholds (finish e i t)
  unfolding finish sort_factors
  finish-IsExplained t h r =
      let same = finish-score t r.0 in
      record {
        reconciled = record {
          score_sum = same ∙ h.score_sum ∙ sym (sum_by-perm _ (sort_factors-perm t.factors));
          dimension_sum =
              λ k. h.dimension_sum k ∙ sym (sum_by-perm (share k) (sort_factors-perm t.factors));
        };
        in_range = rw same r;
        sorted = sort_stable-IsSorted precedes precedes_asymm t.factors;
        leveled = (refl, refl);
      }

  assess-IsExplained :
      (fs : List Factor) → AllPositive fs → Returns (IsExplained e.thresholds) (assess e i fs)
  unfolding assess
  assess-IsExplained fs h =
      Returns-bind {P = λ t. IsReconciled t × InRange t} (clamp (summed fs))
        (λ t. some (finish e i t))
        record {
          at = λ t q. (
            (clamp-IsReconciled (summed fs) (summed-IsReconciled fs)).at t q,
            (clamp-InRange (summed fs) (summed-nonneg fs h)).at t q,
          );
        }
        λ t h'. Returns-some _ _ (finish-IsExplained t h'.0 h'.1)

  evaluate-IsExplained : Returns (IsExplained e.thresholds) (evaluate e i)
  unfolding evaluate
  evaluate-IsExplained =
      Returns-bind (gather_factors e i) (assess e i) (gather_factors-AllPositive e i)
        assess-IsExplained

  -- The score of every returned assessment is the sum of the contributions of its factors, and the
  -- entry of each dimension is the sum of the contributions of that dimension's factors, also when
  -- the score was clamped.
  pub evaluate_reconciles :
      (a : Assessment)
      → evaluate e i ≡ some a
      → (a.score ≡ contributed a.factors)
        × ((k : Dimension) → or_zero (a.dimensions k) ≡ contributed_to k a.factors)
  evaluate_reconciles a h =
      let x = (evaluate-IsExplained.at a h).reconciled in (x.score_sum, x.dimension_sum)

  -- The score of every returned assessment lies in 0..100.
  pub evaluate_bounds :
      (a : Assessment) → evaluate e i ≡ some a → (pos 0 ≤ℤ a.score) × (a.score ≤ℤ pos 100)
  evaluate_bounds a h = (evaluate-IsExplained.at a h).in_range

  -- In every returned assessment no factor stands behind one that it should precede: larger
  -- contributions come first, and equal ones are ordered by their codes.
  pub evaluate-IsSorted : (a : Assessment) → evaluate e i ≡ some a → IsSorted precedes a.factors
  evaluate-IsSorted a h = (evaluate-IsExplained.at a h).sorted

  -- The level of a returned assessment is the band of its score, and its action is the one
  -- recommended for that level.
  pub evaluate-level :
      (a : Assessment)
      → evaluate e i ≡ some a
      → (a.level ≡ level e.thresholds a.score) × (a.action ≡ recommended_action a.level)
  evaluate-level a h = (evaluate-IsExplained.at a h).leveled
