-- ===== src/Risk/Score.antt =====
-- The score and its explanation: what the factors and the dimensions of an assessment add up to.
use mathlib.Core.List.{Permᴰ}
use netra.Prelude.{
  String, ◌≡◌, sym, ◌∙◌, ap, true, false, none, List, [], ◌∷◌, ℤ, pos, ◌+ℤ◌, ◌-ℤ◌, ◌≤ℤ◌, ltb_ℤ,
  leb_ℤ, arith, if◌then◌else◌, int_laws, sum_by, sum_by-perm, All, All-append, sort_stable-perm,
  Bool-cases, inl, inr, ltb_text_asymm, +ℤ_assoc,
}
use netra.Prelude.Double.{Double}
use netra.Risk.Model.{Dimension, same_dimension, Factor, precedes, sort_factors}
use netra.Risk.Engine.{Inputs, Engine, add, weighted}
use netra.Risk.Evaluate.{
  DimensionMap, or_zero, bump, Tally, tally_from, absorb, clamp, gather_factors,
}
use netra.Risk.Signals.{Returns, Returns-some, identity_signals-keeps, gather_factors-keeps}

-- The contributions of all factors.
abbrev pub contributed : List Factor → ℤ
contributed = sum_by (λ f. f.contribution)

-- A factor's part of one dimension.
abbrev pub share : Dimension → Factor → ℤ
share d f = if same_dimension f.dimension d then f.contribution else pos 0

abbrev pub contributed_to : Dimension → List Factor → ℤ
contributed_to d = sum_by (share d)

zero_add : (n : ℤ) → pos 0 +ℤ n ≡ n
zero_add n = omega int_laws

-- Every factor adds at least one point.
abbrev pub AllPositive : List Factor → Type 0
AllPositive = All (λ f. pos 1 ≤ℤ f.contribution)

module _ {W : Type 0} ⦃d : Double W⦄ where
  add-AllPositive :
      (e : Engine W) (dim : Dimension) (code label detail : String) (points : W) (fs : List Factor)
      → AllPositive fs
      → AllPositive (add e dim code label detail points fs)
  unfolding add
  add-AllPositive e dim code label detail points fs h =
      elim (Bool-cases (leb_ℤ (weighted e dim points) (pos 0))) [
        | inl q ↦ rw q h
        | inr q ↦ rw q (All-append _ fs _ h (ground arith, tt))
      ]

  pub gather_factors-AllPositive :
      (e : Engine W) (i : Inputs W) → Returns AllPositive (gather_factors e i)
  gather_factors-AllPositive e i =
      gather_factors-keeps e AllPositive (add-AllPositive e) i
        (identity_signals-keeps e AllPositive (add-AllPositive e) i [] tt)

contributed-nonneg : (fs : List Factor) → AllPositive fs → pos 0 ≤ℤ contributed fs
unfolding sum_by
contributed-nonneg [] h = omega arith
contributed-nonneg (f ∷ fs) h = omega (int_laws, contributed-nonneg fs h.1)

score-tally_from :
    (s : ℤ) (dims : DimensionMap) (fs : List Factor)
    → (tally_from s dims fs).0 ≡ s +ℤ contributed fs
unfolding tally_from sum_by
score-tally_from s dims [] = omega int_laws
score-tally_from s dims (f ∷ fs) =
    score-tally_from (s +ℤ f.contribution) (bump dims f.dimension f.contribution) fs
    ∙ +ℤ_assoc s f.contribution (contributed fs)

bump_lem :
    (dims : DimensionMap) (k d : Dimension) (n : ℤ)
    → or_zero (bump dims k n d) ≡ or_zero (dims d) +ℤ (if same_dimension k d then n else pos 0)
bump_lem dims k d n = elim (Bool-cases (same_dimension k d)) [
  | inl e ↦ rw e
  | inr e ↦ rw e (omega int_laws)
]

dimensions-tally_from :
    (s : ℤ) (dims : DimensionMap) (fs : List Factor) (d : Dimension)
    → or_zero ((tally_from s dims fs).1 d) ≡ or_zero (dims d) +ℤ contributed_to d fs
unfolding tally_from sum_by
dimensions-tally_from s dims [] d = omega int_laws
dimensions-tally_from s dims (f ∷ fs) d =
    dimensions-tally_from (s +ℤ f.contribution) (bump dims f.dimension f.contribution) fs d
    ∙ ap (λ n. n +ℤ contributed_to d fs) (bump_lem dims f.dimension d f.contribution)
    ∙ +ℤ_assoc (or_zero (dims d)) (share d f) (contributed_to d fs)

pub sort_factors-perm : (fs : List Factor) → Permᴰ (sort_factors fs) fs
unfolding sort_factors
sort_factors-perm fs = sort_stable-perm precedes fs

pub precedes_asymm : (f g : Factor) → precedes f g ≡ true → precedes g f ≡ false
unfolding precedes
precedes_asymm f g h = ground (arith, ltb_text_asymm f.code g.code)

-- What the variables score, dimensions and factors have in common before and after the clamp.
pub record IsReconciled (t : Tally) : Type 0 where
  pub score_sum : t.score ≡ contributed t.factors
  pub dimension_sum : (d : Dimension) → or_zero (t.dimensions d) ≡ contributed_to d t.factors

-- Lowering one term by the excess of the sum over 100 leaves 100.
capped_sum : (a s t : ℤ) → t ≡ a +ℤ s → pos 100 ≡ a -ℤ (t -ℤ pos 100) +ℤ s
capped_sum a s t e = rw e (omega int_laws)

absorb-IsReconciled :
    (t : Tally) (fs : List Factor)
    → IsReconciled (record t { factors = fs })
    → Returns IsReconciled (absorb t fs)
unfolding absorb sum_by
absorb-IsReconciled t [] h = record { at = λ a e. cc }
absorb-IsReconciled t (f ∷ fs) h =
    let excess = t.score -ℤ pos 100 in
    Returns-some IsReconciled _ record {
      score_sum = capped_sum f.contribution (contributed fs) t.score h.score_sum;
      dimension_sum = λ d. bump_lem t.dimensions f.dimension d (pos 0 -ℤ excess) ∙ lowered d;
    }
  where
    lowered :
        (d : Dimension)
        → or_zero (t.dimensions d)
            +ℤ (if same_dimension f.dimension d then pos 0 -ℤ (t.score -ℤ pos 100) else pos 0)
          ≡ contributed_to d
              (record f { contribution = f.contribution -ℤ (t.score -ℤ pos 100) } ∷ fs)
    lowered d = elim (Bool-cases (same_dimension f.dimension d)) [
      | inl e ↦ rw (h.dimension_sum d) (rw e (omega int_laws))
      | inr e ↦ rw (h.dimension_sum d) (rw e (omega int_laws))
    ]

pub clamp-IsReconciled : (t : Tally) → IsReconciled t → Returns IsReconciled (clamp t)
unfolding clamp
clamp-IsReconciled t h = elim (Bool-cases (ltb_ℤ (pos 100) t.score)) [
  | inl e ↦ rw e (
      absorb-IsReconciled t (sort_factors t.factors) record {
        score_sum = h.score_sum ∙ sym (sum_by-perm _ (sort_factors-perm t.factors));
        dimension_sum =
            λ d. h.dimension_sum d ∙ sym (sum_by-perm (share d) (sort_factors-perm t.factors));
      })
  | inr e ↦ rw e (Returns-some IsReconciled t h)
]

-- After the clamp the score is in range, if it was not negative before.
abbrev pub InRange : Tally → Type 0
InRange t = (pos 0 ≤ℤ t.score) × (t.score ≤ℤ pos 100)

absorb-InRange : (t : Tally) (fs : List Factor) → Returns InRange (absorb t fs)
unfolding absorb
absorb-InRange t [] = record { at = λ a e. cc }
absorb-InRange t (f ∷ fs) = Returns-some InRange _ (omega arith, omega arith)

pub clamp-InRange : (t : Tally) → pos 0 ≤ℤ t.score → Returns InRange (clamp t)
unfolding clamp
clamp-InRange t h = elim (Bool-cases (ltb_ℤ (pos 100) t.score)) [
  | inl e ↦ rw e (absorb-InRange t (sort_factors t.factors))
  | inr e ↦ rw e (Returns-some InRange t (h, ground arith))
]

-- The variables before the clamp.
abbrev pub summed : List Factor → Tally
summed fs =
    let result = tally_from (pos 0) (λ k. none) fs in
    record { score = result.0; dimensions = result.1; factors = fs }

pub summed-IsReconciled : (fs : List Factor) → IsReconciled (summed fs)
summed-IsReconciled fs = record {
  score_sum = score-tally_from (pos 0) (λ k. none) fs ∙ zero_add (contributed fs);
  dimension_sum =
      λ k. dimensions-tally_from (pos 0) (λ j. none) fs k ∙ zero_add (contributed_to k fs);
}

pub summed-nonneg : (fs : List Factor) → AllPositive fs → pos 0 ≤ℤ (summed fs).score
summed-nonneg fs h =
    rw (score-tally_from (pos 0) (λ k. none) fs ∙ zero_add (contributed fs))
      (contributed-nonneg fs h)
