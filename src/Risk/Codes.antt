-- ===== src/Risk/Codes.antt =====
-- Which signals an assessment names, and what the clamp does to their contributions.
use netra.Prelude.{
  ℕ, suc, String, ◌≡◌, refl, ap, ◌∙◌, Bool, true, false, some, List, [], ◌∷◌, ℤ, pos, ◌+ℤ◌, ◌-ℤ◌,
  ◌≤ℤ◌, ltb_ℤ, leb_ℤ, lt→ltb, arith, Bool-cases, inl, inr, any, All, any-append, any-perm, All-perm,
  int_laws, ◌==ₛ◌, eq_refl,
}
use netra.Prelude.Double.{Double, IsExact}
use netra.Risk.Model.{Factor, Assessment, Dimension, sort_factors, for_dimension}
use netra.Risk.Engine.{Inputs, Engine, add, identity_signals, weighted}
use netra.Risk.Evaluate.{Tally, absorb, clamp, gather_factors, finish, assess, evaluate}
use netra.Risk.Signals.{Returns, Returns-some, Returns-bind, gather_factors-keeps}
use netra.Risk.Score.{contributed, summed, summed-IsReconciled, sort_factors-perm}

-- A factor with this code is among the factors.
abbrev pub names : String → List Factor → Bool
names code = any (λ f. f.code ==ₛ code)

names-absorb :
    (c : String) (t : Tally) (fs : List Factor)
    → Returns (λ u. names c u.factors ≡ names c fs) (absorb t fs)
unfolding absorb
names-absorb c t [] = record { at = λ a e. cc }
names-absorb c t (f ∷ fs) = Returns-some _ _ refl

names-clamp :
    (c : String) (t : Tally) → Returns (λ u. names c u.factors ≡ names c t.factors) (clamp t)
unfolding clamp
names-clamp c t = elim (Bool-cases (ltb_ℤ (pos 100) t.score)) [
  | inl e ↦ rw e record {
    at = λ u q.
        (names-absorb c t (sort_factors t.factors)).at u q
        ∙ any-perm _ (sort_factors-perm t.factors);
  }
  | inr e ↦ rw e (Returns-some _ t refl)
]

module _ {W : Type 0} ⦃d : Double W⦄ (e : Engine W) (i : Inputs W) where
  names-finish : (c : String) (t : Tally) → names c (finish e i t).factors ≡ names c t.factors
  unfolding finish
  names-finish c t = any-perm _ (sort_factors-perm t.factors)

  names-assess :
      (c : String) (fs : List Factor)
      → Returns (λ a. names c a.factors ≡ names c fs) (assess e i fs)
  unfolding assess
  names-assess c fs =
      Returns-bind (clamp (summed fs)) (λ t. some (finish e i t)) (names-clamp c (summed fs))
        λ t h. Returns-some _ _ (names-finish c t ∙ h)

  -- Once a code is named, every later signal keeps it.
  names-add :
      (c : String) (dim : Dimension) (code label detail : String) (points : W) (fs : List Factor)
      → names c fs ≡ true
      → names c (add e dim code label detail points fs) ≡ true
  unfolding add
  names-add c dim code label detail points fs h =
      elim (Bool-cases (leb_ℤ (weighted e dim points) (pos 0))) [
        | inl q ↦ rw q h
        | inr q ↦ rw q (any-append _ fs _ ∙ rw h refl)
      ]

  -- What the identity signals name, the assessment names.
  names-evaluate :
      (c : String) (a : Assessment)
      → names c (identity_signals e i []) ≡ true
      → evaluate e i ≡ some a
      → names c a.factors ≡ true
  unfolding evaluate
  names-evaluate c a h =
      (Returns-bind (gather_factors e i) (assess e i)
          (gather_factors-keeps e (λ fs. names c fs ≡ true) (names-add c) i h)
          λ fs q. record { at = λ b r. (names-assess c fs).at b r ∙ q }).at
        a

  weighted_thirty :
      IsExact d
      → e.weights.identity ≡ d.of_int (pos 1)
      → weighted e Dimension.identity (d.of_int (pos 30)) ≡ pos 30
  unfolding for_dimension
  weighted_thirty x w =
      ap (λ v. d.trunc (d.add (d.mul (d.of_int (pos 30)) v) (d.tenths 5))) w
      ∙ ap (λ v. d.trunc (d.add v (d.tenths 5))) (x.mul_one 30 (omega arith))
      ∙ x.round 30 (omega arith)

  names-add_self :
      (dim : Dimension) (code label detail : String) (points : W) (fs : List Factor) (n : ℕ)
      → weighted e dim points ≡ pos (suc n)
      → names code (add e dim code label detail points fs) ≡ true
  unfolding add
  names-add_self dim code label detail points fs n q =
      let counted : leb_ℤ (weighted e dim points) (pos 0) ≡ false = rw q (ground arith) in
      rw counted (any-append _ fs _ ∙ rw (eq_refl code) (ground arith))

  names-unattested :
      IsExact d
      → e.weights.identity ≡ d.of_int (pos 1)
      → i.session_attested ≡ false
      → names "UNATTESTED_SESSION" (identity_signals e i []) ≡ true
  unfolding identity_signals
  names-unattested x w h =
      rw h (names-add_self Dimension.identity "UNATTESTED_SESSION" _ _ _ _ 29 (weighted_thirty x w))

  -- With exact small arithmetic and an identity weight of 1, the assessment of every session
  -- without device attestation names UNATTESTED_SESSION, whatever the other inputs are.
  pub unattested_is_named :
      IsExact d
      → e.weights.identity ≡ d.of_int (pos 1)
      → i.session_attested ≡ false
      → (a : Assessment) → evaluate e i ≡ some a
      → names "UNATTESTED_SESSION" a.factors ≡ true
  unattested_is_named x w h a = names-evaluate "UNATTESTED_SESSION" a (names-unattested x w h)

-- Some factor takes points away.
abbrev pub has_negative : List Factor → Bool
has_negative = any (λ f. ltb_ℤ f.contribution (pos 0))

-- A part of the sum that is at most m falls below 0 when the sum is above 100 + m.
below_zero :
    (c s m : ℤ) → c ≤ℤ m → ¬ (s ≤ℤ pos 100 +ℤ m) → ltb_ℤ (c -ℤ (s -ℤ pos 100)) (pos 0) ≡ true
below_zero c s m h big = lt→ltb _ _ (omega int_laws)

absorb_negative :
    (m : ℤ) (t : Tally) (fs : List Factor)
    → All (λ f. f.contribution ≤ℤ m) fs
    → ¬ (t.score ≤ℤ pos 100 +ℤ m)
    → Returns (λ u. has_negative u.factors ≡ true) (absorb t fs)
unfolding absorb
absorb_negative m t [] h big = record { at = λ a e. cc }
absorb_negative m t (f ∷ fs) h big =
    Returns-some (λ u. has_negative u.factors ≡ true) _
      (rw (below_zero f.contribution t.score m h.0 big))

clamp_negative :
    (m : ℤ) (t : Tally)
    → pos 0 ≤ℤ m
    → All (λ f. f.contribution ≤ℤ m) t.factors
    → ¬ (t.score ≤ℤ pos 100 +ℤ m)
    → Returns (λ u. has_negative u.factors ≡ true) (clamp t)
unfolding clamp
clamp_negative m t p h big =
    let above : ltb_ℤ (pos 100) t.score ≡ true = lt→ltb _ _ (omega int_laws) in
    rw above (
      absorb_negative m t (sort_factors t.factors) (All-perm _ (sort_factors-perm t.factors) h) big)

module _ {W : Type 0} ⦃d : Double W⦄ (e : Engine W) (i : Inputs W) where
  assess_negative :
      (m : ℤ) (fs : List Factor)
      → pos 0 ≤ℤ m
      → All (λ f. f.contribution ≤ℤ m) fs
      → ¬ (contributed fs ≤ℤ pos 100 +ℤ m)
      → Returns (λ a. has_negative a.factors ≡ true) (assess e i fs)
  unfolding assess finish
  assess_negative m fs p h big =
      Returns-bind (clamp (summed fs)) (λ t. some (finish e i t))
        (clamp_negative m (summed fs) p h (rw (summed-IsReconciled fs).score_sum big))
        λ t q.
          Returns-some (λ a. has_negative a.factors ≡ true) _
            (any-perm _ (sort_factors-perm t.factors) ∙ q)

  -- Where the signals contribute more than 100 points plus the largest contribution m, the
  -- returned assessment shows the analyst a factor with a negative contribution.
  pub clamp_shows_negative :
      (m : ℤ) (fs : List Factor) (a : Assessment)
      → pos 0 ≤ℤ m
      → gather_factors e i ≡ some fs
      → All (λ f. f.contribution ≤ℤ m) fs
      → ¬ (contributed fs ≤ℤ pos 100 +ℤ m)
      → evaluate e i ≡ some a
      → has_negative a.factors ≡ true
  unfolding evaluate
  clamp_shows_negative m fs a p g h big r = (assess_negative m fs p h big).at a (rw g at r)
