-- ===== src/Risk/Totality.antt =====
-- Evaluate returns an assessment: no index and no buffer is overrun.
use netra.Prelude.{
  ◌≡◌, refl, Bool, true, false, Option, none, some, List, [], ◌∷◌, ℤ, pos, ltb_ℤ, if◌then◌else◌,
  insert_sorted, Bool-cases, inl, inr,
}
use netra.Prelude.Double.{Double}
use netra.Risk.Model.{Factor, Assessment, precedes, sort_factors}
use netra.Risk.Digits.{◌>>=◌, FitsBuffer, FitsText, format_trust_total, format_z_score_total}
use netra.Risk.Engine.{
  Inputs, Engine, trust_signal, device_signals, volume_signal, deviation_signals, behaviour_signals,
}
use netra.Risk.Evaluate.{Tally, tally_from, absorb, clamp, gather_factors, assess, evaluate}
use netra.Risk.Score.{summed}

abbrev Succeeds : {A : Type 0} → Option A → Type 0
Succeeds {A} o = (a : A) × (o ≡ some a)

bind-Succeeds :
    {A B : Type 0} (o : Option A) (f : A → Option B)
    → Succeeds o
    → ((a : A) → Succeeds (f a))
    → Succeeds (o >>= f)
bind-Succeeds none f h k = cc
bind-Succeeds (some a) f h k = k a

if-Succeeds :
    {A : Type 0} (b : Bool) (x y : Option A)
    → Succeeds x
    → Succeeds y
    → Succeeds (if b then x else y)
if-Succeeds true x y hx hy = hx
if-Succeeds false x y hx hy = hy

abbrev pub FitsTrust : Option ℤ → Type 0
FitsTrust none = Unit
FitsTrust (some n) = FitsBuffer n

insert_sorted-cons :
    (f : Factor) (fs : List Factor)
    → (g : Factor) × (gs : List Factor) × (insert_sorted precedes f fs ≡ g ∷ gs)
insert_sorted-cons f [] = (f, [], refl)
insert_sorted-cons f (g ∷ gs) = elim (Bool-cases (precedes g f)) [
  | inl e ↦ (g, insert_sorted precedes f gs, rw e)
  | inr e ↦ (f, g ∷ gs, rw e)
]

absorb-Succeeds :
    (t : Tally) (fs : List Factor)
    → (f : Factor) × (gs : List Factor) × (fs ≡ f ∷ gs)
    → Succeeds (absorb t fs)
unfolding absorb
absorb-Succeeds t [] h = cc
absorb-Succeeds t (f ∷ fs) h = (_, refl)

clamp-Succeeds : (fs : List Factor) → Succeeds (clamp (summed fs))
unfolding clamp tally_from
clamp-Succeeds [] = (_, refl)
clamp-Succeeds (f ∷ fs) =
    if-Succeeds (ltb_ℤ (pos 100) (summed (f ∷ fs)).score) _ _
      (absorb-Succeeds (summed (f ∷ fs)) (sort_factors (f ∷ fs))
        (unfold sort_factors in insert_sorted-cons f (sort_factors fs)))
      (_, refl)

module _ {W : Type 0} ⦃d : Double W⦄ (e : Engine W) (i : Inputs W) where
  trust_signal-Succeeds :
      (t : Option ℤ) (fs : List Factor) → FitsTrust t → Succeeds (trust_signal e t fs)
  unfolding trust_signal
  trust_signal-Succeeds none fs h = (_, refl)
  trust_signal-Succeeds (some t) fs h =
      if-Succeeds (ltb_ℤ t (pos 70)) _ _
        (bind-Succeeds _ _ (format_trust_total t h) (λ text. (_, refl))) (_, refl)

  device_signals-Succeeds :
      (fs : List Factor) → FitsTrust i.device_trust_score → Succeeds (device_signals e i fs)
  unfolding device_signals
  device_signals-Succeeds fs h =
      bind-Succeeds _ _ (trust_signal-Succeeds i.device_trust_score _ h) (λ gs. (_, refl))

  volume_signal-Succeeds : (z : W) (fs : List Factor) → FitsText z → Succeeds (volume_signal e z fs)
  unfolding volume_signal
  volume_signal-Succeeds z fs h =
      if-Succeeds (d.le (d.of_int (pos 3)) z) _ _
        (bind-Succeeds _ _ (format_z_score_total z h) (λ text. (_, refl))) (_, refl)

  behaviour_signals-Succeeds :
      (fs : List Factor) → FitsText i.access_volume_z_score → Succeeds (behaviour_signals e i fs)
  unfolding behaviour_signals deviation_signals
  behaviour_signals-Succeeds fs h =
      if-Succeeds i.baseline_established _ _
        (bind-Succeeds _ _ (volume_signal-Succeeds i.access_volume_z_score _ h) (λ gs. (_, refl)))
        (_, refl)

  -- Where the device trust score, if there is one, has at most eleven digits, and so have the two
  -- numbers that the z-score is printed by, Evaluate returns an assessment: the formatting stays
  -- within its buffer, and a score above 100 has a first factor to lower.
  pub evaluate_total :
      FitsTrust i.device_trust_score
      → FitsText i.access_volume_z_score
      → (a : Assessment) × (evaluate e i ≡ some a)
  unfolding evaluate
  evaluate_total ht hz =
      bind-Succeeds (gather_factors e i) (assess e i)
        (unfold gather_factors in
          bind-Succeeds _ _ (device_signals-Succeeds _ ht)
            λ device. bind-Succeeds _ _ (behaviour_signals-Succeeds device hz) (λ b. (_, refl)))
        λ fs.
          unfold assess in bind-Succeeds (clamp (summed fs)) _ (clamp-Succeeds fs) (λ t. (_, refl))
