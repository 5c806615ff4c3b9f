-- ===== src/Risk/Signals.antt =====
-- What every signal function of the engine keeps: one rule for each way to build a factor list.
use netra.Prelude.{
  String, ◌≡◌, refl, Bool, true, false, Option, none, some, List, [], if◌then◌else◌, ℤ,
}
use mathlib.Core.Path.{subst}
use netra.Prelude.Double.{Double}
use netra.Risk.Model.{Dimension, Factor}
use netra.Risk.Digits.{◌>>=◌}
use netra.Risk.Engine.{
  Inputs, Engine, Sensitivity, add, identity_signals, trust_signal, device_signals, volume_signal,
  deviation_signals, behaviour_signals, network_signals, resource_signals, history_signals,
}
use netra.Risk.Evaluate.{gather_factors}

-- Where a computation returns, its result has the property.
pub record Returns {A : Type 0} (Q : A → Type 0) (o : Option A) : Type 0 where
  pub at : (a : A) → o ≡ some a → Q a

pub Returns-some : {A : Type 0} (Q : A → Type 0) (a : A) → Q a → Returns Q (some a)
Returns-some Q a h = record { at = λ b e. let p : a ≡ b = cc in subst Q p h }

pub Returns-bind :
    {A B : Type 0} {P : A → Type 0} {Q : B → Type 0} (o : Option A) (f : A → Option B)
    → Returns P o
    → ((a : A) → P a → Returns Q (f a))
    → Returns Q (o >>= f)
Returns-bind none f h k = record { at = λ b e. cc }
Returns-bind (some a) f h k = k a (h.at a refl)

pub Returns-after :
    {A B : Type 0} {Q : B → Type 0} (o : Option A) (f : A → Option B)
    → ((a : A) → Returns Q (f a))
    → Returns Q (o >>= f)
Returns-after none f k = record { at = λ b e. cc }
Returns-after (some a) f k = k a

module _ {W : Type 0} ⦃d : Double W⦄ (e : Engine W) (Q : List Factor → Type 0)
    (keeps : (dim : Dimension) (code label detail : String) (points : W) (fs : List Factor)
      → Q fs
      → Q (add e dim code label detail points fs)) where
  keeps-if : (b : Bool) (xs ys : List Factor) → Q xs → Q ys → Q (if b then xs else ys)
  keeps-if true xs ys hx hy = hx
  keeps-if false xs ys hx hy = hy

  Returns-if :
      (b : Bool) (x y : Option (List Factor))
      → Returns Q x
      → Returns Q y
      → Returns Q (if b then x else y)
  Returns-if true x y hx hy = hx
  Returns-if false x y hx hy = hy

  pub identity_signals-keeps :
      (i : Inputs W) (fs : List Factor) → Q fs → Q (identity_signals e i fs)
  unfolding identity_signals
  identity_signals-keeps i fs h = search (keeps-if, keeps)

  trust_signal-keeps : (t : Option ℤ) (fs : List Factor) → Q fs → Returns Q (trust_signal e t fs)
  unfolding trust_signal
  trust_signal-keeps none fs h = search (keeps, Returns-some)
  trust_signal-keeps (some t) fs h = search (Returns-if, keeps, Returns-some, Returns-after)

  pub device_signals-keeps :
      (i : Inputs W) (fs : List Factor) → Q fs → Returns Q (device_signals e i fs)
  unfolding device_signals
  device_signals-keeps i fs h =
      Returns-bind _ _ (trust_signal-keeps i.device_trust_score _ (search (keeps-if, keeps)))
        λ gs hs. Returns-some Q _ (search (keeps-if, keeps))

  volume_signal-keeps : (z : W) (fs : List Factor) → Q fs → Returns Q (volume_signal e z fs)
  unfolding volume_signal
  volume_signal-keeps z fs h = search (Returns-if, keeps, Returns-some, Returns-after)

  deviation_signals-keeps :
      (i : Inputs W) (fs : List Factor) → Q fs → Returns Q (deviation_signals e i fs)
  unfolding deviation_signals
  deviation_signals-keeps i fs h =
      Returns-bind _ _ (volume_signal-keeps i.access_volume_z_score _ (search (keeps-if, keeps)))
        λ gs hs. Returns-some Q _ (search (keeps-if, keeps))

  behaviour_signals-keeps :
      (i : Inputs W) (fs : List Factor) → Q fs → Returns Q (behaviour_signals e i fs)
  unfolding behaviour_signals
  behaviour_signals-keeps i fs h =
      Returns-if i.baseline_established _ _ (deviation_signals-keeps i fs h)
        (Returns-some Q _ (keeps _ _ _ _ _ fs h))

  network_signals-keeps : (i : Inputs W) (fs : List Factor) → Q fs → Q (network_signals e i fs)
  unfolding network_signals
  network_signals-keeps i fs h = search (keeps-if, keeps)

  resource_signals-keeps : (i : Inputs W) (fs : List Factor) → Q fs → Q (resource_signals e i fs)
  unfolding resource_signals
  resource_signals-keeps i fs h = go i.resource_sensitivity
    where
      go : (s : Sensitivity) → Q (resource_signals e (record i { resource_sensitivity = s }) fs)
      go Sensitivity.critical = keeps _ _ _ _ _ fs h
      go Sensitivity.sensitive = keeps _ _ _ _ _ fs h
      go _ = h

  history_signals-keeps : (i : Inputs W) (fs : List Factor) → Q fs → Q (history_signals e i fs)
  unfolding history_signals
  history_signals-keeps i fs h = search (keeps-if, keeps)

  -- What holds after the identity signals holds of the factors of the whole evaluation.
  pub gather_factors-keeps :
      (i : Inputs W) → Q (identity_signals e i []) → Returns Q (gather_factors e i)
  unfolding gather_factors
  gather_factors-keeps i h = Returns-bind _ _ (device_signals-keeps i _ h) λ device hd.
      Returns-bind _ _ (behaviour_signals-keeps i device hd) λ behaviour hb. Returns-some Q _ (
        history_signals-keeps i _
          (resource_signals-keeps i _ (network_signals-keeps i behaviour hb)))
