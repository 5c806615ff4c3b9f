-- ===== src/Posture/Monotone.antt =====
-- What a signal is worth that is met, not met, or not reported.
use mathlib.Core.Path.{subst}
use netra.Prelude.{
  String, ◌≡◌, refl, ap, ◌∙◌, Bool, true, false, Option, none, some, List, [], ◌∷◌, All, ℤ, pos,
  ◌≤ℤ◌, max_int64, sum_by, int_laws, arith, Unicode,
}
use netra.Posture.Model.{
  Signals, DeviceContext, reported, Factor, Weights, weights_of, validate_weights, normalize,
}
use netra.Posture.Score.{
  reported_factor, os_supported_factor, os_current_factor, minimum_os_version, factors_of, clamp,
  evaluate,
}
use netra.Posture.Accounting.{Percentage, true_total, valid_weights, factors_of-score}

-- A signal that is met stays met.
abbrev pub StaysMet : Option Bool → Option Bool → Type 0
StaysMet o o' = o ≡ some true → o' ≡ some true

-- The same report of the operating system, with each signal that was met still met.
pub record Improves (s s' : Signals) : Type 0 where
  pub os_name : s.os_name ≡ s'.os_name
  pub os_version : s.os_version ≡ s'.os_version
  pub disk_encryption : StaysMet s.disk_encryption s'.disk_encryption
  pub secure_boot : StaysMet s.secure_boot s'.secure_boot
  pub firewall : StaysMet s.firewall s'.firewall
  pub screen_lock : StaysMet s.screen_lock s'.screen_lock
  pub anti_malware : StaysMet s.anti_malware s'.anti_malware

reported_factor-monotone :
    (code label : String) (o o' : Option Bool) (m : ℤ) (met unmet : String)
    → Percentage m
    → StaysMet o o'
    → (reported_factor code label o m met unmet).contribution
      ≤ℤ (reported_factor code label o' m met unmet).contribution
unfolding reported_factor Percentage
reported_factor-monotone code label none none m met unmet (n, e, _) h = omega arith
reported_factor-monotone code label none (some true) m met unmet (n, e, _) h = rw e (omega arith)
reported_factor-monotone code label none (some false) m met unmet (n, e, _) h = omega arith
reported_factor-monotone code label (some false) none m met unmet (n, e, _) h = omega arith
reported_factor-monotone code label (some false) (some true) m met unmet (n, e, _) h =
    rw e (omega arith)
reported_factor-monotone code label (some false) (some false) m met unmet (n, e, _) h = omega arith
reported_factor-monotone code label (some true) o' m met unmet (n, e, _) h =
    rw (h refl) (omega arith)

-- Factors in order, each with at most the points of the other.
AllBelow : List Factor → List Factor → Type 0
AllBelow [] [] = Unit
AllBelow [] (g ∷ gs) = ⊥
AllBelow (f ∷ fs) [] = ⊥
AllBelow (f ∷ fs) (g ∷ gs) = (f.contribution ≤ℤ g.contribution) × AllBelow fs gs

sum_by-AllBelow :
    (fs gs : List Factor)
    → AllBelow fs gs
    → sum_by Factor.contribution fs ≤ℤ sum_by Factor.contribution gs
unfolding AllBelow sum_by
sum_by-AllBelow [] [] h = omega arith
sum_by-AllBelow [] (g ∷ gs) h = elim h [ ]
sum_by-AllBelow (f ∷ fs) [] h = elim h [ ]
sum_by-AllBelow (f ∷ fs) (g ∷ gs) (h, hs) = let rest = sum_by-AllBelow fs gs hs in omega int_laws

os_current_factor-same :
    (s s' : Signals) (o : Option String) (f : Factor)
    → s.os_version ≡ s'.os_version
    → (os_current_factor s o f).contribution ≡ (os_current_factor s' o f).contribution
unfolding os_current_factor
os_current_factor-same s s' none f h = refl
os_current_factor-same s s' (some minimum) f h = rw h (ground arith)

abbrev unawarded : ℤ → Factor
unawarded m = record {
  code = "OS_SUPPORTED";
  label = "Operating system currency";
  contribution = pos 0;
  maximum = m;
  source = reported;
  detail = "";
}

os_supported_factor-same :
    ⦃u : Unicode⦄
    → (s s' : Signals) (m : ℤ) → Improves s s'
    → (os_supported_factor s m).contribution ≤ℤ (os_supported_factor s' m).contribution
unfolding os_supported_factor
os_supported_factor-same ⦃u⦄ s s' m h =
    by_eq (os_supported_factor s m).contribution (os_supported_factor s' m).contribution (
      ap
        (λ (name : String).
          (os_current_factor s (minimum_os_version (normalize name)) (unawarded m)).contribution)
        h.os_name
      ∙ os_current_factor-same s s' (minimum_os_version (normalize s'.os_name)) (unawarded m)
          h.os_version)
  where
    by_eq : (a b : ℤ) → a ≡ b → a ≤ℤ b
    by_eq a b h = subst (λ c. a ≤ℤ c) h (omega arith)

factors_of-AllBelow :
    ⦃u : Unicode⦄
    → (s s' : Signals) (c : DeviceContext) (w : Weights) → All Percentage (weights_of w)
    → Improves s s'
    → AllBelow (factors_of s c w) (factors_of s' c w)
unfolding factors_of AllBelow weights_of
factors_of-AllBelow ⦃u⦄ s s' c w (_, (_, (d, (e, (_, (f, (g, (i, _)))))))) h = (
  omega arith,
  (
    omega arith,
    (
      reported_factor-monotone _ _ _ _ _ _ _ d h.disk_encryption,
      (
        reported_factor-monotone _ _ _ _ _ _ _ e h.secure_boot,
        (
          os_supported_factor-same s s' w.os_supported h,
          (
            reported_factor-monotone _ _ _ _ _ _ _ f h.firewall,
            (
              reported_factor-monotone _ _ _ _ _ _ _ g h.screen_lock,
              (reported_factor-monotone _ _ _ _ _ _ _ i h.anti_malware, tt),
            ),
          ),
        ),
      ),
    ),
  ),
)

clamp_monotone : (a b : ℤ) → a ≤ℤ b → clamp a ≤ℤ clamp b
clamp_monotone a b h = ground arith

-- With weights that pass Validate and whose sum fits in an int, a report in which every met signal
-- is still met, on the same system and device, scores at least as much.
pub evaluate_monotone :
    ⦃u : Unicode⦄
    → (s s' : Signals) (c : DeviceContext) (w : Weights) → validate_weights w ≡ none
    → true_total w ≤ℤ max_int64
    → Improves s s'
    → (evaluate s c w).score ≤ℤ (evaluate s' c w).score
unfolding evaluate
evaluate_monotone ⦃u⦄ s s' c w v fits h =
    let (weights, hundred) = valid_weights w v fits in
    let (sum, _, _) = factors_of-score s c w weights hundred in
    let (sum', _, _) = factors_of-score s' c w weights hundred in
    rw (sum, sum')
      (clamp_monotone (sum_by Factor.contribution (factors_of s c w))
        (sum_by Factor.contribution (factors_of s' c w))
        (sum_by-AllBelow (factors_of s c w) (factors_of s' c w)
          (factors_of-AllBelow s s' c w weights h)))

-- A signal that is not reported, read as one that is not met.
abbrev pub as_unmet : Option Bool → Option Bool
as_unmet none = some false
as_unmet (some b) = some b

abbrev pub all_unmet : Signals → Signals
all_unmet s = record s {
  disk_encryption = as_unmet s.disk_encryption;
  secure_boot = as_unmet s.secure_boot;
  firewall = as_unmet s.firewall;
  screen_lock = as_unmet s.screen_lock;
  anti_malware = as_unmet s.anti_malware;
}

met_unmet : (o : Option Bool) → StaysMet o (as_unmet o)
met_unmet none h = cc
met_unmet (some b) h = h

unmet_met : (o : Option Bool) → StaysMet (as_unmet o) o
unmet_met none h = cc
unmet_met (some b) h = h

to_unmet : (s : Signals) → Improves s (all_unmet s)
to_unmet s = record {
  os_name = refl;
  os_version = refl;
  disk_encryption = met_unmet s.disk_encryption;
  secure_boot = met_unmet s.secure_boot;
  firewall = met_unmet s.firewall;
  screen_lock = met_unmet s.screen_lock;
  anti_malware = met_unmet s.anti_malware;
}

from_unmet : (s : Signals) → Improves (all_unmet s) s
from_unmet s = record {
  os_name = refl;
  os_version = refl;
  disk_encryption = unmet_met s.disk_encryption;
  secure_boot = unmet_met s.secure_boot;
  firewall = unmet_met s.firewall;
  screen_lock = unmet_met s.screen_lock;
  anti_malware = unmet_met s.anti_malware;
}

-- With weights that pass Validate and whose sum fits in an int, signals that are not reported score
-- exactly as if they were reported as not met.
pub evaluate_unreported :
    ⦃u : Unicode⦄
    → (s : Signals) (c : DeviceContext) (w : Weights) → validate_weights w ≡ none
    → true_total w ≤ℤ max_int64
    → (evaluate s c w).score ≡ (evaluate (all_unmet s) c w).score
evaluate_unreported ⦃u⦄ s c w v fits =
    antisym (evaluate s c w).score (evaluate (all_unmet s) c w).score
      (evaluate_monotone s (all_unmet s) c w v fits (to_unmet s))
      (evaluate_monotone (all_unmet s) s c w v fits (from_unmet s))
  where
    antisym : (a b : ℤ) → a ≤ℤ b → b ≤ℤ a → a ≡ b
    antisym a b h k = omega int_laws
