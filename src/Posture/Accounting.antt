-- ===== src/Posture/Accounting.antt =====
-- How the score is made of the factors.
use mathlib.Core.Path.{subst}
use netra.Prelude.{
  ℕ, ◌-◌, ◌*◌, String, ◌≡◌, refl, sym, ap, ◌∙◌, Bool, true, false, ◌&&◌, ◌||◌, Option, none, some,
  List, [], ◌∷◌, any, All, ℤ, pos, negsuc, ◌+ℤ◌, ◌*ℤ◌, ◌≤ℤ◌, quot, ltb_ℤ, eqb_ℤ, sum_by, int_laws,
  ◌≤◌, ◌+₆₄◌, ◌*₆₄◌, to_int64, to_int64-pos, to_int64_fits, max_int64, +ℤ_assoc, eqb_ℤ→eq, arith,
  Unicode, Bool-cases, Option-cases, inl, inr, if_true, if_false,
}
use netra.Posture.Model.{
  Signals, DeviceContext, Source, verified, reported, Factor, Weights, total, weights_of,
  validate_weights, normalize,
}
use netra.Posture.Score.{
  device_identity_factor, agent_reporting_factor, agent_health_factor, os_current_factor,
  os_supported_factor, minimum_os_version, reported_factor, factors_of, add_up, is_backend_fact,
  clamp, evaluate,
}

-- A factor's points are between 0 and its maximum, which is the given one.
abbrev pub InRange : ℤ → Factor → Type 0
InRange m f = (f.maximum ≡ m) × (pos 0 ≤ℤ f.contribution) × (f.contribution ≤ℤ m)

thrice : (n : ℕ) → pos n *ℤ pos 3 ≡ pos (3 * n)
unfolding ◌*ℤ◌
thrice n = ground arith

triple : (n : ℕ) → n ≤ 100 → pos n *₆₄ pos 3 ≡ pos (3 * n)
triple n h = ap to_int64 (thrice n) ∙ to_int64-pos (3 * n) (omega arith)

three_fifths :
    (n : ℕ) → n ≤ 100 → (pos 0 ≤ℤ quot (pos n *₆₄ pos 3) 5) × (quot (pos n *₆₄ pos 3) 5 ≤ℤ pos n)
unfolding quot
three_fifths n h = rw (triple n h) (ground arith)

half : (n : ℕ) → (pos 0 ≤ℤ quot (pos n) 2) × (quot (pos n) 2 ≤ℤ pos n)
unfolding quot
half n = ground arith

device_identity_factor-InRange :
    ⦃u : Unicode⦄
    → (c : DeviceContext) (n : ℕ) → n ≤ 100
    → InRange (pos n) (device_identity_factor c (pos n))
unfolding device_identity_factor
device_identity_factor-InRange ⦃u⦄ c n h = ground (arith, three_fifths n h)

-- The agent's factor and the system's start from a factor without points, given by its texts.
agent_reporting_factor-InRange :
    (c : DeviceContext) (since n : ℕ) (code label detail : String) (source : Source)
    → InRange (pos n) (
        agent_reporting_factor c since (record {
          code = code;
          label = label;
          contribution = pos 0;
          maximum = pos n;
          source = source;
          detail = detail;
        }))
unfolding agent_reporting_factor
agent_reporting_factor-InRange c since n code label detail source = ground (arith, half n)

agent_health_factor-InRange :
    (c : DeviceContext) (n : ℕ) → InRange (pos n) (agent_health_factor c (pos n))
unfolding agent_health_factor
agent_health_factor-InRange c n = elim (Option-cases c.last_heartbeat_at) [
  | inl e ↦ rw e (refl, omega arith, omega arith)
  | inr (last, e) ↦
      rw e (
        agent_reporting_factor-InRange c (c.now - last) n "AGENT_HEALTH" "Agent health" "" verified)
]

os_current_factor-InRange :
    (s : Signals) (n : ℕ) (o : Option String) (code label detail : String) (source : Source)
    → InRange (pos n) (
        os_current_factor s o (record {
          code = code;
          label = label;
          contribution = pos 0;
          maximum = pos n;
          source = source;
          detail = detail;
        }))
unfolding os_current_factor
os_current_factor-InRange s n none code label detail source = ground arith
os_current_factor-InRange s n (some minimum) code label detail source = ground arith

os_supported_factor-InRange :
    ⦃u : Unicode⦄ → (s : Signals) (n : ℕ) → InRange (pos n) (os_supported_factor s (pos n))
unfolding os_supported_factor
os_supported_factor-InRange ⦃u⦄ s n =
    os_current_factor-InRange s n (minimum_os_version (normalize s.os_name)) "OS_SUPPORTED"
      "Operating system currency" "" reported

reported_factor-InRange :
    (code label : String) (value : Option Bool) (n : ℕ) (met unmet : String)
    → InRange (pos n) (reported_factor code label value (pos n) met unmet)
unfolding reported_factor
reported_factor-InRange code label none n met unmet = ground arith
reported_factor-InRange code label (some true) n met unmet = ground arith
reported_factor-InRange code label (some false) n met unmet = ground arith

-- A weight from 0 to 100.
unfoldable pub Percentage : ℤ → Type 0
Percentage m = (n : ℕ) × (m ≡ pos n) × (n ≤ 100)

to_Percentage : (m : ℤ) → pos 0 ≤ℤ m → m ≤ℤ pos 100 → Percentage m
unfolding Percentage
to_Percentage (pos n) h le = (n, refl, omega arith)
to_Percentage (negsuc n) h le = absurd (omega arith)

-- Factors in range, one for each weight in order.
AllInRange : List ℤ → List Factor → Type 0
AllInRange [] [] = Unit
AllInRange [] (f ∷ fs) = ⊥
AllInRange (m ∷ ms) [] = ⊥
AllInRange (m ∷ ms) (f ∷ fs) = InRange m f × AllInRange ms fs

factors_of-AllInRange :
    ⦃u : Unicode⦄
    → (s : Signals) (c : DeviceContext) (w : Weights) → All Percentage (weights_of w)
    → AllInRange (weights_of w) (factors_of s c w)
unfolding factors_of weights_of AllInRange Percentage
factors_of-AllInRange ⦃u⦄ s c w
      (
        (a, ea, la),
        (
          (b, eb, _),
          ((d, ed, _), ((e, ee, _), ((f, ef, _), ((g, eg, _), ((h, eh, _), ((i, ei, _), end)))))),
        ),
      ) =
    rw (ea, eb, ed, ee, ef, eg, eh, ei)
      (
        device_identity_factor-InRange c a la,
        (
          agent_health_factor-InRange c b,
          (
            reported_factor-InRange _ _ s.disk_encryption d _ _,
            (
              reported_factor-InRange _ _ s.secure_boot e _ _,
              (
                os_supported_factor-InRange s f,
                (
                  reported_factor-InRange _ _ s.firewall g _ _,
                  (
                    reported_factor-InRange _ _ s.screen_lock h _ _,
                    (reported_factor-InRange _ _ s.anti_malware i _ _, tt),
                  ),
                ),
              ),
            ),
          ),
        ),
      )

abbrev itself : ℤ → ℤ
itself m = m

sum_by-AllInRange :
    (ms : List ℤ) (fs : List Factor)
    → AllInRange ms fs
    → (pos 0 ≤ℤ sum_by Factor.contribution fs) × (sum_by Factor.contribution fs ≤ℤ sum_by itself ms)
unfolding AllInRange sum_by
sum_by-AllInRange [] [] h = (omega arith, omega arith)
sum_by-AllInRange [] (f ∷ fs) h = elim h [ ]
sum_by-AllInRange (m ∷ ms) [] h = elim h [ ]
sum_by-AllInRange (m ∷ ms) (f ∷ fs) ((e, low, high), hs) =
    let (lows, highs) = sum_by-AllInRange ms fs hs in (omega int_laws, omega int_laws)

-- Numbers of at least 0 that make a sum are each at most the sum.
abbrev IsPositive : ℤ → Type 0
IsPositive m = pos 0 ≤ℤ m

sum_by-positive : (ms : List ℤ) → All IsPositive ms → pos 0 ≤ℤ sum_by itself ms
unfolding sum_by
sum_by-positive [] h = omega arith
sum_by-positive (m ∷ ms) (low, lows) =
    let rest = sum_by-positive ms lows in omega (int_laws, low, rest)

weights-Percentage :
    (ms : List ℤ) → All IsPositive ms → sum_by itself ms ≤ℤ pos 100 → All Percentage ms
unfolding sum_by
weights-Percentage [] h le = tt
weights-Percentage (m ∷ ms) (low, lows) le =
    let rest = sum_by-positive ms lows in
    (
      to_Percentage m low (omega (int_laws, le, rest)),
      weights-Percentage ms lows (omega (int_laws, le, low)),
    )

All-IsPositive : (ms : List ℤ) → any (λ value. ltb_ℤ value (pos 0)) ms ≡ false → All IsPositive ms
All-IsPositive [] h = tt
All-IsPositive (m ∷ ms) h = (
  at_least_zero m (first_false (ltb_ℤ m (pos 0)) _ h),
  All-IsPositive ms (second_false (ltb_ℤ m (pos 0)) _ h),
)
  where
    first_false : (a b : Bool) → (a || b) ≡ false → a ≡ false
    first_false a b h = ground arith

    second_false : (a b : Bool) → (a || b) ≡ false → b ≡ false
    second_false a b h = ground arith

    at_least_zero : (m : ℤ) → ltb_ℤ m (pos 0) ≡ false → pos 0 ≤ℤ m
    at_least_zero m h = ground arith

-- The sum of the weights as numbers without a bound.
abbrev pub true_total : Weights → ℤ
true_total w = sum_by itself (weights_of w)

-- The partial sums of a list, each wrapped around.
add_all : ℤ → List ℤ → ℤ
add_all acc [] = acc
add_all acc (m ∷ ms) = add_all (acc +₆₄ m) ms

add_all-fits :
    (acc : ℤ) (ms : List ℤ)
    → pos 0 ≤ℤ acc
    → All IsPositive ms
    → acc +ℤ sum_by itself ms ≤ℤ max_int64
    → add_all acc ms ≡ acc +ℤ sum_by itself ms
unfolding add_all sum_by
add_all-fits acc [] low h le = omega int_laws
add_all-fits acc (m ∷ ms) low (low_m, lows) le =
    let rest = sum_by-positive ms lows in
    let low' : pos 0 ≤ℤ acc +ℤ m = omega (int_laws, low, low_m) in
    let fits : acc +ℤ m ≤ℤ max_int64 = omega (int_laws, rest, le) in
    let le' : acc +ℤ m +ℤ sum_by itself ms ≤ℤ max_int64 = omega (int_laws, le) in
    ap (λ x. add_all x ms) (to_int64_fits (acc +ℤ m) low' fits)
    ∙ add_all-fits (acc +ℤ m) ms low' lows le'
    ∙ +ℤ_assoc acc m (sum_by itself ms)

total-true_total :
    (w : Weights)
    → All IsPositive (weights_of w)
    → true_total w ≤ℤ max_int64
    → total w ≡ true_total w
unfolding total weights_of add_all sum_by
total-true_total w (low, lows) le =
    add_all-fits w.device_identity
      (w.agent_health ∷ w.disk_encryption ∷ w.secure_boot ∷ w.os_supported ∷ w.firewall
        ∷ w.screen_lock ∷ w.anti_malware ∷ [])
      low lows le

pub valid_weights :
    (w : Weights)
    → validate_weights w ≡ none
    → true_total w ≤ℤ max_int64
    → All Percentage (weights_of w) × (true_total w ≡ pos 100)
unfolding validate_weights
valid_weights w h fits = elim (Bool-cases (any (λ value. ltb_ℤ value (pos 0)) (weights_of w))) [
  | inl e ↦ some_not_none (sym (if_true _ _ _ e) ∙ h)
  | inr e ↦ elim (Bool-cases (eqb_ℤ (total w) (pos 100))) [
    | inl f ↦
        let positive = All-IsPositive (weights_of w) e in
        let hundred = sym (total-true_total w positive fits) ∙ eqb_ℤ→eq (total w) (pos 100) f in
        (weights-Percentage (weights_of w) positive (at_most (true_total w) hundred), hundred)
    | inr f ↦ some_not_none (sym (if_false _ _ _ f) ∙ sym (if_false _ _ _ e) ∙ h)
  ]
]
  where
    some_not_none : {A : Type 0} {P : Type 0} {a : A} → some a ≡ none → P
    some_not_none h = cc

    at_most : (n : ℤ) → n ≡ pos 100 → n ≤ℤ pos 100
    at_most n h = subst (λ m. m ≤ℤ pos 100) (sym h) (omega arith)

-- Contributions in range are added without wrapping around.
add_up-score :
    (score : ℤ) (v : Bool) (ms : List ℤ) (fs : List Factor)
    → pos 0 ≤ℤ score
    → AllInRange ms fs
    → score +ℤ sum_by itself ms ≤ℤ pos 100
    → (add_up score v fs).0 ≡ score +ℤ sum_by Factor.contribution fs
unfolding add_up sum_by AllInRange
add_up-score score v [] [] low h le = omega int_laws
add_up-score score v [] (f ∷ fs) low h le = elim h [ ]
add_up-score score v (m ∷ ms) [] low h le = elim h [ ]
add_up-score score v (m ∷ ms) (f ∷ fs) low ((e, nonneg, upto), hs) le =
    let (rest, above) = sum_by-AllInRange ms fs hs in
    let low' : pos 0 ≤ℤ score +ℤ f.contribution = omega (int_laws, low, nonneg) in
    let le' : score +ℤ f.contribution +ℤ sum_by itself ms ≤ℤ pos 100 = omega (int_laws, upto, le) in
    let fits : score +ℤ f.contribution ≤ℤ max_int64 = omega (int_laws, rest, above, le') in
    ap (λ x. (add_up x (v && is_backend_fact f.source) fs).0)
      (to_int64_fits (score +ℤ f.contribution) low' fits)
    ∙ add_up-score (score +ℤ f.contribution) _ ms fs low' hs le'
    ∙ +ℤ_assoc score f.contribution (sum_by Factor.contribution fs)

-- The loop of Evaluate gives the sum of the contributions, from 0 to 100.
pub factors_of-score :
    ⦃u : Unicode⦄
    → (s : Signals) (c : DeviceContext) (w : Weights) → All Percentage (weights_of w)
    → true_total w ≡ pos 100
    → ((add_up (pos 0) true (factors_of s c w)).0 ≡ sum_by Factor.contribution (factors_of s c w))
      × (pos 0 ≤ℤ sum_by Factor.contribution (factors_of s c w))
      × (sum_by Factor.contribution (factors_of s c w) ≤ℤ pos 100)
factors_of-score ⦃u⦄ s c w weights hundred =
    let in_range = factors_of-AllInRange s c w weights in
    let (low, high) = sum_by-AllInRange (weights_of w) (factors_of s c w) in_range in
    (
      add_up-score (pos 0) true (weights_of w) (factors_of s c w) (omega arith) in_range
            (subst (λ t. pos 0 +ℤ t ≤ℤ pos 100) (sym hundred) (omega int_laws))
          ∙ zero_plus (sum_by Factor.contribution (factors_of s c w)),
      low,
      subst (λ t. sum_by Factor.contribution (factors_of s c w) ≤ℤ t) hundred high,
    )
  where
    zero_plus : (n : ℤ) → pos 0 +ℤ n ≡ n
    zero_plus n = omega int_laws

clamp_id : (n : ℤ) → pos 0 ≤ℤ n → n ≤ℤ pos 100 → clamp n ≡ n
clamp_id n low high = ground arith

-- With weights that pass Validate and whose sum fits in an int, the score is exactly the sum of the
-- factors' contributions.
pub evaluate_sums :
    ⦃u : Unicode⦄
    → (s : Signals) (c : DeviceContext) (w : Weights) → validate_weights w ≡ none
    → true_total w ≤ℤ max_int64
    → (evaluate s c w).score ≡ sum_by Factor.contribution (evaluate s c w).factors
unfolding evaluate
evaluate_sums ⦃u⦄ s c w h fits =
    let (weights, hundred) = valid_weights w h fits in
    let (sum, low, high) = factors_of-score s c w weights hundred in
    ap clamp sum ∙ clamp_id (sum_by Factor.contribution (factors_of s c w)) low high

add_up-false : (score : ℤ) (fs : List Factor) → (add_up score false fs).1 ≡ false
unfolding add_up
add_up-false score [] = refl
add_up-false score (f ∷ fs) = add_up-false (score +₆₄ f.contribution) fs

reported_factor-source :
    (code label : String) (value : Option Bool) (m : ℤ) (met unmet : String)
    → (reported_factor code label value m met unmet).source ≡ reported
unfolding reported_factor
reported_factor-source code label none m met unmet = refl
reported_factor-source code label (some true) m met unmet = refl
reported_factor-source code label (some false) m met unmet = refl

-- No assessment that `Evaluate` makes is marked as verified, whatever the signals, the device and the weights.
pub evaluate_never_verified :
    ⦃u : Unicode⦄
    → (s : Signals) (c : DeviceContext) (w : Weights) → (evaluate s c w).is_verified ≡ false
unfolding evaluate factors_of add_up
evaluate_never_verified ⦃u⦄ s c w =
    rw
      (reported_factor-source "ANTI_MALWARE" "Malware protection" s.anti_malware w.anti_malware
        "real-time protection is active" "real-time protection is not active")
      (and_false _)
  where
    and_false : (a : Bool) → (a && false) ≡ false
    and_false a = ground arith
