-- ===== src/Tests/Risk.antt =====
-- Sessions scored by backend/internal/risk/engine.go, with the double precision numbers exact in
-- tenths.
use netra.Prelude.{
  ℕ, ◌≡◌, refl, String, true, false, none, some, List, [], ◌∷◌, All, ℤ, pos, ◌+ℤ◌, ◌-ℤ◌, ◌*ℤ◌, ◌≤ℤ◌,
  quot, sum_by, arith,
}
use netra.Prelude.Double.{tenths_double}
use netra.Risk.Model.{
  for_dimension, Dimension, Factor, Assessment, default_thresholds, validate, default_weights,
}
use netra.Risk.Digits.{FitsText}
use netra.Risk.Engine.{
  Engine, Inputs, Sensitivity, add, identity_signals, trust_signal, device_signals, volume_signal,
  deviation_signals, behaviour_signals, network_signals, reached, resource_signals, history_signals,
}
use netra.Risk.Evaluate.{or_zero, gather_factors, evaluate}
use netra.Risk.Totality.{FitsTrust, evaluate_total}
use netra.Risk.Explanation.{evaluate_reconciles, evaluate_bounds}
use netra.Risk.Score.{contributed, contributed_to}
use netra.Risk.Codes.{has_negative, clamp_shows_negative}

abbrev pub engine : Engine ℤ
engine = record { weights = default_weights; thresholds = default_thresholds }

-- A session without attestation on a poorly trusted device that reads 4.1 standard deviations
-- more than usual.
abbrev pub suspicious : Inputs ℤ
suspicious = record {
  session_id = 1;
  user_id = 2;
  device_id = 3;
  now = 1000000000000000000;
  first_ever_session = false;
  session_attested = false;
  device_trust_score = some (pos 40);
  device_key_protection = "software";
  device_first_seen_for_user = false;
  device_enrolled_at = none;
  agent_last_heartbeat = some 999999999000000000;
  login_hour_typical = false;
  baseline_established = true;
  access_volume_z_score = pos 41;
  unfamiliar_application = false;
  anomaly_score = pos 0;
  network_familiar = true;
  network_known = true;
  resource_sensitivity = Sensitivity.sensitive;
  recent_incidents = pos 0;
  recent_denials = pos 0;
}

-- A first session without attestation, from a new device without posture, at an unusual time.
abbrev worst : Inputs ℤ
worst = record {
  session_id = 1;
  user_id = 2;
  device_id = 3;
  now = 1000000000000000000;
  first_ever_session = true;
  session_attested = false;
  device_trust_score = none;
  device_key_protection = "software";
  device_first_seen_for_user = true;
  device_enrolled_at = some 999999999000000000;
  agent_last_heartbeat = none;
  login_hour_typical = false;
  baseline_established = true;
  access_volume_z_score = pos 0;
  unfamiliar_application = true;
  anomaly_score = pos 10;
  network_familiar = false;
  network_known = true;
  resource_sensitivity = Sensitivity.internal;
  recent_incidents = pos 0;
  recent_denials = pos 4;
}

pub suspicious-FitsTrust : FitsTrust suspicious.device_trust_score
suspicious-FitsTrust = ground arith

pub suspicious-FitsText : FitsText suspicious.access_volume_z_score
unfolding ◌+ℤ◌ ◌-ℤ◌ ◌*ℤ◌ quot FitsText
suspicious-FitsText = (ground arith, ground arith)

evaluate_total_example : (a : Assessment) × (evaluate engine suspicious ≡ some a)
evaluate_total_example = evaluate_total engine suspicious suspicious-FitsTrust suspicious-FitsText

abbrev assessed : (a : Assessment) × (evaluate engine suspicious ≡ some a)
assessed = evaluate_total engine suspicious suspicious-FitsTrust suspicious-FitsText

evaluate_reconciles_example :
    (assessed.0.score ≡ contributed assessed.0.factors)
    × ((k : Dimension) → or_zero (assessed.0.dimensions k) ≡ contributed_to k assessed.0.factors)
evaluate_reconciles_example = evaluate_reconciles engine suspicious assessed.0 assessed.1

evaluate_bounds_example : (pos 0 ≤ℤ assessed.0.score) × (assessed.0.score ≤ℤ pos 100)
evaluate_bounds_example = evaluate_bounds engine suspicious assessed.0 assessed.1

defaults_valid : validate default_thresholds ≡ true
unfolding validate
defaults_valid = refl

worst-FitsText : FitsText worst.access_volume_z_score
unfolding ◌+ℤ◌ ◌-ℤ◌ ◌*ℤ◌ quot FitsText
worst-FitsText = (ground arith, ground arith)

abbrev worst_assessed : (a : Assessment) × (evaluate engine worst ≡ some a)
worst_assessed = evaluate_total engine worst tt worst-FitsText

abbrev scored : String → String → Dimension → ℕ → String → Factor
scored code label dimension points detail = record {
  code = code;
  label = label;
  dimension = dimension;
  contribution = pos points;
  detail = detail;
}

-- 145 points.
abbrev worst_factors : List Factor
worst_factors =
    scored "FIRST_SESSION" "First session for this account" Dimension.identity 8
      "no prior sessions to compare against"
    ∷ scored "UNATTESTED_SESSION" "Session lacks device attestation" Dimension.identity 30
        "established without cryptographic device proof"
    ∷ scored "NEW_DEVICE" "New device for this user" Dimension.device 20
        "this user has not worked from this device before"
    ∷ scored "RECENTLY_ENROLLED" "Recently enrolled device" Dimension.device 6
        "enrolled within the last 24 hours"
    ∷ scored "NO_POSTURE" "Device posture unknown" Dimension.device 12
        "the device has not reported its security posture"
    ∷ scored "SOFTWARE_KEY" "Software-protected device key" Dimension.device 3
        "the device key is not hardware-backed"
    ∷ scored "AGENT_SILENT" "Agent not reporting" Dimension.device 15
        "no heartbeat within the last 15 minutes"
    ∷ scored "UNUSUAL_LOGIN_TIME" "Unusual sign-in time" Dimension.behaviour 15
        "outside the hours this user normally works"
    ∷ scored "UNFAMILIAR_APPLICATION" "Unfamiliar application" Dimension.behaviour 6
        "this user has not used this application before"
    ∷ scored "BEHAVIOUR_ANOMALY" "Behavioural anomaly" Dimension.behaviour 10
        "the anomaly model flagged this session"
    ∷ scored "UNUSUAL_NETWORK" "Unusual network" Dimension.network 12
        "this user has not connected from this network before"
    ∷ scored "REPEATED_DENIALS" "Repeated access denials" Dimension.history 8
        "several access attempts were refused recently"
    ∷ []

worst_gathered : gather_factors engine worst ≡ some worst_factors
unfolding gather_factors add identity_signals trust_signal device_signals volume_signal
    deviation_signals behaviour_signals network_signals reached resource_signals history_signals
    for_dimension ◌+ℤ◌ ◌-ℤ◌ ◌*ℤ◌ quot
worst_gathered = refl

worst_in_range : All (λ f. f.contribution ≤ℤ pos 30) worst_factors
worst_in_range = ground arith

worst_exceeds : ¬ (contributed worst_factors ≤ℤ pos 100 +ℤ pos 30)
unfolding sum_by ◌+ℤ◌
worst_exceeds h = ground arith

clamp_shows_negative_example : has_negative worst_assessed.0.factors ≡ true
clamp_shows_negative_example =
    clamp_shows_negative engine worst (pos 30) worst_factors worst_assessed.0 (omega arith)
      worst_gathered worst_in_range worst_exceeds worst_assessed.1
