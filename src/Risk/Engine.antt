-- ===== src/Risk/Engine.antt =====
-- backend/internal/risk/engine.go: the inputs, the signals and Evaluate. A panic of the number
-- formatting is none.
use netra.Prelude.{
  ℕ, ◌*◌, ◌-◌, String, Bool, true, false, not, Option, none, some, List, [], ◌∷◌, ◌++◌, ltb, ℤ, pos,
  ◌-ℤ◌, ltb_ℤ, leb_ℤ, ◌==ₛ◌, if◌then◌else◌,
}
use netra.Prelude.Double.{Double}
use netra.Risk.Model.{Time, Uuid, Dimension, Thresholds, Weights, for_dimension, Factor}
use netra.Risk.Digits.{◌>>=◌, format_trust, format_z_score}

pub data Sensitivity : Type 0 where
  public internal sensitive critical : Sensitivity

pub record Inputs (W : Type 0) : Type 0 where
  pub session_id : Uuid
  pub user_id : Uuid
  pub device_id : Uuid
  pub now : Time
  pub first_ever_session : Bool
  pub session_attested : Bool
  pub device_trust_score : Option ℤ
  pub device_key_protection : String
  pub device_first_seen_for_user : Bool
  pub device_enrolled_at : Option Time
  pub agent_last_heartbeat : Option Time
  pub login_hour_typical : Bool
  pub baseline_established : Bool
  pub access_volume_z_score : W
  pub unfamiliar_application : Bool
  pub anomaly_score : W
  pub network_familiar : Bool
  pub network_known : Bool
  pub resource_sensitivity : Sensitivity
  pub recent_incidents : ℤ
  pub recent_denials : ℤ

pub record Engine (W : Type 0) : Type 0 where
  pub weights : Weights W
  pub thresholds : Thresholds

-- Nanoseconds. `now - t` stops at 0 for a time t in the future, where Go's difference is negative;
-- the tests below answer alike for both.
abbrev minute : ℕ
minute = 60000000000

abbrev enrolled_recently : Time → Option Time → Bool
enrolled_recently now none = false
enrolled_recently now (some enrolled) = ltb (now - enrolled) (24 * 60 * minute)

abbrev agent_silent : Time → Option Time → Bool
agent_silent now none = true
agent_silent now (some heartbeat) = ltb (15 * minute) (now - heartbeat)

module _ {W : Type 0} ⦃d : Double W⦄ where
  -- The points of a factor after the dimension's weight: int(points * weight + 0.5).
  abbrev pub weighted : Engine W → Dimension → W → ℤ
  weighted e dim points = d.trunc (d.add (d.mul points (for_dimension e.weights dim)) (d.tenths 5))

  -- The closure `add`, on the list of factors so far.
  unfoldable pub add :
      Engine W → Dimension → String → String → String → W → List Factor → List Factor
  add e dim code label detail points factors =
      if leb_ℤ (weighted e dim points) (pos 0)
      then factors
      else factors
        ++ record {
          code = code;
          label = label;
          dimension = dim;
          contribution = weighted e dim points;
          detail = detail;
        }
          ∷ []

  abbrev whole : ℕ → W
  whole n = d.of_int (pos n)

  unfoldable pub identity_signals : Engine W → Inputs W → List Factor → List Factor
  identity_signals e inputs factors =
      let seen =
        if inputs.first_ever_session
        then add e Dimension.identity "FIRST_SESSION" "First session for this account"
            "no prior sessions to compare against" (whole 8) factors
        else factors in
      if inputs.session_attested
      then seen
      else add e Dimension.identity "UNATTESTED_SESSION" "Session lacks device attestation"
          "established without cryptographic device proof" (whole 30) seen

  -- min(float64(70 - trust) * 0.4, 20), as the code computes it.
  trust_points : ℤ → W
  trust_points trust =
      let points = d.mul (d.of_int (pos 70 -ℤ trust)) (d.tenths 4) in
      if d.lt (whole 20) points then whole 20 else points

  low_trust : Engine W → ℤ → List Factor → Option (List Factor)
  unfolding trust_points
  low_trust e trust factors = do
    detail ← format_trust trust
    some (
        add e Dimension.device "LOW_DEVICE_TRUST" "Low device trust" detail (trust_points trust)
          factors)

  unfoldable pub trust_signal : Engine W → Option ℤ → List Factor → Option (List Factor)
  unfolding low_trust
  trust_signal e none factors = some (
      add e Dimension.device "NO_POSTURE" "Device posture unknown"
        "the device has not reported its security posture" (whole 12) factors)
  trust_signal e (some trust) factors =
      if ltb_ℤ trust (pos 70) then low_trust e trust factors else some factors

  unfoldable pub device_signals : Engine W → Inputs W → List Factor → Option (List Factor)
  device_signals e inputs factors = do
    let seen =
        if inputs.device_first_seen_for_user
        then add e Dimension.device "NEW_DEVICE" "New device for this user"
            "this user has not worked from this device before" (whole 20) factors
        else factors
    let enrolled =
        if enrolled_recently inputs.now inputs.device_enrolled_at
        then add e Dimension.device "RECENTLY_ENROLLED" "Recently enrolled device"
            "enrolled within the last 24 hours" (whole 6) seen
        else seen
    trusted ← trust_signal e inputs.device_trust_score enrolled
    let protected =
        if inputs.device_key_protection ==ₛ "software"
        then add e Dimension.device "SOFTWARE_KEY" "Software-protected device key"
            "the device key is not hardware-backed" (whole 3) trusted
        else trusted
    some (
        if agent_silent inputs.now inputs.agent_last_heartbeat
        then add e Dimension.device "AGENT_SILENT" "Agent not reporting"
            "no heartbeat within the last 15 minutes" (whole 15) protected
        else protected)

  -- min(12 + (z - 3) * 4, 22), as the code computes it.
  volume_points : W → W
  volume_points z =
      let points = d.add (whole 12) (d.mul (d.sub z (whole 3)) (whole 4)) in
      if d.lt (whole 22) points then whole 22 else points

  abnormal_volume : Engine W → W → List Factor → Option (List Factor)
  unfolding volume_points
  abnormal_volume e z factors = do
    detail ← format_z_score z
    some (
        add e Dimension.behaviour "ABNORMAL_ACCESS_VOLUME" "Abnormal access volume" detail
          (volume_points z) factors)

  unfoldable pub volume_signal : Engine W → W → List Factor → Option (List Factor)
  unfolding abnormal_volume
  volume_signal e z factors = if d.le (whole 3) z then abnormal_volume e z factors else some factors

  -- The part of `behaviourSignals` behind the early return.
  unfoldable pub deviation_signals : Engine W → Inputs W → List Factor → Option (List Factor)
  deviation_signals e inputs factors = do
    let timed =
        if inputs.login_hour_typical
        then factors
        else add e Dimension.behaviour "UNUSUAL_LOGIN_TIME" "Unusual sign-in time"
            "outside the hours this user normally works" (whole 15) factors
    volume ← volume_signal e inputs.access_volume_z_score timed
    let applications =
        if inputs.unfamiliar_application
        then add e Dimension.behaviour "UNFAMILIAR_APPLICATION" "Unfamiliar application"
            "this user has not used this application before" (whole 6) volume
        else volume
    some (
        if d.lt (d.tenths 5) inputs.anomaly_score
        then add e Dimension.behaviour "BEHAVIOUR_ANOMALY" "Behavioural anomaly"
            "the anomaly model flagged this session"
            (d.mul (d.sub inputs.anomaly_score (d.tenths 5)) (whole 20)) applications
        else applications)

  unfoldable pub behaviour_signals : Engine W → Inputs W → List Factor → Option (List Factor)
  behaviour_signals e inputs factors =
      if inputs.baseline_established
      then deviation_signals e inputs factors
      else some (
          add e Dimension.behaviour "NO_BASELINE" "No behavioural baseline"
            "not enough history to judge this session against" (whole 5) factors)

  unfoldable pub network_signals : Engine W → Inputs W → List Factor → List Factor
  network_signals e inputs factors =
      if not inputs.network_known
      then add e Dimension.network "UNKNOWN_NETWORK" "Network context unknown"
          "the session's network could not be determined" (whole 4) factors
      else if not inputs.network_familiar
      then add e Dimension.network "UNUSUAL_NETWORK" "Unusual network"
          "this user has not connected from this network before" (whole 12) factors
      else factors

  unfoldable pub reached : Engine W → Sensitivity → List Factor → List Factor
  reached e Sensitivity.critical factors =
      add e Dimension.resource "CRITICAL_RESOURCE" "Critical resource accessed"
        "the session reached a resource classified CRITICAL" (whole 25) factors
  reached e Sensitivity.sensitive factors =
      add e Dimension.resource "SENSITIVE_RESOURCE" "Sensitive resource accessed"
        "the session reached a resource classified SENSITIVE" (whole 12) factors
  reached e _ factors = factors

  unfoldable pub resource_signals : Engine W → Inputs W → List Factor → List Factor
  unfolding reached
  resource_signals e inputs factors = reached e inputs.resource_sensitivity factors

  -- min(float64(incidents) * 6, 15), as the code computes it.
  incident_points : ℤ → W
  incident_points incidents =
      let points = d.mul (d.of_int incidents) (whole 6) in
      if d.lt (whole 15) points then whole 15 else points

  unfoldable pub history_signals : Engine W → Inputs W → List Factor → List Factor
  unfolding incident_points
  history_signals e inputs factors =
      let raised =
        if ltb_ℤ (pos 0) inputs.recent_incidents
        then add e Dimension.history "RECENT_INCIDENT" "Recent incident for this user"
            "an incident was raised for this user in the last 7 days"
            (incident_points inputs.recent_incidents) factors
        else factors in
      if leb_ℤ (pos 3) inputs.recent_denials
      then add e Dimension.history "REPEATED_DENIALS" "Repeated access denials"
          "several access attempts were refused recently" (whole 8) raised
      else raised
