-- ===== src/Posture/Score.antt =====
-- backend/internal/posture/score.go: the factors and Evaluate.
use Prim.Native.String.{◌++◌ as ◌++ₛ◌}
use netra.Prelude.{
  ℕ, ◌+◌, ◌-◌, ◌*◌, ◌/◌, ◌%◌, String, Bool, true, false, not, ◌&&◌, ◌||◌, Option, none, some, List,
  [], ◌∷◌, ltb, ◌==◌, ℤ, pos, quot, ◌+₆₄◌, ◌*₆₄◌, ltb_ℤ, ◌==ₛ◌, Unicode, if◌then◌else◌,
}
use netra.Prelude.Format.{decimal}
use netra.Posture.Model.{
  Signals, DeviceContext, Source, verified, reported, Factor, Assessment, Weights, normalize,
}
use netra.Posture.Versions.{compare_versions}

abbrev pub model_version : String
model_version = "posture-v1"

-- Nanoseconds.
abbrev pub minute : ℕ
minute = 60000000000

abbrev pub agent_stale_after : ℕ
agent_stale_after = 15 * minute

-- `MinimumOSVersions`, as a lookup.
abbrev pub minimum_os_version : String → Option String
minimum_os_version os =
    if os ==ₛ "windows" then some "10" else if os ==ₛ "macos" then some "14" else none

-- A factor with no points yet.
abbrev unscored : String → String → ℤ → Source → String → Factor
unscored code label maximum source detail = record {
  code = code;
  label = label;
  contribution = pos 0;
  maximum = maximum;
  source = source;
  detail = detail;
}

abbrev pub is_hardware : String → Bool
is_hardware protection = protection ==ₛ "tpm" || protection ==ₛ "windows-cert-store"

unfoldable pub device_identity_factor : ⦃u : Unicode⦄ → DeviceContext → ℤ → Factor
device_identity_factor ⦃u⦄ context maximum =
    let factor = unscored "DEVICE_IDENTITY" "Device identity" maximum verified "" in
    if not context.active
    then record factor { detail = "the device is not active" }
    else if is_hardware (normalize context.key_protection)
    then record factor { contribution = maximum; detail = "hardware-backed key" }
    else if normalize context.key_protection ==ₛ "software"
    then record factor {
      contribution = quot (maximum *₆₄ pos 3) 5;
      detail = "software-protected key; hardware-backed protection is stronger";
    }
    else record factor { detail = "unrecognised key protection" }

-- `since.Round(time.Minute)` under the verb %s, for a duration of 15 minutes up to the largest one:
-- half a minute rounds up, and a whole number of minutes reads "1h2m0s" or "16m0s".
abbrev pub duration_text : ℕ → String
duration_text since =
    let minutes = (since + 30000000000) / minute in
    let below_hour = decimal (pos (minutes % 60)) ++ₛ "m0s" in
    if minutes / 60 == 0 then below_hour else decimal (pos (minutes / 60)) ++ₛ "h" ++ₛ below_hour

-- The factor of an agent that reported `since` ago. The difference of the clock's times stops at 0
-- where Go's is negative; only whether it is above 15 minutes matters, and by how much then.
unfoldable pub agent_reporting_factor : DeviceContext → ℕ → Factor → Factor
agent_reporting_factor context since factor =
    if ltb agent_stale_after since
    then record factor { detail = "the agent last reported " ++ₛ duration_text since ++ₛ " ago" }
    else if not (context.expected_agent ==ₛ "")
        && not (context.agent_version ==ₛ context.expected_agent)
    then record factor {
      contribution = quot factor.maximum 2;
      detail =
          "agent " ++ₛ context.agent_version ++ₛ " is behind the expected "
          ++ₛ context.expected_agent;
    }
    else record factor {
      contribution = factor.maximum;
      detail = "the agent is reporting and current";
    }

unfoldable pub agent_health_factor : DeviceContext → ℤ → Factor
unfolding agent_reporting_factor
agent_health_factor context maximum =
    let factor = unscored "AGENT_HEALTH" "Agent health" maximum verified "" in
    elim context.last_heartbeat_at [
      | none ↦ record factor { detail = "the agent has never reported" }
      | some last ↦ agent_reporting_factor context (context.now - last) factor
    ]

-- The factor of a system whose minimum is looked up.
unfoldable pub os_current_factor : Signals → Option String → Factor → Factor
os_current_factor signals none factor = record factor {
  detail = "operating system version could not be assessed";
}
os_current_factor signals (some minimum) factor =
    if signals.os_version ==ₛ ""
    then record factor { detail = "operating system version could not be assessed" }
    else if ltb_ℤ (compare_versions signals.os_version minimum) (pos 0)
    then record factor {
      detail =
          signals.os_name ++ₛ " " ++ₛ signals.os_version ++ₛ " is below the supported minimum of "
          ++ₛ minimum;
    }
    else record factor {
      contribution = factor.maximum;
      detail = signals.os_name ++ₛ " " ++ₛ signals.os_version ++ₛ " is supported";
    }

unfoldable pub os_supported_factor : ⦃u : Unicode⦄ → Signals → ℤ → Factor
unfolding os_current_factor
os_supported_factor ⦃u⦄ signals maximum =
    os_current_factor signals (minimum_os_version (normalize signals.os_name))
      (unscored "OS_SUPPORTED" "Operating system currency" maximum reported "")

abbrev pub tristate : Option Bool → String → String → Bool × String
tristate none when_true when_false = (false, "not reported by the agent")
tristate (some true) when_true when_false = (true, when_true)
tristate (some false) when_true when_false = (false, when_false)

unfoldable pub reported_factor : String → String → Option Bool → ℤ → String → String → Factor
reported_factor code label value maximum when_true when_false =
    let told = tristate value when_true when_false in
    let factor = unscored code label maximum reported told.1 in
    if told.0 then record factor { contribution = maximum } else factor

-- The factors in the order in which they are appended.
unfoldable pub factors_of : ⦃u : Unicode⦄ → Signals → DeviceContext → Weights → List Factor
unfolding device_identity_factor agent_health_factor reported_factor os_supported_factor
factors_of ⦃u⦄ signals context weights =
    device_identity_factor context weights.device_identity
    ∷ agent_health_factor context weights.agent_health
    ∷ reported_factor "DISK_ENCRYPTION" "Disk encryption" signals.disk_encryption
        weights.disk_encryption "volume encryption is enabled" "volume encryption is disabled"
    ∷ reported_factor "SECURE_BOOT" "Boot and system integrity" signals.secure_boot
        weights.secure_boot "platform integrity protection is enabled"
        "platform integrity protection is disabled"
    ∷ os_supported_factor signals weights.os_supported
    ∷ reported_factor "FIREWALL" "Host firewall" signals.firewall weights.firewall
        "host firewall is enabled" "host firewall is disabled"
    ∷ reported_factor "SCREEN_LOCK" "Screen lock" signals.screen_lock weights.screen_lock
        "a password is required after sleep" "no password is required after sleep"
    ∷ reported_factor "ANTI_MALWARE" "Malware protection" signals.anti_malware weights.anti_malware
        "real-time protection is active" "real-time protection is not active"
    ∷ []

-- The loop over the factors: the score, and whether every factor is verified.
abbrev pub is_backend_fact : Source → Bool
is_backend_fact verified = true
is_backend_fact reported = false

unfoldable pub add_up : ℤ → Bool → List Factor → ℤ × Bool
add_up score all_verified [] = (score, all_verified)
add_up score all_verified (f ∷ fs) =
    add_up (score +₆₄ f.contribution) (all_verified && is_backend_fact f.source) fs

abbrev pub clamp : ℤ → ℤ
clamp score =
    let low = if ltb_ℤ score (pos 0) then pos 0 else score in
    if ltb_ℤ (pos 100) low then pos 100 else low

unfoldable pub evaluate : ⦃u : Unicode⦄ → Signals → DeviceContext → Weights → Assessment
unfolding factors_of add_up
evaluate ⦃u⦄ signals context weights =
    let factors = factors_of signals context weights in
    let counted = add_up (pos 0) true factors in
    record {
      score = clamp counted.0;
      factors = factors;
      model_version = model_version;
      is_verified = counted.1;
    }
