-- ===== src/Telemetry/Event.antt =====
-- backend/internal/telemetry/event.go: events, their limits, and the two functions Normalize. A map
-- is an association list in the order in which it is visited; a time is a number of nanoseconds
-- since Go's zero time.
use netra.Prelude.{
  ℕ, ◌+◌, ◌-◌, ◌*◌, String, len, Bool, ◌||◌, not, List, [], ◌∷◌, any, length, ltb, ◌==◌, ◌==ₛ◌, ◌⊎◌,
  inl, inr, ℤ, pos, negsuc, pos_part, ltb_ℤ, leb_ℤ, Unicode, trim_space, if◌then◌else◌,
}
use netra.Risk.Model.{Time, Uuid}
use netra.Device.Signing.{sub_time, unix_to_internal}

abbrev pub Metadata : Type 0
Metadata = List (String × String)

abbrev known_types : List String
known_types =
    "AUTH_LOGIN" ∷ "AUTH_LOGOUT" ∷ "DEVICE_ENROLLMENT" ∷ "DEVICE_POSTURE" ∷ "APPLICATION_START"
    ∷ "APPLICATION_ACCESS" ∷ "RESOURCE_ACCESS" ∷ "PRIVILEGE_CHANGE" ∷ "NETWORK_EVENT"
    ∷ "SECURITY_EVENT" ∷ "POLICY_DECISION" ∷ "RISK_UPDATE" ∷ "SECURITY_ALERT" ∷ []

abbrev known_severities : List String
known_severities = "INFO" ∷ "LOW" ∷ "MEDIUM" ∷ "HIGH" ∷ "CRITICAL" ∷ []

abbrev pub is_one_of : List String → String → Bool
is_one_of known s = any (λ k. k ==ₛ s) known

abbrev pub is_known_type : String → Bool
is_known_type = is_one_of known_types

abbrev pub is_known_severity : String → Bool
is_known_severity = is_one_of known_severities

abbrev pub max_batch_size : ℕ
max_batch_size = 500

abbrev pub max_metadata_entries : ℕ
max_metadata_entries = 32

abbrev pub max_metadata_key_len : ℕ
max_metadata_key_len = 64

abbrev pub max_metadata_value_len : ℕ
max_metadata_value_len = 512

abbrev pub max_event_id_len : ℕ
max_event_id_len = 128

abbrev pub max_clock_drift : ℕ
max_clock_drift = 24 * 3600 * 1000000000

pub record Inbound : Type 0 where
  pub event_id : String
  pub occurred_at_ms : ℤ
  pub event_type : String
  pub severity : String
  pub metadata : Metadata

-- The columns that Normalize fills; the source is AGENT.
pub record Event : Type 0 where
  pub agent_event_id : String
  pub occurred_at : Time
  pub received_at : Time
  pub device_id : Uuid
  pub event_type : String
  pub severity : String
  pub source : String
  pub metadata : Metadata

-- The rejections of Normalize, one for each message, and that of Ingest.
pub data Reason : Type 0 where
  unknown_type unknown_severity event_id_length metadata_entries key_length value_length
        not_encoded :
      Reason

-- m[key] = value
unfoldable pub put : String → String → Metadata → Metadata
put key value [] = (key, value) ∷ []
put key value ((k, v) ∷ m) =
    let rest = put key value m in if k ==ₛ key then (k, value) ∷ m else (k, v) ∷ rest

-- The loop over the inbound metadata.
unfoldable pub copy_metadata : Metadata → Metadata → Reason ⊎ Metadata
copy_metadata [] copied = inr copied
copy_metadata ((key, value) ∷ m) copied =
    let rest = copy_metadata m (put key value copied) in
    if len key == 0 || ltb max_metadata_key_len (len key)
    then inl key_length
    else if ltb max_metadata_value_len (len value)
    then inl value_length
    else rest

-- time.UnixMilli, for a positive number.
abbrev pub unix_milli : ℕ → Time
unix_milli ms = (ms + unix_to_internal * 1000) * 1000000

abbrev pub claimed_time : Time → ℤ → Time
claimed_time now ms = if ltb_ℤ (pos 0) ms then unix_milli (pos_part ms) else now

abbrev pub is_drifted : ℤ → Bool
is_drifted drift = ltb_ℤ (pos max_clock_drift) drift || ltb_ℤ drift (negsuc (max_clock_drift - 1))

abbrev pub default_severity : String → String
default_severity s = if s ==ₛ "" then "INFO" else s

-- How the code prints a time, by RFC 3339, and a duration, in whole seconds.
pub record Formats : Type 0 where
  pub rfc_3339 : Time → String
  pub whole_seconds : ℤ → String

module _ ⦃u : Unicode⦄ ⦃f : Formats⦄ where
  abbrev pub event_for : Inbound → Uuid → Time → Time → Metadata → Event
  event_for r device_id now occurred metadata = record {
    agent_event_id = trim_space r.event_id;
    occurred_at = occurred;
    received_at = now;
    device_id = device_id;
    event_type = r.event_type;
    severity = default_severity r.severity;
    source = "AGENT";
    metadata = metadata;
  }

  abbrev pub drift_of : Inbound → Time → ℤ
  drift_of r now = sub_time (pos now) (pos (claimed_time now r.occurred_at_ms))

  -- The event with the server's time in place of the claim, which is kept as metadata.
  abbrev pub corrected_event : Inbound → Uuid → Time → Metadata → Event
  corrected_event r device_id now metadata = event_for r device_id now now (
      put "netra.clock_drift_seconds" (f.whole_seconds (drift_of r now)) (
        put "netra.reported_occurred_at" (f.rfc_3339 (claimed_time now r.occurred_at_ms)) metadata))

  abbrev pub claimed_event : Inbound → Uuid → Time → Metadata → Event
  claimed_event r device_id now metadata =
      event_for r device_id now (claimed_time now r.occurred_at_ms) metadata

  -- The part after the loop.
  unfoldable pub settle_time : Inbound → Uuid → Time → Metadata → Event
  settle_time r device_id now metadata =
      if is_drifted (drift_of r now)
      then corrected_event r device_id now metadata
      else claimed_event r device_id now metadata

  abbrev pub with_metadata : Inbound → Uuid → Time → Reason ⊎ Metadata → Reason ⊎ Event
  with_metadata r device_id now (inl reason) = inl reason
  with_metadata r device_id now (inr metadata) = inr (settle_time r device_id now metadata)

  -- `Normalize` of an inbound event.
  unfoldable pub normalize : Inbound → Uuid → Time → Reason ⊎ Event
  normalize r device_id now =
      if not (is_known_type r.event_type)
      then inl unknown_type
      else if not (is_known_severity (default_severity r.severity))
      then inl unknown_severity
      else if ltb max_event_id_len (len r.event_id)
      then inl event_id_length
      else if ltb max_metadata_entries (length r.metadata)
      then inl metadata_entries
      else with_metadata r device_id now (copy_metadata r.metadata [])

-- `Normalize` of a filter, on its limit.
unfoldable pub normalize_limit : ℤ → ℤ
normalize_limit limit = if leb_ℤ limit (pos 0) || ltb_ℤ (pos 1000) limit then pos 100 else limit
