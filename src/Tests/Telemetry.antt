-- ===== src/Tests/Telemetry.antt =====
-- Batches of events: backend/internal/telemetry.
use netra.Prelude.{
  ◌+◌, ◌*◌, ◌≡◌, refl, length, String, true, false, Option, none, some, List, [], ◌∷◌, inl, inr,
  pos, ◌+ℤ◌, ◌-ℤ◌, ◌*ℤ◌,
}
use netra.Risk.Model.{Time}
use netra.Device.Signing.{sub_time}
use netra.Telemetry.Event.{Metadata, Formats, Inbound, Event, Reason, normalize, copy_metadata, put}
use netra.Telemetry.Ingest.{Row, IngestResult, Failure, batch_too_long, database, ingest}
use netra.Telemetry.Normal.{IsNormal, normalize-IsNormal}
use netra.Telemetry.Batch.{ingest-length}
use netra.Telemetry.Retry.{IsTotal, ingest_again}
use netra.Tests.Device.{caseless}

instance abbrev plain : Formats
plain = record { rfc_3339 = λ t. "then"; whole_seconds = λ d. "long" }

abbrev encode : Metadata → Option String
encode m = some "{}"

encode-IsTotal : IsTotal encode
encode-IsTotal m = ("{}", refl)

-- 100 seconds after 1970.
abbrev now : Time
now = 62135596900 * 1000000000

abbrev logon : Inbound
logon = record {
  event_id = "e-1";
  occurred_at_ms = pos 99000;
  event_type = "AUTH_LOGIN";
  severity = "";
  metadata = ("app", "ssh") ∷ [];
}

abbrev odd : Inbound
odd = record logon { event_id = "e-2"; event_type = "AUTH_UNKNOWN" }

abbrev stored_event : Event
stored_event = record {
  agent_event_id = "e-1";
  occurred_at = 62135596899 * 1000000000;
  received_at = now;
  device_id = 5;
  event_type = "AUTH_LOGIN";
  severity = "INFO";
  source = "AGENT";
  metadata = ("app", "ssh") ∷ [];
}

logon_normalizes : normalize logon 5 now ≡ inr stored_event
unfolding normalize copy_metadata put netra.Telemetry.Event.settle_time sub_time ◌+ℤ◌ ◌-ℤ◌ ◌*ℤ◌
logon_normalizes = refl

normalize-IsNormal_example : IsNormal stored_event 5 now
normalize-IsNormal_example = normalize-IsNormal logon 5 now stored_event logon_normalizes

abbrev batch : List Inbound
batch = logon ∷ odd ∷ logon ∷ []

abbrev result : IngestResult
result = record {
  batch_id = 7;
  accepted = 1;
  duplicates = 1;
  rejected = record { event_id = "e-2"; index = 1; reason = Reason.unknown_type } ∷ [];
  session_id = some 8;
}

batch_is_stored : (ingest (some (8, 3)) 7 true encode 5 now [] batch).1 ≡ inr result
unfolding ingest normalize copy_metadata put netra.Telemetry.Event.settle_time
    netra.Telemetry.Ingest.prepare_all netra.Telemetry.Ingest.prepare
    netra.Telemetry.Ingest.insert_all sub_time ◌+ℤ◌ ◌-ℤ◌ ◌*ℤ◌
batch_is_stored = refl

ingest-length_example :
    (1 + 1 + 1 ≡ 3) × (length (ingest (some (8, 3)) 7 true encode 5 now [] batch).0 ≡ 0 + 1)
ingest-length_example =
    ingest-length (some (8, 3)) 7 true encode 5 now [] batch result batch_is_stored

batch_fails : (ingest (some (8, 3)) 7 false encode 5 now [] batch).1 ≡ inl database
unfolding ingest normalize copy_metadata put netra.Telemetry.Event.settle_time
    netra.Telemetry.Ingest.prepare_all netra.Telemetry.Ingest.prepare
    netra.Telemetry.Ingest.insert_all sub_time ◌+ℤ◌ ◌-ℤ◌ ◌*ℤ◌
batch_fails = refl

abbrev second_result : IngestResult
second_result = record result { batch_id = 9; accepted = 0; duplicates = 2; session_id = none }

batch_is_stored_again :
    (ingest none 9 true encode 5
      (now + 5)
      (ingest (some (8, 3)) 7 true encode 5 now [] batch).0
      batch).1
    ≡ inr second_result
unfolding ingest normalize copy_metadata put netra.Telemetry.Event.settle_time
    netra.Telemetry.Ingest.prepare_all netra.Telemetry.Ingest.prepare
    netra.Telemetry.Ingest.insert_all sub_time ◌+ℤ◌ ◌-ℤ◌ ◌*ℤ◌
batch_is_stored_again = refl

ingest_again_example :
    ((ingest none 9 true encode 5
        (now + 5)
        (ingest (some (8, 3)) 7 true encode 5 now [] batch).0
        batch).0
      ≡ (ingest (some (8, 3)) 7 true encode 5 now [] batch).0)
    × (second_result.accepted ≡ 0)
ingest_again_example =
    ingest_again (some (8, 3)) none 7 9 true true encode 5 now (now + 5) [] batch result
      second_result encode-IsTotal refl batch_is_stored batch_is_stored_again
