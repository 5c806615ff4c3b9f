-- ===== src/Tests/Behaviour.antt =====
-- A baseline of six sessions: backend/internal/behaviour/baseline.go.
use netra.Prelude.{◌*◌, ◌≡◌, String, true, false, List, [], ◌∷◌, ℤ, pos}
use netra.Prelude.Double.{tenths_double}
use netra.Risk.Model.{Uuid}
use netra.Behaviour.Baseline.{
  Observation, build, is_known_device, is_known_application, is_known_network, is_typical_hour,
}
use netra.Behaviour.Recognised.{build-contains, build-is_typical_hour}

abbrev uuid_text : Uuid → String
uuid_text id = "device"

-- At nine o'clock.
abbrev morning : Observation
morning = record {
  started_at = 9 * 3600000000000;
  device_id = 1;
  applications = "ssh" ∷ "" ∷ [];
  network = "10.0.0.1";
  event_count = pos 4;
}

abbrev mornings : List Observation
mornings = morning ∷ morning ∷ morning ∷ morning ∷ morning ∷ morning ∷ []

build-contains_example :
    (is_known_device {W = ℤ} uuid_text (build uuid_text 3 (pos 30) mornings 0) 1 ≡ true)
    × (is_known_application {W = ℤ} (build uuid_text 3 (pos 30) mornings 0) "ssh" ≡ true)
    × (is_known_network {W = ℤ} (build uuid_text 3 (pos 30) mornings 0) "" ≡ false)
build-contains_example = build-contains ℤ uuid_text 3 (pos 30) mornings 0 1 "ssh" ""

build-is_typical_hour_example :
    is_typical_hour {W = ℤ} (build uuid_text 3 (pos 30) mornings 0) (10 * 3600000000000) ≡ true
build-is_typical_hour_example =
    build-is_typical_hour ℤ uuid_text 3 (pos 30) mornings 0 (10 * 3600000000000)
