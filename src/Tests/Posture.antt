-- ===== src/Tests/Posture.antt =====
-- Reports scored by backend/internal/posture, with ASCII case mapping.
use netra.Prelude.{
  ◌≡◌, refl, true, false, none, some, [], ◌-◌, ◌^◌, max_int64, to_int64, pos, negsuc, ◌+ℤ◌, ◌≤ℤ◌,
  sum_by, arith,
}
use netra.Prelude.Text.{ascii}
use netra.Posture.Model.{
  Signals, DeviceContext, Factor, Assessment, Weights, total, weights_of, default_weights,
  validate_weights,
}
use netra.Posture.Versions.{
  compare_versions, compare_parts, compare_part, split_version, read_runes, read_rune,
}
use netra.Posture.Score.{evaluate}
use netra.Posture.Accounting.{true_total, evaluate_sums}
use netra.Posture.Monotone.{Improves, evaluate_monotone}

abbrev partial : Signals
partial = record {
  disk_encryption = some true;
  secure_boot = none;
  firewall = some false;
  screen_lock = none;
  anti_malware = some true;
  os_name = "macos";
  os_version = "14.2";
  collection_errors = [];
}

abbrev better : Signals
better = record partial { firewall = some true }

abbrev laptop : DeviceContext
laptop = record {
  active = true;
  key_protection = "software";
  agent_version = "1.0";
  expected_agent = "";
  last_heartbeat_at = some 1000;
  now = 2000;
}

defaults_valid : validate_weights default_weights ≡ none
unfolding validate_weights total weights_of ◌+ℤ◌ to_int64
defaults_valid = refl

defaults_fit : true_total default_weights ≤ℤ max_int64
unfolding weights_of sum_by ◌+ℤ◌
defaults_fit = omega arith

-- Weights that add up to 2^64 + 100 pass too.
abbrev overflowing : Weights
overflowing = record default_weights {
  device_identity = pos (2 ^ 63 - 1);
  agent_health = pos 0;
  disk_encryption = pos (2 ^ 63 - 1);
  secure_boot = pos 102;
  os_supported = pos 0;
  firewall = pos 0;
  screen_lock = pos 0;
  anti_malware = pos 0;
}

overflowing_valid : validate_weights overflowing ≡ none
unfolding validate_weights total weights_of ◌+ℤ◌ to_int64
overflowing_valid = refl

evaluate_sums_example :
    (evaluate partial laptop default_weights).score
    ≡ sum_by Factor.contribution (evaluate partial laptop default_weights).factors
evaluate_sums_example = evaluate_sums partial laptop default_weights defaults_valid defaults_fit

partial-Improves : Improves partial better
partial-Improves = record {
  os_name = refl;
  os_version = refl;
  disk_encryption = λ e. e;
  secure_boot = λ e. e;
  firewall = λ e. refl;
  screen_lock = λ e. e;
  anti_malware = λ e. e;
}

evaluate_monotone_example :
    (evaluate partial laptop default_weights).score
    ≤ℤ (evaluate better laptop default_weights).score
evaluate_monotone_example =
    evaluate_monotone partial better laptop default_weights defaults_valid defaults_fit
      partial-Improves

abbrev scored : Assessment
scored = evaluate partial laptop default_weights

older_answer : compare_versions "13.9" "14" ≡ negsuc 0
unfolding compare_versions compare_parts compare_part split_version read_runes read_rune
older_answer = refl

older : compare_versions "13.9" "14" ≤ℤ pos 0
older = rw older_answer (omega arith)

newer_answer : compare_versions "14" "14.0.1" ≡ negsuc 0
unfolding compare_versions compare_parts compare_part split_version read_runes read_rune
newer_answer = refl

newer : compare_versions "14" "14.0.1" ≤ℤ pos 0
newer = rw newer_answer (omega arith)
