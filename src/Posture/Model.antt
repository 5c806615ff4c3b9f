-- ===== src/Posture/Model.antt =====
-- backend/internal/posture/signals.go: the signals, the factors and the assessment, and the weights
-- of score.go. A *bool is an Option of Bool, and an int wraps around at 64 bits.
use netra.Prelude.{
  String, len, Bool, ◌&&◌, ◌||◌, Option, none, some, List, [], ◌∷◌, any, select, pos_part, length,
  ltb, ℤ, pos, ◌+₆₄◌, ◌-₆₄◌, ltb_ℤ, eqb_ℤ, Unicode, to_lower, trim_space, take, if◌then◌else◌,
}
use netra.Risk.Model.{Time}

-- `collection_errors` is a map, read as the list of its entries.
pub record Signals : Type 0 where
  pub disk_encryption : Option Bool
  pub secure_boot : Option Bool
  pub firewall : Option Bool
  pub screen_lock : Option Bool
  pub anti_malware : Option Bool
  pub os_name : String
  pub os_version : String
  pub collection_errors : List (String × String)

-- The rejections of `Signals.Validate`, one for each message.
pub data Malformed : Type 0 where
  os_too_long too_many_errors error_too_long : Malformed

unfoldable pub validate_signals : Signals → Option Malformed
validate_signals s =
    if ltb 64 (len s.os_name) || ltb 64 (len s.os_version)
    then some os_too_long
    else if ltb 32 (length s.collection_errors)
    then some too_many_errors
    else if any (λ entry. ltb 64 (len entry.0) || ltb 256 (len entry.1)) s.collection_errors
    then some error_too_long
    else none

pub record DeviceContext : Type 0 where
  pub active : Bool
  pub key_protection : String
  pub agent_version : String
  pub expected_agent : String
  pub last_heartbeat_at : Option Time
  pub now : Time

pub data Source : Type 0 where
  verified reported : Source

pub record Factor : Type 0 where
  pub code : String
  pub label : String
  pub contribution : ℤ
  pub maximum : ℤ
  pub source : Source
  pub detail : String

pub record Assessment : Type 0 where
  pub score : ℤ
  pub factors : List Factor
  pub model_version : String
  pub is_verified : Bool

abbrev pub shortfall : Factor → ℤ
shortfall f = f.maximum -₆₄ f.contribution

-- The insertion sort of `Weakest` over the part already ranked, which is given from its end: the
-- new factor moves before each one with a smaller shortfall.
unfoldable pub move_up : Factor → List Factor → List Factor
move_up f [] = f ∷ []
move_up f (g ∷ gs) =
    let rest = move_up f gs in if ltb_ℤ (shortfall g) (shortfall f) then g ∷ rest else f ∷ g ∷ gs

unfoldable pub rank_from : List Factor → List Factor → List Factor
rank_from ranked [] = ranked
rank_from ranked (f ∷ fs) = rank_from (move_up f ranked) fs

-- The list of Go from the one given from its end.
abbrev pub from_end : List Factor → List Factor → List Factor
from_end [] out = out
from_end (f ∷ fs) out = from_end fs (f ∷ out)

-- `Weakest`.
unfoldable pub weakest : Assessment → ℤ → List Factor
unfolding rank_from
weakest a limit =
    let ranked = from_end (rank_from [] (select (λ f. ltb_ℤ (pos 0) (shortfall f)) a.factors)) [] in
    if ltb_ℤ (pos 0) limit && ltb_ℤ limit (pos (length ranked))
    then take (pos_part limit) ranked
    else ranked

pub record Weights : Type 0 where
  pub device_identity : ℤ
  pub agent_health : ℤ
  pub disk_encryption : ℤ
  pub secure_boot : ℤ
  pub os_supported : ℤ
  pub firewall : ℤ
  pub screen_lock : ℤ
  pub anti_malware : ℤ

abbrev pub default_weights : Weights
default_weights = record {
  device_identity = pos 20;
  agent_health = pos 15;
  disk_encryption = pos 20;
  secure_boot = pos 15;
  os_supported = pos 10;
  firewall = pos 10;
  screen_lock = pos 5;
  anti_malware = pos 5;
}

unfoldable pub total : Weights → ℤ
total w =
    w.device_identity +₆₄ w.agent_health +₆₄ w.disk_encryption +₆₄ w.secure_boot +₆₄ w.os_supported
    +₆₄ w.firewall +₆₄ w.screen_lock +₆₄ w.anti_malware

-- Which weight is named for a negative one depends on the order of a Go map, so the name is left
-- out.
pub data BadWeights : Type 0 where
  negative_weight : BadWeights
  bad_total : ℤ → BadWeights

unfoldable pub weights_of : Weights → List ℤ
weights_of w =
    w.device_identity ∷ w.agent_health ∷ w.disk_encryption ∷ w.secure_boot ∷ w.os_supported
    ∷ w.firewall ∷ w.screen_lock ∷ w.anti_malware ∷ []

-- `Weights.Validate`: none where it returns nil.
unfoldable pub validate_weights : Weights → Option BadWeights
unfolding total weights_of
validate_weights w =
    if any (λ value. ltb_ℤ value (pos 0)) (weights_of w)
    then some negative_weight
    else if eqb_ℤ (total w) (pos 100)
    then none
    else some (bad_total (total w))

-- `normalize`: strings.ToLower after strings.TrimSpace.
abbrev pub normalize : ⦃u : Unicode⦄ → String → String
normalize ⦃u⦄ s = to_lower (trim_space s)
