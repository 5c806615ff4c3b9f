-- ===== src/Behaviour/Baseline.antt =====
-- backend/internal/behaviour/baseline.go: how a baseline is built and read. A set is a list without
-- repetitions, and an array of 24 counts a function; `uuid_text` is the method String of a UUID.
use Prim.Native.Nat.{Ordering, lt}
use Prim.Native.String.{compare}
use netra.Prelude.{
  ℕ, ◌+◌, ◌/◌, ◌%◌, String, Bool, true, false, ◌||◌, not, List, [], ◌∷◌, ◌++◌, any, length, ltb,
  leb, ◌==◌, ◌==ₛ◌, ℤ, pos, leb_ℤ, sort_stable, if◌then◌else◌,
}
use netra.Prelude.Double.{Double}
use netra.Risk.Model.{Time, Uuid}

abbrev pub minimum_observations : ℕ
minimum_observations = 5

abbrev default_window_days : ℤ
default_window_days = pos 30

pub record Profile (W : Type 0) : Type 0 where
  pub user_id : Uuid
  pub updated_at : Time
  pub window_days : ℤ
  pub observation_count : ℕ
  pub login_hours : ℕ → ℕ
  pub known_devices : List String
  pub known_applications : List String
  pub known_networks : List String
  pub access_rate_mean : W
  pub access_rate_stddev : W
  pub established : Bool

pub record Observation : Type 0 where
  pub started_at : Time
  pub device_id : Uuid
  pub applications : List String
  pub network : String
  pub event_count : ℤ

abbrev pub contains : List String → String → Bool
contains haystack needle = any (λ candidate. candidate ==ₛ needle) haystack

-- set[key] = true
abbrev pub add_key : String → List String → List String
add_key key set = if contains set key then set else key ∷ set

abbrev pub add_nonempty : String → List String → List String
add_nonempty key set = if key ==ₛ "" then set else add_key key set

abbrev pub add_all_nonempty : List String → List String → List String
add_all_nonempty [] set = set
add_all_nonempty (key ∷ keys) set = add_all_nonempty keys (add_nonempty key set)

abbrev is_before : Ordering → Bool
is_before lt = true
is_before _ = false

unfoldable pub sorted_keys : List String → List String
sorted_keys = sort_stable (λ a b. is_before (compare a b))

-- t.UTC().Hour()
abbrev pub hour_of : Time → ℕ
hour_of t = t / 3600000000000 % 24

module _ {W : Type 0} ⦃d : Double W⦄ where
  abbrev sum_from : W → List W → W
  sum_from acc [] = acc
  sum_from acc (v ∷ vs) = sum_from (d.add acc v) vs

  abbrev squares_from : W → W → List W → W
  squares_from mean acc [] = acc
  squares_from mean acc (v ∷ vs) =
      let delta = d.sub v mean in squares_from mean (d.add acc (d.mul delta delta)) vs

  abbrev count_of : List W → W
  count_of values = d.of_int (pos (length values))

  abbrev mean_of : List W → W
  mean_of values = d.div (sum_from (d.of_int (pos 0)) values) (count_of values)

  -- `meanAndStdDev`
  unfoldable pub mean_and_stddev : List W → W × W
  mean_and_stddev [] = (d.of_int (pos 0), d.of_int (pos 0))
  mean_and_stddev (v ∷ []) = (mean_of (v ∷ []), d.of_int (pos 0))
  mean_and_stddev (v ∷ w ∷ vs) =
      let values = v ∷ w ∷ vs in
      (
        mean_of values,
        d.sqrt (d.div (squares_from (mean_of values) (d.of_int (pos 0)) values) (count_of values)),
      )

-- The variables of the loop of Build.
pub record Learned (W : Type 0) : Type 0 where
  pub observation_count : ℕ
  pub login_hours : ℕ → ℕ
  pub devices : List String
  pub applications : List String
  pub networks : List String
  pub counts : List W

abbrev pub increment : ℕ → (ℕ → ℕ) → ℕ → ℕ
increment hour hours = λ h. if h == hour then hours h + 1 else hours h

module _ {W : Type 0} ⦃d : Double W⦄ (uuid_text : Uuid → String) where
  abbrev pub nothing_learned : Learned W
  nothing_learned = record {
    observation_count = 0;
    login_hours = λ h. 0;
    devices = [];
    applications = [];
    networks = [];
    counts = [];
  }

  -- One turn of the loop.
  unfoldable pub learn : Learned W → Observation → Learned W
  learn l o = record {
    observation_count = l.observation_count + 1;
    login_hours = increment (hour_of o.started_at) l.login_hours;
    devices = add_key (uuid_text o.device_id) l.devices;
    applications = add_all_nonempty o.applications l.applications;
    networks = add_nonempty o.network l.networks;
    counts = l.counts ++ d.of_int o.event_count ∷ [];
  }

  unfoldable pub learn_all : Learned W → List Observation → Learned W
  learn_all l [] = l
  learn_all l (o ∷ os) = learn_all (learn l o) os

  abbrev pub profile_of : Uuid → ℤ → Time → Learned W → Profile W
  profile_of user_id window_days now l = record {
    user_id = user_id;
    updated_at = now;
    window_days = if leb_ℤ window_days (pos 0) then default_window_days else window_days;
    observation_count = l.observation_count;
    login_hours = l.login_hours;
    known_devices = sorted_keys l.devices;
    known_applications = sorted_keys l.applications;
    known_networks = sorted_keys l.networks;
    access_rate_mean = (mean_and_stddev l.counts).0;
    access_rate_stddev = (mean_and_stddev l.counts).1;
    established = leb minimum_observations l.observation_count;
  }

  -- `Build`
  unfoldable pub build : Uuid → ℤ → List Observation → Time → Profile W
  build user_id window_days observations now =
      profile_of user_id window_days now (learn_all nothing_learned observations)

module _ {W : Type 0} where
  -- The offsets -1, 0 and 1; the first counts as 23 modulo 24.
  unfoldable pub is_typical_hour : Profile W → Time → Bool
  is_typical_hour p t =
      if not p.established
      then true
      else any (λ offset. ltb 0 (p.login_hours ((hour_of t + offset) % 24))) (23 ∷ 0 ∷ 1 ∷ [])

  unfoldable pub is_known_device : (Uuid → String) → Profile W → Uuid → Bool
  is_known_device uuid_text p device_id = contains p.known_devices (uuid_text device_id)

  unfoldable pub is_known_application : Profile W → String → Bool
  is_known_application p application = contains p.known_applications application

  unfoldable pub is_known_network : Profile W → String → Bool
  is_known_network p network = contains p.known_networks network

  -- `AccessVolumeZScore`
  unfoldable pub access_volume_z_score : ⦃d : Double W⦄ → Profile W → ℤ → W
  access_volume_z_score ⦃d⦄ p event_count =
      let zero_score = d.of_int (pos 0) in
      let z = d.div (d.sub (d.of_int event_count) p.access_rate_mean) p.access_rate_stddev in
      if not p.established || d.le p.access_rate_stddev zero_score
      then zero_score
      else if d.lt z zero_score
      then zero_score
      else z
