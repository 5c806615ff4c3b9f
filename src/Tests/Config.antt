-- ===== src/Tests/Config.antt =====
-- A development server: backend/internal/config/config.go.
use netra.Prelude.{
  to_int64, pos, ltb_ℤ, leb_ℤ, ◌≡◌, refl, none, some, inr, ℤ, ◌==ₛ◌, ◌+ℤ◌, ◌-ℤ◌, ◌*ℤ◌,
  if◌then◌else◌,
}
use netra.Prelude.Double.{Double}
use netra.Config.Variables.{
  System, string_var, list_var, int_var, bool_var, float_var, duration_var,
}
use netra.Config.Load.{
  config_of, load, problems, read_weights, read_posture_weights, validate_thresholds,
}
use netra.Config.Safe.{IsSafe, load-IsSafe}
use netra.Risk.Model.{validate_weights}
use netra.Posture.Model
use netra.Tests.Device.{caseless}

-- Whole numbers in place of floats.
instance abbrev whole_double : Double ℤ
whole_double = record {
  of_int = λ n. n;
  tenths = pos;
  add = λ a b. a;
  sub = λ a b. a;
  mul = λ a b. a;
  div = λ a b. a;
  sqrt = λ a. a;
  lt = ltb_ℤ;
  le = leb_ℤ;
  trunc = λ a. a;
}

abbrev development : System ℤ
development = record {
  lookup = λ key.
      if key ==ₛ "NETRA_DEV_AUTH_ENABLED"
      then some "true"
      else if key ==ₛ "NETRA_DATABASE_URL"
      then some "postgres"
      else none;
  parse_bool = λ raw. some (raw ==ₛ "true");
  parse_float = λ raw. none;
  parse_duration = λ raw. none;
}

development_starts : load development ≡ inr (config_of development)
unfolding load config_of problems read_weights read_posture_weights validate_thresholds
    validate_weights string_var list_var int_var bool_var float_var duration_var ◌+ℤ◌ ◌-ℤ◌ ◌*ℤ◌
    netra.Posture.Model.validate_weights to_int64
development_starts = refl

load-IsSafe_example : IsSafe (config_of development)
load-IsSafe_example = load-IsSafe development (config_of development) development_starts
