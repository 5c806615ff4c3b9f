-- ===== src/Config/Load.antt =====
-- backend/internal/config/config.go: Load. Every problem is collected, and any one refuses the start.
use netra.Prelude.{
  ℕ, ◌*◌, String, Bool, true, false, ◌&&◌, ◌||◌, not, Option, none, some, List, [], ◌∷◌, ◌++◌, any,
  ◌⊎◌, inl, inr, ◌==ₛ◌, ℤ, pos, leb_ℤ, ltb_ℤ, Unicode, to_lower,
}
use netra.Prelude.Double.{Double}
use netra.Risk.Model.{Thresholds, Weights, default_weights, validate_weights}
use netra.Posture.Model
use netra.Config.Variables.{
  System, Problem, unknown_environment, database_url, dev_auth_forbidden, no_verifier, risk_weights,
  posture_weights, log_level, log_format, connections, thresholds, problem_if, string_var, list_var,
  int_var, bool_var, float_var, duration_var, to_int32,
}

pub record LogConfig : Type 0 where
  pub level : String
  pub format : String

pub record HttpConfig : Type 0 where
  pub addr : String
  pub read_timeout : ℤ
  pub write_timeout : ℤ
  pub shutdown_timeout : ℤ
  pub allowed_origins : List String

pub record DatabaseConfig : Type 0 where
  pub url : String
  pub max_conns : ℤ
  pub min_conns : ℤ
  pub auto_migrate : Bool

pub record OidcConfig : Type 0 where
  pub issuer : String
  pub client_id : String
  pub audience : String
  pub dev_auth_enabled : Bool
  pub dev_auth_ttl : ℤ

pub record Config (W : Type 0) : Type 0 where
  pub env : String
  pub log : LogConfig
  pub http : HttpConfig
  pub database : DatabaseConfig
  pub oidc : OidcConfig
  pub thresholds : Thresholds
  pub weights : Weights W
  pub posture_weights : netra.Posture.Model.Weights
  pub expected_agent_version : String

abbrev pub is_any_of : List String → String → Bool
is_any_of known s = any (λ k. k ==ₛ s) known

abbrev pub is_environment : String → Bool
is_environment = is_any_of ("development" ∷ "staging" ∷ "production" ∷ [])

abbrev pub is_log_level : String → Bool
is_log_level = is_any_of ("debug" ∷ "info" ∷ "warn" ∷ "error" ∷ [])

abbrev pub join {ℓ} : {A : Type ℓ} → List (List A) → List A
join [] = []
join (xs ∷ xss) = xs ++ join xss

abbrev second : ℕ
second = 1000000000

-- `Validate` of RiskThresholds: true where it returns nil.
unfoldable pub validate_thresholds : Thresholds → Bool
validate_thresholds r = not (
    leb_ℤ r.low (pos 0)
    || leb_ℤ r.medium r.low
    || leb_ℤ r.elevated r.medium
    || leb_ℤ r.high r.elevated
    || leb_ℤ (pos 100) r.high)

abbrev pub is_none {ℓ} : {A : Type ℓ} → Option A → Bool
is_none none = true
is_none (some a) = false

module _ {W : Type 0} ⦃d : Double W⦄ (sys : System W) where
  -- The loop over the six weights of the risk engine.
  unfoldable pub read_weights : Weights W × List Problem
  read_weights =
      let read = float_var sys (d.of_int (pos 0)) in
      let (identity, p1) = read "NETRA_RISK_WEIGHT_IDENTITY" default_weights.identity in
      let (device, p2) = read "NETRA_RISK_WEIGHT_DEVICE" default_weights.device in
      let (behaviour, p3) = read "NETRA_RISK_WEIGHT_BEHAVIOUR" default_weights.behaviour in
      let (network, p4) = read "NETRA_RISK_WEIGHT_NETWORK" default_weights.network in
      let (resource, p5) = read "NETRA_RISK_WEIGHT_RESOURCE" default_weights.resource in
      let (history, p6) = read "NETRA_RISK_WEIGHT_HISTORY" default_weights.history in
      (
        record {
          identity = identity;
          device = device;
          behaviour = behaviour;
          network = network;
          resource = resource;
          history = history;
        },
        p1 ++ p2 ++ p3 ++ p4 ++ p5 ++ p6,
      )

  -- The loop over the eight weights of the posture model.
  unfoldable pub read_posture_weights : netra.Posture.Model.Weights × List Problem
  read_posture_weights =
      let w = netra.Posture.Model.default_weights in
      let (device_identity, p1) =
        int_var sys "NETRA_POSTURE_WEIGHT_DEVICE_IDENTITY" w.device_identity in
      let (agent_health, p2) = int_var sys "NETRA_POSTURE_WEIGHT_AGENT_HEALTH" w.agent_health in
      let (disk_encryption, p3) =
        int_var sys "NETRA_POSTURE_WEIGHT_DISK_ENCRYPTION" w.disk_encryption in
      let (secure_boot, p4) = int_var sys "NETRA_POSTURE_WEIGHT_SECURE_BOOT" w.secure_boot in
      let (os_supported, p5) = int_var sys "NETRA_POSTURE_WEIGHT_OS_SUPPORTED" w.os_supported in
      let (firewall, p6) = int_var sys "NETRA_POSTURE_WEIGHT_FIREWALL" w.firewall in
      let (screen_lock, p7) = int_var sys "NETRA_POSTURE_WEIGHT_SCREEN_LOCK" w.screen_lock in
      let (anti_malware, p8) = int_var sys "NETRA_POSTURE_WEIGHT_ANTI_MALWARE" w.anti_malware in
      (
        record {
          device_identity = device_identity;
          agent_health = agent_health;
          disk_encryption = disk_encryption;
          secure_boot = secure_boot;
          os_supported = os_supported;
          firewall = firewall;
          screen_lock = screen_lock;
          anti_malware = anti_malware;
        },
        p1 ++ p2 ++ p3 ++ p4 ++ p5 ++ p6 ++ p7 ++ p8,
      )

  abbrev pub max_conns : ℤ × List Problem
  max_conns = int_var sys "NETRA_DB_MAX_CONNS" (pos 10)

  abbrev pub min_conns : ℤ × List Problem
  min_conns = int_var sys "NETRA_DB_MIN_CONNS" (pos 1)

  abbrev low : ℤ × List Problem
  low = int_var sys "NETRA_RISK_THRESHOLD_LOW" (pos 30)

  abbrev medium : ℤ × List Problem
  medium = int_var sys "NETRA_RISK_THRESHOLD_MEDIUM" (pos 50)

  abbrev elevated : ℤ × List Problem
  elevated = int_var sys "NETRA_RISK_THRESHOLD_ELEVATED" (pos 70)

  abbrev high : ℤ × List Problem
  high = int_var sys "NETRA_RISK_THRESHOLD_HIGH" (pos 85)

  abbrev dev_auth : Bool × List Problem
  dev_auth = bool_var sys "NETRA_DEV_AUTH_ENABLED" false

  abbrev dev_auth_ttl : ℤ × List Problem
  dev_auth_ttl = duration_var sys "NETRA_DEV_AUTH_TTL" (pos (3600 * second))

  abbrev read_timeout : ℤ × List Problem
  read_timeout = duration_var sys "NETRA_HTTP_READ_TIMEOUT" (pos (15 * second))

  abbrev write_timeout : ℤ × List Problem
  write_timeout = duration_var sys "NETRA_HTTP_WRITE_TIMEOUT" (pos (30 * second))

  abbrev shutdown_timeout : ℤ × List Problem
  shutdown_timeout = duration_var sys "NETRA_HTTP_SHUTDOWN_TIMEOUT" (pos (15 * second))

  abbrev auto_migrate : Bool × List Problem
  auto_migrate = bool_var sys "NETRA_DB_AUTO_MIGRATE" true

  -- The configuration that the values make.
  unfoldable pub config_of : ⦃u : Unicode⦄ → Config W
  config_of ⦃u⦄ = record {
    env = to_lower (string_var sys "NETRA_ENV" "development");
    log = record {
      level = to_lower (string_var sys "NETRA_LOG_LEVEL" "info");
      format = to_lower (string_var sys "NETRA_LOG_FORMAT" "json");
    };
    http = record {
      addr = string_var sys "NETRA_HTTP_ADDR" ":8080";
      read_timeout = read_timeout.0;
      write_timeout = write_timeout.0;
      shutdown_timeout = shutdown_timeout.0;
      allowed_origins = list_var sys "NETRA_CORS_ALLOWED_ORIGINS";
    };
    database = record {
      url = string_var sys "NETRA_DATABASE_URL" "";
      max_conns = to_int32 max_conns.0;
      min_conns = to_int32 min_conns.0;
      auto_migrate = auto_migrate.0;
    };
    oidc = record {
      issuer = string_var sys "NETRA_OIDC_ISSUER" "";
      client_id = string_var sys "NETRA_OIDC_CLIENT_ID" "";
      audience = string_var sys "NETRA_OIDC_AUDIENCE" "";
      dev_auth_enabled = dev_auth.0;
      dev_auth_ttl = dev_auth_ttl.0;
    };
    thresholds = record { low = low.0; medium = medium.0; elevated = elevated.0; high = high.0 };
    weights = read_weights.0;
    posture_weights = read_posture_weights.0;
    expected_agent_version = string_var sys "NETRA_EXPECTED_AGENT_VERSION" "";
  }

  -- What `collect` gathers, in the order of the code.
  abbrev pub problem_lists : Config W → List (List Problem)
  problem_lists c =
      problem_if (not (is_environment c.env)) unknown_environment
      ∷ read_timeout.1
      ∷ write_timeout.1
      ∷ shutdown_timeout.1
      ∷ max_conns.1
      ∷ min_conns.1
      ∷ auto_migrate.1
      ∷ problem_if (c.database.url ==ₛ "") database_url
      ∷ low.1
      ∷ medium.1
      ∷ elevated.1
      ∷ high.1
      ∷ dev_auth.1
      ∷ dev_auth_ttl.1
      ∷ problem_if (c.oidc.dev_auth_enabled && not (c.env ==ₛ "development")) dev_auth_forbidden
      ∷ problem_if (not c.oidc.dev_auth_enabled && (c.oidc.issuer ==ₛ "" || c.oidc.audience ==ₛ ""))
          no_verifier
      ∷ read_weights.1
      ∷ problem_if (not (validate_weights c.weights)) risk_weights
      ∷ read_posture_weights.1
      ∷ problem_if (not (is_none (netra.Posture.Model.validate_weights c.posture_weights)))
          posture_weights
      ∷ problem_if (not (is_log_level c.log.level)) log_level
      ∷ problem_if (not (c.log.format ==ₛ "json") && not (c.log.format ==ₛ "text")) log_format
      ∷ problem_if (ltb_ℤ max_conns.0 min_conns.0) connections
      ∷ problem_if (not (validate_thresholds c.thresholds)) thresholds
      ∷ []

  unfoldable pub problems : Config W → List Problem
  problems c = join (problem_lists c)

  abbrev pub started : Config W → List Problem → List Problem ⊎ Config W
  started c [] = inr c
  started c (p ∷ ps) = inl (p ∷ ps)

  -- `Load`
  unfoldable pub load : ⦃u : Unicode⦄ → List Problem ⊎ Config W
  load ⦃u⦄ = started config_of (problems config_of)
