-- ===== src/Settings/Config.antt =====
-- The configuration file: Config of internal/models/models.go and internal/config/config.go. The YAML reader
-- is the source of the argument `parsed`; `getenv` gives the empty text for a variable that is not set, and
-- `scan` is Sscanf with %d.
use container_census.Base.{
  ℕ, ◌<◌, ◌≢◌, Bool, true, false, ◌||◌, List, [], ◌∷◌, Option, none, some, Text, text_eq, nat_eq,
  codes, ◌==◌, if◌then◌else◌, ltb, Result, ok, err, is_empty, arith,
}
use container_census.Base.Int.{ℤ, pos, negsuc}
use container_census.Auth
use container_census.Telemetry.Types.{TelemetryEndpoint, TelemetryConfig}

pub record HostConfig : Type 0 where
  pub name : Text
  pub address : Text
  pub description : Text

pub record ServerConfig : Type 0 where
  pub host : Text
  pub port : ℕ
  pub auth : Auth.Config

pub record ScannerConfig : Type 0 where
  pub interval_seconds : ℕ
  pub timeout_seconds : ℕ

-- The file, without its section on vulnerabilities.
pub record Config : Type 0 where
  pub database_path : Text
  pub server : ServerConfig
  pub scanner : ScannerConfig
  pub telemetry : TelemetryConfig
  pub hosts : List HostConfig

-- `authEnabled == "true" || authEnabled == "1" || authEnabled == "yes"`.
pub is_yes : Text → Bool
is_yes value = value == codes "true" || value == codes "1" || value == codes "yes"

abbrev pub text_over : Text → Text → Text
text_over value old = if is_empty value then old else value

-- A number that reads and is above zero.
abbrev pub scanned_over : Option ℤ → ℕ → ℕ
scanned_over none old = old
scanned_over (some (negsuc n)) old = old
scanned_over (some (pos n)) old = if ltb 0 n then n else old

abbrev pub number_over : (Text → Option ℤ) → Text → ℕ → ℕ
number_over scan value old = if is_empty value then old else scanned_over (scan value) old

-- The endpoint of the environment replaces the first one.
abbrev pub replace_first : TelemetryEndpoint → List TelemetryEndpoint → List TelemetryEndpoint
replace_first endpoint [] = endpoint ∷ []
replace_first endpoint (old ∷ endpoints) = endpoint ∷ endpoints

module _ (getenv : Text → Text) (scan : Text → Option ℤ) where
  abbrev pub env_endpoint : TelemetryEndpoint
  env_endpoint = record {
    name = text_over (getenv (codes "TELEMETRY_ENDPOINT_NAME")) (codes "default");
    url = getenv (codes "TELEMETRY_ENDPOINT_URL");
    enabled = true;
    api_key = getenv (codes "TELEMETRY_ENDPOINT_API_KEY");
  }

  pub apply_env_overrides : Config → Config
  unfolding is_yes
  apply_env_overrides cfg = record {
    database_path = text_over (getenv (codes "DATABASE_PATH")) cfg.database_path;
    server = record {
      host = text_over (getenv (codes "SERVER_HOST")) cfg.server.host;
      port = number_over scan (getenv (codes "SERVER_PORT")) cfg.server.port;
      auth = record {
        enabled =
            if is_empty (getenv (codes "AUTH_ENABLED"))
            then cfg.server.auth.enabled
            else is_yes (getenv (codes "AUTH_ENABLED"));
        username = text_over (getenv (codes "AUTH_USERNAME")) cfg.server.auth.username;
        password = text_over (getenv (codes "AUTH_PASSWORD")) cfg.server.auth.password;
      };
    };
    scanner = record {
      interval_seconds =
          number_over scan (getenv (codes "SCANNER_INTERVAL_SECONDS")) cfg.scanner.interval_seconds;
      timeout_seconds = cfg.scanner.timeout_seconds;
    };
    telemetry = record {
      interval_hours =
          number_over scan (getenv (codes "TELEMETRY_INTERVAL_HOURS")) cfg.telemetry.interval_hours;
      endpoints =
          if is_empty (getenv (codes "TELEMETRY_ENDPOINT_URL"))
          then cfg.telemetry.endpoints
          else replace_first env_endpoint cfg.telemetry.endpoints;
    };
    hosts = cfg.hosts;
  }

  abbrev pub nonzero : ℕ → ℕ → ℕ
  nonzero n default = if n == 0 then default else n

  pub apply_defaults : Config → Config
  apply_defaults cfg = record cfg {
    database_path = text_over cfg.database_path (codes "./data/census.db");
    server = record cfg.server {
      host = text_over cfg.server.host (codes "0.0.0.0");
      port = nonzero cfg.server.port 8080;
    };
    scanner = record {
      interval_seconds = nonzero cfg.scanner.interval_seconds 300;
      timeout_seconds = nonzero cfg.scanner.timeout_seconds 30;
    };
  }

  -- Load, over what the reader of the file gives.
  pub load : Result Config → Result Config
  unfolding apply_env_overrides apply_defaults
  load (err e) = err e
  load (ok cfg) = ok (apply_defaults (apply_env_overrides cfg))

  abbrev pub default_config : Config
  default_config = record {
    database_path = codes "./data/census.db";
    server = record {
      host = codes "0.0.0.0";
      port = 8080;
      auth = record { enabled = false; username = []; password = [] };
    };
    scanner = record { interval_seconds = 300; timeout_seconds = 30 };
    telemetry = record { interval_hours = 0; endpoints = [] };
    hosts =
        record {
          name = codes "local";
          address = codes "unix:///var/run/docker.sock";
          description = codes "Local Docker daemon";
        }
        ∷ [];
  }

  abbrev pub or_default : Result Config → Config × Bool
  or_default (err e) = (apply_env_overrides default_config, false)
  or_default (ok cfg) = (cfg, true)

  pub load_or_default : Result Config → Config × Bool
  unfolding load
  load_or_default parsed = or_default (load parsed)

  -- getAuthConfigFromEnv of cmd/server/main.go.
  pub get_auth_config_from_env : Auth.Config
  unfolding is_yes
  get_auth_config_from_env = record {
    enabled = is_yes (getenv (codes "AUTH_ENABLED"));
    username = getenv (codes "AUTH_USERNAME");
    password = getenv (codes "AUTH_PASSWORD");
  }

  -- A configuration that the server can start with.
  abbrev pub IsComplete : Config → Type 0
  IsComplete cfg =
      (cfg.database_path ≢ [])
      × (cfg.server.host ≢ [])
      × (0 < cfg.server.port)
      × (0 < cfg.scanner.interval_seconds)
      × (0 < cfg.scanner.timeout_seconds)

  text_over-ne : (value default : Text) → default ≢ [] → text_over value default ≢ []
  text_over-ne [] default h = h
  text_over-ne (x ∷ xs) default h = λ q. absurd (ground (arith, q))

  scanned_over-pos : (o : Option ℤ) (old : ℕ) → 0 < old → 0 < scanned_over o old
  scanned_over-pos none old h = h
  scanned_over-pos (some (negsuc n)) old h = h
  scanned_over-pos (some (pos n)) old h = ground (arith, h)

  number_over-pos : (value : Text) (old : ℕ) → 0 < old → 0 < number_over scan value old
  number_over-pos [] old h = h
  number_over-pos (x ∷ xs) old h = scanned_over-pos (scan (x ∷ xs)) old h

  -- Whatever the file and the environment hold, and whether or not the file reads, the configuration that
  -- is loaded has a path of the database, a host, a positive port and positive times of the scanner.
  pub load_or_default-IsComplete : (parsed : Result Config) → IsComplete (load_or_default parsed).0
  unfolding load_or_default load apply_defaults apply_env_overrides
  load_or_default-IsComplete (err e) = (
    text_over-ne (getenv (codes "DATABASE_PATH")) (codes "./data/census.db")
        (λ q. absurd (ground (arith, q))),
    text_over-ne (getenv (codes "SERVER_HOST")) (codes "0.0.0.0") (λ q. absurd (ground (arith, q))),
    number_over-pos (getenv (codes "SERVER_PORT")) 8080 (omega arith),
    number_over-pos (getenv (codes "SCANNER_INTERVAL_SECONDS")) 300 (omega arith),
    omega arith,
  )
  load_or_default-IsComplete (ok cfg) = (
    text_over-ne (text_over (getenv (codes "DATABASE_PATH")) cfg.database_path)
        (codes "./data/census.db") (λ q. absurd (ground (arith, q))),
    text_over-ne (text_over (getenv (codes "SERVER_HOST")) cfg.server.host) (codes "0.0.0.0")
        (λ q. absurd (ground (arith, q))),
    ground arith,
    ground arith,
    ground arith,
  )
