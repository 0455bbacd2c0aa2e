-- ===== src/Settings/Migration.antt =====
-- internal/migration: the first import of the configuration file into the database, and the export; with
-- the tables of hosts, endpoints and preferences of internal/storage that they write. The statements
-- succeed but where a host's name is taken. `loaded` is what Load of internal/config gives.
pub mod Import
pub mod Parts
use container_census.Base.{
  ℕ, suc, Bool, true, false, not, List, [], ◌∷◌, ◌++◌, Option, none, some, map, Text, text_eq,
  codes, ◌==◌, if◌then◌else◌, any, sort_by, Result, ok, err, insert,
}
use container_census.Models.{Time, Host}
use container_census.Auth
use container_census.Telemetry.Types.{TelemetryEndpoint}
use container_census.Storage.Containers.{text_lt}
use container_census.Settings.{
  SystemSettings, SettingRow, is_first_run, get_default_settings, save_system_settings,
  load_system_settings,
}
use container_census.Settings.Config.{HostConfig, Config}

pub record ConfigTables : Type 0 where
  pub settings : List SettingRow
  pub hosts : List Host
  pub last_host_id : ℕ
  pub endpoints : List TelemetryEndpoint
  pub preferences : List (Text × Text)

abbrev pub named_host : Text → Text → Text → Host
named_host name address description = record {
  id = 0;
  name = name;
  address = address;
  description = description;
  host_type = [];
  agent_status = [];
  last_seen = 0;
  enabled = true;
  collect_stats = true;
}

-- AddHost: names are unique.
pub add_host : ConfigTables → Host → ConfigTables × Option Text
add_host db host =
    if any (λ other. other.name == host.name) db.hosts
    then (db, some (codes "UNIQUE constraint failed: hosts.name"))
    else (
      record db {
        hosts = db.hosts ++ (record host { id = suc db.last_host_id } ∷ []);
        last_host_id = suc db.last_host_id;
      },
      none,
    )

pub get_hosts : ConfigTables → List Host
get_hosts db = sort_by (λ a b. text_lt a.name b.name) db.hosts

-- `INSERT ... ON CONFLICT(name) DO UPDATE`.
pub upsert_endpoint : TelemetryEndpoint → List TelemetryEndpoint → List TelemetryEndpoint
upsert_endpoint new [] = new ∷ []
upsert_endpoint new (old ∷ endpoints) =
    if old.name == new.name then new ∷ endpoints else old ∷ upsert_endpoint new endpoints

pub save_telemetry_endpoint : ConfigTables → TelemetryEndpoint → ConfigTables
unfolding upsert_endpoint
save_telemetry_endpoint db endpoint = record db {
  endpoints = upsert_endpoint endpoint db.endpoints;
}

pub get_telemetry_endpoints : ConfigTables → List TelemetryEndpoint
get_telemetry_endpoints db = sort_by (λ a b. text_lt a.name b.name) db.endpoints

pub set_preference : Text → Text → ConfigTables → ConfigTables
set_preference key value db = record db { preferences = insert key value db.preferences }

-- A loop over a slice that changes the tables.
abbrev pub each {ℓ} :
    {A : Type ℓ} → (ConfigTables → A → ConfigTables) → ConfigTables → List A → ConfigTables
each step db [] = db
each step db (a ∷ as_) = each step (step db a) as_

pub import_host : ConfigTables → HostConfig → ConfigTables
unfolding add_host
import_host db host = (add_host db (named_host host.name host.address host.description)).0

-- Nothing is imported over hosts, or endpoints, that exist.
pub import_hosts : List HostConfig → ConfigTables → ConfigTables
unfolding import_host
import_hosts yaml_hosts db = elim db.hosts [
  | [] ↦ each import_host db yaml_hosts
  | host ∷ hosts ↦ db
]

pub import_telemetry_endpoints : List TelemetryEndpoint → ConfigTables → ConfigTables
unfolding save_telemetry_endpoint
import_telemetry_endpoints yaml_endpoints db = elim db.endpoints [
  | [] ↦ each save_telemetry_endpoint db yaml_endpoints
  | endpoint ∷ endpoints ↦ db
]

pub create_default_local_host : ConfigTables → ConfigTables
unfolding add_host
create_default_local_host db = elim db.hosts [
  | [] ↦
      (add_host db (
        named_host (codes "local") (codes "unix:///var/run/docker.sock")
          (codes "Local Docker daemon"))).0
  | host ∷ hosts ↦ db
]

unfoldable pub convert_config_to_settings : Config → SystemSettings
convert_config_to_settings cfg = record {
  scanner = record {
    interval_seconds = cfg.scanner.interval_seconds;
    timeout_seconds = cfg.scanner.timeout_seconds;
  };
  interval_hours = cfg.telemetry.interval_hours;
  notification = record {
    rate_limit_max = 100;
    rate_limit_batch_interval = 600;
    threshold_duration = 120;
    cooldown_period = 300;
  };
  card_design = [];
  updated_at = 0;
}

abbrev pub with_settings :
    (ConfigTables → ConfigTables)
    → ConfigTables
    → List SettingRow × Option Text
    → ConfigTables × Option Text
with_settings next db (rows, none) = (next (record db { settings = rows }), none)
with_settings next db (rows, some e) = (db, some e)

pub import_parts : Config → ConfigTables → ConfigTables
unfolding import_hosts import_telemetry_endpoints set_preference
import_parts cfg db =
    set_preference (codes "config_migrated") (codes "true")
      (import_telemetry_endpoints cfg.telemetry.endpoints (import_hosts cfg.hosts db))

pub import_loaded : Time → Result Config → ConfigTables → ConfigTables × Option Text
unfolding create_default_local_host import_parts convert_config_to_settings
import_loaded now (err e) db =
    with_settings create_default_local_host db
      (save_system_settings now (get_default_settings now) db.settings)
import_loaded now (ok cfg) db =
    with_settings (import_parts cfg) db
      (save_system_settings now (convert_config_to_settings cfg) db.settings)

pub import_yaml_config : Time → Result Config → ConfigTables → ConfigTables × Option Text
unfolding import_loaded
import_yaml_config now loaded db =
    if not (is_first_run db.settings)
    then (db, some (codes "settings already exist in database, migration not needed"))
    else import_loaded now loaded db

abbrev pub host_config : Host → HostConfig
host_config host = record {
  name = host.name;
  address = host.address;
  description = host.description;
}

pub convert_settings_to_config : SystemSettings → List Host → List TelemetryEndpoint → Config
convert_settings_to_config settings hosts endpoints = record {
  database_path = codes "# Set via DATABASE_PATH environment variable";
  server = record {
    host = codes "# Set via SERVER_HOST environment variable";
    port = 0;
    auth = record {
      enabled = false;
      username = codes "# Set via AUTH_USERNAME environment variable";
      password = codes "# Set via AUTH_PASSWORD environment variable";
    };
  };
  scanner = record {
    interval_seconds = settings.scanner.interval_seconds;
    timeout_seconds = settings.scanner.timeout_seconds;
  };
  telemetry = record { interval_hours = settings.interval_hours; endpoints = endpoints };
  hosts = map host_config hosts;
}

-- The configuration that ExportToYAML writes.
pub export_to_yaml : (Time → Option Time) → Time → ConfigTables → Config
unfolding convert_settings_to_config get_hosts get_telemetry_endpoints
export_to_yaml read_time now db =
    convert_settings_to_config (load_system_settings read_time now db.settings) (get_hosts db)
      (get_telemetry_endpoints db)
