-- ===== src/Settings/Tests.antt =====
-- Witnesses for the settings: a file with one host and no endpoints, imported into an empty database.
use container_census.Base.{
  ◌≡◌, ◌≢◌, ◌↔◌, ◌⊎◌, ◌*◌, refl, false, true, [], ◌∷◌, none, ok, Option, codes, arith,
}
use container_census.Models.{Time, hour}
use container_census.Settings.{
  SystemSettings, save_system_settings, load_system_settings, is_first_run,
}
use container_census.Settings.RoundTrip.{InRange, save_system_settings_lem}
use container_census.Settings.Config.{Config}
use container_census.Settings.Migration.{
  ConfigTables, import_yaml_config, export_to_yaml, convert_config_to_settings,
}
use container_census.Settings.Migration.Import.{
  IsExportOf, import_yaml_config_iff, export_to_yaml-import_yaml_config,
}

abbrev no_time : Time → Option Time
no_time t = none

abbrev daily : SystemSettings
daily = record {
  scanner = record { interval_seconds = 86400; timeout_seconds = 60 };
  interval_hours = 24;
  notification = record {
    rate_limit_max = 10;
    rate_limit_batch_interval = 600;
    threshold_duration = 120;
    cooldown_period = 300;
  };
  card_design = codes "compact";
  updated_at = 0;
}

save_system_settings_lem_example :
    (InRange daily
      × ((save_system_settings hour daily []).1 ≡ none)
      × (record (load_system_settings no_time (2 * hour) (save_system_settings hour daily []).0) {
        updated_at = 0;
      }
          ≡ daily))
    ⊎ ((¬ (InRange daily))
        × ((save_system_settings hour daily []).1 ≢ none)
        × ((save_system_settings hour daily []).0 ≡ []))
save_system_settings_lem_example = save_system_settings_lem no_time hour (2 * hour) daily []

abbrev file : Config
file = record {
  database_path = codes "./data/census.db";
  server = record {
    host = codes "0.0.0.0";
    port = 8080;
    auth = record { enabled = false; username = []; password = [] };
  };
  scanner = record { interval_seconds = 60; timeout_seconds = 30 };
  telemetry = record { interval_hours = 24; endpoints = [] };
  hosts =
      record { name = codes "alpha"; address = codes "tcp://alpha:2376"; description = [] } ∷ [];
}

abbrev empty_tables : ConfigTables
empty_tables = record {
  settings = [];
  hosts = [];
  last_host_id = 0;
  endpoints = [];
  preferences = [];
}

-- The telemetry interval of a file that does not give one is zero.
abbrev without_interval : Config
without_interval = record file { telemetry = record { interval_hours = 0; endpoints = [] } }

import_yaml_config_iff_example :
    (((import_yaml_config hour (ok without_interval) empty_tables).1 ≡ none)
      ↔ (is_first_run empty_tables.settings ≡ true)
        × InRange (convert_config_to_settings without_interval))
    × (((import_yaml_config hour (ok without_interval) empty_tables).1 ≡ none)
        ⊎ ((import_yaml_config hour (ok without_interval) empty_tables).0 ≡ empty_tables))
import_yaml_config_iff_example = import_yaml_config_iff no_time hour without_interval empty_tables

export_to_yaml-import_yaml_config_example :
    IsExportOf
      (export_to_yaml no_time (2 * hour) (import_yaml_config hour (ok file) empty_tables).0)
      file
unfolding is_first_run convert_config_to_settings
export_to_yaml-import_yaml_config_example =
    export_to_yaml-import_yaml_config no_time hour (2 * hour) file empty_tables refl refl refl
      (
        omega arith,
        omega arith,
        omega arith,
        omega arith,
        omega arith,
        omega arith,
        omega arith,
        omega arith,
        omega arith,
        omega arith,
        omega arith,
        omega arith,
        omega arith,
        omega arith,
        refl,
      )
      (refl, tt) tt
