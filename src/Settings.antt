-- ===== src/Settings.antt =====
-- The system settings: SystemSettings of internal/models/models.go and its table of
-- internal/storage/settings.go. A value of the column `value` is the JSON that it encodes. A number is not
-- negative: Validate refuses the others as it does zero.
pub mod RoundTrip
pub mod Config
pub mod Migration
mod Tests
use container_census.Base.{
  ℕ, Bool, true, false, not, ◌&&◌, ◌||◌, List, [], ◌∷◌, Option, none, some, Text, text_eq, codes,
  ◌==◌, if◌then◌else◌, ltb, Result, ok, err, is_empty,
}
use container_census.Models.{Time}

pub record ScannerSettings : Type 0 where
  pub interval_seconds : ℕ
  pub timeout_seconds : ℕ

pub record NotificationSettings : Type 0 where
  pub rate_limit_max : ℕ
  pub rate_limit_batch_interval : ℕ
  pub threshold_duration : ℕ
  pub cooldown_period : ℕ

-- `interval_hours` is that of TelemetrySettings, `card_design` that of UISettings.
pub record SystemSettings : Type 0 where
  pub scanner : ScannerSettings
  pub interval_hours : ℕ
  pub notification : NotificationSettings
  pub card_design : Text
  pub updated_at : Time

pub data Json : Type 0 where
  number : ℕ → Json
  text : Text → Json

pub record SettingRow : Type 0 where
  pub category : Text
  pub key : Text
  pub value : Json
  pub data_type : Text
  pub description : Text
  pub updated_at : Time

-- `x < low || x > high`.
abbrev pub is_outside : ℕ → ℕ → ℕ → Bool
is_outside low high x = ltb x low || ltb high x

abbrev pub is_design : Text → Bool
is_design design =
    is_empty design
    || design == codes "compact"
    || design == codes "material"
    || design == codes "dashboard"

-- `none` if the settings are valid.
pub validate : SystemSettings → Option Text
validate s =
    if is_outside 10 86400 s.scanner.interval_seconds
    then some (codes "scanner interval must be between 10 and 86400 seconds")
    else if is_outside 5 300 s.scanner.timeout_seconds
    then some (codes "scanner timeout must be between 5 and 300 seconds")
    else if is_outside 1 720 s.interval_hours
    then some (codes "telemetry interval must be between 1 and 720 hours")
    else if is_outside 1 1000 s.notification.rate_limit_max
    then some (codes "notification rate limit must be between 1 and 1000")
    else if is_outside 60 3600 s.notification.rate_limit_batch_interval
    then some (codes "notification batch interval must be between 60 and 3600 seconds")
    else if is_outside 30 600 s.notification.threshold_duration
    then some (codes "notification threshold duration must be between 30 and 600 seconds")
    else if is_outside 60 3600 s.notification.cooldown_period
    then some (codes "notification cooldown period must be between 60 and 3600 seconds")
    else if not (is_design s.card_design)
    then some (codes "card design must be one of: compact, material, dashboard")
    else none

pub get_default_settings : Time → SystemSettings
get_default_settings now = record {
  scanner = record { interval_seconds = 300; timeout_seconds = 30 };
  interval_hours = 168;
  notification = record {
    rate_limit_max = 100;
    rate_limit_batch_interval = 600;
    threshold_duration = 120;
    cooldown_period = 300;
  };
  card_design = codes "material";
  updated_at = now;
}

pub is_first_run : List SettingRow → Bool
is_first_run [] = true
is_first_run (row ∷ rows) = false

-- The value of a category and a key.
pub find_setting : Text → Text → List SettingRow → Option Json
find_setting category key [] = none
find_setting category key (row ∷ rows) =
    if row.category == category && row.key == key
    then some row.value
    else find_setting category key rows

-- `INSERT ... ON CONFLICT(category, key) DO UPDATE`.
pub save_setting : SettingRow → List SettingRow → List SettingRow
save_setting new [] = new ∷ []
save_setting new (row ∷ rows) =
    if row.category == new.category && row.key == new.key
    then new ∷ rows
    else row ∷ save_setting new rows

pub save_each : List SettingRow → List SettingRow → List SettingRow
unfolding save_setting
save_each [] table = table
save_each (row ∷ rows) table = save_each rows (save_setting row table)

-- loadCategorySetting into an int and into a string, and the default that stands for its error.
abbrev pub number_or : ℕ → Option Json → ℕ
number_or n (some (number m)) = m
number_or n (some (text t)) = n
number_or n none = n

abbrev pub text_or : Text → Option Json → Text
text_or t (some (text u)) = u
text_or t (some (number m)) = t
text_or t none = t

abbrev pub number_setting : List SettingRow → Text → Text → ℕ → ℕ
number_setting table category key default = number_or default (find_setting category key table)

abbrev pub number_row : Time → Text → Text → ℕ → Text → SettingRow
number_row now category key value description = record {
  category = category;
  key = key;
  value = number value;
  data_type = codes "int";
  description = description;
  updated_at = now;
}

-- The rows that SaveSystemSettings writes, in their order.
pub setting_rows : Time → SystemSettings → List SettingRow
setting_rows now s =
    number_row now (codes "scanner") (codes "interval_seconds") s.scanner.interval_seconds
      (codes "Scan interval in seconds")
    ∷ number_row now (codes "scanner") (codes "timeout_seconds") s.scanner.timeout_seconds
        (codes "Scan timeout in seconds")
    ∷ number_row now (codes "telemetry") (codes "interval_hours") s.interval_hours
        (codes "Telemetry submission interval in hours")
    ∷ number_row now (codes "notification") (codes "rate_limit_max") s.notification.rate_limit_max
        (codes "Maximum notifications per hour")
    ∷ number_row now (codes "notification") (codes "rate_limit_batch_interval")
        s.notification.rate_limit_batch_interval
        (codes "Batch interval in seconds when rate limited")
    ∷ number_row now (codes "notification") (codes "threshold_duration")
        s.notification.threshold_duration
        (codes "Threshold breach duration in seconds before alerting")
    ∷ number_row now (codes "notification") (codes "cooldown_period") s.notification.cooldown_period
        (codes "Cooldown between alerts for same container in seconds")
    ∷ record {
      category = codes "ui";
      key = codes "card_design";
      value = text s.card_design;
      data_type = codes "string";
      description = codes "Container card design theme (compact, material, dashboard)";
      updated_at = now;
    }
    ∷ []

abbrev pub save_valid :
    Time → SystemSettings → Option Text → List SettingRow → List SettingRow × Option Text
save_valid now s (some e) table = (table, some e)
save_valid now s none table = (save_each (setting_rows now s) table, none)

pub save_system_settings : Time → SystemSettings → List SettingRow → List SettingRow × Option Text
unfolding validate setting_rows save_each
save_system_settings now s table = save_valid now s (validate s) table

abbrev pub latest_update : List SettingRow → Time
latest_update [] = 0
latest_update (row ∷ rows) =
    if ltb (latest_update rows) row.updated_at then row.updated_at else latest_update rows

-- `read_time` reads the text that is stored for a time in the one format that is tried; a time that cannot
-- be read stays at its zero value.
pub stored_settings : (Time → Option Time) → List SettingRow → SystemSettings
unfolding find_setting
stored_settings read_time table = record {
  scanner = record {
    interval_seconds = number_setting table (codes "scanner") (codes "interval_seconds") 300;
    timeout_seconds = number_setting table (codes "scanner") (codes "timeout_seconds") 30;
  };
  interval_hours = number_setting table (codes "telemetry") (codes "interval_hours") 168;
  notification = record {
    rate_limit_max = number_setting table (codes "notification") (codes "rate_limit_max") 100;
    rate_limit_batch_interval =
        number_setting table (codes "notification") (codes "rate_limit_batch_interval") 600;
    threshold_duration =
        number_setting table (codes "notification") (codes "threshold_duration") 120;
    cooldown_period = number_setting table (codes "notification") (codes "cooldown_period") 300;
  };
  card_design = text_or (codes "material") (find_setting (codes "ui") (codes "card_design") table);
  updated_at = elim (read_time (latest_update table)) [ none ↦ 0 | some t ↦ t ];
}

pub load_system_settings : (Time → Option Time) → Time → List SettingRow → SystemSettings
unfolding get_default_settings is_first_run stored_settings
load_system_settings read_time now table =
    if is_first_run table then get_default_settings now else stored_settings read_time table

-- GetSetting, and SetSetting of a value that is not validated.
pub get_setting : Text → Text → List SettingRow → Result Json
unfolding find_setting
get_setting category key table = elim (find_setting category key table) [
  | none ↦ err (codes "setting not found")
  | some value ↦ ok value
]

pub update_setting : Time → Text → Text → Json → List SettingRow → List SettingRow
update_setting now category key value [] = []
update_setting now category key value (row ∷ rows) =
    (if row.category == category && row.key == key
      then record row { value = value; updated_at = now }
      else row)
    ∷ update_setting now category key value rows

abbrev pub set_found :
    Time → Text → Text → Json → Option Json → List SettingRow → List SettingRow × Option Text
set_found now category key value none table = (table, some (codes "setting not found"))
set_found now category key value (some old) table =
    (update_setting now category key value table, none)

pub set_setting : Time → Text → Text → Json → List SettingRow → List SettingRow × Option Text
unfolding update_setting find_setting
set_setting now category key value table =
    set_found now category key value (find_setting category key table) table
