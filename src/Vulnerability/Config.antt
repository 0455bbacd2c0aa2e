-- ===== src/Vulnerability/Config.antt =====
-- internal/vulnerability/config.go: the settings of the scanner. Numbers are Go's signed integers, and
-- a setter returns the settings and whether its check passed (a nil error).
pub mod Laws
use container_census.Base.{ℕ, Bool, true, false, ◌||◌, Text, codes, if◌then◌else◌, is_empty}
use container_census.Base.Int.{ℤ, pos, ltb_ℤ}

pub record Config : Type 0 where
  pub enabled : Bool
  pub auto_scan_new_images : Bool
  pub worker_pool_size : ℤ
  pub scan_timeout_minutes : ℤ
  pub cache_ttl_hours : ℤ
  pub rescan_interval_hours : ℤ
  pub cache_dir : Text
  pub db_update_interval_hours : ℤ
  pub retention_days : ℤ
  pub detailed_retention_days : ℤ
  pub alert_on_critical : Bool
  pub alert_on_high : Bool
  pub max_queue_size : ℤ

-- `env` is the environment variable TRIVY_CACHE_DIR, empty if it is not set.
unfoldable pub default_config : Text → Config
default_config env = record {
  enabled = true;
  auto_scan_new_images = true;
  worker_pool_size = pos 5;
  scan_timeout_minutes = pos 10;
  cache_ttl_hours = pos 24;
  rescan_interval_hours = pos 168;
  cache_dir = if is_empty env then codes "/app/data/.trivy" else env;
  db_update_interval_hours = pos 24;
  retention_days = pos 90;
  detailed_retention_days = pos 30;
  alert_on_critical = true;
  alert_on_high = false;
  max_queue_size = pos 100;
}

-- `n < lo || n > hi`.
pub outside : ℕ → ℕ → ℤ → Bool
outside lo hi n = ltb_ℤ n (pos lo) || ltb_ℤ (pos hi) n

pub set_enabled : Bool → Config → Config
set_enabled b c = record c { enabled = b }

pub set_auto_scan_new_images : Bool → Config → Config
set_auto_scan_new_images b c = record c { auto_scan_new_images = b }

pub set_worker_pool_size : ℤ → Config → Config × Bool
set_worker_pool_size size c =
    if outside 1 10 size then (c, false) else (record c { worker_pool_size = size }, true)

pub set_scan_timeout : ℤ → Config → Config × Bool
set_scan_timeout minutes c =
    if outside 1 60 minutes then (c, false) else (record c { scan_timeout_minutes = minutes }, true)

pub set_cache_ttl : ℤ → Config → Config × Bool
set_cache_ttl hours c =
    if outside 1 168 hours then (c, false) else (record c { cache_ttl_hours = hours }, true)

pub set_rescan_interval : ℤ → Config → Config × Bool
set_rescan_interval hours c =
    if outside 24 720 hours then (c, false) else (record c { rescan_interval_hours = hours }, true)

pub set_cache_dir : Text → Config → Config
set_cache_dir dir c = record c { cache_dir = dir }

pub set_alert_on_critical : Bool → Config → Config
set_alert_on_critical b c = record c { alert_on_critical = b }

pub set_alert_on_high : Bool → Config → Config
set_alert_on_high b c = record c { alert_on_high = b }

pub update : Config → Config → Config × Bool
update new_config c =
    if outside 1 10 new_config.worker_pool_size
    then (c, false)
    else (if outside 1 60 new_config.scan_timeout_minutes
        then (c, false)
        else (if outside 1 168 new_config.cache_ttl_hours
            then (c, false)
            else (if outside 24 720 new_config.rescan_interval_hours then (c, false) else (
              record c {
                enabled = new_config.enabled;
                auto_scan_new_images = new_config.auto_scan_new_images;
                worker_pool_size = new_config.worker_pool_size;
                scan_timeout_minutes = new_config.scan_timeout_minutes;
                cache_ttl_hours = new_config.cache_ttl_hours;
                rescan_interval_hours = new_config.rescan_interval_hours;
                cache_dir = new_config.cache_dir;
                db_update_interval_hours = new_config.db_update_interval_hours;
                retention_days = new_config.retention_days;
                detailed_retention_days = new_config.detailed_retention_days;
                alert_on_critical = new_config.alert_on_critical;
                alert_on_high = new_config.alert_on_high;
                max_queue_size = new_config.max_queue_size;
              },
              true,
            ))))
