-- ===== src/Server/ImageUpdates/Tests.antt =====
-- Witnesses and test data for the check of the images.
use container_census.Base.{
  ℕ, suc, ◌+◌, ◌-◌, ◌*◌, ◌/◌, ◌≤◌, ◌≡◌, ◌≢◌, ◌↔◌, ◌⊎◌, ◌<◌, refl, ap, ◌∙◌, true, List, [], ◌∷◌,
  ◌++◌, map, Option, none, some, Result, ok, Text, codes, decimal, ltb, if◌then◌else◌, value_rev,
  value-digits_rev, digits_rev, arith,
}
use mathlib.Core.List.{reverse, reverse-reverse}
use container_census.Models.{Time, Float64, Container}
use container_census.Registry.{ImageName}
use container_census.Storage.Containers.{ContainerRow, to_row}
use container_census.Storage.Containers.RoundTrip.{IsKeyed}
use container_census.Server.ImageUpdates.{
  ImageUpdateSettings, start_checker, reload_settings, check_images, check_tick, process_hosts,
  save_image_update_settings, get_image_update_settings,
}
use container_census.Server.ImageUpdates.Ticker.{Reaches, ticker_lem}
use container_census.Server.ImageUpdates.Checks.{
  checked_row, panics, updates_found, check_images_lem,
}
use container_census.Server.ImageUpdates.Notify.{NotifiedHosts, check_tick_lem}
use container_census.Server.ImageUpdates.Saved.{save_image_update_settings_lem}

abbrev floats : Float64 ℕ
floats = record {
  zero_f = 0;
  quarter = 25;
  hundred = 10000;
  lt_f = ltb;
  add_f = λ a b. a + b;
  sub_f = λ a b. a - b;
  mul_f = λ a b. a * b;
  div_f = λ a b. a / b;
  of_nat = λ n. n;
  show_1f = decimal;
}

abbrev cache : Container ℕ
cache = record {
  id = codes "c7";
  name = codes "cache";
  image = codes "redis";
  image_id = codes "sha256:0123456789abcdef";
  image_size = 0;
  state = codes "running";
  restart_count = 0;
  labels = [];
  host_id = 3;
  host_name = codes "beta";
  scanned_at = 500;
  networks = [];
  volumes = [];
  compose_project = [];
  cpu_percent = 1;
  memory_usage = 10;
  memory_limit = 100;
  memory_percent = 10;
  update_available = true;
  last_update_check = 400;
}

abbrev table : List (ContainerRow ℕ)
table = to_row cache ∷ []

table-IsKeyed : IsKeyed table
table-IsKeyed = (refl, tt)

abbrev digest_of : ImageName → Result Text
digest_of parsed = ok (codes "sha256:fedcba9876543210")

abbrev created_of : ImageName → Result Time
created_of parsed = ok 450

abbrev clock : Container ℕ → Time
clock c = 600

-- A notifier that writes down the hosts.
abbrev noting : ℕ → List (ContainerRow ℕ) → List ℕ → List ℕ
noting host rows notifier = notifier ++ (host ∷ [])

abbrev daily : ImageUpdateSettings
daily = record {
  auto_check_enabled = true;
  check_interval_hours = 24;
  only_check_latest_tags = true;
}

check_images_lem_example : check_images digest_of created_of clock floats true table ≡ (
    if panics floats digest_of created_of clock true table
    then none
    else some (
      map (checked_row floats digest_of created_of clock true table) table,
      updates_found floats digest_of created_of clock true table,
    ))
check_images_lem_example =
    check_images_lem floats digest_of created_of clock true table table-IsKeyed

check_tick_lem_example :
    (hosts : List ℕ) × NotifiedHosts floats true table
      (updates_found floats digest_of created_of clock true table)
      hosts
    × (check_tick floats digest_of created_of clock noting daily table [] ≡ (
        if panics floats digest_of created_of clock true table
        then none
        else let checked = map (checked_row floats digest_of created_of clock true table) table in
          some (checked, process_hosts noting hosts checked [])))
check_tick_lem_example =
    check_tick_lem floats digest_of created_of clock noting daily table [] refl table-IsKeyed

abbrev weekly : ImageUpdateSettings
weekly = record daily { check_interval_hours = 168 }

ticker_lem_example :
    ((reload_settings weekly (start_checker daily)).ticker ≡ some 168)
    ↔ ((reload_settings weekly (start_checker daily)).settings.auto_check_enabled ≡ true)
      × ((reload_settings weekly (start_checker daily)).settings.check_interval_hours ≡ 168)
      × (0 < 168)
ticker_lem_example =
    ticker_lem (reload_settings weekly (start_checker daily))
      (Reaches.reloads weekly (Reaches.starts daily)) 168

-- Sscanf on the digits of a number.
abbrev scan_digits : Text → Option ℕ
scan_digits text = some (value_rev (reverse text))

scan_digits-decimal : (n : ℕ) → scan_digits (decimal n) ≡ some n
unfolding decimal
scan_digits-decimal n =
    ap (λ ds. some (value_rev ds)) (reverse-reverse (digits_rev (suc n) n))
    ∙ ap some (value-digits_rev (suc n) n (omega arith))

save_image_update_settings_lem_example :
    ((1 ≤ 168)
      × (168 ≤ 168)
      × ((save_image_update_settings weekly []).1 ≡ none)
      × (get_image_update_settings scan_digits (save_image_update_settings weekly []).0 ≡ weekly))
    ⊎ ((¬ ((1 ≤ 168) × (168 ≤ 168)))
        × ((save_image_update_settings weekly []).1 ≢ none)
        × ((save_image_update_settings weekly []).0 ≡ []))
save_image_update_settings_lem_example =
    save_image_update_settings_lem scan_digits scan_digits-decimal weekly []
