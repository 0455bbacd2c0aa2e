-- ===== src/Server/ImageUpdates.antt =====
-- runImageUpdateChecker of cmd/server/main.go, with the settings and the status of image updates of
-- internal/storage/db.go. The clock, the requests to the registry, Sscanf with %d and the notifier are
-- parameters. `none` stands for the panic of a slice out of range. An interval is not negative: Validate
-- refuses the others as it does zero.
pub mod Latest
pub mod Loop
pub mod ToCheck
pub mod Checks
pub mod Ticker
pub mod Notify
pub mod Saved
mod Tests
use container_census.Base.{
  ℕ, suc, Bool, true, false, not, ◌&&◌, ◌||◌, List, [], ◌∷◌, ◌++◌, map, Option, none, some, Result,
  ok, err, Text, text_eq, nat_eq, codes, ◌==◌, if◌then◌else◌, any, keep, ltb, leb, length, last?,
  split, decimal,
}
use container_census.Models.{Time, Float64, Container}
use container_census.Storage.Containers.{ContainerRow, later_of, is_time, get_latest_containers}
use container_census.Registry.{ImageName, ImageUpdateInfo, check_image_update, colon}

pub record ImageUpdateSettings : Type 0 where
  pub auto_check_enabled : Bool
  pub check_interval_hours : ℕ
  pub only_check_latest_tags : Bool

-- `none` if the settings are valid.
pub validate_updates : ImageUpdateSettings → Option Text
validate_updates s =
    if ltb s.check_interval_hours 1 || ltb 168 s.check_interval_hours
    then some (codes "check interval must be between 1 and 168 hours")
    else none

abbrev pub is_true : Text → Bool
is_true value = value == codes "true" || value == codes "1"

abbrev pub scanned_or : ℕ → Option ℕ → ℕ
scanned_or n none = n
scanned_or n (some m) = m

module _ (scan : Text → Option ℕ) where
  -- The switch over the key of a row.
  pub read_row : Text → Text → ImageUpdateSettings → ImageUpdateSettings
  read_row key value s =
      if key == codes "auto_check_enabled"
      then record s { auto_check_enabled = is_true value }
      else if key == codes "check_interval_hours"
      then record s { check_interval_hours = scanned_or s.check_interval_hours (scan value) }
      else if key == codes "only_check_latest_tags"
      then record s { only_check_latest_tags = is_true value }
      else s

  pub read_rows : List (Text × Text) → ImageUpdateSettings → ImageUpdateSettings
  unfolding read_row
  read_rows [] s = s
  read_rows ((key, value) ∷ rows) s = read_rows rows (read_row key value s)

  pub get_image_update_settings : List (Text × Text) → ImageUpdateSettings
  unfolding read_rows
  get_image_update_settings table = read_rows table (record {
    auto_check_enabled = false;
    check_interval_hours = 24;
    only_check_latest_tags = true;
  })

-- `INSERT ... ON CONFLICT(key) DO UPDATE`.
pub upsert : Text → Text → List (Text × Text) → List (Text × Text)
upsert key value table =
    if any (λ row. row.0 == key) table
    then map (λ row. if row.0 == key then (key, value) else row) table
    else table ++ ((key, value) ∷ [])

abbrev pub show_bool : Bool → Text
show_bool b = if b then codes "true" else codes "false"

-- The new table, and the error of Validate.
pub save_image_update_settings :
    ImageUpdateSettings → List (Text × Text) → List (Text × Text) × Option Text
unfolding validate_updates upsert
save_image_update_settings s table = elim (validate_updates s) [
  | some e ↦ (table, some e)
  | none ↦ (
    upsert (codes "only_check_latest_tags") (show_bool s.only_check_latest_tags) (
        upsert (codes "check_interval_hours") (decimal s.check_interval_hours)
          (upsert (codes "auto_check_enabled") (show_bool s.auto_check_enabled) table)),
    none,
  )
]

-- The settings that the loop holds, and the hours of its ticker, `none` for no ticker.
pub record Checker : Type 0 where
  pub settings : ImageUpdateSettings
  pub ticker : Option ℕ

abbrev pub ticker_of : ImageUpdateSettings → Option ℕ
ticker_of s =
    if s.auto_check_enabled && ltb 0 s.check_interval_hours
    then some s.check_interval_hours
    else none

pub start_checker : ImageUpdateSettings → Checker
start_checker s = record { settings = s; ticker = ticker_of s }

-- `a != b`.
abbrev pub flag_changed : Bool → Bool → Bool
flag_changed a b = if a then not b else b

-- The case of the settings ticker.
pub reload_settings : ImageUpdateSettings → Checker → Checker
reload_settings new c =
    if flag_changed new.auto_check_enabled c.settings.auto_check_enabled
      || not (new.check_interval_hours == c.settings.check_interval_hours)
    then record { settings = new; ticker = ticker_of new }
    else record c { settings = new }

-- `parts[len(parts)-1]` if there are more parts than one.
abbrev pub last_tag : List Text → Text
last_tag [] = codes "latest"
last_tag (name ∷ []) = codes "latest"
last_tag (name ∷ part ∷ parts) = elim (last? (part ∷ parts)) [ none ↦ [] | some tag ↦ tag ]

-- The slices `LocalDigest[:12]` and `RemoteDigest[:12]` of the log line are within their range.
abbrev pub can_log : ImageUpdateInfo → Bool
can_log info = leb 12 (length info.local_digest) && leb 12 (length info.remote_digest)

module _ {F : Type 0} where
  -- The test of the filter for the containers to check.
  pub is_checked : Bool → Container F → Bool
  is_checked only_latest c =
      c.state == codes "running"
      && (not only_latest || last_tag (split colon c.image) == codes "latest")

  pub containers_to_check : Float64 F → Bool → List (ContainerRow F) → List (Container F)
  unfolding is_checked
  containers_to_check fl only_latest table =
      keep (is_checked only_latest) (get_latest_containers fl table)

  -- `MAX(scanned_at)` of the rows of a container.
  pub max_of : Text → ℕ → List (ContainerRow F) → Option Time
  max_of id host_id [] = none
  max_of id host_id (row ∷ rows) =
      let rest = max_of id host_id rows in
      if row.id == id && row.host_id == host_id then later_of row.scanned_at rest else rest

  pub save_container_update_status :
      Time → Text → ℕ → Bool → List (ContainerRow F) → List (ContainerRow F)
  unfolding max_of
  save_container_update_status now id host_id available table =
      map
        (λ row.
          if row.id == id
            && row.host_id == host_id
            && is_time row.scanned_at (max_of id host_id table)
          then record row { update_available = available; last_update_check = some now }
          else row)
        table

  -- The hosts of the containers that had an update when they were read, each once.
  pub hosts_with_updates : List (Container F) → List ℕ → List ℕ
  hosts_with_updates [] seen = seen
  hosts_with_updates (c ∷ cs) seen =
      if c.update_available && not (any (λ host. host == c.host_id) seen)
      then hosts_with_updates cs (seen ++ (c.host_id ∷ []))
      else hosts_with_updates cs seen

module _ {F : Type 0} (now : Container F → Time) where
  -- The turn of the loop for a container and the registry's answer, with the number of updates.
  pub check_turn :
      Result ImageUpdateInfo
      → Container F
      → List (ContainerRow F) × ℕ
      → Option (List (ContainerRow F) × ℕ)
  unfolding save_container_update_status
  check_turn (err e) c run = some run
  check_turn (ok info) c (table, found) =
      let saved = save_container_update_status (now c) c.id c.host_id info.available table in
      if not info.available
      then some (saved, found)
      else if can_log info
      then some (saved, suc found)
      else none

module _ {F : Type 0} (get_image_digest : ImageName → Result Text)
    (get_image_created_time : ImageName → Result Time) (now : Container F → Time) where
  pub check_loop :
      List (Container F) → List (ContainerRow F) × ℕ → Option (List (ContainerRow F) × ℕ)
  unfolding check_turn
  check_loop [] run = some run
  check_loop (c ∷ cs) run =
      let answer = check_image_update get_image_digest get_image_created_time c.image c.image_id in
      elim (check_turn now answer c run) [ none ↦ none | some next ↦ check_loop cs next ]

  -- A check of the images: the new table and the number of the updates.
  pub check_images : Float64 F → Bool → List (ContainerRow F) → Option (List (ContainerRow F) × ℕ)
  unfolding check_loop containers_to_check
  check_images fl only_latest table =
      check_loop (containers_to_check fl only_latest table) (table, 0)

module _ {F N : Type 0} (process_host : ℕ → List (ContainerRow F) → N → N) where
  pub process_hosts : List ℕ → List (ContainerRow F) → N → N
  process_hosts [] table notifier = notifier
  process_hosts (host ∷ hosts) table notifier =
      process_hosts hosts table (process_host host table notifier)

  -- The background notification for the containers that were checked.
  pub notify_hosts : List (Container F) → ℕ → List (ContainerRow F) → N → N
  unfolding process_hosts hosts_with_updates
  notify_hosts checked found table notifier =
      if ltb 0 found then process_hosts (hosts_with_updates checked []) table notifier else notifier

module _ {F N : Type 0} (fl : Float64 F) (get_image_digest : ImageName → Result Text)
    (get_image_created_time : ImageName → Result Time) (now : Container F → Time)
    (process_host : ℕ → List (ContainerRow F) → N → N) where
  -- The case of the check ticker, over the table and the notifier.
  pub check_tick :
      ImageUpdateSettings → List (ContainerRow F) → N → Option (List (ContainerRow F) × N)
  unfolding notify_hosts check_images
  check_tick s table notifier =
      if not s.auto_check_enabled
      then some (table, notifier)
      else elim (check_images get_image_digest get_image_created_time now fl
          s.only_check_latest_tags table) [
            | none ↦ none
            | some (checked, found) ↦ some (
              checked,
              notify_hosts process_host (containers_to_check fl s.only_check_latest_tags table)
                  found checked notifier,
            )
          ]
