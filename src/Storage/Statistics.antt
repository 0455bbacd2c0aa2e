-- ===== src/Storage/Statistics.antt =====
-- GetContainerStats and AggregateOldStats of internal/storage/db.go. `Sqlite` holds SQLite's AVG, over the
-- values that are not NULL, and its LIKE; a time is stored and compared as a time, and an hour is the time of its start.
-- The groups of GROUP BY come in the order of their last rows.
pub mod Removal
pub mod Points
mod Tests
use container_census.Base.{
  ℕ, ◌+◌, ◌*◌, ◌/◌, Bool, true, false, not, ◌&&◌, ◌||◌, List, [], ◌∷◌, ◌++◌, Option, none, some,
  map, Text, text_eq, nat_eq, codes, is_some, ◌==◌, if◌then◌else◌, any, keep, length, take, ltb,
  leb, sort_by,
}
use container_census.Models.{Time, hour, Float64, ContainerStatsPoint}
use container_census.Storage.Containers.{ContainerRow, value_or}

pub record AggregateRow (F : Type 0) : Type 0 where
  pub container_id : Text
  pub container_name : Text
  pub host_id : ℕ
  pub host_name : Text
  pub timestamp_hour : Time
  pub avg_cpu_percent : Option F
  pub avg_memory_usage : Option F
  pub max_cpu_percent : Option F
  pub max_memory_usage : Option ℕ
  pub sample_count : ℕ

pub record StatsTables (F : Type 0) : Type 0 where
  pub containers : List (ContainerRow F)
  pub aggregates : List (AggregateRow F)

pub record Sqlite (F : Type 0) : Type 0 where
  pub avg : List F → F
  pub like : Text → Text → Bool
  pub truncate : F → ℕ

-- `datetime(strftime('%Y-%m-%d %H:00:00', scanned_at))`.
abbrev pub hour_of : Time → Time
hour_of t = t / hour * hour

-- The values of a column that are not NULL.
pub present {ℓ} : {A : Type ℓ} → List (Option A) → List A
present [] = []
present (none ∷ os) = present os
present (some a ∷ os) = a ∷ present os

pub greatest {ℓ} : {A : Type ℓ} → (A → A → Bool) → List A → Option A
greatest before [] = none
greatest before (x ∷ xs) = elim (greatest before xs) [
  | none ↦ some x
  | some y ↦ some (if before x y then y else x)
]

module _ {F : Type 0} where
  -- `cpu_percent IS NOT NULL OR memory_usage IS NOT NULL`.
  abbrev pub is_measured : ContainerRow F → Bool
  is_measured row = is_some row.cpu_percent || is_some row.memory_usage

  -- What a pass aggregates: measured rows of scans over an hour ago.
  pub is_aggregated : Time → ContainerRow F → Bool
  is_aggregated now row = ltb (row.scanned_at + hour) now && is_measured row

  -- One group of `GROUP BY id, name, host_id, host_name, timestamp_hour`.
  abbrev pub same_group : ContainerRow F → ContainerRow F → Bool
  same_group r s =
      r.id == s.id
      && r.name == s.name
      && r.host_id == s.host_id
      && r.host_name == s.host_name
      && hour_of r.scanned_at == hour_of s.scanned_at

  -- A row for each group.
  pub representatives : List (ContainerRow F) → List (ContainerRow F)
  representatives [] = []
  representatives (r ∷ rs) =
      let rest = representatives rs in if any (same_group r) rest then rest else r ∷ rest

  -- The columns that must be unique.
  abbrev pub same_bucket : AggregateRow F → AggregateRow F → Bool
  same_bucket a b =
      a.container_id == b.container_id
      && a.host_id == b.host_id
      && a.timestamp_hour == b.timestamp_hour

  -- The subselect of the DELETE.
  abbrev pub is_bucket_of : ContainerRow F → AggregateRow F → Bool
  is_bucket_of row a =
      row.id == a.container_id
      && row.host_id == a.host_id
      && hour_of row.scanned_at == a.timestamp_hour

  -- `INSERT OR REPLACE` of the selected rows, one after the other.
  pub replace_all : List (AggregateRow F) → List (AggregateRow F) → List (AggregateRow F)
  replace_all [] table = table
  replace_all (a ∷ as_) table =
      replace_all as_ (keep (λ b. not (same_bucket a b)) table ++ (a ∷ []))

  module _ (fl : Float64 F) (sql : Sqlite F) where
    abbrev pub average_of : List F → Option F
    average_of [] = none
    average_of (x ∷ xs) = some (sql.avg (x ∷ xs))

    -- What is selected for the group of a row.
    pub group_row : List (ContainerRow F) → ContainerRow F → AggregateRow F
    unfolding present greatest
    group_row rows r =
        let group = keep (same_group r) rows in
        let cpu = present (map (λ s. s.cpu_percent) group) in
        let memory = present (map (λ s. s.memory_usage) group) in
        record {
          container_id = r.id;
          container_name = r.name;
          host_id = r.host_id;
          host_name = r.host_name;
          timestamp_hour = hour_of r.scanned_at;
          avg_cpu_percent = average_of cpu;
          avg_memory_usage = average_of (map fl.of_nat memory);
          max_cpu_percent = greatest fl.lt_f cpu;
          max_memory_usage = greatest ltb memory;
          sample_count = length group;
        }

    pub aggregate : Time → StatsTables F → List (AggregateRow F)
    unfolding replace_all group_row representatives is_aggregated
    aggregate now db =
        let old = keep (is_aggregated now) db.containers in
        replace_all (map (group_row old) (representatives old)) db.aggregates

    -- The rows affected are the groups.
    pub aggregate_old_stats : Time → StatsTables F → StatsTables F × ℕ
    unfolding aggregate representatives is_aggregated
    aggregate_old_stats now db =
        let aggregates = aggregate now db in
        (
          record {
            containers =
                keep (λ row. not (is_aggregated now row && any (is_bucket_of row) aggregates))
                  db.containers;
            aggregates = aggregates;
          },
          length (representatives (keep (is_aggregated now) db.containers)),
        )

    -- `startTime`; zero hours look back to the zero time.
    abbrev pub is_since : Time → ℕ → Time → Bool
    is_since now hours_back t = hours_back == 0 || leb now (t + hours_back * hour)

    abbrev pub is_id : Text → Text → Bool
    is_id container_id id = id == container_id || sql.like (take 12 container_id ++ codes "%") id

    pub granular_point : ContainerRow F → ContainerStatsPoint F
    granular_point row = record {
      timestamp = row.scanned_at;
      cpu_percent = value_or fl.zero_f row.cpu_percent;
      memory_usage = value_or 0 row.memory_usage;
      memory_limit = value_or 0 row.memory_limit;
      memory_percent = value_or fl.zero_f row.memory_percent;
    }

    abbrev pub truncated : Option F → ℕ
    truncated none = 0
    truncated (some x) = sql.truncate x

    pub aggregate_point : AggregateRow F → ContainerStatsPoint F
    aggregate_point a = record {
      timestamp = a.timestamp_hour;
      cpu_percent = value_or fl.zero_f a.avg_cpu_percent;
      memory_usage = truncated a.avg_memory_usage;
      memory_limit = 0;
      memory_percent = fl.zero_f;
    }

    abbrev pub is_granular : Time → Text → ℕ → ℕ → ContainerRow F → Bool
    is_granular now id host_id hours_back row =
        is_id id row.id
        && row.host_id == host_id
        && is_since now hours_back row.scanned_at
        && is_measured row

    abbrev pub is_hourly : Time → Text → ℕ → ℕ → AggregateRow F → Bool
    is_hourly now id host_id hours_back a =
        is_id id a.container_id && a.host_id == host_id && is_since now hours_back a.timestamp_hour

    -- The points of both tables.
    pub all_points : Time → Text → ℕ → ℕ → StatsTables F → List (ContainerStatsPoint F)
    unfolding granular_point aggregate_point
    all_points now id host_id hours_back db =
        map granular_point (keep (is_granular now id host_id hours_back) db.containers)
        ++ (if hours_back == 0 || ltb 1 hours_back
            then map aggregate_point (keep (is_hourly now id host_id hours_back) db.aggregates)
            else [])

    -- `none` is the panic of `containerID[:12]` at a shorter id.
    pub get_container_stats :
        Time → Text → ℕ → ℕ → StatsTables F → Option (List (ContainerStatsPoint F))
    unfolding all_points
    get_container_stats now id host_id hours_back db =
        if ltb (length id) 12
        then none
        else some
            (sort_by (λ p q. ltb p.timestamp q.timestamp) (all_points now id host_id hours_back db))
