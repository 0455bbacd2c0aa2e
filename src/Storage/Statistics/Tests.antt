-- ===== src/Storage/Statistics/Tests.antt =====
-- Witnesses for the aggregation: a container with statistics that was scanned at 10:10 and 10:40, and
-- passes at 11:30 and 12:30. The numbers of type float64 are taken as natural numbers.
use container_census.Base.{
  ℕ, ◌+◌, ◌-◌, ◌*◌, ◌/◌, ◌≡◌, ◌⊎◌, refl, false, true, List, [], ◌∷◌, none, some, codes, decimal,
  text_beq, not, ltb, length, keep, Memᴰ, sym, ◌∙◌, ap,
}
use container_census.Models.{Time, hour, minute, Float64, ContainerStatsPoint}
use container_census.Storage.Containers.{ContainerRow}
use container_census.Storage.Lifecycle.{get_container_lifecycle_events}
use container_census.Storage.Statistics.{
  AggregateRow, StatsTables, Sqlite, is_aggregated, is_bucket_of, granular_point,
  aggregate_old_stats, get_container_stats,
}
use container_census.Storage.Statistics.Removal.{aggregate_old_stats-containers}
use container_census.Storage.Statistics.Removal.Buckets.{second_containers, aggregate_again}
use container_census.Storage.Statistics.Points.{
  IsRecentPoint, get_container_stats_aggregated, lifecycle_forgotten,
}

abbrev floats : Float64 ℕ
floats = record {
  zero_f = 0;
  quarter = 25;
  hundred = 10000;
  lt_f = ltb;
  add_f = λ a b. a + b;
  sub_f = λ a b. a - b;
  mul_f = λ a b. a * b;
  div_f = λ a b. a / b;
  of_nat = λ n. n;
  show_1f = decimal;
}

abbrev first_of : List ℕ → ℕ
first_of [] = 0
first_of (x ∷ xs) = x

-- An AVG for columns of one value.
abbrev sqlite : Sqlite ℕ
sqlite = record { avg = first_of; like = λ pattern text. false; truncate = λ x. x }

abbrev early : ContainerRow ℕ
early = record {
  id = codes "0123456789abcdef";
  name = codes "web";
  image = codes "nginx";
  image_id = codes "i1";
  state = codes "running";
  labels = [];
  host_id = 1;
  host_name = codes "alpha";
  scanned_at = 10 * hour + 10 * minute;
  networks = [];
  volumes = [];
  compose_project = [];
  cpu_percent = some 20;
  memory_usage = some 512;
  memory_limit = some 2048;
  memory_percent = some 25;
  update_available = false;
  last_update_check = none;
}

abbrev late : ContainerRow ℕ
late = record early { scanned_at = 10 * hour + 40 * minute }

abbrev tables : StatsTables ℕ
tables = record { containers = early ∷ late ∷ []; aggregates = [] }

-- 11:30 and 12:30.
abbrev first_pass : Time
first_pass = 11 * hour + 30 * minute

abbrev second_pass : Time
second_pass = 12 * hour + 30 * minute

aggregate_old_stats-containers_example :
    (aggregate_old_stats floats sqlite first_pass tables).0.containers
    ≡ keep (λ row. not (is_aggregated first_pass row)) tables.containers
aggregate_old_stats-containers_example =
    aggregate_old_stats-containers floats sqlite first_pass tables

abbrev found : List (ContainerStatsPoint ℕ)
found =
    record {
      timestamp = 10 * hour;
      cpu_percent = 20;
      memory_usage = 512;
      memory_limit = 0;
      memory_percent = 0;
    }
    ∷ granular_point floats sqlite late
    ∷ []

get_container_stats_aggregated_example :
    IsRecentPoint floats sqlite first_pass tables (granular_point floats sqlite late)
    ⊎ (((granular_point floats sqlite late).memory_percent ≡ 0)
        × ((granular_point floats sqlite late).memory_limit ≡ 0))
unfolding get_container_stats aggregate_old_stats granular_point text_beq
get_container_stats_aggregated_example =
    get_container_stats_aggregated floats sqlite first_pass first_pass (codes "0123456789abcdef") 1
      48 tables {points = found} refl (granular_point floats sqlite late)
      (Memᴰ.tail (Memᴰ.head refl))

scanned_before :
    (row : ContainerRow ℕ) → Memᴰ row tables.containers → is_aggregated second_pass row ≡ true
unfolding is_aggregated
scanned_before row (Memᴰ.head e) = ap (is_aggregated second_pass) e
scanned_before row (Memᴰ.tail (Memᴰ.head e)) = ap (is_aggregated second_pass) e
scanned_before row (Memᴰ.tail (Memᴰ.tail m)) = elim m [ ]

lifecycle_forgotten_example :
    get_container_lifecycle_events decimal
      (codes "web")
      1
      (aggregate_old_stats floats sqlite second_pass tables).0.containers
    ≡ []
lifecycle_forgotten_example =
    lifecycle_forgotten floats sqlite second_pass tables decimal (codes "web") 1
      (λ row m named hosted. scanned_before row m)

-- The row of ten o'clock after the second pass.
abbrev ten : AggregateRow ℕ
ten = record {
  container_id = codes "0123456789abcdef";
  container_name = codes "web";
  host_id = 1;
  host_name = codes "alpha";
  timestamp_hour = 10 * hour;
  avg_cpu_percent = some 20;
  avg_memory_usage = some 512;
  max_cpu_percent = some 20;
  max_memory_usage = some 512;
  sample_count = 1;
}

late_alone :
    (r s : ContainerRow ℕ)
    → Memᴰ r (late ∷ [])
    → Memᴰ s (late ∷ [])
    → r.id ≡ s.id
    → r.host_id ≡ s.host_id
    → (r.name ≡ s.name) × (r.host_name ≡ s.host_name)
late_alone r s (Memᴰ.head p) (Memᴰ.head q) same host = (
  ap (λ (x : ContainerRow ℕ). x.name) (p ∙ sym q),
  ap (λ (x : ContainerRow ℕ). x.host_name) (p ∙ sym q),
)
late_alone r s (Memᴰ.tail m) k same host = elim m [ ]
late_alone r s (Memᴰ.head p) (Memᴰ.tail k) same host = elim k [ ]

aggregate_again_example :
    ten.sample_count
    ≡ length (
        keep
          (λ s. is_bucket_of s ten)
          (keep (is_aggregated second_pass) (second_containers floats sqlite first_pass tables [])))
unfolding aggregate_old_stats is_aggregated text_beq
aggregate_again_example =
    aggregate_again floats sqlite first_pass second_pass tables [] late ten late_alone
      (Memᴰ.head refl) (Memᴰ.head refl) refl
