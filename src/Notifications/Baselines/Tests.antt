-- ===== src/Notifications/Baselines/Tests.antt =====
-- Witnesses for the baselines: a container with ten points of 20 % CPU, and a baseline stored an hour ago.
-- The numbers of type float64 are taken as natural numbers.
use container_census.Base.{
  ℕ, ◌+◌, ◌-◌, ◌*◌, ◌/◌, ◌≤◌, ◌<◌, ◌≡◌, ◌↔◌, refl, false, List, [], ◌∷◌, none, some, codes, Memᴰ,
  arith, ltb, length, decimal, ok, err, text_beq,
}
use container_census.Models.{
  Time, hour, Float64, Container, ContainerBaselineStats, ContainerStatsPoint,
}
use container_census.Notifications.Baselines.{
  BaselineRow, Source, get_container_baseline, calculate_baseline, update_host_baselines,
}
use container_census.Notifications.Baselines.Laws.{saved, or_before, update_host_baselines-get}
use container_census.Notifications.Baselines.Averages.{
  samples, baseline_from, calculate_baseline_iff,
}

abbrev floats : Float64 ℕ
floats = record {
  zero_f = 0;
  quarter = 25;
  hundred = 10000;
  lt_f = ltb;
  add_f = λ a b. a + b;
  sub_f = λ a b. a - b;
  mul_f = λ a b. a * b;
  div_f = λ a b. a / b;
  of_nat = λ n. n;
  show_1f = decimal;
}

abbrev noon : Time
noon = 1000 * hour

abbrev cache : Container ℕ
cache = record {
  id = codes "c7c7c7c7c7c7";
  name = codes "cache";
  image = codes "redis";
  image_id = codes "i7";
  image_size = 0;
  state = codes "running";
  restart_count = 0;
  labels = [];
  host_id = 2;
  host_name = codes "beta";
  scanned_at = noon;
  networks = [];
  volumes = [];
  compose_project = [];
  cpu_percent = 20;
  memory_usage = 512;
  memory_limit = 2048;
  memory_percent = 25;
  update_available = false;
  last_update_check = 0;
}

abbrev point : ContainerStatsPoint ℕ
point = record {
  timestamp = noon - hour;
  cpu_percent = 20;
  memory_usage = 512;
  memory_limit = 2048;
  memory_percent = 25;
}

abbrev idle : ContainerStatsPoint ℕ
idle = record point { cpu_percent = 0; memory_usage = 0; memory_percent = 0 }

abbrev points : List (ContainerStatsPoint ℕ)
points = point ∷ idle ∷ point ∷ point ∷ point ∷ point ∷ idle ∷ point ∷ point ∷ point ∷ []

abbrev before : ContainerBaselineStats ℕ
before = record {
  container_id = codes "c7c7c7c7c7c7";
  container_name = codes "cache";
  host_id = 2;
  image_id = codes "i6";
  avg_cpu_percent = 5;
  avg_memory_percent = 10;
  avg_memory_usage = 200;
  sample_count = 12;
  window_start = noon - 49 * hour;
  window_end = noon - hour;
}

abbrev stored : List (BaselineRow ℕ)
stored = record { stats = before; created_at = 999 * 3600 } ∷ []

abbrev source : Source ℕ
source = record {
  get_hosts = err (codes "locked");
  get_containers_by_host = λ host_id. ok (cache ∷ []);
  get_container_stats = λ id host_id hours. ok points;
  save_error = λ b. none;
}

abbrev after : ContainerBaselineStats ℕ
after = record {
  container_id = codes "c7c7c7c7c7c7";
  container_name = codes "cache";
  host_id = 2;
  image_id = codes "i7";
  avg_cpu_percent = 20;
  avg_memory_percent = 25;
  avg_memory_usage = 512;
  sample_count = 8;
  window_start = noon - 48 * hour;
  window_end = noon;
}

update_host_baselines-get_example :
    get_container_baseline
      (codes "c7c7c7c7c7c7")
      2
      (update_host_baselines floats source noon 2 stored).0
    ≡ or_before floats source noon
        (saved floats source noon (
          calculate_baseline floats source noon
            (codes "c7c7c7c7c7c7")
            2
            (codes "cache")
            (codes "i7")))
        (get_container_baseline (codes "c7c7c7c7c7c7") 2 stored)
unfolding text_beq
update_host_baselines-get_example =
    update_host_baselines-get floats source noon 2 (cache ∷ []) cache stored refl (refl, tt)
      (omega arith, tt) (Memᴰ.head refl) (omega arith, tt)

calculate_baseline_iff_example :
    (calculate_baseline floats source noon (codes "c7c7c7c7c7c7") 2 (codes "cache") (codes "i7")
      ≡ some (ok (some after)))
    ↔ (12 ≤ length (codes "c7c7c7c7c7c7"))
      × ((found : List (ContainerStatsPoint ℕ)) × (source.get_container_stats
              (codes "c7c7c7c7c7c7")
              2
              48
            ≡ ok found)
          × (10 ≤ length found)
          × (0 < length (samples floats found))
          × (after
              ≡ baseline_from floats noon
                  (codes "c7c7c7c7c7c7")
                  2
                  (codes "cache")
                  (codes "i7")
                  (samples floats found)))
calculate_baseline_iff_example =
    calculate_baseline_iff floats source noon (codes "c7c7c7c7c7c7") 2 (codes "cache") (codes "i7")
      after
