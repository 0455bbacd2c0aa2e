-- ===== src/Collector/Tests.antt =====
-- Witnesses for the server that receives reports: an installation that reports twice in a week. The numbers
-- of type float64 are taken as natural numbers.
use container_census.Base.{
  ℕ, ◌*◌, ◌/◌, ◌^◌, leb, ◌≡◌, ◌≢◌, ◌↔◌, refl, List, [], ◌∷◌, codes, length, arith, lookup, insert,
  text_beq,
}
use container_census.Models.{Time, hour}
use container_census.Telemetry.Types.{TelemetryReport}
use container_census.Collector.{Tables, Postgres, as_stored, image_fits, report_fits}
use container_census.Collector.Access.{
  StatsRequest, refused, handled, api_key_middleware, Carries, api_key_middleware_iff,
}
use container_census.Collector.Holds.Weekly.{
  Implements, last_reports, ingest_all, ingest_all-Implements,
}

abbrev monday : TelemetryReport ℕ
monday = record {
  installation_id = codes "a1";
  version = codes "1.4.0";
  timestamp = 1000 * hour;
  host_count = 1;
  agent_count = 0;
  total_containers = 3;
  scan_interval = 300;
  image_stats = record { image = codes "nginx"; count = 3; size_bytes = 0 } ∷ [];
  agent_versions = [];
  containers_running = 3;
  containers_stopped = 0;
  containers_paused = 0;
  containers_other = 0;
  avg_cpu_percent = 12;
  avg_memory_bytes = 4096;
  total_memory_limit = 8192;
  avg_restarts = 0;
  high_restart_containers = 0;
  total_image_size = 0;
  unique_images = 1;
  timezone = codes "UTC";
  compose_project_count = 0;
  containers_in_compose = 0;
  network_count = 1;
  custom_network_count = 0;
  shared_volume_count = 0;
  containers_with_deps = 0;
  total_dependencies = 0;
  avg_connections_per_container = 1;
}

abbrev friday : TelemetryReport ℕ
friday = record monday {
  timestamp = 1096 * hour;
  total_containers = 2;
  containers_running = 2;
  image_stats = record { image = codes "redis"; count = 2; size_bytes = 0 } ∷ [];
}

-- Whole microseconds, and a bound on the numbers.
abbrev postgres : Postgres ℕ
postgres = record {
  char_length = length;
  real_fits = λ x. leb x (3 * 10 ^ 38);
  to_real = λ x. x;
  to_timestamp = λ t. t / 1000 * 1000;
}

abbrev empty_tables : Tables ℕ
empty_tables = record { reports = []; images = []; events = []; next_id = 1 }

abbrev submissions : List (Time × TelemetryReport ℕ)
submissions = (1000 * hour, monday) ∷ (1096 * hour, friday) ∷ []

ingest_all-Implements_example :
    Implements (last_reports postgres submissions []) (ingest_all postgres submissions empty_tables)
unfolding lookup insert text_beq report_fits image_fits as_stored
ingest_all-Implements_example =
    ingest_all-Implements postgres submissions [] empty_tables
      (((λ x m. elim m [ ]), (λ x y m. elim m [ ])), (λ id. (refl, refl)))
      (tt, refl, (omega arith, refl, tt))

abbrev request : StatsRequest
request = record { method = codes "GET"; x_api_key = []; authorization = codes "Bearer s3cret" }

abbrev rows_of_request : StatsRequest → ℕ
rows_of_request r = 20

api_key_middleware_iff_example :
    ((api_key_middleware (codes "s3cret") rows_of_request request ≡ refused)
      ↔ ¬ (Carries (codes "s3cret") request))
    × ((api_key_middleware (codes "s3cret") rows_of_request request
          ≡ handled (rows_of_request request))
        ↔ Carries (codes "s3cret") request × (request.method ≢ codes "OPTIONS"))
api_key_middleware_iff_example =
    api_key_middleware_iff (codes "s3cret") rows_of_request request
      (λ q. absurd (ground (arith, q)))
