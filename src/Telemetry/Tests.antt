-- ===== src/Telemetry/Tests.antt =====
-- Witnesses and test data for the telemetry client: one endpoint whose server is down.
use mathlib.Core.List.Permᴰ
use container_census.Base.{
  ◌*◌, ◌/◌, ltb, false, ℕ, ◌+◌, ◌-◌, ◌*◌, ◌≤◌, ◌≡◌, ◌↔◌, refl, true, List, [], ◌∷◌, none, some,
  Result, ok, Text, codes, Memᴰ, Permᴰ, arith, lookup, decimal,
}
use container_census.Models.{Float64, Host, Container}
use container_census.Storage.Containers.{to_row, get_latest_containers}
use container_census.Telemetry.Collector.{build_report, collect_report}
use container_census.Telemetry.Collector.Totals.{TotalsAgree, collect_report_totals}
use container_census.Notifications.Channels.{status}
use container_census.Telemetry.Types.{TelemetryEndpoint, TelemetryReport}
use container_census.Telemetry.Status.{get_telemetry_status}
use container_census.Telemetry.Status.Breaker.{
  StatusEvent, is_tripped, replay, is_open, circuit_breaker_window, is_tripped-replay,
}
use container_census.Telemetry.Submitter.{
  Wire, Net, Clock, TelemetryTables, available_endpoints, status_of, submit, submit_to_endpoint,
  is_available, reply_error, wait_error, send_request, retry_loop,
}
use container_census.Telemetry.Submitter.Outcome.{submit_retries_iff}

-- A success and then a failure of the endpoint "main", and a later failure of another one.
abbrev history : List StatusEvent
history =
    StatusEvent.failed 30 (codes "other") (codes "u2") (codes "down")
    ∷ StatusEvent.failed 20 (codes "main") (codes "u1") (codes "down")
    ∷ StatusEvent.succeeded 10 (codes "main") (codes "u1")
    ∷ []

is_tripped-replay_example :
    is_tripped 40 (get_telemetry_status (codes "main") (replay history))
    ≡ is_open 40 (codes "main") history
is_tripped-replay_example =
    is_tripped-replay 40 (codes "main") history (omega arith, (omega arith, tt))

abbrev main : TelemetryEndpoint
main = record { name = codes "main"; url = codes "u1"; enabled = true; api_key = [] }

abbrev down : Wire
down = record { request_error = none; reply = λ n. status 503; interrupted = λ n. none }

abbrev outage : Net
outage ep body = down

abbrev report : TelemetryReport ℕ
report = record {
  installation_id = codes "id";
  version = codes "1.0.0";
  timestamp = 5;
  host_count = 1;
  agent_count = 0;
  total_containers = 2;
  scan_interval = 300;
  image_stats = [];
  agent_versions = [];
  containers_running = 2;
  containers_stopped = 0;
  containers_paused = 0;
  containers_other = 0;
  avg_cpu_percent = 0;
  avg_memory_bytes = 0;
  total_memory_limit = 0;
  avg_restarts = 0;
  high_restart_containers = 0;
  total_image_size = 0;
  unique_images = 0;
  timezone = codes "UTC";
  compose_project_count = 0;
  containers_in_compose = 0;
  network_count = 0;
  custom_network_count = 0;
  shared_volume_count = 0;
  containers_with_deps = 0;
  total_dependencies = 0;
  avg_connections_per_container = 0;
}

abbrev marshal : TelemetryReport ℕ → Result Text
marshal r = ok (codes "{}")

abbrev clock : TelemetryEndpoint → Clock
clock ep = record { started_at = 100; completed_at = 110; saved_at = 120 }

abbrev no_tables : TelemetryTables
no_tables = record { statuses = []; submissions = [] }

abbrev in_order : List TelemetryEndpoint → List TelemetryEndpoint
in_order xs = xs

in_order-perm : (xs : List TelemetryEndpoint) → Permᴰ (in_order xs) xs
in_order-perm xs = Permᴰ.refl xs

only_main : (f : TelemetryEndpoint) → Memᴰ f (main ∷ []) → f.name ≡ main.name → f ≡ main
only_main f (Memᴰ.head q) e = q
only_main f (Memᴰ.tail m) e = elim m [ ]

main_available : Memᴰ main (available_endpoints 100 (status_of no_tables) (main ∷ []))
unfolding available_endpoints is_available get_telemetry_status is_tripped lookup
main_available = Memᴰ.head refl

abbrev outage_error : Text
outage_error = codes "all 2 attempts failed: server returned status 503"

main_fails : submit_to_endpoint outage main (marshal report) ≡ some outage_error
unfolding submit_to_endpoint retry_loop send_request reply_error wait_error decimal
main_fails = refl

submit_retries_iff_example :
    Memᴰ main (
      available_endpoints 500
        (status_of (submit marshal outage 100 (main ∷ []) in_order report clock no_tables).0)
        (main ∷ []))
    ↔ (120 + circuit_breaker_window ≤ 500)
unfolding get_telemetry_status lookup
submit_retries_iff_example =
    submit_retries_iff marshal outage report clock in_order in_order-perm 100 500 (main ∷ [])
      no_tables main only_main main_available tt main_fails

abbrev floats : Float64 ℕ
floats = record {
  zero_f = 0;
  quarter = 25;
  hundred = 10000;
  lt_f = ltb;
  add_f = λ a b. a + b;
  sub_f = λ a b. a - b;
  mul_f = λ a b. a * b;
  div_f = λ a b. a / b;
  of_nat = λ n. n;
  show_1f = decimal;
}

abbrev alpha : Host
alpha = record {
  id = 1;
  name = codes "alpha";
  address = codes "agent://a:9876";
  description = [];
  host_type = codes "agent";
  agent_status = codes "online";
  last_seen = 0;
  enabled = true;
  collect_stats = true;
}

abbrev web : Container ℕ
web = record {
  id = codes "c1";
  name = codes "web";
  image = codes "nginx";
  image_id = codes "i1";
  image_size = 5000;
  state = codes "running";
  restart_count = 12;
  labels = [];
  host_id = 1;
  host_name = codes "alpha";
  scanned_at = 100;
  networks = codes "bridge" ∷ [];
  volumes = [];
  compose_project = [];
  cpu_percent = 2;
  memory_usage = 64;
  memory_limit = 1024;
  memory_percent = 6;
  update_available = false;
  last_update_check = 0;
}

-- The report of one container, as the scan saw it.
abbrev web_report : TelemetryReport ℕ
web_report = build_report floats (codes "id") (codes "1.0.0") [] 300 5 (alpha ∷ []) (web ∷ []) []

collect_report_totals_example : TotalsAgree (web ∷ []) web_report
unfolding collect_report
collect_report_totals_example =
    collect_report_totals floats (codes "id") (codes "1.0.0") [] 300 5 (alpha ∷ []) (web ∷ []) []
      web_report refl

-- The report of the same container, read back from the database.
abbrev stored_report : TelemetryReport ℕ
stored_report =
    build_report floats (codes "id") (codes "1.0.0") [] 300 5 (alpha ∷ [])
      (get_latest_containers floats (to_row web ∷ [])) []
