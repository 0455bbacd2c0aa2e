-- ===== src/Telemetry/Types.antt =====
-- The structs of internal/models/models.go that only the telemetry client reads and writes.
use container_census.Base.{ℕ, Bool, List, Text}
use container_census.Models.{Time}

pub record TelemetryEndpoint : Type 0 where
  pub name : Text
  pub url : Text
  pub enabled : Bool
  pub api_key : Text

pub record TelemetryConfig : Type 0 where
  pub interval_hours : ℕ
  pub endpoints : List TelemetryEndpoint

pub record TelemetrySubmission : Type 0 where
  pub endpoint_name : Text
  pub endpoint_url : Text
  pub started_at : Time
  pub completed_at : Time
  pub success : Bool
  pub error : Text
  pub hosts_count : ℕ
  pub containers_count : ℕ
  pub images_count : ℕ

pub record ImageStat : Type 0 where
  pub image : Text
  pub count : ℕ
  pub size_bytes : ℕ

pub record AgentInfo : Type 0 where
  pub version : Text
  pub hostname : Text

pub record TelemetryReport (F : Type 0) : Type 0 where
  pub installation_id : Text
  pub version : Text
  pub timestamp : Time
  pub host_count : ℕ
  pub agent_count : ℕ
  pub total_containers : ℕ
  pub scan_interval : ℕ
  pub image_stats : List ImageStat
  pub agent_versions : List (Text × ℕ)
  pub containers_running : ℕ
  pub containers_stopped : ℕ
  pub containers_paused : ℕ
  pub containers_other : ℕ
  pub avg_cpu_percent : F
  pub avg_memory_bytes : ℕ
  pub total_memory_limit : ℕ
  pub avg_restarts : F
  pub high_restart_containers : ℕ
  pub total_image_size : ℕ
  pub unique_images : ℕ
  pub timezone : Text
  pub compose_project_count : ℕ
  pub containers_in_compose : ℕ
  pub network_count : ℕ
  pub custom_network_count : ℕ
  pub shared_volume_count : ℕ
  pub containers_with_deps : ℕ
  pub total_dependencies : ℕ
  pub avg_connections_per_container : F
