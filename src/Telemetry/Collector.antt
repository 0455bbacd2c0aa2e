-- ===== src/Telemetry/Collector.antt =====
-- CollectReport of internal/telemetry/collector.go. Each counter of its loops is a function on the list
-- that the loop ranges over. The sums are below 2^63, so that no counter wraps around.
pub mod Images
pub mod Totals
use container_census.Base.{
  ℕ, zero, suc, ◌+◌, ◌/◌, Bool, true, false, not, ◌&&◌, ◌||◌, List, [], ◌∷◌, ◌++◌, map, Option,
  none, some, Result, ok, err, Text, text_eq, nat_eq, codes, ◌==◌, if◌then◌else◌, is_empty, split,
  trim_space, keep, count_if, length, lookup, insert, ltb, leb, is_some,
}
use container_census.Models.{Time, Float64, Host, Container, VolumeMount}
use container_census.Telemetry.Types.{ImageStat, AgentInfo, TelemetryReport}

-- splitAndTrim, with a delimiter of one character.
pub split_and_trim : Text → ℕ → List Text
split_and_trim s delimiter = keep (λ part. not (is_empty part)) (map trim_space (split delimiter s))

-- A sum over a loop.
abbrev pub sum_of {ℓ} : {A : Type ℓ} → (A → ℕ) → List A → ℕ
sum_of f [] = 0
sum_of f (x ∷ xs) = f x + sum_of f xs

abbrev pub is_agent : Host → Bool
is_agent host = host.enabled && host.host_type == codes "agent"

-- `agentVersions[info.Version]++`, and the same for the names of volumes.
pub count_key : Text → List (Text × ℕ) → List (Text × ℕ)
count_key key counts = elim (lookup key counts) [
  | none ↦ insert key 1 counts
  | some n ↦ insert key (suc n) counts
]

pub count_versions : List (Text × AgentInfo) → List (Text × ℕ) → List (Text × ℕ)
unfolding count_key
count_versions [] counts = counts
count_versions ((name, info) ∷ agents) counts =
    count_versions agents (if is_empty info.version then counts else count_key info.version counts)

-- `set[key] = true` for each key.
pub add_keys : List Text → List (Text × Bool) → List (Text × Bool)
add_keys [] set = set
add_keys (key ∷ keys) set = add_keys keys (insert key true set)

abbrev pub is_named_volume : VolumeMount → Bool
is_named_volume volume = volume.kind == codes "volume" && not (is_empty volume.name)

pub count_volumes : List VolumeMount → List (Text × ℕ) → List (Text × ℕ)
unfolding count_key
count_volumes [] usage = usage
count_volumes (volume ∷ volumes) usage =
    count_volumes volumes (if is_named_volume volume then count_key volume.name usage else usage)

abbrev pub is_custom_network : Text × Bool → Bool
is_custom_network (name, present) =
    not (name == codes "bridge") && not (name == codes "host") && not (name == codes "none")

abbrev pub is_shared : Text × ℕ → Bool
is_shared (name, count) = leb 2 count

-- The dependencies that a label names.
pub dependencies : Option Text → ℕ
unfolding split_and_trim
dependencies none = 0
dependencies (some label) = length (split_and_trim label 44)

-- `timezone`, with the value of the environment variable TZ.
abbrev pub timezone_or_utc : Text → Text
timezone_or_utc tz = if is_empty tz then codes "UTC" else tz

module _ {F : Type 0} where
  -- The entry of the image of a container, after the container was counted.
  pub add_stat : Container F → Option ImageStat → ImageStat
  add_stat c none = record { image = c.image; count = 1; size_bytes = c.image_size }
  add_stat c (some stat) = record stat {
    count = suc stat.count;
    size_bytes =
        if ltb 0 c.image_size && stat.size_bytes == 0 then c.image_size else stat.size_bytes;
  }

  -- One turn of the loop that fills `imageMap`.
  pub add_image : Container F → List (Text × ImageStat) → List (Text × ImageStat)
  unfolding add_stat
  add_image c images = insert c.image (add_stat c (lookup c.image images)) images

  pub image_map : List (Container F) → List (Text × ImageStat) → List (Text × ImageStat)
  unfolding add_image
  image_map [] images = images
  image_map (c ∷ cs) images = image_map cs (add_image c images)

  abbrev pub has_state : Text → Container F → Bool
  has_state state c = c.state == state

  abbrev pub has_other_state : Container F → Bool
  has_other_state c =
      not (c.state == codes "running")
      && not (c.state == codes "exited")
      && not (c.state == codes "paused")

  -- The label `com.docker.compose.depends_on` of a container of a compose project, if it is not empty.
  pub depends_on : Container F → Option Text
  depends_on c =
      if is_empty c.compose_project
      then none
      else elim (lookup (codes "com.docker.compose.depends_on") c.labels) [
        | none ↦ none
        | some label ↦ if is_empty label then none else some label
      ]

  -- The networks and the named volumes of a container.
  abbrev pub connections : Container F → ℕ
  connections c = length c.networks + count_if is_named_volume c.volumes

  pub compose_projects : List (Container F) → List (Text × Bool) → List (Text × Bool)
  compose_projects [] projects = projects
  compose_projects (c ∷ cs) projects =
      compose_projects cs
        (if is_empty c.compose_project then projects else insert c.compose_project true projects)

  pub network_set : List (Container F) → List (Text × Bool) → List (Text × Bool)
  unfolding add_keys
  network_set [] networks = networks
  network_set (c ∷ cs) networks = network_set cs (add_keys c.networks networks)

  pub volume_usage : List (Container F) → List (Text × ℕ) → List (Text × ℕ)
  unfolding count_volumes
  volume_usage [] usage = usage
  volume_usage (c ∷ cs) usage = volume_usage cs (count_volumes c.volumes usage)

module _ {F : Type 0} (fl : Float64 F) where
  -- A running container whose statistics count.
  pub is_measured : Container F → Bool
  is_measured c =
      c.state == codes "running" && (fl.lt_f fl.zero_f c.cpu_percent || ltb 0 c.memory_usage)

  -- `totalCPU`, from the first container on.
  pub total_cpu : F → List (Container F) → F
  total_cpu total [] = total
  total_cpu total (c ∷ cs) = total_cpu (fl.add_f total c.cpu_percent) cs

  -- An average over a count, zero for none.
  abbrev pub average : F → ℕ → F
  average total n = if ltb 0 n then fl.div_f total (fl.of_nat n) else fl.zero_f

  -- The part after the two queries. `tz` is the environment variable TZ.
  pub build_report :
      Text
      → Text
      → Text
      → ℕ
      → Time
      → List Host
      → List (Container F)
      → List (Text × AgentInfo)
      → TelemetryReport F
  unfolding image_map count_versions is_measured total_cpu depends_on dependencies compose_projects
      network_set volume_usage
  build_report installation_id version tz scan_interval now hosts containers agents =
      let images = image_map containers [] in
      let measured = keep is_measured containers in
      let running_stats = length measured in
      let networks = network_set containers [] in
      let total = length containers in
      record {
        installation_id = installation_id;
        version = version;
        timestamp = now;
        host_count = count_if (λ host. host.enabled) hosts;
        agent_count = count_if is_agent hosts;
        total_containers = total;
        scan_interval = scan_interval;
        image_stats = map (λ entry. entry.1) images;
        agent_versions = count_versions agents [];
        containers_running = count_if (has_state (codes "running")) containers;
        containers_stopped = count_if (has_state (codes "exited")) containers;
        containers_paused = count_if (has_state (codes "paused")) containers;
        containers_other = count_if has_other_state containers;
        avg_cpu_percent = average (total_cpu fl.zero_f measured) running_stats;
        avg_memory_bytes =
            if ltb 0 running_stats
            then sum_of (λ c. c.memory_usage) measured / running_stats
            else 0;
        total_memory_limit = sum_of (λ c. c.memory_limit) measured;
        avg_restarts = average (fl.of_nat (sum_of (λ c. c.restart_count) containers)) total;
        high_restart_containers = count_if (λ c. ltb 10 c.restart_count) containers;
        total_image_size = sum_of (λ entry. entry.1.size_bytes) images;
        unique_images = length images;
        timezone = timezone_or_utc tz;
        compose_project_count = length (compose_projects containers []);
        containers_in_compose = count_if (λ c. not (is_empty c.compose_project)) containers;
        network_count = length networks;
        custom_network_count = count_if is_custom_network networks;
        shared_volume_count = count_if is_shared (volume_usage containers []);
        containers_with_deps = count_if (λ c. is_some (depends_on c)) containers;
        total_dependencies = sum_of (λ c. dependencies (depends_on c)) containers;
        avg_connections_per_container = average (fl.of_nat (sum_of connections containers)) total;
      }

  -- CollectReport, with the results of its two queries.
  unfoldable pub collect_report :
      Text
      → Text
      → Text
      → ℕ
      → Time
      → Result (List Host)
      → Result (List (Container F))
      → List (Text × AgentInfo)
      → Result (TelemetryReport F)
  unfolding build_report
  collect_report installation_id version tz scan_interval now (err e) containers agents =
      err (codes "failed to get hosts: " ++ e)
  collect_report installation_id version tz scan_interval now (ok hosts) (err e) agents =
      err (codes "failed to get containers: " ++ e)
  collect_report installation_id version tz scan_interval now (ok hosts) (ok containers) agents =
      ok (build_report installation_id version tz scan_interval now hosts containers agents)
