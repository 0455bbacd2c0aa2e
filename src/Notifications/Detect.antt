-- ===== src/Notifications/Detect.antt =====
-- The detectors of internal/notifications/notifier.go, over the latest containers of a host. The
-- queries are those of `Database`, the part of internal/storage that the notifier reads; `none` is a
-- failed query. One clock reading serves one pass.
pub mod Laws
pub mod Stored
use container_census.Base.{
  ℕ, ◌+◌, ◌*◌, Bool, true, false, not, ◌&&◌, ◌||◌, List, [], ◌∷◌, ◌++◌, Option, none, some, Text,
  text_eq, nat_eq, codes, ◌==◌, if◌then◌else◌, last?,
}
use container_census.Models.{
  Time, minute, second, since_lt, Float64, Container, LifecycleEvent, NotificationEvent,
  NotificationRule, NotificationSilence, ContainerBaselineStats, new_image, image_update_available,
  state_change, high_cpu, high_memory, anomalous_behavior, container_started, container_stopped,
  container_paused, container_resumed,
}
use container_census.Notifications.Thresholds.{Trackers, check_threshold}

pub record Database (F : Type 0) : Type 0 where
  pub get_containers_by_host : ℕ → Option (List (Container F))
  pub get_container_lifecycle_events : Text → ℕ → Option (List LifecycleEvent)
  pub get_container_baseline : Text → ℕ → Option (Option (ContainerBaselineStats F))
  pub get_notification_rules : Bool → Option (List (NotificationRule F))
  pub get_active_silences : Option (List NotificationSilence)
  pub get_last_notification_time : ℕ → Text → ℕ → Option (Option Time)

module _ {F : Type 0} (fl : Float64 F) where
  -- An event about a container, with the fields that no event sets left at their zero values.
  pub base_event : Text → Time → Container F → NotificationEvent F
  base_event event_type timestamp c = record {
    event_type = event_type;
    timestamp = timestamp;
    container_id = c.id;
    container_name = c.name;
    host_id = c.host_id;
    host_name = c.host_name;
    image = c.image;
    old_state = [];
    new_state = [];
    old_image = [];
    new_image = [];
    cpu_percent = fl.zero_f;
    memory_percent = fl.zero_f;
    metadata = [];
  }

  -- The switch on the kind of a lifecycle event; `none` is its default.
  pub lifecycle_event_type : Text → Option Text
  lifecycle_event_type kind =
      if kind == codes "started"
      then some container_started
      else (if kind == codes "stopped"
          then some container_stopped
          else (if kind == codes "paused"
              then some container_paused
              else (if kind == codes "resumed"
                  then some container_resumed
                  else (if kind == codes "image_updated"
                      then some new_image
                      else (if kind == codes "state_change" then some state_change else none)))))

  unfoldable pub lifecycle_event_to_notification_event :
      Container F → LifecycleEvent → Option (NotificationEvent F)
  unfolding base_event lifecycle_event_type
  lifecycle_event_to_notification_event c le = elim (lifecycle_event_type le.event_type) [
    | none ↦ none
    | some event_type ↦ some (record (base_event event_type le.timestamp c) {
      old_state = le.old_state;
      new_state = le.new_state;
      old_image = le.old_image_tag;
      new_image = le.new_image_tag;
    })
  ]

  -- The image update of one container, if it was found in the last five minutes.
  pub update_events : Time → Container F → List (NotificationEvent F)
  update_events now c =
      if c.update_available
        && not (c.last_update_check == 0)
        && since_lt now c.last_update_check (5 * minute)
      then base_event image_update_available c.last_update_check c ∷ []
      else []

  abbrev pub to_list {ℓ} : {A : Type ℓ} → Option A → List A
  to_list none = []
  to_list (some a) = a ∷ []

  -- The last lifecycle event of one container, if it is of the last five minutes.
  pub recent_lifecycle :
      Time → Container F → Option (List LifecycleEvent) → List (NotificationEvent F)
  recent_lifecycle now c none = []
  recent_lifecycle now c (some events) = elim (last? events) [
    | none ↦ []
    | some le ↦
        if since_lt now le.timestamp (5 * minute)
        then to_list (lifecycle_event_to_notification_event c le)
        else []
  ]

  pub lifecycle_loop : Database F → Time → ℕ → List (Container F) → List (NotificationEvent F)
  lifecycle_loop db now host_id [] = []
  lifecycle_loop db now host_id (c ∷ cs) =
      update_events now c
      ++ (recent_lifecycle now c (db.get_container_lifecycle_events c.name host_id)
          ++ lifecycle_loop db now host_id cs)

  unfoldable pub detect_lifecycle_events :
      Database F → Time → ℕ → Option (List (NotificationEvent F))
  unfolding lifecycle_loop update_events recent_lifecycle
  detect_lifecycle_events db now host_id = elim (db.get_containers_by_host host_id) [
    | none ↦ none
    | some containers ↦ some (lifecycle_loop db now host_id containers)
  ]

  -- One kind of threshold of one container: its value is looked at only if it is above 0.
  pub check_value :
      Time
      → Container F
      → Text
      → F
      → NotificationEvent F
      → Trackers
      → List (NotificationEvent F) × Trackers
  check_value now c threshold_type value event trackers =
      if fl.lt_f fl.zero_f value
      then (let (trackers', met) =
            check_threshold now c threshold_type value (120 * second) trackers in
          (if met then event ∷ [] else [], trackers'))
      else ([], trackers)

  pub threshold_events : Time → Container F → Trackers → List (NotificationEvent F) × Trackers
  unfolding check_value base_event
  threshold_events now c trackers =
      if c.state == codes "running"
      then (let (cpu, trackers1) =
            check_value now c (codes "cpu") c.cpu_percent
              (record (base_event high_cpu now c) { cpu_percent = c.cpu_percent }) trackers in
          let (memory, trackers2) =
            check_value now c (codes "memory") c.memory_percent
              (record (base_event high_memory now c) { memory_percent = c.memory_percent })
              trackers1 in
          (cpu ++ memory, trackers2))
      else ([], trackers)

  pub threshold_loop : Time → List (Container F) → Trackers → List (NotificationEvent F) × Trackers
  threshold_loop now [] trackers = ([], trackers)
  threshold_loop now (c ∷ cs) trackers =
      let (events, trackers') = threshold_events now c trackers in
      let (rest, trackers'') = threshold_loop now cs trackers' in (events ++ rest, trackers'')

  unfoldable pub detect_threshold_events :
      Database F → Time → ℕ → Trackers → Option (List (NotificationEvent F)) × Trackers
  unfolding threshold_loop threshold_events
  detect_threshold_events db now host_id trackers = elim (db.get_containers_by_host host_id) [
    | none ↦ (none, trackers)
    | some containers ↦
        let (events, trackers') = threshold_loop now containers trackers in (some events, trackers')
  ]

  -- (current - average) / average
  abbrev pub increase : F → F → F
  increase current average = fl.div_f (fl.sub_f current average) average

  pub anomaly_event : Time → Container F → ContainerBaselineStats F → NotificationEvent F
  unfolding base_event
  anomaly_event now c baseline =
      let cpu_increase = increase c.cpu_percent baseline.avg_cpu_percent in
      let memory_increase = increase c.memory_percent baseline.avg_memory_percent in
      record (base_event anomalous_behavior now c) {
        cpu_percent = c.cpu_percent;
        memory_percent = c.memory_percent;
        metadata =
            (codes "baseline_cpu", baseline.avg_cpu_percent)
            ∷ (codes "baseline_memory", baseline.avg_memory_percent)
            ∷ (codes "cpu_increase_pct", fl.mul_f cpu_increase fl.hundred)
            ∷ (codes "mem_increase_pct", fl.mul_f memory_increase fl.hundred)
            ∷ [];
      }

  pub compare_baseline : Time → Container F → ContainerBaselineStats F → List (NotificationEvent F)
  compare_baseline now c baseline =
      if fl.lt_f fl.quarter (increase c.cpu_percent baseline.avg_cpu_percent)
        || fl.lt_f fl.quarter (increase c.memory_percent baseline.avg_memory_percent)
      then anomaly_event now c baseline ∷ []
      else []

  pub anomaly_events : Database F → Time → Container F → List (NotificationEvent F)
  unfolding compare_baseline
  anomaly_events db now c =
      if not (c.state == codes "running") || c.memory_limit == 0
      then []
      else elim (db.get_container_baseline c.id c.host_id) [
        | none ↦ []
        | some found ↦ elim found [ none ↦ [] | some baseline ↦ compare_baseline now c baseline ]
      ]

  pub anomaly_loop : Database F → Time → List (Container F) → List (NotificationEvent F)
  anomaly_loop db now [] = []
  anomaly_loop db now (c ∷ cs) = anomaly_events db now c ++ anomaly_loop db now cs

  unfoldable pub detect_anomalies : Database F → Time → ℕ → Option (List (NotificationEvent F))
  unfolding anomaly_loop anomaly_events
  detect_anomalies db now host_id = elim (db.get_containers_by_host host_id) [
    | none ↦ none
    | some containers ↦ some (anomaly_loop db now containers)
  ]
