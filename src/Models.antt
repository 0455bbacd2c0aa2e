-- ===== src/Models.antt =====
-- The shared data types of internal/models/models.go, with the fields that the modelled code reads.
-- A `float64` is a value of a type F with the operations of `Float64`; a `time.Time` is the number
-- of nanoseconds since Go's zero time, and a `time.Duration` a number of nanoseconds.
use container_census.Base.{ℕ, ◌+◌, ◌*◌, Bool, List, Option, Text, codes, ltb}

abbrev pub Time : Type 0
Time = ℕ

abbrev pub second : ℕ
second = 1000000000

abbrev pub minute : ℕ
minute = 60 * second

abbrev pub hour : ℕ
hour = 60 * minute

-- `time.Since(t) < d` at clock reading `now`.
abbrev pub since_lt : Time → Time → ℕ → Bool
since_lt now t d = ltb now (t + d)

-- The operations of Go's `float64` that the code uses.
pub record Float64 (F : Type 0) : Type 0 where
  pub zero_f : F
  pub quarter : F
  pub hundred : F
  pub lt_f : F → F → Bool
  pub add_f : F → F → F
  pub sub_f : F → F → F
  pub mul_f : F → F → F
  pub div_f : F → F → F
  pub of_nat : ℕ → F
  pub show_1f : F → Text

pub record Host : Type 0 where
  pub id : ℕ
  pub name : Text
  pub address : Text
  pub description : Text
  pub host_type : Text
  pub agent_status : Text
  pub last_seen : Time
  pub enabled : Bool
  pub collect_stats : Bool

pub record VolumeMount : Type 0 where
  pub name : Text
  pub kind : Text

pub record Container (F : Type 0) : Type 0 where
  pub id : Text
  pub name : Text
  pub image : Text
  pub image_id : Text
  pub image_size : ℕ
  pub state : Text
  pub restart_count : ℕ
  pub labels : List (Text × Text)
  pub host_id : ℕ
  pub host_name : Text
  pub scanned_at : Time
  pub networks : List Text
  pub volumes : List VolumeMount
  pub compose_project : Text
  pub cpu_percent : F
  pub memory_usage : ℕ
  pub memory_limit : ℕ
  pub memory_percent : F
  pub update_available : Bool
  pub last_update_check : Time

pub record LifecycleEvent : Type 0 where
  pub timestamp : Time
  pub event_type : Text
  pub old_state : Text
  pub new_state : Text
  pub old_image : Text
  pub new_image : Text
  pub old_image_tag : Text
  pub new_image_tag : Text
  pub old_image_sha : Text
  pub new_image_sha : Text
  pub description : Text

pub record NotificationEvent (F : Type 0) : Type 0 where
  pub event_type : Text
  pub timestamp : Time
  pub container_id : Text
  pub container_name : Text
  pub host_id : ℕ
  pub host_name : Text
  pub image : Text
  pub old_state : Text
  pub new_state : Text
  pub old_image : Text
  pub new_image : Text
  pub cpu_percent : F
  pub memory_percent : F
  pub metadata : List (Text × F)

pub record NotificationRule (F : Type 0) : Type 0 where
  pub id : ℕ
  pub enabled : Bool
  pub event_types : List Text
  pub host_id : Option ℕ
  pub container_pattern : Text
  pub image_pattern : Text
  pub cpu_threshold : Option F
  pub memory_threshold : Option F
  pub cooldown_seconds : ℕ
  pub channel_ids : List ℕ

pub record NotificationSilence : Type 0 where
  pub host_id : Option ℕ
  pub container_id : Text
  pub host_pattern : Text
  pub container_pattern : Text
  pub silenced_until : Time

pub record ContainerStatsPoint (F : Type 0) : Type 0 where
  pub timestamp : Time
  pub cpu_percent : F
  pub memory_usage : ℕ
  pub memory_limit : ℕ
  pub memory_percent : F

pub record ContainerBaselineStats (F : Type 0) : Type 0 where
  pub container_id : Text
  pub container_name : Text
  pub host_id : ℕ
  pub image_id : Text
  pub avg_cpu_percent : F
  pub avg_memory_percent : F
  pub avg_memory_usage : ℕ
  pub sample_count : ℕ
  pub window_start : Time
  pub window_end : Time

-- A task of internal/notifications/notifier.go.
pub record NotificationTask (F : Type 0) : Type 0 where
  pub rule : NotificationRule F
  pub event : NotificationEvent F
  pub channel : ℕ

-- The event types.
abbrev pub new_image : Text
new_image = codes "new_image"

abbrev pub image_update_available : Text
image_update_available = codes "image_update_available"

abbrev pub state_change : Text
state_change = codes "state_change"

abbrev pub high_cpu : Text
high_cpu = codes "high_cpu"

abbrev pub high_memory : Text
high_memory = codes "high_memory"

abbrev pub anomalous_behavior : Text
anomalous_behavior = codes "anomalous_behavior"

abbrev pub container_started : Text
container_started = codes "container_started"

abbrev pub container_stopped : Text
container_stopped = codes "container_stopped"

abbrev pub container_paused : Text
container_paused = codes "container_paused"

abbrev pub container_resumed : Text
container_resumed = codes "container_resumed"
