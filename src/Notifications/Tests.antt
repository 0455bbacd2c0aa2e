-- ===== src/Notifications/Tests.antt =====
-- Runs of the notification service (internal/notifications) on one stopped container. A float64 is a
-- number of hundredths here, and a pattern matches the text that it spells.
use container_census.Base.{
  Option, inr, Text, ℕ, zero, suc, ◌+◌, ◌-◌, ◌*◌, ◌/◌, ◌≤◌, ◌≡◌, refl, ◌↔◌, inl, true, false, List,
  [], ◌∷◌, ◌++◌, none, some, Memᴰ, text_beq, text_eq, nat_eq, codes, decimal, ltb, take, drop,
  arith, ok, err, lookup, length,
}
use container_census.Models.{
  minute, image_update_available, NotificationEvent, Time, second, hour, Float64, Container,
  ContainerBaselineStats, NotificationEvent, NotificationRule, NotificationSilence,
  NotificationTask, container_stopped,
}
use container_census.Notifications.RateLimiter.{RateLimiter, refill, send_batch}
use container_census.Notifications.RateLimiter.Window.{granted, granted-le-twice}
use container_census.Notifications.RateLimiter.Batch.{on_channel, on_channel-send_batch}
use container_census.Notifications.Rules.{Glob, rule_matches_event}
use container_census.Notifications.Rules.Laws.{RuleMatches, rule_matches_event_iff}
use container_census.Notifications.Silences.{silence_matches, silence_accepted}
use container_census.Notifications.Silences.Laws.{silence_inert}
use container_census.Notifications.Thresholds.Laws.{TrackerCall}
use container_census.Notifications.Log.{LogEntry, LogTable, day, get_last_notification_time}
use container_census.Notifications.Log.Cooldown.{is_in_cooldown}
use container_census.Storage.Containers.{ContainerRow, to_row}
use container_census.Storage.Lifecycle.{get_container_lifecycle_events}
use container_census.Notifications.Detect.Stored.{IsRecentUpdate, detect_lifecycle_events_stored}
use container_census.Notifications.Detect.{
  base_event, lifecycle_event_to_notification_event, Database, anomaly_loop,
  detect_lifecycle_events, detect_anomalies, lifecycle_event_to_notification_event,
}
use container_census.Notifications.Detect.Laws.{IsAnomalous, detect_anomalies_iff}
use container_census.Notifications.Pipeline.{
  NotificationService, match_rules, channel_loop, rule_loop, send_notifications, process_events,
}
use container_census.Notifications.Pipeline.Matching.{cooling, match_rules_iff}
use container_census.Notifications.Pipeline.Sending.{send_notifications_lem}
use container_census.Notifications.Pipeline.Process.{AddsPermitted, process_events-Permitted}
use container_census.Notifications.Channels.{
  NotificationChannel, webhook, WebhookConfig, Http, status, send, create_channel_instance,
}
use container_census.Notifications.Delivery.{Delivery, get_channel, send_single_notification}
use container_census.Notifications.Delivery.Laws.{delivery-cooldown_iff}

abbrev hundredths : Float64 ℕ
hundredths = record {
  zero_f = 0;
  quarter = 25;
  hundred = 10000;
  lt_f = ltb;
  add_f = λ a b. a + b;
  sub_f = λ a b. a - b;
  mul_f = λ a b. a * b / 100;
  div_f = λ a b. a * 100 / b;
  of_nat = λ n. n * 100;
  show_1f = λ a. decimal (a / 100);
}

abbrev literal : Glob
literal pattern name = some (text_beq pattern name)

abbrev noon : Time
noon = 1000 * day

abbrev web : Container ℕ
web = record {
  id = codes "c1";
  name = codes "web";
  image = codes "nginx";
  image_id = codes "i1";
  image_size = 0;
  state = codes "exited";
  restart_count = 0;
  labels = [];
  host_id = 1;
  host_name = codes "alpha";
  scanned_at = 0;
  networks = [];
  volumes = [];
  compose_project = [];
  cpu_percent = 0;
  memory_usage = 0;
  memory_limit = 0;
  memory_percent = 0;
  update_available = false;
  last_update_check = 0;
}

abbrev web_stopped : NotificationEvent ℕ
web_stopped = record {
  event_type = container_stopped;
  timestamp = noon;
  container_id = codes "c1";
  container_name = codes "web";
  host_id = 1;
  host_name = codes "alpha";
  image = codes "nginx";
  old_state = codes "running";
  new_state = codes "exited";
  old_image = [];
  new_image = [];
  cpu_percent = 0;
  memory_percent = 0;
  metadata = [];
}

abbrev stops : NotificationRule ℕ
stops = record {
  id = 4;
  enabled = true;
  event_types = container_stopped ∷ [];
  host_id = some 1;
  container_pattern = codes "web";
  image_pattern = [];
  cpu_threshold = none;
  memory_threshold = none;
  cooldown_seconds = 60;
  channel_ids = 7 ∷ [];
}

abbrev stop_task : NotificationTask ℕ
stop_task = record { rule = stops; event = web_stopped; channel = 7 }

-- Host 2 is silenced, and host 1 is not.
abbrev host_two : NotificationSilence
host_two = record {
  host_id = some 2;
  container_id = [];
  host_pattern = [];
  container_pattern = [];
  silenced_until = noon + hour;
}

abbrev database : Database ℕ
database = record {
  get_containers_by_host = λ host. some (web ∷ []);
  get_container_lifecycle_events = λ name host. some (
      record {
        timestamp = noon;
        event_type = codes "stopped";
        old_state = codes "running";
        new_state = codes "exited";
        old_image = [];
        new_image = [];
        old_image_tag = [];
        new_image_tag = [];
        old_image_sha = [];
        new_image_sha = [];
        description = [];
      }
      ∷ []);
  get_container_baseline = λ id host. some none;
  get_notification_rules = λ enabled. some (stops ∷ []);
  get_active_silences = some (host_two ∷ []);
  get_last_notification_time = λ rule id host. some none;
}

abbrev limiter : RateLimiter ℕ
limiter = record {
  max_per_hour = 2;
  tokens = 1;
  last_reset = noon;
  batch_queue = [];
  notifier = true;
}

abbrev service : NotificationService ℕ
service = record { threshold_state = []; rate_limiter = limiter }

granted-le-twice_example : granted limiter ((noon + 5) ∷ (noon + 9) ∷ (noon + hour) ∷ []) ≤ 4
granted-le-twice_example =
    granted-le-twice limiter ((noon + 5) ∷ (noon + 9) ∷ (noon + hour) ∷ []) (noon + 1) (omega arith)
      ((omega arith, omega arith), ((omega arith, omega arith), ((omega arith, omega arith), tt)))

abbrev full_limiter : RateLimiter ℕ
full_limiter = record limiter {
  batch_queue =
      stop_task
      ∷ record stop_task { channel = 8 }
      ∷ record stop_task { rule = record stops { id = 5 } }
      ∷ [];
}

on_channel-send_batch_example :
    ((send_batch full_limiter).0.batch_queue ≡ [])
    × (on_channel 7 (send_batch full_limiter).1 ≡ take 1 (on_channel 7 full_limiter.batch_queue))
on_channel-send_batch_example = on_channel-send_batch full_limiter 7 refl

rule_matches_event_iff_example :
    (rule_matches_event hundredths literal stops web_stopped ≡ true)
    ↔ RuleMatches hundredths literal stops web_stopped
rule_matches_event_iff_example = rule_matches_event_iff hundredths literal stops web_stopped

abbrev by_container : NotificationSilence
by_container = record {
  host_id = none;
  container_id = codes "c1";
  host_pattern = [];
  container_pattern = [];
  silenced_until = noon + hour;
}

silence_inert_example :
    (silence_accepted by_container ≡ true)
    × ((now : Time) (e : NotificationEvent ℕ) → silence_matches literal now by_container e ≡ false)
silence_inert_example = silence_inert literal by_container refl refl (inl cc)

abbrev resets : List (TrackerCall ℕ)
resets = TrackerCall.reset (noon + 5) (codes "c1") 1 (codes "cpu") ∷ []

abbrev old_entry : LogEntry ℕ
old_entry = record {
  id = 1;
  rule_id = some 4;
  channel_id = some 7;
  event_type = container_stopped;
  container_id = codes "c1";
  container_name = codes "web";
  host_id = some 1;
  host_name = codes "alpha";
  message = [];
  metadata = [];
  sent_at = noon - 5 * second;
  success = true;
  error = [];
  read = false;
}

abbrev log : LogTable ℕ
log = record { entries = old_entry ∷ []; next_id = 2 }

match_rules_iff_example :
    Memᴰ stop_task (stop_task ∷ [])
    ↔ Memᴰ web_stopped (web_stopped ∷ [])
      × Memᴰ stops (stops ∷ [])
      × RuleMatches hundredths literal stops web_stopped
      × Memᴰ stop_task.channel stops.channel_ids
      × (cooling hundredths literal database noon stops web_stopped ≡ false)
unfolding match_rules rule_matches_event is_in_cooldown rule_loop text_beq channel_loop
match_rules_iff_example =
    match_rules_iff hundredths literal database noon (stops ∷ []) (web_stopped ∷ [])
      (stop_task ∷ []) stop_task refl refl

abbrev two_tasks : List (NotificationTask ℕ)
two_tasks = stop_task ∷ record stop_task { channel = 8 } ∷ []

-- The loop reads the clock at noon, and a nanosecond later at each turn.
abbrev turn_time : ℕ → Time
turn_time turn = noon + turn

send_notifications_lem_example :
    let n = (refill (turn_time 0) limiter).tokens in
    let r = send_notifications turn_time limiter two_tasks in
    (r.1 ≡ take n two_tasks)
    × (r.0.batch_queue ≡ limiter.batch_queue ++ drop n two_tasks)
    × (r.0.tokens ≡ n - length two_tasks)
unfolding refill
send_notifications_lem_example =
    send_notifications_lem turn_time limiter two_tasks (λ e. cc) (λ turn few. omega (arith, few))

process_events-Permitted_example :
    AddsPermitted hundredths literal database noon
      (stops ∷ [])
      (host_two ∷ [])
      service.rate_limiter
      (process_events hundredths literal database noon turn_time service 1)
process_events-Permitted_example =
    process_events-Permitted hundredths literal database noon turn_time (stops ∷ []) (host_two ∷ [])
      refl refl service 1

-- The second attempt gets through.
abbrev http : Http ℕ
http url payload zero = status 500
http url payload (suc zero) = status 500
http url payload (suc (suc n)) = status 204

abbrev hook : WebhookConfig
hook = record { url = codes "http://hook"; headers = [] }

abbrev hook_row : NotificationChannel
hook_row = record {
  id = 7;
  name = codes "ops";
  kind = codes "webhook";
  webhook_config = ok hook;
  ntfy_config = err [];
  enabled = true;
}

abbrev delivery : Delivery ℕ
delivery = record {
  channels = [];
  threshold_state = [];
  log = record { entries = []; next_id = 1 };
}

-- Scan refuses the text that the driver gives for an aggregate.
abbrev refuses : Time → Option Time
refuses t = none

delivery-cooldown_iff_example :
    (is_in_cooldown (noon + 5 * second) 60 (
        get_last_notification_time refuses 4
          (codes "c1")
          1
          (send_single_notification hundredths http
            (λ id. ok hook_row)
            noon
            stop_task
            delivery).log)
      ≡ true)
    ↔ (refuses noon ≡ some noon)
unfolding get_channel send lookup create_channel_instance text_beq
delivery-cooldown_iff_example =
    delivery-cooldown_iff hundredths http (λ id. ok hook_row) noon refuses stop_task delivery
      (noon + 5 * second) (λ t. inr refl) (webhook (codes "ops") hook, refl, refl)
      (λ e m. absurd (elim m [ ])) (λ e. cc) (omega arith)

abbrev busy : Container ℕ
busy = record web {
  state = codes "running";
  memory_limit = 1024;
  cpu_percent = 6000;
  memory_percent = 2000;
}

abbrev usual : ContainerBaselineStats ℕ
usual = record {
  container_id = codes "c1";
  container_name = codes "web";
  host_id = 1;
  image_id = codes "i0";
  avg_cpu_percent = 2000;
  avg_memory_percent = 2000;
  avg_memory_usage = 512;
  sample_count = 40;
  window_start = 0;
  window_end = noon;
}

abbrev busy_database : Database ℕ
busy_database = record database {
  get_containers_by_host = λ host. some (busy ∷ []);
  get_container_baseline = λ id host. some (some usual);
}

abbrev anomalies : List (NotificationEvent ℕ)
anomalies = anomaly_loop hundredths busy_database noon (busy ∷ [])

detect_anomalies_iff_example :
    ((e : NotificationEvent ℕ) × Memᴰ e anomalies × (e.container_id ≡ codes "c1")) ↔ (
      (c : Container ℕ) × Memᴰ c (busy ∷ [])
      × (c.id ≡ codes "c1")
      × IsAnomalous hundredths busy_database noon c)
unfolding detect_anomalies
detect_anomalies_iff_example =
    detect_anomalies_iff hundredths busy_database noon 1 (busy ∷ []) anomalies (codes "c1") refl
      refl

-- A scan that saw the container running, and one that saw it stopped and with an update.
abbrev scanned : List (ContainerRow ℕ)
scanned =
    to_row (record web { state = codes "running"; scanned_at = noon })
    ∷ to_row (record web { scanned_at = noon + minute })
    ∷ []

abbrev updated : Container ℕ
updated = record web { update_available = true; last_update_check = noon }

abbrev no_gap : ℕ → Text
no_gap gap = []

abbrev stored_database : Database ℕ
stored_database = record database {
  get_containers_by_host = λ host. some (updated ∷ []);
  get_container_lifecycle_events =
      λ name host. some (get_container_lifecycle_events no_gap name host scanned);
}

abbrev update_found : NotificationEvent ℕ
update_found = base_event hundredths image_update_available noon updated

update_detected :
    detect_lifecycle_events hundredths stored_database (noon + minute) 1 ≡ some (update_found ∷ [])
unfolding detect_lifecycle_events get_container_lifecycle_events text_beq to_row
    lifecycle_event_to_notification_event
update_detected = refl

detect_lifecycle_events_stored_example :
    (c : Container ℕ) × Memᴰ c (updated ∷ [])
    × IsRecentUpdate hundredths (noon + minute) c update_found
detect_lifecycle_events_stored_example =
    detect_lifecycle_events_stored hundredths stored_database no_gap scanned (noon + minute) 1
      (updated ∷ []) (λ name. refl) refl update_detected update_found (Memᴰ.head refl)
