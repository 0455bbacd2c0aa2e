-- ===== src/Notifications/Delivery.antt =====
-- Delivery of one task (internal/notifications/notifier.go): getChannel, buildMessage, logNotification,
-- sendSingleNotification and RefreshChannels. The channel cache is a map; one clock reading serves a
-- call. A failure to write the log is not modelled. 65039 is the variation selector of an emoji.
pub mod Laws
use container_census.Base.{
  ℕ, Bool, true, false, not, List, [], ◌∷◌, ◌++◌, Option, none, some, Text, text_eq, nat_eq, codes,
  ◌==◌, if◌then◌else◌, lookup, insert, Result, ok, err, decimal,
}
use container_census.Models.{
  Time, Float64, NotificationEvent, NotificationTask, new_image, state_change, high_cpu,
  high_memory, anomalous_behavior, container_started, container_stopped, container_paused,
  container_resumed,
}
use container_census.Notifications.Thresholds.{Trackers, reset_threshold}
use container_census.Notifications.Log.{LogEntry, LogTable, save_notification_log}
use container_census.Notifications.Channels.{
  NotificationChannel, Channel, Http, create_channel_instance, send,
}

pub record Delivery (F : Type 0) : Type 0 where
  pub channels : List (ℕ × Channel)
  pub threshold_state : Trackers
  pub log : LogTable F

-- The channel, and the cache afterwards. `load` is GetNotificationChannel.
unfoldable pub get_channel :
    (ℕ → Result NotificationChannel) → ℕ → List (ℕ × Channel) → Result Channel × List (ℕ × Channel)
get_channel load channel_id channels = elim (lookup channel_id channels) [
  | some ch ↦ (ok ch, channels)
  | none ↦ elim (load channel_id) [
    | err e ↦ (err e, channels)
    | ok db_channel ↦
        if not db_channel.enabled
        then (err (codes "channel " ++ (decimal channel_id ++ codes " is disabled")), channels)
        else elim (create_channel_instance db_channel) [
          | err e ↦ (err e, channels)
          | ok ch ↦ (ok ch, insert channel_id ch channels)
        ]
  ]
]

pub refresh_channels : {F : Type 0} → Delivery F → Delivery F
refresh_channels d = record d { channels = [] }

-- `%s on %s`.
abbrev pub on_host : {F : Type 0} → NotificationEvent F → Text
on_host e = e.container_name ++ (codes " on " ++ e.host_name)

module _ {F : Type 0} (fl : Float64 F) where
  pub build_message : NotificationEvent F → Text
  build_message e =
      if e.event_type == new_image
      then codes "🔄 Image updated for "
        ++ (on_host e ++ (codes ": " ++ (e.old_image ++ (codes " → " ++ e.new_image))))
      else (if e.event_type == container_started
          then codes "✅ Container started: " ++ on_host e
          else (if e.event_type == container_stopped
              then codes "🛑 Container stopped: " ++ on_host e
              else (if e.event_type == container_paused
                  then codes "⏸" ++ (65039 ∷ (codes " Container paused: " ++ on_host e))
                  else (if e.event_type == container_resumed
                      then codes "▶" ++ (65039 ∷ (codes " Container resumed: " ++ on_host e))
                      else (if e.event_type == high_cpu
                          then codes "⚠"
                            ++ (65039
                                ∷ (codes " High CPU usage: "
                                    ++ (on_host e
                                        ++ (codes " ("
                                            ++ (fl.show_1f e.cpu_percent ++ codes "%)")))))
                          else (if e.event_type == high_memory
                              then codes "⚠"
                                ++ (65039
                                    ∷ (codes " High memory usage: "
                                        ++ (on_host e
                                            ++ (codes " ("
                                                ++ (fl.show_1f e.memory_percent ++ codes "%)")))))
                              else (if e.event_type == anomalous_behavior
                                  then codes "🔍 Anomalous behavior detected: "
                                    ++ (on_host e
                                        ++ (codes " (CPU: "
                                            ++ (fl.show_1f e.cpu_percent
                                                ++ (codes "%, Memory: "
                                                    ++ (fl.show_1f e.memory_percent
                                                        ++ codes "%)")))))
                                  else (if e.event_type == state_change
                                      then codes "🔄 State changed: "
                                        ++ (on_host e
                                            ++ (codes " ("
                                                ++ (e.old_state
                                                    ++ (codes " → "
                                                        ++ (e.new_state ++ codes ")")))))
                                      else codes "Event: "
                                        ++ (e.event_type ++ (codes " for " ++ on_host e))))))))))

  -- The row that `logNotification` writes; its id is given by the table.
  pub log_entry : Time → NotificationTask F → Bool → Text → LogEntry F
  log_entry now task success error_msg = record {
    id = 0;
    rule_id = some task.rule.id;
    channel_id = some task.channel;
    event_type = task.event.event_type;
    container_id = task.event.container_id;
    container_name = task.event.container_name;
    host_id = some task.event.host_id;
    host_name = task.event.host_name;
    message = build_message task.event;
    metadata = task.event.metadata;
    sent_at = now;
    success = success;
    error = error_msg;
    read = false;
  }

  pub log_notification : Time → NotificationTask F → Bool → Text → LogTable F → LogTable F
  unfolding log_entry save_notification_log
  log_notification now task success error_msg table =
      save_notification_log (log_entry now task success error_msg) table

  -- The reset after a delivery about a high load.
  pub reset_after : Time → NotificationEvent F → Trackers → Trackers
  reset_after now e trackers =
      if e.event_type == high_cpu
      then reset_threshold now e.container_id e.host_id (codes "cpu") trackers
      else (if e.event_type == high_memory
          then reset_threshold now e.container_id e.host_id (codes "memory") trackers
          else trackers)

  -- What follows once the channel is known.
  pub send_via : Http F → Time → NotificationTask F → Result Channel → Delivery F → Delivery F
  unfolding log_notification reset_after
  send_via http now task (err e) d = record d {
    log = log_notification now task false (codes "Channel not found: " ++ e) d.log;
  }
  send_via http now task (ok ch) d = elim (send http ch (build_message task.event) task.event) [
    | some e ↦ record d { log = log_notification now task false e d.log }
    | none ↦ record d {
      log = log_notification now task true [] d.log;
      threshold_state = reset_after now task.event d.threshold_state;
    }
  ]

  pub send_single_notification :
      Http F
      → (ℕ → Result NotificationChannel)
      → Time
      → NotificationTask F
      → Delivery F
      → Delivery F
  unfolding send_via get_channel
  send_single_notification http load now task d =
      let (channel, channels) = get_channel load task.channel d.channels in
      send_via http now task channel (record d { channels = channels })
