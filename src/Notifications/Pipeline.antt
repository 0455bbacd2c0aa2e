-- ===== src/Notifications/Pipeline.antt =====
-- ProcessEvents of internal/notifications/notifier.go: what happens after each scan of a host. The
-- tasks that are sent at once are handed each to a goroutine; the model returns them in order.
pub mod Matching
pub mod Sending
pub mod Process
use container_census.Base.{
  ℕ, suc, Bool, true, false, List, [], ◌∷◌, ◌++◌, Option, none, some, if◌then◌else◌,
}
use container_census.Models.{Time, Float64, NotificationEvent, NotificationRule, NotificationTask}
use container_census.Notifications.RateLimiter.{RateLimiter, allow, add_to_batch}
use container_census.Notifications.Rules.{Glob, rule_matches_event}
use container_census.Notifications.Silences.{filter_silenced}
use container_census.Notifications.Thresholds.{Trackers}
use container_census.Notifications.Log.Cooldown.{is_in_cooldown}
use container_census.Notifications.Detect.{
  Database, detect_lifecycle_events, detect_threshold_events, detect_anomalies,
}

-- The state that a scan may change.
pub record NotificationService (F : Type 0) : Type 0 where
  pub threshold_state : Trackers
  pub rate_limiter : RateLimiter F

pub data ProcessError : Type 0 where
  lifecycle_failed threshold_failed anomaly_failed match_failed : ProcessError

pub data Outcome (F : Type 0) : Type 0 where
  sent : List (NotificationTask F) → Outcome F
  failed : ProcessError → Outcome F

module _ {F : Type 0} (fl : Float64 F) (glob : Glob) (db : Database F) (now : Time) where
  -- The channels of one rule that matches one event.
  unfoldable pub channel_loop :
      NotificationRule F → NotificationEvent F → List ℕ → List (NotificationTask F)
  channel_loop rule event [] = []
  channel_loop rule event (channel ∷ channels) =
      let rest = channel_loop rule event channels in
      if is_in_cooldown now rule.cooldown_seconds
        (db.get_last_notification_time rule.id event.container_id event.host_id)
      then rest
      else record { rule = rule; event = event; channel = channel } ∷ rest

  unfoldable pub rule_loop :
      NotificationEvent F → List (NotificationRule F) → List (NotificationTask F)
  rule_loop event [] = []
  rule_loop event (rule ∷ rules) =
      (if rule_matches_event fl glob rule event
        then channel_loop rule event rule.channel_ids
        else [])
      ++ rule_loop event rules

  pub event_loop :
      List (NotificationRule F) → List (NotificationEvent F) → List (NotificationTask F)
  event_loop rules [] = []
  event_loop rules (event ∷ events) = rule_loop event rules ++ event_loop rules events

  unfoldable pub match_rules : List (NotificationEvent F) → Option (List (NotificationTask F))
  unfolding event_loop
  match_rules events = elim (db.get_notification_rules true) [
    | none ↦ none
    | some rules ↦ some (event_loop rules events)
  ]

-- The loop of `sendNotifications`: the limiter afterwards, and the tasks that are sent at once.
-- Each turn of the loop reads the clock: `clock i` is the reading of turn i.
unfoldable pub send_notifications :
    {F : Type 0}
    → (ℕ → Time)
    → RateLimiter F
    → List (NotificationTask F)
    → RateLimiter F × List (NotificationTask F)
send_notifications clock rl [] = (rl, [])
send_notifications clock rl (task ∷ tasks) =
    let (rl', allowed) = allow (clock 0) rl in
    let (rl'', rest) =
      send_notifications (λ i. clock (suc i)) (if allowed then rl' else add_to_batch task rl')
        tasks in
    (rl'', if allowed then task ∷ rest else rest)

module _ {F : Type 0} (fl : Float64 F) (glob : Glob) (db : Database F) (now : Time)
    (clock : ℕ → Time) where
  -- The steps after the three detectors, over the events that they found.
  pub dispatch :
      NotificationService F → List (NotificationEvent F) → NotificationService F × Outcome F
  dispatch ns [] = (ns, sent [])
  dispatch ns (event ∷ events) = elim (match_rules fl glob db now (event ∷ events)) [
    | none ↦ (ns, failed match_failed)
    | some tasks ↦
        let (rl, at_once) =
          send_notifications clock ns.rate_limiter
            (filter_silenced glob now db.get_active_silences tasks) in
        (record ns { rate_limiter = rl }, sent at_once)
  ]

  -- The detection of anomalies, with what was found before.
  pub add_anomalies :
      NotificationService F
      → ℕ
      → List (NotificationEvent F)
      → List (NotificationEvent F)
      → NotificationService F × Outcome F
  unfolding dispatch
  add_anomalies ns host_id lifecycle threshold = elim (detect_anomalies fl db now host_id) [
    | none ↦ (ns, failed anomaly_failed)
    | some anomaly ↦ dispatch ns ((lifecycle ++ threshold) ++ anomaly)
  ]

  unfoldable pub process_events : NotificationService F → ℕ → NotificationService F × Outcome F
  unfolding add_anomalies
  process_events ns host_id = elim (detect_lifecycle_events fl db now host_id) [
    | none ↦ (ns, failed lifecycle_failed)
    | some lifecycle ↦
        let (found, trackers) = detect_threshold_events fl db now host_id ns.threshold_state in
        let ns' = record ns { threshold_state = trackers } in
        elim found [
          | none ↦ (ns', failed threshold_failed)
          | some threshold ↦ add_anomalies ns' host_id lifecycle threshold
        ]
  ]
