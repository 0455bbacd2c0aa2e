-- ===== src/Notifications/Channels.antt =====
-- internal/notifications/channels: webhook, ntfy and in-app delivery. `http` answers a request's n-th
-- attempt; JSON decoding of a channel's configuration is done before (`err` is its failure).
-- Request headers, time-outs and the waiting between attempts are not modelled.
pub mod Retry
use mathlib.Core.List.{reverse}
use container_census.Base.{
  ℕ, zero, suc, Bool, true, false, ◌&&◌, ◌||◌, List, [], ◌∷◌, ◌++◌, Option, none, some, Text,
  text_eq, nat_eq, codes, ◌==◌, is_empty, if◌then◌else◌, ltb, leb, Result, ok, err, decimal,
}
use container_census.Models.{
  Time, Float64, NotificationEvent, new_image, high_cpu, high_memory, anomalous_behavior,
  container_started, container_stopped,
}

pub record WebhookConfig : Type 0 where
  pub url : Text
  pub headers : List (Text × Text)

pub record NtfyConfig : Type 0 where
  pub server_url : Text
  pub topic : Text
  pub token : Text

-- A row of notification_channels with its decoded configuration.
pub record NotificationChannel : Type 0 where
  pub id : ℕ
  pub name : Text
  pub kind : Text  -- the column `type`
  pub webhook_config : Result WebhookConfig
  pub ntfy_config : Result NtfyConfig
  pub enabled : Bool

pub data Channel : Type 0 where
  webhook : Text → WebhookConfig → Channel
  ntfy : Text → NtfyConfig → Channel
  in_app : Text → Channel

-- `strings.TrimSuffix(s, "/")`.
trim_slash_rev : Text → Text
trim_slash_rev [] = []
trim_slash_rev (c ∷ s) = if c == 47 then s else c ∷ s

pub trim_slash : Text → Text
unfolding trim_slash_rev
trim_slash s = reverse (trim_slash_rev (reverse s))

pub new_webhook_channel : NotificationChannel → Result Channel
new_webhook_channel ch = elim ch.webhook_config [
  | err e ↦ err (codes "failed to parse webhook config: " ++ e)
  | ok config ↦
      if is_empty config.url
      then err (codes "webhook URL is required")
      else ok (webhook ch.name config)
]

pub new_ntfy_channel : NotificationChannel → Result Channel
unfolding trim_slash
new_ntfy_channel ch = elim ch.ntfy_config [
  | err e ↦ err (codes "failed to parse ntfy config: " ++ e)
  | ok config ↦
      let server =
        if is_empty config.server_url then codes "https://ntfy.sh" else config.server_url in
      if is_empty config.topic
      then err (codes "ntfy topic is required")
      else ok (ntfy ch.name (record config { server_url = trim_slash server }))
]

-- createChannelInstance of internal/notifications/notifier.go.
unfoldable pub create_channel_instance : NotificationChannel → Result Channel
unfolding new_webhook_channel new_ntfy_channel
create_channel_instance ch =
    if ch.kind == codes "webhook"
    then new_webhook_channel ch
    else (if ch.kind == codes "ntfy"
        then new_ntfy_channel ch
        else (if ch.kind == codes "in_app"
            then ok (in_app ch.name)
            else err (codes "unknown channel type: " ++ ch.kind)))

pub get_priority : Text → ℕ
get_priority event_type =
    if event_type == container_stopped
    then 4
    else (if event_type == high_cpu || event_type == high_memory
        then 4
        else (if event_type == anomalous_behavior then 4 else 3))

pub get_tags : Text → List Text
get_tags event_type =
    if event_type == container_started
    then codes "white_check_mark" ∷ []
    else (if event_type == container_stopped
        then codes "octagonal_sign" ∷ []
        else (if event_type == new_image
            then codes "arrows_counterclockwise" ∷ []
            else (if event_type == high_cpu || event_type == high_memory
                then codes "warning" ∷ []
                else (if event_type == anomalous_behavior
                    then codes "mag" ∷ []
                    else codes "information_source" ∷ []))))

-- The body of a request, before JSON encoding. A webhook's fields are the message and those of the
-- event; an ntfy message also has the fixed title "Container Census".
pub data Payload (F : Type 0) : Type 0 where
  ntfy_message : Text → Text → ℕ → List Text → Payload F  -- topic, message, priority, tags
  webhook_message : Text → NotificationEvent F → Payload F

-- What one attempt gives: the status of a response, or an error.
pub data Reply : Type 0 where
  status : ℕ → Reply
  broken : Text → Reply

abbrev pub Http : Type 0 → Type 0
Http F = Text → Payload F → ℕ → Reply

abbrev pub is_success : ℕ → Bool
is_success code = leb 200 code && ltb code 300

-- `none` for success, and else what becomes `lastErr`.
pub attempt_outcome : ℕ → Reply → Option Text
attempt_outcome attempt (status code) =
    if is_success code
    then none
    else some (codes "attempt " ++ (decimal attempt ++ (codes ": HTTP " ++ decimal code)))
attempt_outcome attempt (broken e) =
    some (codes "attempt " ++ (decimal attempt ++ (codes " failed: " ++ e)))

-- The loop over the attempts that are left.
pub send_attempts : (ℕ → Reply) → ℕ → ℕ → Text → Option Text
unfolding attempt_outcome
send_attempts reply zero attempt last_err = some last_err
send_attempts reply (suc left) attempt last_err = elim (attempt_outcome attempt (reply attempt)) [
  | none ↦ none
  | some e ↦ send_attempts reply left (suc attempt) e
]

-- The error after the loop.
pub wrap : Text → Option Text → Option Text
wrap prefix none = none
wrap prefix (some e) = some (prefix ++ e)

module _ {F : Type 0} where
  -- `Send` of each channel; `none` is a nil error.
  unfoldable pub send : Http F → Channel → Text → NotificationEvent F → Option Text
  unfolding send_attempts wrap
  send http (webhook name config) message event =
      wrap (codes "webhook failed after 3 attempts: ")
        (send_attempts (http config.url (webhook_message message event)) 3 1 [])
  send http (ntfy name config) message event = wrap (codes "ntfy failed after 3 attempts: ") (
      send_attempts
        (http config.server_url (
          ntfy_message config.topic message (get_priority event.event_type)
            (get_tags event.event_type)))
        3 1 [])
  send http (in_app name) message event = none
