-- ===== src/Notifications/Silences.antt =====
-- Silences: silenceMatches and filterSilenced of internal/notifications/notifier.go, and the check that
-- handleCreateNotificationSilence of internal/api/notifications.go makes before it saves one.
pub mod Laws
use container_census.Base.{
  ℕ, Bool, true, false, not, ◌&&◌, List, Option, none, some, Text, text_eq, nat_eq, ◌==◌, any, keep,
  is_empty, if◌then◌else◌, ltb,
}
use container_census.Models.{Time, NotificationEvent, NotificationSilence, NotificationTask}
use container_census.Notifications.Rules.{Glob}

-- `p != nil && *p == host`.
pub host_equals : Option ℕ → ℕ → Bool
host_equals none host = false
host_equals (some id) host = id == host

-- `err == nil && matched`.
pub glob_matches : Glob → Text → Text → Bool
glob_matches glob pattern name = elim (glob pattern name) [ none ↦ false | some matched ↦ matched ]

module _ {F : Type 0} where
  unfoldable pub silence_matches : Glob → Time → NotificationSilence → NotificationEvent F → Bool
  unfolding host_equals glob_matches
  silence_matches glob now silence event =
      let same_container =
        not (is_empty silence.container_id) && silence.container_id == event.container_id in
      if ltb silence.silenced_until now
      then false
      else (if host_equals silence.host_id event.host_id && same_container
          then true
          else (if host_equals silence.host_id event.host_id && is_empty silence.container_id
              then true
              else (if same_container && host_equals silence.host_id event.host_id
                  then true
                  else (if not (is_empty silence.container_pattern)
                        && glob_matches glob silence.container_pattern event.container_name
                      then true
                      else false))))

  -- `none` for a failed query: the tasks are then all kept.
  unfoldable pub filter_silenced :
      Glob
      → Time
      → Option (List NotificationSilence)
      → List (NotificationTask F)
      → List (NotificationTask F)
  filter_silenced glob now none tasks = tasks
  filter_silenced glob now (some silences) tasks =
      keep (λ task. not (any (λ silence. silence_matches glob now silence task.event) silences))
        tasks

-- The validation of a new silence.
pub silence_accepted : NotificationSilence → Bool
silence_accepted silence = not (
    elim silence.host_id [ none ↦ true | some id ↦ false ]
    && is_empty silence.container_id
    && is_empty silence.host_pattern
    && is_empty silence.container_pattern)
