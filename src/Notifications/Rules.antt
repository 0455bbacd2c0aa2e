-- ===== src/Notifications/Rules.antt =====
-- internal/notifications/notifier.go, ruleMatchesEvent: which rules an event meets.
-- `glob` is Go's filepath.Match, which fails (`none`) on a malformed pattern.
pub mod Laws
use container_census.Base.{
  ℕ, Bool, true, false, not, ◌&&◌, List, Option, none, some, Text, text_eq, nat_eq, ◌==◌, any,
  is_empty, if◌then◌else◌,
}
use container_census.Models.{Float64, NotificationEvent, NotificationRule, high_cpu, high_memory}

abbrev pub Glob : Type 0
Glob = Text → Text → Option Bool

-- A pattern that is set and does not match, or cannot be read.
pub pattern_fails : Glob → Text → Text → Bool
pattern_fails glob pattern name =
    if is_empty pattern
    then false
    else elim (glob pattern name) [ none ↦ true | some matched ↦ not matched ]

-- `p != nil && *p != host`.
pub host_differs : Option ℕ → ℕ → Bool
host_differs none host = false
host_differs (some id) host = not (id == host)

module _ {F : Type 0} (fl : Float64 F) where
  -- `threshold != nil` and the value is under it.
  pub under_threshold : Option F → F → Bool
  under_threshold none value = false
  under_threshold (some threshold) value = fl.lt_f value threshold

  unfoldable pub rule_matches_event : Glob → NotificationRule F → NotificationEvent F → Bool
  unfolding pattern_fails host_differs under_threshold
  rule_matches_event glob rule event =
      if not (any (λ et. et == event.event_type) rule.event_types)
      then false
      else (if host_differs rule.host_id event.host_id
          then false
          else (if pattern_fails glob rule.container_pattern event.container_name
              then false
              else (if pattern_fails glob rule.image_pattern event.image
                  then false
                  else (if event.event_type == high_cpu
                        && under_threshold rule.cpu_threshold event.cpu_percent
                      then false
                      else (if event.event_type == high_memory
                            && under_threshold rule.memory_threshold event.memory_percent
                          then false
                          else true)))))
