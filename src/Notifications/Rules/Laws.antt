-- ===== src/Notifications/Rules/Laws.antt =====
-- What it means that a rule matches an event (internal/notifications/notifier.go, ruleMatchesEvent).
use container_census.Base.{
  ℕ, ◌≡◌, refl, ◌↔◌, ◌⊎◌, Bool, true, false, ◌&&◌, List, [], Option, none, some, Text, text_eq,
  text_beq_iff, ◌==◌, any, arith, Memᴰ, any-mem, mem-any, subst,
}
use container_census.Models.{Float64, NotificationEvent, NotificationRule, high_cpu, high_memory}
use container_census.Notifications.Rules.{
  Glob, pattern_fails, host_differs, under_threshold, rule_matches_event,
}

-- A pattern is met if it is not set, or if it is well formed and matches.
abbrev pub PatternFits : Glob → Text → Text → Type 0
PatternFits glob pattern name = (pattern ≡ []) ⊎ (glob pattern name ≡ some true)

abbrev pub HostFits : Option ℕ → ℕ → Type 0
HostFits wanted host = (wanted ≡ none) ⊎ (wanted ≡ some host)

-- A threshold applies to its own kind of event, and is met at the threshold and above.
abbrev pub ThresholdFits : {F : Type 0} → Float64 F → Bool → Option F → F → Type 0
ThresholdFits fl applies none value = Unit
ThresholdFits fl applies (some threshold) value =
    (applies ≡ false) ⊎ (fl.lt_f value threshold ≡ false)

pub record RuleMatches {F : Type 0} (fl : Float64 F) (glob : Glob) (rule : NotificationRule F)
    (event : NotificationEvent F) : Type 0 where
  pub type_listed : Memᴰ event.event_type rule.event_types
  pub host_fits : HostFits rule.host_id event.host_id
  pub container_fits : PatternFits glob rule.container_pattern event.container_name
  pub image_fits : PatternFits glob rule.image_pattern event.image
  pub cpu_fits :
      ThresholdFits fl (event.event_type == high_cpu) rule.cpu_threshold event.cpu_percent
  pub memory_fits :
      ThresholdFits fl (event.event_type == high_memory) rule.memory_threshold event.memory_percent

pattern_fails_iff :
    (glob : Glob) (pattern name : Text)
    → (pattern_fails glob pattern name ≡ false) ↔ PatternFits glob pattern name
unfolding pattern_fails
pattern_fails_iff glob pattern name = (ground arith, ground arith)

host_differs_iff : (h : Option ℕ) (host : ℕ) → (host_differs h host ≡ false) ↔ HostFits h host
unfolding host_differs
host_differs_iff none host = (ground arith, ground arith)
host_differs_iff (some id) host = (ground arith, ground arith)

under_threshold_iff :
    {F : Type 0} (fl : Float64 F) (applies : Bool) (threshold : Option F) (value : F)
    → ((applies && under_threshold fl threshold value) ≡ false)
      ↔ ThresholdFits fl applies threshold value
unfolding under_threshold
under_threshold_iff fl applies none value = (λ _. tt, λ _. ground arith)
under_threshold_iff fl applies (some t) value = (ground arith, ground arith)

type_listed_iff : (t : Text) (ts : List Text) → (any (λ et. et == t) ts ≡ true) ↔ Memᴰ t ts
type_listed_iff t ts = (
  λ h.
      let (x, m, e) = any-mem (λ et. et == t) ts h in
      subst (λ y. Memᴰ y ts) ((text_beq_iff x t).0 e) m,
  λ m. mem-any (λ et. et == t) ts m ((text_beq_iff t t).1 refl),
)

module _ {F : Type 0} (fl : Float64 F) (glob : Glob) (rule : NotificationRule F)
    (event : NotificationEvent F) where
  -- The tests of the code, in its order.
  rule_tests :
      (rule_matches_event fl glob rule event ≡ true)
      ↔ (any (λ et. et == event.event_type) rule.event_types ≡ true)
        × (host_differs rule.host_id event.host_id ≡ false)
        × (pattern_fails glob rule.container_pattern event.container_name ≡ false)
        × (pattern_fails glob rule.image_pattern event.image ≡ false)
        × ((event.event_type == high_cpu && under_threshold fl rule.cpu_threshold event.cpu_percent)
            ≡ false)
        × ((event.event_type == high_memory
              && under_threshold fl rule.memory_threshold event.memory_percent)
            ≡ false)
  unfolding rule_matches_event
  rule_tests = (ground arith, ground arith)

  -- `ruleMatchesEvent` answers true exactly for the events whose type is listed, whose host, container
  -- and image fit the filters that are set, and which reach the threshold that is set for their kind.
  pub rule_matches_event_iff :
      (rule_matches_event fl glob rule event ≡ true) ↔ RuleMatches fl glob rule event
  rule_matches_event_iff = (
    λ h.
        let (a, b, c, d, e, f) = rule_tests.0 h in
        record {
          type_listed = (type_listed_iff event.event_type rule.event_types).0 a;
          host_fits = (host_differs_iff rule.host_id event.host_id).0 b;
          container_fits = (pattern_fails_iff glob rule.container_pattern event.container_name).0 c;
          image_fits = (pattern_fails_iff glob rule.image_pattern event.image).0 d;
          cpu_fits = (under_threshold_iff fl _ rule.cpu_threshold event.cpu_percent).0 e;
          memory_fits = (under_threshold_iff fl _ rule.memory_threshold event.memory_percent).0 f;
        },
    λ m. rule_tests.1 (
      (type_listed_iff event.event_type rule.event_types).1 m.type_listed,
      (host_differs_iff rule.host_id event.host_id).1 m.host_fits,
      (pattern_fails_iff glob rule.container_pattern event.container_name).1 m.container_fits,
      (pattern_fails_iff glob rule.image_pattern event.image).1 m.image_fits,
      (under_threshold_iff fl (event.event_type == high_cpu) rule.cpu_threshold event.cpu_percent).1
          m.cpu_fits,
      (under_threshold_iff fl (event.event_type == high_memory) rule.memory_threshold
            event.memory_percent).1
          m.memory_fits,
    ),
  )
