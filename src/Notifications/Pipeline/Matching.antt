-- ===== src/Notifications/Pipeline/Matching.antt =====
-- matchRules (internal/notifications/notifier.go): which tasks come of the events of a scan.
use container_census.Base.{
  ℕ, ◌≡◌, ap, ◌↔◌, inl, inr, Bool, true, false, List, [], ◌∷◌, some, Memᴰ, append-mem,
  mem-append_left, mem-append_right, Bool-cases, arith, if◌then◌else◌,
}
use container_census.Models.{Time, Float64, NotificationEvent, NotificationRule, NotificationTask}
use container_census.Notifications.Rules.{Glob, rule_matches_event}
use container_census.Notifications.Rules.Laws.{RuleMatches, rule_matches_event_iff}
use container_census.Notifications.Log.Cooldown.{is_in_cooldown}
use container_census.Notifications.Detect.{Database}
use container_census.Notifications.Pipeline.{channel_loop, rule_loop, event_loop, match_rules}

module _ {F : Type 0} (fl : Float64 F) (glob : Glob) (db : Database F) (now : Time) where
  -- The rule of the task is cooling down for the container of its event.
  abbrev pub cooling : NotificationRule F → NotificationEvent F → Bool
  cooling rule event =
      is_in_cooldown now rule.cooldown_seconds
        (db.get_last_notification_time rule.id event.container_id event.host_id)

  channel_loop-mem :
      (rule : NotificationRule F) (event : NotificationEvent F) (t : NotificationTask F)
      (channels : List ℕ)
      → Memᴰ t (channel_loop fl glob db now rule event channels)
      → (t.rule ≡ rule) × (t.event ≡ event) × Memᴰ t.channel channels × (cooling rule event ≡ false)
  unfolding channel_loop
  channel_loop-mem rule event t [] m = elim m [ ]
  channel_loop-mem rule event t (ch ∷ chs) m = elim (Bool-cases (cooling rule event)) [
    | inl e ↦
        let (a, b, c, d) = channel_loop-mem rule event t chs (rw e at m) in (a, b, Memᴰ.tail c, d)
    | inr e ↦ first (rw e at m) e (channel_loop-mem rule event t chs)
  ]
    where
      first :
          Memᴰ t (
            record { rule = rule; event = event; channel = ch }
            ∷ channel_loop fl glob db now rule event chs)
          → cooling rule event ≡ false
          → (Memᴰ t (channel_loop fl glob db now rule event chs)
              → (t.rule ≡ rule)
                × (t.event ≡ event)
                × Memᴰ t.channel chs
                × (cooling rule event ≡ false))
          → (t.rule ≡ rule)
            × (t.event ≡ event)
            × Memᴰ t.channel (ch ∷ chs)
            × (cooling rule event ≡ false)
      first (Memᴰ.head q) e rest =
          (ap (λ t. t.rule) q, ap (λ t. t.event) q, Memᴰ.head (ap (λ t. t.channel) q), e)
      first (Memᴰ.tail m') e rest = let (a, b, c, d) = rest m' in (a, b, Memᴰ.tail c, d)

  mem-channel_loop :
      (t : NotificationTask F) (channels : List ℕ)
      → Memᴰ t.channel channels
      → cooling t.rule t.event ≡ false
      → Memᴰ t (channel_loop fl glob db now t.rule t.event channels)
  unfolding channel_loop
  mem-channel_loop t [] m e = elim m [ ]
  mem-channel_loop t (ch ∷ chs) (Memᴰ.head q) e = rw e (Memᴰ.head (ground (arith, q)))
  mem-channel_loop t (ch ∷ chs) (Memᴰ.tail m) e = rw e (Memᴰ.tail (mem-channel_loop t chs m e))

  -- What a task of the rule loop is.
  abbrev Fits : List (NotificationRule F) → NotificationTask F → Type 0
  Fits rules t =
      Memᴰ t.rule rules
      × (rule_matches_event fl glob t.rule t.event ≡ true)
      × Memᴰ t.channel t.rule.channel_ids
      × (cooling t.rule t.event ≡ false)

  rule_loop-mem :
      (event : NotificationEvent F) (t : NotificationTask F) (rules : List (NotificationRule F))
      → Memᴰ t (rule_loop fl glob db now event rules)
      → (t.event ≡ event) × Fits rules t
  unfolding rule_loop
  rule_loop-mem event t [] m = elim m [ ]
  rule_loop-mem event t (rule ∷ rules) m =
      elim (append-mem
        (if rule_matches_event fl glob rule event
          then channel_loop fl glob db now rule event rule.channel_ids
          else [])
        (rule_loop fl glob db now event rules) m) [
          | inr m' ↦
              let (a, (b, c, d, e)) = rule_loop-mem event t rules m' in (a, (Memᴰ.tail b, c, d, e))
          | inl m' ↦ elim (Bool-cases (rule_matches_event fl glob rule event)) [
            | inr no_match ↦ elim (none_in (rw no_match at m')) [ ]
            | inl match ↦
                let (a, b, c, d) =
                  channel_loop-mem rule event t rule.channel_ids (rw match at m') in
                (b, (Memᴰ.head a, rw (a, b) match, rw a c, rw (a, b) d))
          ]
        ]
    where
      none_in : Memᴰ t [] → ⊥
      none_in m = elim m [ ]

  mem-rule_loop :
      (t : NotificationTask F) (rules : List (NotificationRule F))
      → Fits rules t
      → Memᴰ t (rule_loop fl glob db now t.event rules)
  unfolding rule_loop
  mem-rule_loop t [] (m, _, _, _) = elim m [ ]
  mem-rule_loop t (rule ∷ rules) (Memᴰ.head q, a, b, c) =
      mem-append_left _ (rule_loop fl glob db now t.event rules)
        (rw (← q) (rw a (mem-channel_loop t t.rule.channel_ids b c)))
  mem-rule_loop t (rule ∷ rules) (Memᴰ.tail m, a, b, c) =
      mem-append_right _ (rule_loop fl glob db now t.event rules)
        (mem-rule_loop t rules (m, a, b, c))

  event_loop-mem :
      (t : NotificationTask F) (rules : List (NotificationRule F))
      (events : List (NotificationEvent F))
      → Memᴰ t (event_loop fl glob db now rules events)
      → Memᴰ t.event events × Fits rules t
  unfolding event_loop
  event_loop-mem t rules [] m = elim m [ ]
  event_loop-mem t rules (event ∷ events) m =
      elim (append-mem (rule_loop fl glob db now event rules)
        (event_loop fl glob db now rules events) m) [
          | inl m' ↦ let (a, b) = rule_loop-mem event t rules m' in (Memᴰ.head a, b)
          | inr m' ↦ let (a, b) = event_loop-mem t rules events m' in (Memᴰ.tail a, b)
        ]

  mem-event_loop :
      (t : NotificationTask F) (rules : List (NotificationRule F))
      (events : List (NotificationEvent F))
      → Memᴰ t.event events
      → Fits rules t
      → Memᴰ t (event_loop fl glob db now rules events)
  unfolding event_loop
  mem-event_loop t rules [] m f = elim m [ ]
  mem-event_loop t rules (event ∷ events) (Memᴰ.head q) f =
      mem-append_left _ (event_loop fl glob db now rules events)
        (rw (← q) (mem-rule_loop t rules f))
  mem-event_loop t rules (event ∷ events) (Memᴰ.tail m) f =
      mem-append_right _ (event_loop fl glob db now rules events)
        (mem-event_loop t rules events m f)

  -- With the rules that the query gives, matching makes exactly the tasks that pair one of the events
  -- with a rule that matches it and with a channel of that rule, where the rule is not cooling down for
  -- the event's container.
  pub match_rules_iff :
      (rules : List (NotificationRule F)) (events : List (NotificationEvent F))
      (tasks : List (NotificationTask F)) (t : NotificationTask F)
      → db.get_notification_rules true ≡ some rules
      → match_rules fl glob db now events ≡ some tasks
      → Memᴰ t tasks
        ↔ Memᴰ t.event events
          × Memᴰ t.rule rules
          × RuleMatches fl glob t.rule t.event
          × Memᴰ t.channel t.rule.channel_ids
          × (cooling t.rule t.event ≡ false)
  unfolding match_rules
  match_rules_iff rules events tasks t q e =
      let same : event_loop fl glob db now rules events ≡ tasks = ground (arith, q, e) in
      rw (← same) (
        λ m.
            let (a, (b, c, d, f)) = event_loop-mem t rules events m in
            (a, b, (rule_matches_event_iff fl glob t.rule t.event).0 c, d, f),
        λ h.
            mem-event_loop t rules events h.0
              (h.1, (rule_matches_event_iff fl glob t.rule t.event).1 h.2, h.3, h.4),
      )
