-- ===== src/Notifications/Pipeline/Process.antt =====
-- What one scan may send or queue (internal/notifications/notifier.go, ProcessEvents).
use container_census.Base.{
  ℕ, ◌≤◌, ◌≡◌, refl, sym, ap, append-nil, ◌∙◌, subst, ◌⊎◌, inl, inr, true, false, List, [], ◌∷◌,
  ◌++◌, none, some, Memᴰ, Option-cases, arith,
}
use container_census.Models.{
  Time, Float64, NotificationEvent, NotificationRule, NotificationSilence, NotificationTask,
}
use container_census.Notifications.RateLimiter.{RateLimiter}
use container_census.Notifications.Rules.{Glob}
use container_census.Notifications.Rules.Laws.{RuleMatches}
use container_census.Notifications.Silences.{filter_silenced}
use container_census.Notifications.Silences.Laws.{Covers, mem-filter_silenced_iff}
use container_census.Notifications.Detect.{
  Database, detect_lifecycle_events, detect_threshold_events, detect_anomalies,
}
use container_census.Notifications.Pipeline.{
  NotificationService, ProcessError, Outcome, sent, failed, lifecycle_failed, threshold_failed,
  anomaly_failed, match_failed, match_rules, dispatch, process_events,
}
use container_census.Notifications.Pipeline.Matching.{cooling, match_rules_iff}
use container_census.Notifications.Pipeline.Sending.{send_notifications-mem}

-- What is sent at once.
abbrev pub sent_of : {F : Type 0} → Outcome F → List (NotificationTask F)
sent_of (sent tasks) = tasks
sent_of (failed e) = []

Outcome-cases :
    {F : Type 0} (o : Outcome F)
    → ((tasks : List (NotificationTask F)) × (o ≡ sent tasks))
      ⊎ ((e : ProcessError) × (o ≡ failed e))
Outcome-cases (sent tasks) = inl (tasks, refl)
Outcome-cases (failed e) = inr (e, refl)

module _ {F : Type 0} (fl : Float64 F) (glob : Glob) (db : Database F) (now : Time)
    (rules : List (NotificationRule F)) (silences : List NotificationSilence) where
  -- The scan may deliver this task.
  abbrev pub Permitted : NotificationTask F → Type 0
  Permitted t =
      Memᴰ t.rule rules
      × RuleMatches fl glob t.rule t.event
      × Memᴰ t.channel t.rule.channel_ids
      × (cooling fl glob db now t.rule t.event ≡ false)
      × ((s : NotificationSilence)
          → Memᴰ s silences
          → ¬ ((now ≤ s.silenced_until) × Covers glob s t.event))

  -- What is sent, and what is added at the end of the batch queue, is permitted.
  abbrev pub AddsPermitted : RateLimiter F → NotificationService F × Outcome F → Type 0
  AddsPermitted before r =
      (added : List (NotificationTask F)) × (r.0.rate_limiter.batch_queue
        ≡ before.batch_queue ++ added)
      × ((t : NotificationTask F) → Memᴰ t (sent_of r.1) ⊎ Memᴰ t added → Permitted t)

module _ {F : Type 0} (fl : Float64 F) (glob : Glob) (db : Database F) (now : Time)
    (clock : ℕ → Time) where
  -- A scan that fails at a query sends nothing and leaves the rate limiter and its queue as they were;
  -- which query it was is the error, in the order lifecycle, thresholds, anomalies, rules.
  pub process_events_failed :
      (ns : NotificationService F) (host_id : ℕ) {e : ProcessError}
      → (process_events fl glob db now clock ns host_id).1 ≡ failed e
      → ((process_events fl glob db now clock ns host_id).0.rate_limiter ≡ ns.rate_limiter)
        × ((e ≡ lifecycle_failed) × (detect_lifecycle_events fl db now host_id ≡ none)
            ⊎ (e ≡ threshold_failed)
              × ((detect_threshold_events fl db now host_id ns.threshold_state).0 ≡ none)
            ⊎ (e ≡ anomaly_failed) × (detect_anomalies fl db now host_id ≡ none)
            ⊎ (e ≡ match_failed) × (db.get_notification_rules true ≡ none))
  unfolding process_events match_rules
  process_events_failed ns host_id h = ground arith

  -- A scan that gets through its queries ends in `dispatch`, over the events of the three detectors.
  process-dispatch :
      (ns : NotificationService F) (host_id : ℕ) {out : List (NotificationTask F)}
      → (process_events fl glob db now clock ns host_id).1 ≡ sent out
      → (ns' : NotificationService F) × (events : List (NotificationEvent F)) × (ns'.rate_limiter
          ≡ ns.rate_limiter)
        × (process_events fl glob db now clock ns host_id
            ≡ dispatch fl glob db now clock ns' events)
  unfolding process_events
  process-dispatch ns host_id h = elim (Option-cases (detect_lifecycle_events fl db now host_id)) [
    | inl a ↦ absurd (ground (arith, a))
    | inr (lifecycle, a) ↦
        let (found, trackers) = detect_threshold_events fl db now host_id ns.threshold_state in
        elim (Option-cases found) [
          | inl b ↦ absurd (ground (arith, a, b))
          | inr (threshold, b) ↦ elim (Option-cases (detect_anomalies fl db now host_id)) [
            | inl c ↦ absurd (ground (arith, a, b, c))
            | inr (anomaly, c) ↦ (
              record ns { threshold_state = trackers },
              (lifecycle ++ threshold) ++ anomaly,
              refl,
              ground (arith, a, b, c),
            )
          ]
        ]
  ]

  module _ (rules : List (NotificationRule F)) (silences : List NotificationSilence) where
    -- A call that sends nothing and leaves the queue.
    idle-AddsPermitted :
        (before : RateLimiter F) (r : NotificationService F × Outcome F)
        → r.0.rate_limiter ≡ before
        → sent_of r.1 ≡ []
        → AddsPermitted fl glob db now rules silences before r
    idle-AddsPermitted before r same nothing = (
      [],
      ap (λ (rl : RateLimiter F). rl.batch_queue) same ∙ sym (append-nil before.batch_queue),
      λ t h. elim h [
        | inl m ↦ absurd (elim (subst (Memᴰ t) nothing m) [ ])
        | inr m ↦ absurd (elim m [ ])
      ],
    )

    module _ (rules_given : db.get_notification_rules true ≡ some rules)
        (silences_given : db.get_active_silences ≡ some silences) where
      filtered-Permitted :
          (events : List (NotificationEvent F)) (tasks : List (NotificationTask F))
          (t : NotificationTask F)
          → match_rules fl glob db now events ≡ some tasks
          → Memᴰ t (filter_silenced glob now db.get_active_silences tasks)
          → Permitted fl glob db now rules silences t
      filtered-Permitted events tasks t q m =
          let m' = subst (λ s. Memᴰ t (filter_silenced glob now s tasks)) silences_given m in
          let (given, quiet) = (mem-filter_silenced_iff glob now silences tasks t).0 m' in
          let (_, a, b, c, d) =
            (match_rules_iff fl glob db now rules events tasks t rules_given q).0 given in
          (a, b, c, d, quiet)

      dispatch-AddsPermitted :
          (ns : NotificationService F) (events : List (NotificationEvent F))
          → AddsPermitted fl glob db now rules silences ns.rate_limiter
              (dispatch fl glob db now clock ns events)
      unfolding dispatch
      dispatch-AddsPermitted ns [] = idle-AddsPermitted ns.rate_limiter (ns, sent []) refl refl
      dispatch-AddsPermitted ns (ev ∷ events) =
          elim (Option-cases (match_rules fl glob db now (ev ∷ events))) [
            | inl q ↦
                rw (q, dispatch)
                  (idle-AddsPermitted ns.rate_limiter (ns, failed match_failed) refl refl)
            | inr (tasks, q) ↦
                let due = filter_silenced glob now db.get_active_silences tasks in
                let (added, queue, given) = send_notifications-mem clock ns.rate_limiter due in
                rw (q, dispatch)
                  (added, queue, λ t h. filtered-Permitted (ev ∷ events) tasks t q (given t h))
          ]

      -- Whatever a scan sends, and whatever it adds to the batch queue, belongs to a rule that matches its
      -- event, goes to a channel of that rule, is not in its cooldown and is covered by no active silence,
      -- where the queries for the enabled rules and for the active silences succeed and these are what
      -- they give. What the queue held before stands in front of what is added.
      pub process_events-Permitted :
          (ns : NotificationService F) (host_id : ℕ)
          → AddsPermitted fl glob db now rules silences ns.rate_limiter
              (process_events fl glob db now clock ns host_id)
      process_events-Permitted ns host_id =
          let r = process_events fl glob db now clock ns host_id in
          elim (Outcome-cases r.1) [
            | inl (out, e) ↦
                let (ns', events, same, q) = process-dispatch ns host_id e in
                subst (AddsPermitted fl glob db now rules silences ns.rate_limiter) (sym q) (
                  subst
                    (λ rl.
                      AddsPermitted fl glob db now rules silences rl
                        (dispatch fl glob db now clock ns' events))
                    same (dispatch-AddsPermitted ns' events))
            | inr (err, e) ↦
                let (same, _) = process_events_failed ns host_id e in
                idle-AddsPermitted ns.rate_limiter r same (ap sent_of e)
          ]
