-- ===== src/Notifications/Silences/Laws.antt =====
-- What a silence covers (internal/notifications/notifier.go), and silences that cover nothing.
use container_census.Base.{
  ◌≤◌, ◌≡◌, ◌≢◌, ◌↔◌, ◌⊎◌, inl, inr, true, false, not, List, [], none, some, text_beq_iff, any,
  Memᴰ, mem-not_any, not_any-of_mem, keep-mem, mem-keep, arith, Bool-cases,
}
use container_census.Models.{Time, NotificationEvent, NotificationSilence, NotificationTask}
use container_census.Notifications.Rules.{Glob}
use container_census.Notifications.Silences.{silence_matches, filter_silenced, silence_accepted}

-- The silence is of the event's host, and of the whole host or of the event's container there; or its
-- container pattern is set and matches.
abbrev pub Covers : {F : Type 0} → Glob → NotificationSilence → NotificationEvent F → Type 0
Covers glob s e =
    (s.host_id ≡ some e.host_id) × ((s.container_id ≡ []) ⊎ (s.container_id ≡ e.container_id))
    ⊎ (s.container_pattern ≢ []) × (glob s.container_pattern e.container_name ≡ some true)

module _ {F : Type 0} (glob : Glob) (now : Time) where
  -- A silence matches an event exactly if it has not run out and covers the event.
  pub silence_matches_iff :
      (s : NotificationSilence) (e : NotificationEvent F)
      → (silence_matches glob now s e ≡ true) ↔ ((now ≤ s.silenced_until) × Covers glob s e)
  unfolding silence_matches
  silence_matches_iff s e = (
    λ h. ground (arith, text_beq_iff s.container_id e.container_id),
    λ h. ground (arith, text_beq_iff s.container_id e.container_id),
  )

  -- After the filter stand exactly the tasks that no active silence matches.
  pub mem-filter_silenced_iff :
      (silences : List NotificationSilence) (tasks : List (NotificationTask F))
      (t : NotificationTask F)
      → Memᴰ t (filter_silenced glob now (some silences) tasks)
        ↔ Memᴰ t tasks
          × ((s : NotificationSilence)
              → Memᴰ s silences
              → ¬ ((now ≤ s.silenced_until) × Covers glob s t.event))
  unfolding filter_silenced
  mem-filter_silenced_iff silences tasks t = (
    λ m.
        let (m', q) =
          keep-mem (λ t. not (any (λ s. silence_matches glob now s t.event) silences)) tasks m in
        (
          m',
          λ s ms c.
              let e = (silence_matches_iff s t.event).1 c in
              ground (
                arith,
                q,
                mem-not_any (λ s. silence_matches glob now s t.event) silences (ground arith) ms,
              ),
        ),
    λ h.
        mem-keep (λ t. not (any (λ s. silence_matches glob now s t.event) silences)) tasks h.0
          (ground (
            arith,
            not_any-of_mem (λ s. silence_matches glob now s t.event) silences
                (λ s ms. uncovered s (h.1 s ms)),
          )),
  )
    where
      uncovered :
          (s : NotificationSilence)
          → ¬ ((now ≤ s.silenced_until) × Covers glob s t.event)
          → silence_matches glob now s t.event ≡ false
      uncovered s n = elim (Bool-cases (silence_matches glob now s t.event)) [
        | inl e ↦ absurd (n ((silence_matches_iff s t.event).0 e))
        | inr e ↦ e
      ]

-- A silence that names a container or a host pattern, and neither a host nor a container pattern, is
-- accepted by the API and yet matches no event at any time.
pub silence_inert :
    {F : Type 0} (glob : Glob) (s : NotificationSilence)
    → s.host_id ≡ none
    → s.container_pattern ≡ []
    → (s.container_id ≢ []) ⊎ (s.host_pattern ≢ [])
    → (silence_accepted s ≡ true)
      × ((now : Time) (e : NotificationEvent F) → silence_matches glob now s e ≡ false)
unfolding silence_accepted silence_matches
silence_inert glob s h p n = (ground arith, λ now e. ground arith)
