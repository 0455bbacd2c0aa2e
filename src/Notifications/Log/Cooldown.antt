-- ===== src/Notifications/Log/Cooldown.antt =====
-- isInCooldown of internal/notifications/notifier.go over the rows of notification_log.
use container_census.Base.{
  ℕ, ◌+◌, ◌*◌, ◌≤◌, ◌<◌, ◌≡◌, ◌≢◌, ◌⊎◌, refl, inl, inr, Bool, true, false, List, [], ◌∷◌, Option,
  none, some, Text, text_eq, nat_eq, text_beq_iff, ◌==◌, keep, Memᴰ, keep-mem, mem-keep, arith, ltb,
  if◌then◌else◌, Option-cases, Bool-cases, ◌↔◌,
}
use container_census.Models.{Time, second, since_lt}
use container_census.Notifications.Log.{
  LogEntry, LogTable, is_notified, max_sent_at, get_last_notification_time,
}

-- `last` is the answer of the database: `none` for a failed query, `some none` where no row was found.
unfoldable pub is_in_cooldown : Time → ℕ → Option (Option Time) → Bool
is_in_cooldown now cooldown_seconds last = if cooldown_seconds == 0 then false else elim last [
  | none ↦ false
  | some found ↦ elim found [ none ↦ false | some t ↦ since_lt now t (cooldown_seconds * second) ]
]

abbrev Reaches : Time → Option Time → Type 0
Reaches t none = ⊥
Reaches t (some u) = t ≤ u

module _ {F : Type 0} where
  -- Every row is at most the maximum.
  max_sent_at-ge :
      (e : LogEntry F) (es : List (LogEntry F)) → Memᴰ e es → Reaches e.sent_at (max_sent_at es)
  unfolding max_sent_at
  max_sent_at-ge e [] m = elim m [ ]
  max_sent_at-ge e (f ∷ es) (Memᴰ.head q) = rw q (ground arith)
  max_sent_at-ge e (f ∷ es) (Memᴰ.tail m) = ground (arith, max_sent_at-ge e es m)

  -- The maximum is the time of some row.
  max_sent_at-mem :
      (es : List (LogEntry F)) {t : Time}
      → max_sent_at es ≡ some t
      → (e : LogEntry F) × Memᴰ e es × (e.sent_at ≡ t)
  unfolding max_sent_at
  max_sent_at-mem [] h = cc
  max_sent_at-mem (f ∷ es) {t} h = elim (Option-cases (max_sent_at es)) [
    | inl n ↦ (f, Memᴰ.head refl, ground (arith, n))
    | inr (u, n) ↦ elim (Bool-cases (ltb f.sent_at u)) [
      | inl older ↦
          let (e, m, q) = max_sent_at-mem es n in (e, Memᴰ.tail m, ground (arith, n, older, q))
      | inr newest ↦ (f, Memᴰ.head refl, ground (arith, n, newest))
    ]
  ]

  is_notified_iff :
      (rule_id : ℕ) (container_id : Text) (host_id : ℕ) (e : LogEntry F)
      → (is_notified rule_id container_id host_id e ≡ true)
        ↔ (e.rule_id ≡ some rule_id)
          × (e.container_id ≡ container_id)
          × (e.host_id ≡ some host_id)
          × (e.success ≡ true)
  is_notified_iff rule_id container_id host_id e = (
    ground (arith, text_beq_iff e.container_id container_id),
    ground (arith, text_beq_iff e.container_id container_id),
  )

  -- The newest of the rows about the rule and the container.
  max_sent_at-newest :
      (rule_id : ℕ) (container_id : Text) (host_id : ℕ) (entries : List (LogEntry F))
      (row : LogEntry F)
      → Memᴰ row entries
      → (row.rule_id ≡ some rule_id)
        × (row.container_id ≡ container_id)
        × (row.host_id ≡ some host_id)
        × (row.success ≡ true)
      → ((e : LogEntry F) → Memᴰ e entries → e.sent_at ≤ row.sent_at)
      → max_sent_at (keep (is_notified rule_id container_id host_id) entries) ≡ some row.sent_at
  max_sent_at-newest rule_id container_id host_id entries row m about newest =
      let p = is_notified rule_id container_id host_id in
      let found = keep p entries in
      let reached =
        max_sent_at-ge row found
          (mem-keep p entries m ((is_notified_iff rule_id container_id host_id row).1 about)) in
      elim (Option-cases (max_sent_at found)) [
        | inl n ↦ absurd (rw n at reached)
        | inr (t, n) ↦
            let (e, m', q) = max_sent_at-mem found n in
            let (m2, _) = keep-mem p entries m' in
            ground (arith, n, rw n at reached, q, newest e m2)
      ]

  -- The cooldown of a rule after the newest row about it, which is a success: while it lasts, the rule
  -- is found to be in it exactly if Scan reads the time of that row.
  pub is_in_cooldown_newest :
      (read_time : Time → Option Time) (later : Time) (cooldown_seconds rule_id : ℕ)
      (container_id : Text) (host_id : ℕ) (table : LogTable F) (row : LogEntry F)
      → ((t : Time) → (read_time t ≡ some t) ⊎ (read_time t ≡ none))
      → Memᴰ row table.entries
      → (row.rule_id ≡ some rule_id)
        × (row.container_id ≡ container_id)
        × (row.host_id ≡ some host_id)
        × (row.success ≡ true)
      → ((e : LogEntry F) → Memᴰ e table.entries → e.sent_at ≤ row.sent_at)
      → cooldown_seconds ≢ 0
      → later < row.sent_at + cooldown_seconds * second
      → (is_in_cooldown later cooldown_seconds
            (get_last_notification_time read_time rule_id container_id host_id table)
          ≡ true)
        ↔ (read_time row.sent_at ≡ some row.sent_at)
  unfolding is_in_cooldown get_last_notification_time
  is_in_cooldown_newest read_time later cd rule_id container_id host_id table row reads m about
        newest pos soon =
      let q = max_sent_at-newest rule_id container_id host_id table.entries row m about newest in
      elim (reads row.sent_at) [
        | inl seen ↦ rw (q, seen) ((λ _. refl), (λ _. ground (arith, pos, soon)))
        | inr refused ↦
            rw (q, refused)
              ((λ h. absurd (ground (arith, h, pos))), (λ h. absurd (ground (arith, h))))
      ]
