-- ===== src/Notifications/Delivery/Laws.antt =====
-- What a delivery leaves in the log (internal/notifications/notifier.go, sendSingleNotification).
use container_census.Base.{
  ℕ, ◌+◌, ◌*◌, ◌<◌, ◌≤◌, ◌⊎◌, ap, append-mem, Option, ◌≡◌, ◌≢◌, refl, ◌↔◌, inl, inr, true, false,
  [], ◌∷◌, ◌++◌, none, some, Memᴰ, mem-append_right, Text, Result, ok, err, arith, lookup, subst,
  sym, codes, decimal, Option-cases, nat_eq,
}
use container_census.Models.{Time, Float64, NotificationTask, second}
use container_census.Notifications.Log.{LogEntry, get_last_notification_time}
use container_census.Notifications.Log.Cooldown.{is_in_cooldown, is_in_cooldown_newest}
use container_census.Notifications.Channels.{NotificationChannel, Channel, Http, send}
use container_census.Notifications.Delivery.{
  Delivery, get_channel, refresh_channels, build_message, log_entry, send_via,
  send_single_notification,
}

newest_row : {F : Type 0} (x row : LogEntry F) → Memᴰ x (row ∷ []) → x.sent_at ≤ row.sent_at
newest_row x row (Memᴰ.head e) = omega (arith, ap (λ y. y.sent_at) e)
newest_row x row (Memᴰ.tail m) = absurd (elim m [ ])

module _ {F : Type 0} (fl : Float64 F) (http : Http F) (load : ℕ → Result NotificationChannel)
    (now : Time) where
  -- The channel is found and takes the message.
  abbrev pub Delivered : NotificationTask F → Delivery F → Type 0
  Delivered task d =
      (ch : Channel) × ((get_channel load task.channel d.channels).0 ≡ ok ch)
      × (send http ch (build_message fl task.event) task.event ≡ none)

  -- A row about the task, under this id.
  abbrev pub RowOf : NotificationTask F → ℕ → LogEntry F → Type 0
  RowOf task id row =
      (row.id ≡ id)
      × (row.rule_id ≡ some task.rule.id)
      × (row.channel_id ≡ some task.channel)
      × (row.host_id ≡ some task.event.host_id)
      × (row.container_id ≡ task.event.container_id)
      × (row.sent_at ≡ now)

  send_via-logs :
      (task : NotificationTask F) (r : Result Channel) (d : Delivery F)
      → (row : LogEntry F) × ((send_via fl http now task r d).log.entries
          ≡ d.log.entries ++ row ∷ [])
        × RowOf task d.log.next_id row
        × ((row.success ≡ true) ↔ (
            (ch : Channel) × (r ≡ ok ch)
            × (send http ch (build_message fl task.event) task.event ≡ none)))
  unfolding send_via log_entry
  send_via-logs task (err e) d = (
    record (log_entry fl now task false (codes "Channel not found: " ++ e)) { id = d.log.next_id },
    refl,
    (refl, refl, refl, refl, refl, refl),
    (λ h. absurd (ground arith), λ (ch, q, _). absurd (ground (arith, q))),
  )
  send_via-logs task (ok ch) d =
      elim (Option-cases (send http ch (build_message fl task.event) task.event)) [
        | inl q ↦ (
          record (log_entry fl now task true []) { id = d.log.next_id },
          ground (arith, q),
          (refl, refl, refl, refl, refl, refl),
          (λ _. (ch, refl, q), λ _. refl),
        )
        | inr (e, q) ↦ (
          record (log_entry fl now task false e) { id = d.log.next_id },
          ground (arith, q),
          (refl, refl, refl, refl, refl, refl),
          (λ h. absurd (ground arith), λ (c, same, sent). absurd (ground (arith, same, sent, q))),
        )
      ]

  -- A delivery, successful or not, writes exactly one row, at the end of the log, under the next id. It
  -- names the task's rule, channel, host and container and the time, and it is marked a success exactly
  -- if the channel was found and took the message.
  pub send_single_notification-logs :
      (task : NotificationTask F) (d : Delivery F)
      → (row : LogEntry F) × ((send_single_notification fl http load now task d).log.entries
          ≡ d.log.entries ++ row ∷ [])
        × RowOf task d.log.next_id row
        × ((row.success ≡ true) ↔ Delivered task d)
  unfolding send_single_notification
  send_single_notification-logs task d =
      let (r, channels) = get_channel load task.channel d.channels in
      send_via-logs task r (record d { channels = channels })

  -- After a delivery that succeeds, no earlier than the rows of the log, for a rule with a cooldown, and until
  -- as many seconds have passed as the rule asks for, the rule is found to be in its cooldown for the
  -- container exactly if Scan reads the time that the driver gives for MAX(sent_at); where Scan refuses it,
  -- the next notification is not held back. Scan reads a time as it was stored, or refuses it.
  pub delivery-cooldown_iff :
      (read_time : Time → Option Time) (task : NotificationTask F) (d : Delivery F) (later : Time)
      → ((t : Time) → (read_time t ≡ some t) ⊎ (read_time t ≡ none))
      → Delivered task d
      → ((e : LogEntry F) → Memᴰ e d.log.entries → e.sent_at ≤ now)
      → task.rule.cooldown_seconds ≢ 0
      → later < now + task.rule.cooldown_seconds * second
      → (is_in_cooldown later task.rule.cooldown_seconds (
            get_last_notification_time read_time task.rule.id task.event.container_id
              task.event.host_id
              (send_single_notification fl http load now task d).log)
          ≡ true)
        ↔ (read_time now ≡ some now)
  delivery-cooldown_iff read_time task d later reads sent older pos soon =
      let (row, e, (_, a, _, b, c, t), s) = send_single_notification-logs task d in
      let after = (send_single_notification fl http load now task d).log in
      let newest = λ (x : LogEntry F) (m : Memᴰ x after.entries).
        (elim (append-mem d.log.entries (row ∷ []) (subst (Memᴰ x) e m))
          as (λ _. x.sent_at ≤ row.sent_at) [
            | inl old ↦ omega (arith, older x old, t)
            | inr new ↦ newest_row x row new
          ]) in
      subst
        (λ u.
          (is_in_cooldown later task.rule.cooldown_seconds (
              get_last_notification_time read_time task.rule.id task.event.container_id
                task.event.host_id after)
            ≡ true)
          ↔ (read_time u ≡ some u))
        t
        (is_in_cooldown_newest read_time later task.rule.cooldown_seconds task.rule.id
          task.event.container_id task.event.host_id after row reads
          (subst (Memᴰ row) (sym e) (mem-append_right d.log.entries (row ∷ []) (Memᴰ.head refl)))
          (a, c, b, s.1 sent) newest pos (rw t soon))

-- A channel that is in the cache is used whatever the database says of it by now; after a refresh, a
-- channel that the database has disabled is refused.
pub get_channel_cached :
    {F : Type 0} (load : ℕ → Result NotificationChannel) (id : ℕ) (row : NotificationChannel)
    (ch : Channel) (d : Delivery F)
    → lookup id d.channels ≡ some ch
    → load id ≡ ok row
    → row.enabled ≡ false
    → ((get_channel load id d.channels).0 ≡ ok ch)
      × ((e : Text) × ((get_channel load id (refresh_channels d).channels).0 ≡ err e))
unfolding get_channel refresh_channels lookup
get_channel_cached load id row ch d cached loaded off =
    (ground arith, (codes "channel " ++ (decimal id ++ codes " is disabled"), ground arith))
