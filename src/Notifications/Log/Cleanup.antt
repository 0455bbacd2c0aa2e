-- ===== src/Notifications/Log/Cleanup.antt =====
-- CleanupOldNotifications (internal/storage/notifications.go): what stays in notification_log.
use container_census.Base.{
  ◌+◌, ◌*◌, ◌≤◌, ◌<◌, ◌≡◌, refl, sym, ◌∙◌, ◌↔◌, true, not, ◌&&◌, List, length, length-keep,
  count_if, take, keep, Memᴰ, keep-mem, mem-keep, mem-any, count_if-all, count_if_mono,
  count_if-take, length-take, arith, nat_eq, nat_beq_iff, ◌==◌,
}
use container_census.Models.{Time}
use container_census.Notifications.Log.{
  LogEntry, LogTable, day, is_old, is_listed, newest_first, cleanup_old_notifications,
}
use container_census.Notifications.Log.Order.{count_if-newest_first}

module _ {F : Type 0} where
  listed-newest :
      (es : List (LogEntry F)) (e : LogEntry F) → Memᴰ e (take 100 es) → is_listed e.id es ≡ true
  unfolding is_listed
  listed-newest es e m =
      mem-any (λ other. other.id == e.id) (take 100 es) m ((nat_beq_iff e.id e.id).1 refl)

  length-newest_first : (es : List (LogEntry F)) → length (newest_first es) ≡ length es
  length-newest_first es =
      sym (count_if-all (λ _. true) (newest_first es) (λ _ _. refl))
      ∙ count_if-newest_first (λ _. true) es
      ∙ count_if-all (λ _. true) es (λ _ _. refl)

  -- At least a hundred rows, if there are as many, are among the hundred newest ids.
  count-listed :
      (es : List (LogEntry F))
      → 100 ≤ length es
      → 100 ≤ count_if (λ e. is_listed e.id (newest_first es)) es
  count-listed es h =
      let sorted = newest_first es in
      omega (
        arith,
        count_if-newest_first (λ e. is_listed e.id sorted) es,
        count_if-take (λ e. is_listed e.id sorted) 100 sorted,
        count_if-all (λ e. is_listed e.id sorted) (take 100 sorted)
            (λ e m. listed-newest sorted e m),
        length-take 100 sorted,
        length-newest_first es,
      )

  -- A clean-up keeps every row of the last seven days.
  pub recent-kept :
      (now : Time) (table : LogTable F) (e : LogEntry F)
      → Memᴰ e table.entries
      → now ≤ e.sent_at + 7 * day
      → Memᴰ e (cleanup_old_notifications now table).entries
  unfolding cleanup_old_notifications
  recent-kept now table e m h = ground (
    arith,
    mem-keep (λ x. not (is_old now x)) table.entries m,
    mem-keep (λ x. not (is_old now x && not (is_listed x.id (newest_first table.entries))))
        table.entries m,
  )

  -- From a table of more than a hundred rows it leaves a hundred or more.
  pub hundred-kept :
      (now : Time) (table : LogTable F)
      → 100 < length table.entries
      → 100 ≤ length (cleanup_old_notifications now table).entries
  unfolding cleanup_old_notifications
  hundred-kept now table h =
      let listed = λ (x : LogEntry F). is_listed x.id (newest_first table.entries) in
      let stays = λ (x : LogEntry F). not (is_old now x && not (listed x)) in
      ground (
        arith,
        count-listed table.entries,
        count_if_mono listed stays table.entries (λ x q. ground arith),
        length-keep stays table.entries,
      )

  small-cleanup :
      (now : Time) (table : LogTable F)
      → length table.entries ≤ 100
      → (cleanup_old_notifications now table).entries ≡ keep (λ e. not (is_old now e)) table.entries
  unfolding cleanup_old_notifications
  small-cleanup now table h = ground arith

  -- From a table of at most a hundred rows it deletes exactly those that are older than seven days, so
  -- it may leave none.
  pub small-cleanup_iff :
      (now : Time) (table : LogTable F) (e : LogEntry F)
      → length table.entries ≤ 100
      → Memᴰ e (cleanup_old_notifications now table).entries
        ↔ Memᴰ e table.entries × (now ≤ e.sent_at + 7 * day)
  small-cleanup_iff now table e h = rw (small-cleanup now table h) (
    λ m. let (m', q) = keep-mem (λ x. not (is_old now x)) table.entries m in (m', ground arith),
    λ m. mem-keep (λ x. not (is_old now x)) table.entries m.0 (ground arith),
  )
