-- ===== src/Notifications/Log/Reading.antt =====
-- The notifications that a user sees, and which of them are unread (internal/storage/notifications.go).
use container_census.Base.{
  ℕ, ◌≡◌, refl, sym, ap, subst, ◌∙◌, Bool, true, not, ◌&&◌, List, [], ◌∷◌, ◌++◌, map, nat_eq, ◌==◌,
  drop, length, keep, count_if, length-take, take-append-drop, if◌then◌else◌, arith,
}
use Prim.Native.Nat.{min}
use container_census.Notifications.Log.{
  LogEntry, LogTable, mark_notification_read, mark_all_notifications_read,
  get_unread_notification_count, clear_all_notifications, get_notification_logs, newest_first,
}
use container_census.Notifications.Log.Order.{
  IsNewestFirst, newest_first-IsNewestFirst, count_if-newest_first,
}

module _ {F : Type 0} where
  -- The entries that a query reads.
  abbrev pub selected : Bool → LogTable F → List (LogEntry F)
  selected unread_only table = keep (λ e. if unread_only then not e.read else true) table.entries

  -- A query of the log returns the rows that it selects, the newest first: it returns as many as it may,
  -- and those that it leaves out, the rest, come after all of those that it returns. No row is made up,
  -- lost or doubled.
  pub get_notification_logs_lem :
      (limit : ℕ) (unread_only : Bool) (table : LogTable F)
      → let logs = get_notification_logs limit unread_only table in
        (rest : List (LogEntry F)) × IsNewestFirst (logs ++ rest)
        × ((p : LogEntry F → Bool)
            → count_if p (logs ++ rest) ≡ count_if p (selected unread_only table))
        × (length logs ≡ min limit (length (logs ++ rest)))
  unfolding get_notification_logs
  get_notification_logs_lem limit unread_only table =
      let sorted = newest_first (selected unread_only table) in
      let whole = take-append-drop limit sorted in
      (
        drop limit sorted,
        subst IsNewestFirst (sym whole) (newest_first-IsNewestFirst (selected unread_only table)),
        λ p. ap (count_if p) whole ∙ count_if-newest_first p (selected unread_only table),
        length-take limit sorted ∙ ap (λ xs. min limit (length xs)) (sym whole),
      )

  count-marked :
      (id : ℕ) (es : List (LogEntry F))
      → count_if
          (λ e. not e.read)
          (map (λ e. if e.id == id then record e { read = true } else e) es)
        ≡ count_if (λ e. not e.read && not (e.id == id)) es
  count-marked id [] = refl
  count-marked id (e ∷ es) = ground (arith, count-marked id es)

  count-all_marked :
      (es : List (LogEntry F))
      → count_if
          (λ e. not e.read)
          (map (λ e. if not e.read then record e { read = true } else e) es)
        ≡ 0
  count-all_marked [] = refl
  count-all_marked (e ∷ es) = ground (arith, count-all_marked es)

  -- After one row is marked as read, the rows that were unread and have another id are the unread ones;
  -- after all are marked, or all are cleared, none is unread.
  pub unread-mark :
      (id : ℕ) (table : LogTable F)
      → (get_unread_notification_count (mark_notification_read id table)
          ≡ count_if (λ e. not e.read && not (e.id == id)) table.entries)
        × (get_unread_notification_count (mark_all_notifications_read table) ≡ 0)
        × (get_unread_notification_count (clear_all_notifications table) ≡ 0)
  unfolding mark_notification_read mark_all_notifications_read clear_all_notifications
      get_unread_notification_count
  unread-mark id table = (count-marked id table.entries, count-all_marked table.entries, refl)
