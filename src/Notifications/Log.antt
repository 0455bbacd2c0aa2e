-- ===== src/Notifications/Log.antt =====
-- The table notification_log (internal/storage/notifications.go), as the list of its rows in the order
-- of insertion. The statements are translated one by one; failures of the database are not modelled, but
-- for the Scan of an aggregate.
-- Where SQLite leaves the order of rows with the same `sent_at` open, the model keeps the table's.
pub mod Order
pub mod Cleanup
pub mod Cooldown
pub mod Reading
use container_census.Base.{
  ℕ, suc, ◌+◌, ◌*◌, Bool, true, false, not, ◌&&◌, ◌||◌, List, [], ◌∷◌, ◌++◌, map, Option, none,
  some, Text, text_eq, nat_eq, ◌==◌, length, take, any, keep, count_if, if◌then◌else◌, ltb, leb,
}
use container_census.Models.{Time, hour, since_lt, second}

pub record LogEntry (F : Type 0) : Type 0 where
  pub id : ℕ
  pub rule_id : Option ℕ
  pub channel_id : Option ℕ
  pub event_type : Text
  pub container_id : Text
  pub container_name : Text
  pub host_id : Option ℕ
  pub host_name : Text
  pub message : Text
  pub metadata : List (Text × F)
  pub sent_at : Time
  pub success : Bool
  pub error : Text
  pub read : Bool

-- `next_id` is what AUTOINCREMENT gives out next.
pub record LogTable (F : Type 0) : Type 0 where
  pub entries : List (LogEntry F)
  pub next_id : ℕ

abbrev pub day : ℕ
day = 24 * hour

abbrev pub holds : Option ℕ → ℕ → Bool
holds none n = false
holds (some m) n = m == n

abbrev pub later : Time → Option Time → Option Time
later t none = some t
later t (some u) = some (if ltb t u then u else t)

-- Scan into a NullTime, `none` for its error: NULL is no time, and `read_time` is what Scan makes of
-- the value that the driver gives for the aggregate.
abbrev pub scan_time : (Time → Option Time) → Option Time → Option (Option Time)
scan_time read_time none = some none
scan_time read_time (some t) = elim (read_time t) [ none ↦ none | some u ↦ some (some u) ]

module _ {F : Type 0} where
  unfoldable pub save_notification_log : LogEntry F → LogTable F → LogTable F
  save_notification_log entry table = record {
    entries = table.entries ++ record entry { id = table.next_id } ∷ [];
    next_id = suc table.next_id;
  }

  -- The rows of `WHERE rule_id = ? AND container_id = ? AND host_id = ? AND success = 1`.
  abbrev pub is_notified : ℕ → Text → ℕ → LogEntry F → Bool
  is_notified rule_id container_id host_id entry =
      holds entry.rule_id rule_id
      && entry.container_id == container_id
      && holds entry.host_id host_id
      && entry.success

  -- `MAX(sent_at)`, which is NULL of no rows.
  pub max_sent_at : List (LogEntry F) → Option Time
  max_sent_at [] = none
  max_sent_at (entry ∷ entries) = later entry.sent_at (max_sent_at entries)

  pub get_last_notification_time :
      (Time → Option Time) → ℕ → Text → ℕ → LogTable F → Option (Option Time)
  unfolding max_sent_at
  get_last_notification_time read_time rule_id container_id host_id table =
      scan_time read_time
        (max_sent_at (keep (is_notified rule_id container_id host_id) table.entries))

  pub mark_notification_read : ℕ → LogTable F → LogTable F
  mark_notification_read id table = record table {
    entries =
        map (λ entry. if entry.id == id then record entry { read = true } else entry) table.entries;
  }

  pub mark_all_notifications_read : LogTable F → LogTable F
  mark_all_notifications_read table = record table {
    entries =
        map (λ entry. if not entry.read then record entry { read = true } else entry) table.entries;
  }

  pub get_unread_notification_count : LogTable F → ℕ
  get_unread_notification_count table = count_if (λ entry. not entry.read) table.entries

  pub clear_all_notifications : LogTable F → LogTable F
  clear_all_notifications table = record table { entries = [] }

  -- `ORDER BY sent_at DESC`.
  pub place : LogEntry F → List (LogEntry F) → List (LogEntry F)
  place entry [] = entry ∷ []
  place entry (other ∷ rest) =
      if ltb entry.sent_at other.sent_at then other ∷ place entry rest else entry ∷ other ∷ rest

  pub newest_first : List (LogEntry F) → List (LogEntry F)
  unfolding place
  newest_first [] = []
  newest_first (entry ∷ entries) = place entry (newest_first entries)

  pub get_notification_logs : ℕ → Bool → LogTable F → List (LogEntry F)
  unfolding newest_first
  get_notification_logs limit unread_only table =
      take limit
        (newest_first (keep (λ entry. if unread_only then not entry.read else true) table.entries))

  -- `sent_at < datetime('now', '-7 days')`.
  abbrev pub is_old : Time → LogEntry F → Bool
  is_old now entry = ltb (entry.sent_at + 7 * day) now

  -- `id IN (SELECT id FROM notification_log ORDER BY sent_at DESC LIMIT 100)`.
  pub is_listed : ℕ → List (LogEntry F) → Bool
  is_listed id entries = any (λ other. other.id == id) (take 100 entries)

  pub cleanup_old_notifications : Time → LogTable F → LogTable F
  unfolding newest_first is_listed
  cleanup_old_notifications now table =
      let total_count = length table.entries in
      record table {
        entries =
            if leb total_count 100
            then keep (λ entry. not (is_old now entry)) table.entries
            else keep
                (λ entry.
                  not (is_old now entry && not (is_listed entry.id (newest_first table.entries))))
                table.entries;
      }
