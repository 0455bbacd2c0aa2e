-- ===== src/Notifications/RateLimiter.antt =====
-- internal/notifications/ratelimiter.go: the token bucket and its batch queue. Each method is called
-- under the mutex, so a method is one function from the state to the new state. The clock reading is
-- an argument. `maxPerHour` and `tokens` are not negative. Go ranges over the map of channel groups
-- in no fixed order; the model takes them in the order of their first tasks. The summary text that
-- `sendBatchSummary` builds is not used by the code, and left out.
pub mod Window
pub mod Batch
use container_census.Base.{
  ℕ, ◌+◌, ◌-◌, Bool, true, false, not, ◌&&◌, List, [], ◌∷◌, ◌++◌, ltb, if◌then◌else◌, lookup,
  insert, nat_eq, Option, none, some,
}
use container_census.Models.{Time, hour, since_lt, NotificationTask}

pub record RateLimiter (F : Type 0) : Type 0 where
  pub max_per_hour : ℕ
  pub tokens : ℕ
  pub last_reset : Time
  pub batch_queue : List (NotificationTask F)
  pub notifier : Bool  -- whether SetNotifier was called

abbrev pub Groups : Type 0 → Type 0
Groups F = List (ℕ × List (NotificationTask F))

module _ {F : Type 0} where
  pub new_rate_limiter : ℕ → Time → RateLimiter F
  new_rate_limiter max_per_hour now = record {
    max_per_hour = max_per_hour;
    tokens = max_per_hour;
    last_reset = now;
    batch_queue = [];
    notifier = false;
  }

  pub set_notifier : RateLimiter F → RateLimiter F
  set_notifier rl = record rl { notifier = true }

  -- The refill that `Allow` and `GetRemaining` begin with.
  unfoldable pub refill : Time → RateLimiter F → RateLimiter F
  refill now rl =
      if not (since_lt now rl.last_reset hour)
      then record rl { tokens = rl.max_per_hour; last_reset = now }
      else rl

  take_token : RateLimiter F → RateLimiter F × Bool
  take_token rl =
      if ltb 0 rl.tokens then (record rl { tokens = rl.tokens - 1 }, true) else (rl, false)

  unfoldable pub allow : Time → RateLimiter F → RateLimiter F × Bool
  unfolding refill take_token
  allow now rl = take_token (refill now rl)

  unfoldable pub add_to_batch : NotificationTask F → RateLimiter F → RateLimiter F
  add_to_batch task rl = record rl { batch_queue = rl.batch_queue ++ task ∷ [] }

  pub get_remaining : Time → RateLimiter F → RateLimiter F × ℕ
  unfolding refill
  get_remaining now rl = let r = refill now rl in (r, r.tokens)

  pub get_reset_time : RateLimiter F → Time
  get_reset_time rl = rl.last_reset + hour

  abbrev pub group_of : ℕ → Groups F → List (NotificationTask F)
  group_of channel groups = elim (lookup channel groups) [ none ↦ [] | some tasks ↦ tasks ]

  pub channel_groups : Groups F → List (NotificationTask F) → Groups F
  channel_groups groups [] = groups
  channel_groups groups (task ∷ batch) =
      channel_groups (insert task.channel (group_of task.channel groups ++ task ∷ []) groups) batch

  -- What `sendBatchSummary` hands to `sendSingleNotification`: the first task of the group.
  pub batch_summary : List (NotificationTask F) → List (NotificationTask F)
  batch_summary [] = []
  batch_summary (first_task ∷ tasks) = first_task ∷ []

  pub batch_summaries : Groups F → List (NotificationTask F)
  unfolding batch_summary
  batch_summaries [] = []
  batch_summaries ((channel, tasks) ∷ groups) = batch_summary tasks ++ batch_summaries groups

  flush : RateLimiter F → List (NotificationTask F) → RateLimiter F × List (NotificationTask F)
  flush rl [] = (rl, [])
  flush rl (task ∷ batch) =
      let sent = batch_summaries (channel_groups [] (task ∷ batch)) in
      (record rl { batch_queue = [] }, if rl.notifier then sent else [])

  -- The tasks that are sent, each by a goroutine of its own, and the limiter with its queue cleared.
  pub send_batch : RateLimiter F → RateLimiter F × List (NotificationTask F)
  unfolding flush batch_summaries channel_groups
  send_batch rl = flush rl rl.batch_queue
