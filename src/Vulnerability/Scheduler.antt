-- ===== src/Vulnerability/Scheduler.antt =====
-- internal/vulnerability/scheduler.go. The channel is a list with its capacity. The goroutines of the
-- workers are the jobs that they hold: `received`, from the channel to the first line of processJob, and
-- `running`, from there to its end. QueueScanBlocking is QueueScan that waits for room. A call that panics (a send on a channel that Stop
-- has closed) returns `none`. The counters are the 32 bits of Go's int32 counters.
pub mod Laws
pub mod Workers
pub mod Requeue
use container_census.Base.{
  ℕ, zero, suc, ◌&&◌, ◌+◌, ◌%◌, ◌≡◌, Bool, true, false, not, List, [], ◌∷◌, ◌++◌, Option, none,
  some, Text, ltb, nat_beq, length, if◌then◌else◌, Result, ok, err,
}
use container_census.Base.Int.{ℤ, pos, pos_part}
use container_census.Models.{Time}
use container_census.Vulnerability.Types.{VulnerabilityScan, Vulnerability, TrivyResult}
use container_census.Vulnerability.Storage.{VulnerabilityStorage}
use container_census.Vulnerability.Config.{Config}
use container_census.Vulnerability.Cache.{needs_scan, invalidate}
use container_census.Vulnerability.Scanner.{Scanner, scan_image, set_config}

pub record ScanJob : Type 0 where
  pub image_id : Text
  pub image_name : Text
  pub priority : ℤ
  pub queued_at : Time

pub record ScanQueueStatus : Type 0 where
  pub queued : ℕ
  pub in_progress : ℕ
  pub completed_today : ℕ
  pub failed_today : ℕ
  pub queue_items : List ScanJob
  pub total_workers : ℕ
  pub active_workers : ℕ

pub record Scheduler (S : Type 0) : Type 0 where
  pub scanner : Scanner S
  pub config : Config
  pub queue : List ScanJob
  pub capacity : ℕ
  pub closed : Bool
  pub workers : ℕ
  pub received : List ScanJob
  pub running : List ScanJob
  pub in_progress : ℕ
  pub completed_today : ℕ
  pub failed_today : ℕ
  pub last_reset_date : ℕ

-- `atomic.AddInt32(&x, 1)` and `atomic.AddInt32(&x, -1)`, on 32 bits.
abbrev pub increment : ℕ → ℕ
increment n = (n + 1) % 4294967296

abbrev pub decrement : ℕ → ℕ
decrement n = (n + 4294967295) % 4294967296

-- The loop of GetQueueStatus: it receives a job, notes it and sends it again, while `i` is below the
-- length of the channel. The fuel bounds the number of rounds.
pub rotate : ℕ → ℕ → List ScanJob → List ScanJob → List ScanJob × List ScanJob
rotate zero i queue items = (queue, items)
rotate (suc fuel) i [] items = ([], items)
rotate (suc fuel) i (job ∷ queue) items =
    if ltb i (suc (length queue))
    then rotate fuel (suc i) (queue ++ (job ∷ [])) (items ++ (job ∷ []))
    else (job ∷ queue, items)

module _ {S : Type 0} where
  unfoldable pub new_scheduler : ℕ → Scanner S → Config → Scheduler S
  new_scheduler today scanner config = record {
    scanner = scanner;
    config = config;
    queue = [];
    capacity = pos_part config.max_queue_size;
    closed = false;
    workers = 0;
    received = [];
    running = [];
    in_progress = 0;
    completed_today = 0;
    failed_today = 0;
    last_reset_date = today;
  }

  unfoldable pub start : Scheduler S → Scheduler S
  start s = record s { workers = pos_part s.config.worker_pool_size }

  -- The channel is closed; a second close panics. The jobs that workers hold are finished on their own.
  pub stop : Scheduler S → Option (Scheduler S)
  stop s = if s.closed then none else some (record s { closed = true })

  -- The `select` with a default: a full channel drops the job.
  unfoldable pub offer : ScanJob → Scheduler S → Option (Scheduler S)
  offer job s =
      if s.closed
      then none
      else if ltb (length s.queue) s.capacity
      then some (record s { queue = s.queue ++ (job ∷ []) })
      else some s

  unfoldable pub force_queue_scan : Time → Text → Text → ℤ → Scheduler S → Option (Scheduler S)
  force_queue_scan now image_id image_name priority s =
      if not s.config.enabled
      then some s
      else offer
          (record {
            image_id = image_id;
            image_name = image_name;
            priority = priority;
            queued_at = now;
          })
          s

  unfoldable pub invalidate_cache : Text → Scheduler S → Scheduler S
  invalidate_cache image_id s = record s {
    scanner = record (s.scanner) { cache = invalidate image_id s.scanner.cache };
  }

  -- `count++`.
  pub count_one : Option (Scheduler S × ℕ) → Option (Scheduler S × ℕ)
  count_one none = none
  count_one (some (s, count)) = some (s, suc count)

  -- The loop of RescanAll over the map, in the order in which the runtime ranges over it.
  pub rescan_all : Time → List (Text × Text) → Scheduler S → Option (Scheduler S × ℕ)
  unfolding invalidate_cache count_one
  rescan_all now [] s = some (s, 0)
  rescan_all now ((image_id, image_name) ∷ images) s =
      elim (force_queue_scan now image_id image_name (pos 0) (invalidate_cache image_id s)) [
        | none ↦ none
        | some s1 ↦ count_one (rescan_all now images s1)
      ]

  -- The lock does not keep workers off the channel; here no worker receives during the loop. Sending to
  -- a closed channel panics.
  pub get_queue_status : Scheduler S → Option (Scheduler S × ScanQueueStatus)
  unfolding rotate
  get_queue_status s =
      let (queue, items) = rotate (length s.queue) 0 s.queue [] in
      if s.closed && ltb 0 (length s.queue)
      then none
      else some (
        record s { queue = queue },
        record {
          queued = length queue;
          in_progress = s.in_progress;
          completed_today = s.completed_today;
          failed_today = s.failed_today;
          queue_items = items;
          total_workers = pos_part s.config.worker_pool_size;
          active_workers = s.in_progress;
        },
      )

  -- A tick of dailyStatsReset; a date is the number of its day.
  pub daily_stats_reset : ℕ → Scheduler S → Scheduler S
  daily_stats_reset today s =
      if not (nat_beq today s.last_reset_date)
      then record s { completed_today = 0; failed_today = 0; last_reset_date = today }
      else s

  -- The restart makes a new channel: the jobs in the old one are gone. Workers that hold a job go on.
  pub restart : Config → Scheduler S → Scheduler S
  unfolding start
  restart config s =
      start (record s { queue = []; capacity = pos_part config.max_queue_size; closed = false })

  pub update_config : Config → Scheduler S → Option (Scheduler S)
  unfolding restart stop
  update_config config s =
      let s1 = record s { config = config; scanner = set_config config s.scanner } in
      if not (nat_beq s.workers (pos_part config.worker_pool_size))
      then elim (stop s1) [ none ↦ none | some s2 ↦ some (restart config s2) ]
      else some s1

  -- A worker receives the first job; those in a closed channel are received too.
  unfoldable pub receive_job : Scheduler S → Option (Scheduler S × ScanJob)
  receive_job s = elim s.queue [
    | [] ↦ none
    | job ∷ queue ↦ some (record s { queue = queue; received = job ∷ s.received }, job)
  ]

  -- The first line of processJob. `rest` are the jobs that other workers have received.
  unfoldable pub begin_job : ScanJob → List ScanJob → Scheduler S → Scheduler S
  begin_job job rest s = record s {
    received = rest;
    running = job ∷ s.running;
    in_progress = increment s.in_progress;
  }

  -- The counters after a scan.
  pub count_result :
      Scheduler S → Scanner S × Result (VulnerabilityScan × List Vulnerability) → Scheduler S
  count_result s (scanner, err e) = record s {
    scanner = scanner;
    failed_today = increment s.failed_today;
  }
  count_result s (scanner, ok found) = record s {
    scanner = scanner;
    completed_today = increment s.completed_today;
  }

module _ {S : Type 0} (st : VulnerabilityStorage S) where
  pub queue_scan : Time → Text → Text → ℤ → Scheduler S → Option (Scheduler S)
  queue_scan now image_id image_name priority s =
      let (cache, needed) = needs_scan st now image_id s.scanner.cache in
      let s1 = record s { scanner = record (s.scanner) { cache = cache } } in
      if not s.config.enabled
      then some s
      else if not needed
      then some s1
      else offer
          (record {
            image_id = image_id;
            image_name = image_name;
            priority = priority;
            queued_at = now;
          })
          s1

module _ {S : Type 0} (st : VulnerabilityStorage S) (trivy : Text → Result TrivyResult)
    (to_upper : Text → Text) (db_version : Text) where
  -- The rest of processJob: the scan, the counters, and the deferred decrement. `rest` are the jobs that
  -- the other workers hold.
  pub finish_job : Time → Time → ScanJob → List ScanJob → Scheduler S → Scheduler S
  unfolding count_result
  finish_job started now job rest s =
      let s1 = count_result s (
        scan_image st trivy to_upper db_version started now job.image_id job.image_name
          s.scanner) in
      record s1 { running = rest; in_progress = decrement s1.in_progress }
