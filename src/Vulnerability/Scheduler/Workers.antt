-- ===== src/Vulnerability/Scheduler/Workers.antt =====
-- The workers and the callers of the scheduler, interleaved (internal/vulnerability/scheduler.go, run and
-- processJob): a step is one call, one receive, or the end of one scan.
use container_census.Base.{
  ℕ, ◌%◌, ◌≤◌, ◌≡◌, refl, ap, List, [], ◌∷◌, ◌++◌, some, Text, length, length-append, arith, true,
  Option-cases, inl, inr, subst, Result, ok, err,
}
use container_census.Base.Int.{ℤ, pos}
use container_census.Models.{Time}
use container_census.Vulnerability.Types.{TrivyResult, VulnerabilityScan, Vulnerability}
use container_census.Vulnerability.Storage.{VulnerabilityStorage}
use container_census.Vulnerability.Config.{Config}
use container_census.Vulnerability.Scanner.{Scanner, scan_image}
use container_census.Vulnerability.Scheduler.{
  ScanJob, ScanQueueStatus, Scheduler, new_scheduler, start, stop, restart, offer, queue_scan,
  force_queue_scan, rescan_all, count_one, invalidate_cache, get_queue_status, update_config,
  receive_job, begin_job, finish_job, count_result, daily_stats_reset,
}
use container_census.Vulnerability.Scheduler.Laws.{rotate-all}

module _ {S : Type 0} where
  -- The channel is within its capacity, and the counter of jobs in progress is the number of the jobs that
  -- workers process.
  abbrev pub IsSound : Scheduler S → Type 0
  IsSound s = (length s.queue ≤ s.capacity) × (s.in_progress ≡ length s.running % 4294967296)

  count_result-keeps :
      (s : Scheduler S) (r : Scanner S × Result (VulnerabilityScan × List Vulnerability))
      → let s' = count_result s r in
        (s'.queue ≡ s.queue) × (s'.capacity ≡ s.capacity) × (s'.in_progress ≡ s.in_progress)
  unfolding count_result
  count_result-keeps s (scanner, err e) = (refl, refl, refl)
  count_result-keeps s (scanner, ok found) = (refl, refl, refl)

  force_queue_scan-IsSound :
      (now : Time) (image_id image_name : Text) (priority : ℤ) (s s' : Scheduler S)
      → force_queue_scan now image_id image_name priority s ≡ some s'
      → IsSound s
      → IsSound s'
  unfolding force_queue_scan offer
  force_queue_scan-IsSound now image_id image_name priority s s' e h = ground (
    arith,
    h,
    e,
    length-append s.queue (
        record {
          image_id = image_id;
          image_name = image_name;
          priority = priority;
          queued_at = now;
        }
        ∷ []),
  )

  rescan_all-IsSound :
      (now : Time) (images : List (Text × Text)) (s s' : Scheduler S) (count : ℕ)
      → rescan_all now images s ≡ some (s', count)
      → IsSound s
      → IsSound s'
  unfolding rescan_all count_one invalidate_cache
  rescan_all-IsSound now [] s s' count e h = ground (arith, e, h)
  rescan_all-IsSound now ((image_id, image_name) ∷ images) s s' count e h =
      elim (Option-cases
        (force_queue_scan now image_id image_name (pos 0) (invalidate_cache image_id s))) [
          | inl crash ↦ absurd (ground (arith, crash, e))
          | inr (s1, q) ↦
              let h1 =
                force_queue_scan-IsSound now image_id image_name (pos 0)
                  (invalidate_cache image_id s) s1 q h in
              elim (Option-cases (rescan_all now images s1)) [
                | inl crash ↦ absurd (ground (arith, q, crash, e))
                | inr ((last, n), r) ↦
                    let same : last ≡ s' = ground (arith, q, r, e) in
                    subst IsSound same (rescan_all-IsSound now images s1 last n r h1)
              ]
        ]

  get_queue_status-IsSound :
      (s s' : Scheduler S) (status : ScanQueueStatus)
      → get_queue_status s ≡ some (s', status)
      → IsSound s
      → IsSound s'
  unfolding get_queue_status
  get_queue_status-IsSound s s' status e h =
      let all = rotate-all s.queue in ground (arith, all, e, h)

  restart-IsSound : (config : Config) (s : Scheduler S) → IsSound s → IsSound (restart config s)
  unfolding restart start
  restart-IsSound config s h = (omega arith, h.1)

  update_config-IsSound :
      (config : Config) (s s' : Scheduler S)
      → update_config config s ≡ some s'
      → IsSound s
      → IsSound s'
  unfolding update_config stop restart start
  update_config-IsSound config s s' e h = ground (arith, e, h)

module _ {S : Type 0} (st : VulnerabilityStorage S) (trivy : Text → Result TrivyResult)
    (to_upper : Text → Text) (db_version : Text) where
  pub data Step : Scheduler S → Scheduler S → Type 0 where
    queues :
        (now : Time) (image_id image_name : Text) (priority : ℤ) (s s' : Scheduler S)
        → queue_scan st now image_id image_name priority s ≡ some s'
        → Step s s'
    forces :
        (now : Time) (image_id image_name : Text) (priority : ℤ) (s s' : Scheduler S)
        → force_queue_scan now image_id image_name priority s ≡ some s'
        → Step s s'
    rescans :
        (now : Time) (images : List (Text × Text)) (s s' : Scheduler S) (count : ℕ)
        → rescan_all now images s ≡ some (s', count)
        → Step s s'
    asks :
        (s s' : Scheduler S) (status : ScanQueueStatus)
        → get_queue_status s ≡ some (s', status)
        → Step s s'
    updates : (config : Config) (s s' : Scheduler S) → update_config config s ≡ some s' → Step s s'
    stops : (s s' : Scheduler S) → stop s ≡ some s' → Step s s'
    -- The end of an UpdateConfig whose Stop was a step of its own.
    restarts : (config : Config) (s : Scheduler S) → s.closed ≡ true → Step s (restart config s)
    -- Any worker receives a job: as many workers as there may be.
    receives : (s s' : Scheduler S) (job : ScanJob) → receive_job s ≡ some (s', job) → Step s s'
    -- A worker that has received the job begins with it, in whatever order they received.
    begins :
        (job : ScanJob) (before after : List ScanJob) (s : Scheduler S)
        → s.received ≡ before ++ (job ∷ after)
        → Step s (begin_job job (before ++ after) s)
    -- The worker that holds the job ends it, in whatever order the workers began.
    finishes :
        (started now : Time) (job : ScanJob) (before after : List ScanJob) (s : Scheduler S)
        → s.running ≡ before ++ (job ∷ after)
        → Step s (finish_job st trivy to_upper db_version started now job (before ++ after) s)
    resets : (today : ℕ) (s : Scheduler S) → Step s (daily_stats_reset today s)

  pub data Reachable : Scheduler S → Type 0 where
    starts :
        (today : ℕ) (scanner : Scanner S) (config : Config)
        → Reachable (start (new_scheduler today scanner config))
    steps : {s s' : Scheduler S} → Reachable s → Step s s' → Reachable s'

  finish-IsSound :
      (started now : Time) (job : ScanJob) (before after : List ScanJob) (s : Scheduler S)
      → s.running ≡ before ++ (job ∷ after)
      → IsSound s
      → IsSound (finish_job st trivy to_upper db_version started now job (before ++ after) s)
  unfolding finish_job
  finish-IsSound started now job before after s e h =
      let r =
        scan_image st trivy to_upper db_version started now job.image_id job.image_name s.scanner in
      let (same_queue, same_capacity, same_in_progress) = count_result-keeps s r in
      let fewer = length-append before (job ∷ after) in
      let left = length-append before after in
      let held = ap length e in
      (
        omega (arith, h, ap length same_queue, same_capacity),
        omega (arith, h, same_in_progress, fewer, left, held),
      )

  queue_scan-IsSound :
      (now : Time) (image_id image_name : Text) (priority : ℤ) (s s' : Scheduler S)
      → queue_scan st now image_id image_name priority s ≡ some s'
      → IsSound s
      → IsSound s'
  unfolding queue_scan offer
  queue_scan-IsSound now image_id image_name priority s s' e h = ground (
    arith,
    h,
    e,
    length-append s.queue (
        record {
          image_id = image_id;
          image_name = image_name;
          priority = priority;
          queued_at = now;
        }
        ∷ []),
  )

  step-IsSound : (s s' : Scheduler S) → Step s s' → IsSound s → IsSound s'
  unfolding begin_job receive_job daily_stats_reset stop
  step-IsSound _ _ (queues now image_id image_name priority s s' e) h =
      queue_scan-IsSound now image_id image_name priority s s' e h
  step-IsSound _ _ (forces now image_id image_name priority s s' e) h =
      force_queue_scan-IsSound now image_id image_name priority s s' e h
  step-IsSound _ _ (rescans now images s s' count e) h =
      rescan_all-IsSound now images s s' count e h
  step-IsSound _ _ (asks s s' status e) h = get_queue_status-IsSound s s' status e h
  step-IsSound _ _ (updates config s s' e) h = update_config-IsSound config s s' e h
  step-IsSound _ _ (stops s s' e) h = ground (arith, h, e)
  step-IsSound _ _ (restarts config s closed) h = restart-IsSound config s h
  step-IsSound _ _ (receives s s' job e) h = ground (arith, h, e)
  step-IsSound _ _ (begins job before after s e) h = omega (arith, h)
  step-IsSound _ _ (finishes started now job before after s e) h =
      finish-IsSound started now job before after s e h
  step-IsSound _ _ (resets today s) h = ground (arith, h)

  -- Whatever the order of the calls, of restarts of the pool and of the workers, however many workers there
  -- are, no state exceeds the capacity of the channel, and the counter of jobs in progress is the number of
  -- jobs that workers process, modulo its 32 bits.
  pub Reachable-IsSound : (s : Scheduler S) → Reachable s → IsSound s
  unfolding start new_scheduler
  Reachable-IsSound _ (starts today scanner config) = (omega arith, refl)
  Reachable-IsSound _ (steps {s} {s'} r step) = step-IsSound s s' step (Reachable-IsSound s r)
