-- ===== src/Vulnerability/Scheduler/Requeue.antt =====
-- A processed job and the next QueueScan of its image (internal/vulnerability/scheduler.go).
use container_census.Base.{
  ◌+◌, ◌<◌, ◌≡◌, refl, sym, subst, ◌∙◌, true, false, List, some, Text, Result, ok, err, arith,
  Bool-cases, inl, inr,
}
use container_census.Base.Int.{ℤ}
use container_census.Models.{Time}
use container_census.Vulnerability.Types.{TrivyResult, VulnerabilityScan, Vulnerability}
use container_census.Vulnerability.Storage.{VulnerabilityStorage}
use container_census.Vulnerability.Cache.{needs_scan}
use container_census.Vulnerability.Scanner.{Scanner, scan_image}
use container_census.Vulnerability.Scanner.Laws.{Writable, scan_image_suppresses}
use container_census.Vulnerability.Scheduler.{
  ScanJob, Scheduler, queue_scan, finish_job, count_result,
}

module _ {S : Type 0} (st : VulnerabilityStorage S) (trivy : Text → Result TrivyResult)
    (to_upper : Text → Text) (db_version : Text) where
  count_result-scanner :
      (s : Scheduler S) (r : Scanner S × Result (VulnerabilityScan × List Vulnerability))
      → ((count_result s r).scanner ≡ r.0) × ((count_result s r).queue ≡ s.queue)
  unfolding count_result
  count_result-scanner s (scanner, err e) = (refl, refl)
  count_result-scanner s (scanner, ok found) = (refl, refl)

  unneeded-queue_scan :
      (later : Time) (image_id image_name : Text) (priority : ℤ) (s : Scheduler S)
      → (needs_scan st later image_id s.scanner.cache).1 ≡ false
      → (s' : Scheduler S) × (queue_scan st later image_id image_name priority s ≡ some s')
        × (s'.queue ≡ s.queue)
  unfolding queue_scan
  unneeded-queue_scan later image_id image_name priority s h = elim (Bool-cases s.config.enabled) [
    | inr off ↦ (s, ground (arith, off), refl)
    | inl on ↦
        let cache = (needs_scan st later image_id s.scanner.cache).0 in
        (record s { scanner = record (s.scanner) { cache = cache } }, ground (arith, on, h), refl)
  ]

  -- Once a job is processed, whether its scan succeeded or failed, a call of QueueScan for its image
  -- queues nothing until the time to live has passed, where scanning is enabled and the database takes
  -- the writes.
  pub finished-not_queued :
      (started now later : Time) (job : ScanJob) (rest : List ScanJob) (image_name : Text)
      (priority : ℤ) (s : Scheduler S)
      → s.scanner.config.enabled ≡ true
      → Writable st trivy to_upper db_version started now job.image_id job.image_name s.scanner
      → later < now + s.scanner.cache.ttl
      → let done = finish_job st trivy to_upper db_version started now job rest s in
        (s' : Scheduler S) × (queue_scan st later job.image_id image_name priority done ≡ some s')
        × (s'.queue ≡ s.queue)
  unfolding finish_job
  finished-not_queued started now later job rest image_name priority s on w h =
      let r =
        scan_image st trivy to_upper db_version started now job.image_id job.image_name s.scanner in
      let (same, kept) = count_result-scanner s r in
      let done = finish_job st trivy to_upper db_version started now job rest s in
      let fresh =
        scan_image_suppresses st trivy to_upper db_version started now job.image_id job.image_name
          s.scanner later on w h in
      let (s', e, q) = unneeded-queue_scan later job.image_id image_name priority done (
        subst (λ (sc : Scanner S). (needs_scan st later job.image_id sc.cache).1 ≡ false) (sym same)
          fresh) in
      (s', e, q ∙ kept)
