-- ===== src/Vulnerability/Scheduler/Laws.antt =====
-- What the calls of the scheduler do to its queue (internal/vulnerability/scheduler.go).
use container_census.Base.{
  ◌-◌, ◌≡◌, refl, subst, ◌∙◌, true, false, List, [], ◌∷◌, ◌++◌, some, Text, ltb, length,
  length-append, take, take-nil, take-room, map, arith, Bool-cases, inl, inr, append-nil,
  append_assoc,
}
use container_census.Base.Int.{pos, pos_part}
use container_census.Models.{Time}
use container_census.Vulnerability.Scheduler.{
  ScanJob, ScanQueueStatus, Scheduler, offer, force_queue_scan, invalidate_cache, rescan_all,
  count_one, rotate, get_queue_status,
}

rotate-append :
    (xs ys items : List ScanJob)
    → rotate (length xs) (length ys) (xs ++ ys) items ≡ (ys ++ xs, items ++ xs)
unfolding rotate
rotate-append [] ys items = ground (arith, append-nil ys, append-nil items)
rotate-append (x ∷ xs) ys items = ground (
  arith,
  length-append xs ys,
  length-append ys (x ∷ []),
  append_assoc xs ys (x ∷ []),
  append_assoc ys (x ∷ []) xs,
  append_assoc items (x ∷ []) xs,
  rotate-append xs (ys ++ (x ∷ [])) (items ++ (x ∷ [])),
)

pub rotate-all : (queue : List ScanJob) → rotate (length queue) 0 queue [] ≡ (queue, queue)
rotate-all queue =
    subst (λ xs. rotate (length queue) 0 xs [] ≡ (queue, queue)) (append-nil queue)
      (rotate-append queue [] [])

abbrev pub job_of : Time → Text × Text → ScanJob
job_of now (image_id, image_name) = record {
  image_id = image_id;
  image_name = image_name;
  priority = pos 0;
  queued_at = now;
}

module _ {S : Type 0} where
  -- Reading the status takes every job out of the open channel and puts it back. It leaves the queue as
  -- it was, with every job in its place, and reports exactly the jobs in the queue and their number.
  pub get_queue_status_lem :
      (s : Scheduler S)
      → s.closed ≡ false
      → (status : ScanQueueStatus) × (get_queue_status s ≡ some (s, status))
        × (status.queue_items ≡ s.queue)
        × (status.queued ≡ length s.queue)
  unfolding get_queue_status
  get_queue_status_lem s o = (
    record {
      queued = length s.queue;
      in_progress = s.in_progress;
      completed_today = s.completed_today;
      failed_today = s.failed_today;
      queue_items = s.queue;
      total_workers = pos_part s.config.worker_pool_size;
      active_workers = s.in_progress;
    },
    rw (o, rotate-all s.queue, get_queue_status) refl,
    refl,
    refl,
  )

  -- RescanAll of an enabled scheduler whose channel is open returns the number of all images, though it
  -- queues only as many of them, the first ones, as the channel has room for, and drops the others.
  pub rescan_all_lem :
      (now : Time) (images : List (Text × Text)) (s : Scheduler S)
      → s.closed ≡ false
      → s.config.enabled ≡ true
      → (s' : Scheduler S) × (rescan_all now images s ≡ some (s', length images))
        × (s'.queue ≡ s.queue ++ take (s.capacity - length s.queue) (map (job_of now) images))
  unfolding rescan_all force_queue_scan offer invalidate_cache count_one
  rescan_all_lem now [] s o on = (
    s,
    refl,
    ground (arith, append-nil s.queue, take-nil {A = ScanJob} (s.capacity - length s.queue)),
  )
  rescan_all_lem now ((image_id, image_name) ∷ images) s o on =
      elim (Bool-cases (ltb (length s.queue) s.capacity)) [
        | inl room ↦
            let s1 = record (invalidate_cache image_id s) {
              queue = s.queue ++ (job_of now (image_id, image_name) ∷ []);
            } in
            let (s', e, q) = rescan_all_lem now images s1 o on in
            (
              s',
              ground (arith, room, e),
              q
                  ∙ take-room s.capacity (job_of now (image_id, image_name)) s.queue
                      (map (job_of now) images) (ground (arith, room)),
            )
        | inr full ↦
            let (s', e, q) = rescan_all_lem now images (invalidate_cache image_id s) o on in
            (s', ground (arith, full, e), ground (arith, full, q))
      ]
