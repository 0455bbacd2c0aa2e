-- ===== src/Collector.antt =====
-- The server that receives telemetry reports: cmd/telemetry-collector/main.go, its PostgreSQL tables, and
-- the handler that stores a report. A column of JSON keeps its value; `created_at` is left out. A statement that a
-- column's type refuses aborts its transaction, as PostgreSQL does: `Postgres` says what its types take and
-- keep. The counts are not negative, as those that Collector sends.
pub mod Holds
pub mod Accepts
pub mod Access
mod Tests
use container_census.Base.{
  ℕ, suc, ◌+◌, ◌*◌, ◌^◌, Bool, true, false, not, ◌&&◌, List, [], ◌∷◌, ◌++◌, Option, none, some, map,
  Text, text_eq, nat_eq, codes, is_empty, ◌==◌, if◌then◌else◌, keep, ltb, leb, all, occurs,
}
use container_census.Models.{Time, hour}
use container_census.Telemetry.Types.{ImageStat, TelemetryReport}

-- A row of telemetry_reports: its columns are the fields of the report.
pub record ReportRow (F : Type 0) : Type 0 where
  pub id : ℕ
  pub report : TelemetryReport F

pub record ImageRow : Type 0 where
  pub installation_id : Text
  pub timestamp : Time
  pub image : Text
  pub count : ℕ
  pub size_bytes : ℕ

pub record SubmissionEvent : Type 0 where
  pub installation_id : Text
  pub event_type : Text
  pub timestamp : Time
  pub containers : ℕ
  pub hosts : ℕ

pub record Tables (F : Type 0) : Type 0 where
  pub reports : List (ReportRow F)
  pub images : List ImageRow
  pub events : List SubmissionEvent
  pub next_id : ℕ

-- A transaction; a failed statement aborts it.
pub data Transaction (F : Type 0) : Type 0 where
  running : Tables F → Transaction F
  aborted : Transaction F

-- The length of a text in characters, the numbers in the range of REAL, and what REAL and TIMESTAMPTZ keep of
-- a float64 and of a time.
pub record Postgres (F : Type 0) : Type 0 where
  pub char_length : Text → ℕ
  pub real_fits : F → Bool
  pub to_real : F → F
  pub to_timestamp : Time → Time

-- No text column and no JSONB takes the character NUL.
abbrev pub is_text : Text → Bool
is_text t = not (occurs 0 t)

-- The range of INTEGER.
abbrev pub is_integer : ℕ → Bool
is_integer n = ltb n (2 ^ 31)

module _ {F : Type 0} (pg : Postgres F) where
  -- The types of the columns of image_stats.
  pub image_fits : ImageStat → Bool
  image_fits stat =
      leb (pg.char_length stat.image) 500 && is_text stat.image && is_integer stat.count

  -- The types of the columns of telemetry_reports, the two of JSONB included.
  pub report_fits : TelemetryReport F → Bool
  report_fits r =
      leb (pg.char_length r.installation_id) 255
      && is_text r.installation_id
      && leb (pg.char_length r.version) 50
      && is_text r.version
      && leb (pg.char_length r.timezone) 100
      && is_text r.timezone
      && all (λ (stat : ImageStat). is_text stat.image) r.image_stats
      && all (λ version. is_text version.0) r.agent_versions
      && pg.real_fits r.avg_cpu_percent
      && pg.real_fits r.avg_restarts
      && pg.real_fits r.avg_connections_per_container
      && is_integer r.host_count
      && is_integer r.agent_count
      && is_integer r.total_containers
      && is_integer r.scan_interval
      && is_integer r.containers_running
      && is_integer r.containers_stopped
      && is_integer r.containers_paused
      && is_integer r.containers_other
      && is_integer r.high_restart_containers
      && is_integer r.unique_images
      && is_integer r.compose_project_count
      && is_integer r.containers_in_compose
      && is_integer r.network_count
      && is_integer r.custom_network_count
      && is_integer r.shared_volume_count
      && is_integer r.containers_with_deps
      && is_integer r.total_dependencies

  -- What the columns keep of a report.
  pub as_stored : TelemetryReport F → TelemetryReport F
  as_stored r = record r {
    timestamp = pg.to_timestamp r.timestamp;
    avg_cpu_percent = pg.to_real r.avg_cpu_percent;
    avg_restarts = pg.to_real r.avg_restarts;
    avg_connections_per_container = pg.to_real r.avg_connections_per_container;
  }

abbrev pub is_replaced : Text → Time → ImageRow → Bool
is_replaced id since row = row.installation_id == id && leb since row.timestamp

abbrev pub image_row : Text → Time → ImageStat → ImageRow
image_row id timestamp stat = record {
  installation_id = id;
  timestamp = timestamp;
  image = stat.image;
  count = stat.count;
  size_bytes = stat.size_bytes;
}

module _ {F : Type 0} where
  abbrev pub is_report_of : Text → ReportRow F → Bool
  is_report_of id row = row.report.installation_id == id

  -- `timestamp >= NOW() - INTERVAL '7 days'`.
  abbrev pub is_recent : Time → ReportRow F → Bool
  is_recent now row = leb now (row.report.timestamp + 7 * (24 * hour))

  abbrev pub later_report : ReportRow F → Option (ReportRow F) → ReportRow F
  later_report row none = row
  later_report row (some other) =
      if ltb row.report.timestamp other.report.timestamp then other else row

  -- `ORDER BY timestamp DESC LIMIT 1`.
  abbrev pub latest_report : List (ReportRow F) → Option (ReportRow F)
  latest_report [] = none
  latest_report (row ∷ rows) = some (later_report row (latest_report rows))

  -- The query for a report of the last seven days.
  pub existing_report : Text → Time → List (ReportRow F) → Option (ReportRow F)
  existing_report id now rows =
      latest_report (keep (λ row. is_report_of id row && is_recent now row) rows)

  -- `UPDATE ... WHERE id = $1`.
  abbrev pub update_row : ℕ → TelemetryReport F → ReportRow F → ReportRow F
  update_row id r row = if row.id == id then record row { report = r } else row

  -- The statements on a report that exists, and on one that does not.
  pub update_report : ReportRow F → TelemetryReport F → Tables F → Tables F
  update_report existing r db = record db {
    reports = map (update_row existing.id r) db.reports;
    images =
        keep (λ row. not (is_replaced r.installation_id existing.report.timestamp row)) db.images;
  }

  pub insert_report : TelemetryReport F → Tables F → Tables F
  insert_report r db = record db {
    reports = db.reports ++ (record { id = db.next_id; report = r } ∷ []);
    next_id = suc db.next_id;
  }

  abbrev pub insert_image : Text → Time → ImageStat → Tables F → Tables F
  insert_image id timestamp stat db = record db {
    images = db.images ++ (image_row id timestamp stat ∷ []);
  }

  -- A statement of a transaction: refused, if its values do not fit or an earlier one was refused.
  abbrev pub exec : Bool → (Tables F → Tables F) → Transaction F → Transaction F
  exec fits change aborted = aborted
  exec fits change (running db) = if fits then running (change db) else aborted

  module _ (pg : Postgres F) where
    -- The loop over the image statistics; a failure is logged.
    pub insert_images : Text → Time → List ImageStat → Transaction F → Transaction F
    unfolding image_fits
    insert_images id timestamp [] tx = tx
    insert_images id timestamp (stat ∷ stats) tx =
        insert_images id timestamp stats
          (exec (image_fits pg stat) (insert_image id timestamp stat) tx)

    abbrev pub log_event : Text → TelemetryReport F → Tables F → Tables F
    log_event event_type r db = record db {
      events =
          db.events
          ++ (record {
            installation_id = r.installation_id;
            event_type = event_type;
            timestamp = r.timestamp;
            containers = r.total_containers;
            hosts = r.host_count;
          }
              ∷ []);
    }

    -- The commit of an aborted transaction is an error, and rolls it back.
    abbrev pub commit : Tables F → Transaction F → Tables F × Option Text
    commit before (running db) = (db, none)
    commit before aborted = (before, some (codes "failed to commit transaction"))

    -- What follows the statement on telemetry_reports: its failure returns, and the deferred rollback
    -- undoes it.
    pub finish :
        Text → Text → TelemetryReport F → (Tables F → Tables F) → Tables F → Tables F × Option Text
    unfolding insert_images report_fits as_stored
    finish event_type failure r change db =
        let kept = as_stored pg r in
        if report_fits pg r
        then commit db (
            exec true (log_event event_type kept)
              (insert_images r.installation_id kept.timestamp r.image_stats (running (change db))))
        else (db, some failure)

    abbrev pub save_over :
        Option (ReportRow F) → TelemetryReport F → Tables F → Tables F × Option Text
    save_over none r db =
        finish (codes "new") (codes "failed to insert telemetry") r (insert_report (as_stored pg r))
          db
    save_over (some existing) r db =
        finish (codes "update") (codes "failed to update telemetry") r
          (update_report existing (as_stored pg r)) db

    pub save_telemetry : Time → TelemetryReport F → Tables F → Tables F × Option Text
    unfolding existing_report finish insert_report update_report
    save_telemetry now r db = save_over (existing_report r.installation_id now db.reports) r db

    abbrev pub ingest_status : Tables F × Option Text → Tables F × ℕ
    ingest_status (db, none) = (db, 201)
    ingest_status (db, some e) = (db, 500)

    -- The body is a report if it decodes.
    pub handle_ingest : Time → Option (TelemetryReport F) → Tables F → Tables F × ℕ
    unfolding save_telemetry
    handle_ingest now none db = (db, 400)
    handle_ingest now (some r) db =
        if is_empty r.installation_id then (db, 400) else ingest_status (save_telemetry now r db)
