-- ===== src/Telemetry/Submitter.antt =====
-- internal/telemetry/submitter.go. The goroutines of Submit end in some order, which is an argument; each
-- writes its two rows at its end. What the network answers is a parameter; a failed read of the status
-- is `none`, and so is every read without a database.
pub mod Laws
pub mod Attempts
pub mod Outcome
use container_census.Base.{
  ℕ, zero, suc, ◌+◌, ◌*◌, ◌^◌, Bool, true, false, ◌&&◌, ◌||◌, not, List, [], ◌∷◌, ◌++◌, Option,
  none, some, Result, ok, err, Text, codes, is_empty, decimal, length, keep, ltb, leb,
  if◌then◌else◌, ◌==◌, nat_eq,
}
use container_census.Models.{Time, second, minute, since_lt}
use container_census.Notifications.Channels.{Reply, status, broken}
use container_census.Telemetry.Types.{
  TelemetryEndpoint, TelemetryConfig, TelemetrySubmission, TelemetryReport,
}
use container_census.Telemetry.Status.{
  StatusRow, StatusTable, save_telemetry_success, save_telemetry_failure, get_telemetry_status,
}
use container_census.Telemetry.Status.Breaker.{is_tripped}

abbrev pub max_retries : ℕ
max_retries = 2

-- The wait before an attempt after the first one: `(1 << attempt) * 5 * time.Second`.
abbrev pub backoff : ℕ → ℕ
backoff attempt = 2 ^ attempt * (5 * second)

-- What happens to the requests that one goroutine makes for a body: an error of NewRequest, the reply to
-- each attempt, and the error of the context if it ends within a wait.
pub record Wire : Type 0 where
  pub request_error : Option Text
  pub reply : ℕ → Reply
  pub interrupted : ℕ → Option Text

unfoldable pub reply_error : Reply → Option Text
reply_error (broken e) = some (codes "request failed: " ++ e)
reply_error (status code) =
    if ltb code 200 || leb 300 code
    then some (codes "server returned status " ++ decimal code)
    else none

unfoldable pub send_request : Wire → ℕ → Option Text
unfolding reply_error
send_request wire attempt = elim wire.request_error [
  | some e ↦ some (codes "failed to create request: " ++ e)
  | none ↦ reply_error (wire.reply attempt)
]

-- The end of the context before an attempt.
unfoldable pub wait_error : Wire → ℕ → Option Text
wait_error wire zero = none
wait_error wire (suc n) = wire.interrupted (backoff (suc n))

-- The attempts that are left, with the error of the last one.
unfoldable pub retry_loop : Wire → ℕ → ℕ → Text → Option Text
unfolding wait_error
retry_loop wire zero attempt last_err =
    some (codes "all " ++ (decimal max_retries ++ (codes " attempts failed: " ++ last_err)))
retry_loop wire (suc left) attempt last_err = elim (wait_error wire attempt) [
  | some e ↦ some e
  | none ↦ elim (send_request wire attempt) [
    | none ↦ none
    | some e ↦ retry_loop wire left (suc attempt) e
  ]
]

-- The network's answers to an endpoint for a body.
abbrev pub Net : Type 0
Net = TelemetryEndpoint → Text → Wire

unfoldable pub submit_to_endpoint : Net → TelemetryEndpoint → Result Text → Option Text
unfolding retry_loop
submit_to_endpoint net endpoint (err e) = some (codes "failed to marshal report: " ++ e)
submit_to_endpoint net endpoint (ok data_) = retry_loop (net endpoint data_) max_retries 0 []

-- The filter of Submit. `get_status` is GetTelemetryStatus.
unfoldable pub is_available : Time → (Text → Option (Option StatusRow)) → TelemetryEndpoint → Bool
unfolding is_tripped
is_available now get_status ep =
    if not ep.enabled || is_empty ep.url
    then false
    else elim (get_status ep.name) [ none ↦ true | some row ↦ not (is_tripped now row) ]

unfoldable pub available_endpoints :
    Time → (Text → Option (Option StatusRow)) → List TelemetryEndpoint → List TelemetryEndpoint
unfolding is_available
available_endpoints now get_status endpoints = keep (is_available now get_status) endpoints

-- The clock readings of a goroutine: around the submission, and in the statement on the status.
pub record Clock : Type 0 where
  pub started_at : Time
  pub completed_at : Time
  pub saved_at : Time

-- The two tables that the goroutines write.
pub record TelemetryTables : Type 0 where
  pub statuses : StatusTable
  pub submissions : List TelemetrySubmission

-- The reads of a database that answers.
abbrev pub status_of : TelemetryTables → Text → Option (Option StatusRow)
status_of tables name = some (get_telemetry_status name tables.statuses)

-- `err.Error()`, or the empty text of a submission without an error.
abbrev pub error_text : Option Text → Text
error_text none = []
error_text (some e) = e

abbrev pub is_nil : Option Text → Bool
is_nil none = true
is_nil (some e) = false

-- `fmt.Errorf("failed to submit to %d/%d endpoints", ...)` if there are errors.
pub summary_error : ℕ → ℕ → Option Text
summary_error zero total = none
summary_error (suc n) total = some (
    codes "failed to submit to "
    ++ (decimal (suc n) ++ (codes "/" ++ (decimal total ++ codes " endpoints"))))

pub submission :
    {F : Type 0} → TelemetryReport F → Clock → TelemetryEndpoint → Option Text → TelemetrySubmission
submission report clock ep error = record {
  endpoint_name = ep.name;
  endpoint_url = ep.url;
  started_at = clock.started_at;
  completed_at = clock.completed_at;
  success = is_nil error;
  error = error_text error;
  hosts_count = report.host_count;
  containers_count = report.total_containers;
  images_count = length report.image_stats;
}

pub save_status : Clock → TelemetryEndpoint → Option Text → StatusTable → StatusTable
save_status clock ep none statuses = save_telemetry_success clock.saved_at ep.name ep.url statuses
save_status clock ep (some e) statuses =
    save_telemetry_failure clock.saved_at ep.name ep.url e statuses

module _ {F : Type 0} (marshal : TelemetryReport F → Result Text) (net : Net) where
  -- What one goroutine writes at its end.
  pub finish_endpoint :
      TelemetryReport F → Clock → TelemetryEndpoint → TelemetryTables → TelemetryTables
  unfolding submission save_status submit_to_endpoint
  finish_endpoint report clock ep tables =
      let error = submit_to_endpoint net ep (marshal report) in
      record {
        statuses = save_status clock ep error tables.statuses;
        submissions = tables.submissions ++ (submission report clock ep error ∷ []);
      }

  -- All goroutines, in the order in which they end.
  pub finish_all :
      TelemetryReport F
      → (TelemetryEndpoint → Clock)
      → List TelemetryEndpoint
      → TelemetryTables
      → TelemetryTables
  unfolding finish_endpoint
  finish_all report clock [] tables = tables
  finish_all report clock (ep ∷ endpoints) tables =
      finish_all report clock endpoints (finish_endpoint report (clock ep) ep tables)

  -- The number of errors on the channel.
  pub error_count : TelemetryReport F → List TelemetryEndpoint → ℕ
  unfolding submit_to_endpoint
  error_count report [] = 0
  error_count report (ep ∷ endpoints) = elim (submit_to_endpoint net ep (marshal report)) [
    | none ↦ error_count report endpoints
    | some e ↦ suc (error_count report endpoints)
  ]

  -- Submit after its filter; `order` gives the order in which the goroutines end.
  pub submit_to_all :
      (List TelemetryEndpoint → List TelemetryEndpoint)
      → TelemetryReport F
      → (TelemetryEndpoint → Clock)
      → List TelemetryEndpoint
      → TelemetryTables
      → TelemetryTables × Option Text
  unfolding finish_all error_count summary_error
  submit_to_all order report clock [] tables = (tables, none)
  submit_to_all order report clock (ep ∷ endpoints) tables =
      let finished = order (ep ∷ endpoints) in
      (
        finish_all report clock finished tables,
        summary_error (error_count report finished) (length (ep ∷ endpoints)),
      )

  pub submit :
      Time
      → List TelemetryEndpoint
      → (List TelemetryEndpoint → List TelemetryEndpoint)
      → TelemetryReport F
      → (TelemetryEndpoint → Clock)
      → TelemetryTables
      → TelemetryTables × Option Text
  unfolding available_endpoints submit_to_all
  submit now endpoints order report clock tables =
      submit_to_all order report clock (available_endpoints now (status_of tables) endpoints) tables
