-- ===== src/Telemetry/Status.antt =====
-- The table telemetry_status of internal/storage/db.go, as a map from the name of an endpoint, its
-- primary key, to its row. `now` is the clock of the server when the statement runs.
pub mod Breaker
use container_census.Base.{
  ◌==◌, if◌then◌else◌, [], ◌∷◌, List, Option, none, some, Text, text_eq, lookup, insert,
}
use container_census.Models.{Time}

pub record StatusRow : Type 0 where
  pub endpoint_url : Text
  pub last_success : Option Time
  pub last_failure : Option Time
  pub last_failure_reason : Option Text
  pub updated_at : Time

abbrev pub StatusTable : Type 0
StatusTable = List (Text × StatusRow)

-- `INSERT ... ON CONFLICT(endpoint_name) DO UPDATE` in SaveTelemetrySuccess.
pub success_row : Time → Text → Option StatusRow → StatusRow
success_row now url none = record {
  endpoint_url = url;
  last_success = some now;
  last_failure = none;
  last_failure_reason = none;
  updated_at = now;
}
success_row now url (some row) = record row {
  endpoint_url = url;
  last_success = some now;
  updated_at = now;
}

unfoldable pub save_telemetry_success : Time → Text → Text → StatusTable → StatusTable
save_telemetry_success now name url table =
    insert name (success_row now url (lookup name table)) table

-- The same statement in SaveTelemetryFailure.
unfoldable pub failure_row : Time → Text → Text → Option StatusRow → StatusRow
failure_row now url reason none = record {
  endpoint_url = url;
  last_success = none;
  last_failure = some now;
  last_failure_reason = some reason;
  updated_at = now;
}
failure_row now url reason (some row) = record row {
  endpoint_url = url;
  last_failure = some now;
  last_failure_reason = some reason;
  updated_at = now;
}

unfoldable pub save_telemetry_failure : Time → Text → Text → Text → StatusTable → StatusTable
save_telemetry_failure now name url reason table =
    insert name (failure_row now url reason (lookup name table)) table

-- A missing row is `nil`.
unfoldable pub get_telemetry_status : Text → StatusTable → Option StatusRow
get_telemetry_status name table = lookup name table

pub clear_row : Time → StatusRow → StatusRow
clear_row now row = record row { last_failure = none; last_failure_reason = none; updated_at = now }

-- ClearTelemetryFailure: `UPDATE ... WHERE endpoint_name = ?`.
pub clear_telemetry_failure : Time → Text → StatusTable → StatusTable
unfolding clear_row
clear_telemetry_failure now name [] = []
clear_telemetry_failure now name ((key, row) ∷ table) =
    if key == name
    then (key, clear_row now row) ∷ clear_telemetry_failure now name table
    else (key, row) ∷ clear_telemetry_failure now name table
