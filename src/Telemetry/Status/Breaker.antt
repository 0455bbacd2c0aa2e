-- ===== src/Telemetry/Status/Breaker.antt =====
-- The circuit breaker of Submit in internal/telemetry/submitter.go, against the history of the
-- statements that write telemetry_status: what its test forgets of the rows, and what it keeps.
use container_census.Base.{
  ℕ, ◌*◌, ◌≤◌, ◌<◌, ◌≡◌, ◌∙◌, refl, ap, Bool, false, List, [], ◌∷◌, Option, none, some, Text,
  text_eq, text_beq_iff, ◌==◌, if◌then◌else◌, ltb, lookup, insert, lookup-insert, arith, Bool-cases,
  inl, inr,
}
use container_census.Models.{Time, minute, since_lt}
use container_census.Telemetry.Status.{
  StatusRow, StatusTable, save_telemetry_success, save_telemetry_failure, clear_telemetry_failure,
  get_telemetry_status, success_row, failure_row, clear_row,
}

-- `circuitBreakerWindow`.
abbrev pub circuit_breaker_window : ℕ
circuit_breaker_window = 5 * minute

-- `status.LastFailure`, unless a success at or after it makes it stale.
unfoldable pub pending_failure : StatusRow → Option Time
pending_failure row = elim row.last_failure [
  | none ↦ none
  | some failure ↦ elim row.last_success [
    | none ↦ some failure
    | some success ↦ if ltb success failure then some failure else none
  ]
]

-- Whether Submit skips an endpoint that has this status.
unfoldable pub is_tripped : Time → Option StatusRow → Bool
unfolding pending_failure
is_tripped now none = false
is_tripped now (some row) = elim (pending_failure row) [
  | none ↦ false
  | some failure ↦ since_lt now failure circuit_breaker_window
]

-- One statement on the table, at a time.
pub data StatusEvent : Type 0 where
  succeeded : Time → Text → Text → StatusEvent
  failed : Time → Text → Text → Text → StatusEvent
  cleared : Time → Text → StatusEvent

abbrev pub event_time : StatusEvent → Time
event_time (StatusEvent.succeeded t name url) = t
event_time (StatusEvent.failed t name url reason) = t
event_time (StatusEvent.cleared t name) = t

pub run_event : StatusEvent → StatusTable → StatusTable
unfolding save_telemetry_success save_telemetry_failure clear_telemetry_failure
run_event (StatusEvent.succeeded t name url) table = save_telemetry_success t name url table
run_event (StatusEvent.failed t name url reason) table =
    save_telemetry_failure t name url reason table
run_event (StatusEvent.cleared t name) table = clear_telemetry_failure t name table

-- The table after a history, whose newest event comes first.
abbrev pub replay : List StatusEvent → StatusTable
replay [] = []
replay (e ∷ history) = run_event e (replay history)

-- The clock never shows the same time at two statements.
abbrev pub IsOrdered : List StatusEvent → Type 0
IsOrdered [] = Unit
IsOrdered (e ∷ []) = Unit
IsOrdered (e ∷ f ∷ history) = (event_time f < event_time e) × IsOrdered (f ∷ history)

-- The abstract breaker of an endpoint: only its latest event counts, and only a failure trips it.
abbrev pub latest_failure : Text → List StatusEvent → Option Time
latest_failure name [] = none
latest_failure name (StatusEvent.succeeded t other url ∷ history) =
    if other == name then none else latest_failure name history
latest_failure name (StatusEvent.failed t other url reason ∷ history) =
    if other == name then some t else latest_failure name history
latest_failure name (StatusEvent.cleared t other ∷ history) =
    if other == name then none else latest_failure name history

abbrev pub is_open : Time → Text → List StatusEvent → Bool
is_open now name history = elim (latest_failure name history) [
  | none ↦ false
  | some t ↦ since_lt now t circuit_breaker_window
]

-- The failure that counts of an endpoint that may have no row.
abbrev pending : Option StatusRow → Option Time
unfolding pending_failure
pending none = none
pending (some row) = pending_failure row

abbrev OptionUpTo : Time → Option Time → Type 0
OptionUpTo t none = Unit
OptionUpTo t (some u) = u ≤ t

-- No time of a row is later than `t`.
abbrev RowUpTo : Time → Option StatusRow → Type 0
RowUpTo t none = Unit
RowUpTo t (some row) = OptionUpTo t row.last_success × OptionUpTo t row.last_failure

OptionUpTo-le : {t u : Time} → t ≤ u → (o : Option Time) → OptionUpTo t o → OptionUpTo u o
OptionUpTo-le h none b = tt
OptionUpTo-le h (some v) b = omega (arith, h, b)

RowUpTo-le : {t u : Time} → t ≤ u → (o : Option StatusRow) → RowUpTo t o → RowUpTo u o
RowUpTo-le h none b = tt
RowUpTo-le h (some row) b =
    (OptionUpTo-le h row.last_success b.0, OptionUpTo-le h row.last_failure b.1)

abbrev cleared_row : Time → Option StatusRow → Option StatusRow
cleared_row t none = none
cleared_row t (some row) = some (clear_row t row)

-- What one event does to the row of an endpoint.
abbrev row_after : Text → StatusEvent → Option StatusRow → Option StatusRow
row_after name (StatusEvent.succeeded t other url) o =
    if other == name then some (success_row t url o) else o
row_after name (StatusEvent.failed t other url reason) o =
    if other == name then some (failure_row t url reason o) else o
row_after name (StatusEvent.cleared t other) o = if other == name then cleared_row t o else o

-- A write of a row that is computed from the old one, read back.
lookup-write :
    (name other : Text) (f : Option StatusRow → StatusRow) (table : StatusTable)
    → lookup name (insert other (f (lookup other table)) table)
      ≡ (if other == name then some (f (lookup name table)) else lookup name table)
lookup-write name other f table = elim (Bool-cases (other == name)) [
  | inl same ↦
      rw (lookup-insert other name (f (lookup other table)) table, same)
        (ap (λ key. some (f (lookup key table))) ((text_beq_iff other name).0 same))
  | inr differs ↦ rw (lookup-insert other name (f (lookup other table)) table, differs) refl
]

lookup-cleared :
    (t : Time) (name other : Text) (table : StatusTable)
    → lookup name (clear_telemetry_failure t other table)
      ≡ (if other == name then cleared_row t (lookup name table) else lookup name table)
unfolding clear_telemetry_failure lookup
lookup-cleared t name other [] = ground arith
lookup-cleared t name other ((key, row) ∷ table) = ground (
  arith,
  text_beq_iff other name,
  text_beq_iff key name,
  text_beq_iff key other,
  lookup-cleared t name other table,
)

lookup-run_event :
    (name : Text) (e : StatusEvent) (table : StatusTable)
    → lookup name (run_event e table) ≡ row_after name e (lookup name table)
unfolding run_event save_telemetry_success save_telemetry_failure clear_telemetry_failure
lookup-run_event name (StatusEvent.succeeded t other url) table =
    lookup-write name other (success_row t url) table
lookup-run_event name (StatusEvent.failed t other url reason) table =
    lookup-write name other (failure_row t url reason) table
lookup-run_event name (StatusEvent.cleared t other) table = lookup-cleared t name other table

RowUpTo-after :
    (name : Text) (e : StatusEvent) (o : Option StatusRow)
    → RowUpTo (event_time e) o
    → RowUpTo (event_time e) (row_after name e o)
unfolding success_row failure_row clear_row
RowUpTo-after name (StatusEvent.succeeded t other url) none b = ground arith
RowUpTo-after name (StatusEvent.succeeded t other url) (some row) b = ground arith
RowUpTo-after name (StatusEvent.failed t other url reason) none b = ground arith
RowUpTo-after name (StatusEvent.failed t other url reason) (some row) b = ground arith
RowUpTo-after name (StatusEvent.cleared t other) none b = ground arith
RowUpTo-after name (StatusEvent.cleared t other) (some row) b = ground arith

-- The latest time of a history bounds the times of the rows.
replay-RowUpTo :
    (name : Text) (e : StatusEvent) (history : List StatusEvent)
    → IsOrdered (e ∷ history)
    → RowUpTo (event_time e) (lookup name (replay (e ∷ history)))
unfolding lookup
replay-RowUpTo name e [] h =
    rw (lookup-run_event name e []) (RowUpTo-after name e (lookup name []) tt)
replay-RowUpTo name e (f ∷ history) h = rw (lookup-run_event name e (replay (f ∷ history))) (
    RowUpTo-after name e (lookup name (replay (f ∷ history))) (
      RowUpTo-le (omega (arith, h.0)) (lookup name (replay (f ∷ history)))
        (replay-RowUpTo name f history h.1)))

pending-after :
    (name : Text) (e : StatusEvent) (history : List StatusEvent) {t : Time} (o : Option StatusRow)
    → t < event_time e
    → RowUpTo t o
    → pending o ≡ latest_failure name history
    → pending (row_after name e o) ≡ latest_failure name (e ∷ history)
unfolding pending pending_failure success_row failure_row clear_row
pending-after name (StatusEvent.succeeded u other url) history none l b h = ground (arith, l, b, h)
pending-after name (StatusEvent.succeeded u other url) history (some row) l b h =
    ground (arith, l, b, h)
pending-after name (StatusEvent.failed u other url reason) history none l b h =
    ground (arith, l, b, h)
pending-after name (StatusEvent.failed u other url reason) history (some row) l b h =
    ground (arith, l, b, h)
pending-after name (StatusEvent.cleared u other) history none l b h = ground (arith, l, b, h)
pending-after name (StatusEvent.cleared u other) history (some row) l b h = ground (arith, l, b, h)

pending-first :
    (name : Text) (e : StatusEvent) → pending (row_after name e none) ≡ latest_failure name (e ∷ [])
unfolding pending pending_failure success_row failure_row clear_row
pending-first name (StatusEvent.succeeded u other url) = ground arith
pending-first name (StatusEvent.failed u other url reason) = ground arith
pending-first name (StatusEvent.cleared u other) = ground arith

pending-replay :
    (name : Text) (history : List StatusEvent)
    → IsOrdered history
    → pending (lookup name (replay history)) ≡ latest_failure name history
unfolding lookup pending
pending-replay name [] h = refl
pending-replay name (e ∷ []) h = rw (lookup-run_event name e []) (pending-first name e)
pending-replay name (e ∷ f ∷ history) h = rw (lookup-run_event name e (replay (f ∷ history))) (
    pending-after name e (f ∷ history) (lookup name (replay (f ∷ history))) h.0
      (replay-RowUpTo name f history h.1) (pending-replay name (f ∷ history) h.1))

is_tripped-pending :
    (now : Time) (o : Option StatusRow)
    → is_tripped now o
      ≡ elim (pending o) [ none ↦ false | some t ↦ since_lt now t circuit_breaker_window ]
unfolding is_tripped pending
is_tripped-pending now none = refl
is_tripped-pending now (some row) = refl

-- The table of statuses implements the abstract breaker: whatever successes, failures and resets were
-- recorded, each at a later time than the one before, Submit skips an endpoint exactly when the latest
-- event of that endpoint is a failure that is less than five minutes old.
pub is_tripped-replay :
    (now : Time) (name : Text) (history : List StatusEvent)
    → IsOrdered history
    → is_tripped now (get_telemetry_status name (replay history)) ≡ is_open now name history
unfolding is_tripped get_telemetry_status
is_tripped-replay now name history h =
    is_tripped-pending now (lookup name (replay history))
    ∙ ap
        (λ o. elim o as (λ _. Bool) [
          | none ↦ false
          | some t ↦ since_lt now t circuit_breaker_window
        ])
        (pending-replay name history h)
