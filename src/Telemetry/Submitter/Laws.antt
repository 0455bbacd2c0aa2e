-- ===== src/Telemetry/Submitter/Laws.antt =====
-- Submit of internal/telemetry/submitter.go over the tables that it reads and writes.
use container_census.Base.{
  ◌<◌, ◌≡◌, ◌⊎◌, inl, inr, refl, sym, subst, false, List, [], ◌∷◌, Option, none, some, Result, Text,
  text_eq, text_beq_iff, ◌==◌, if◌then◌else◌, Memᴰ, arith, lookup, lookup-insert, Option-cases,
  Bool-cases, nat_eq, ==_refl,
}
use container_census.Models.{Time}
use container_census.Telemetry.Types.{TelemetryEndpoint, TelemetryReport}
use container_census.Telemetry.Status.{
  StatusRow, StatusTable, save_telemetry_success, save_telemetry_failure, success_row, failure_row,
}
use container_census.Telemetry.Status.Breaker.{pending_failure}
use container_census.Telemetry.Submitter.{
  Net, Clock, TelemetryTables, submit_to_endpoint, finish_all, finish_endpoint, save_status,
}

-- A success of the row, if there was one, is earlier than `t`.
abbrev pub SucceededBefore : Time → Option StatusRow → Type 0
SucceededBefore t none = Unit
SucceededBefore t (some row) = elim row.last_success [ none ↦ Unit {0} | some u ↦ u < t ]

-- The row says that the endpoint failed at `t`, and not succeeded since.
abbrev pub FailedAt : Time → Option StatusRow → Type 0
FailedAt t o = (row : StatusRow) × (o ≡ some row) × (pending_failure row ≡ some t)

failure_row-FailedAt :
    (t : Time) (url reason : Text) (o : Option StatusRow)
    → SucceededBefore t o
    → FailedAt t (some (failure_row t url reason o))
unfolding pending_failure failure_row
failure_row-FailedAt t url reason none h = (failure_row t url reason none, refl, refl)
failure_row-FailedAt t url reason (some row) h =
    (failure_row t url reason (some row), refl, ground (arith, h))

FailedAt-SucceededBefore : (t : Time) (o : Option StatusRow) → FailedAt t o → SucceededBefore t o
unfolding pending_failure
FailedAt-SucceededBefore t none h = tt
FailedAt-SucceededBefore t (some row) (r, q, p) = ground (arith, q, p)

-- An endpoint that fails leaves a row that says so, and leaves the rows of other names alone.
lookup-failure :
    (t : Time) (name other url reason : Text) (table : StatusTable)
    → lookup name (save_telemetry_failure t other url reason table) ≡ (
        if other == name
        then some (failure_row t url reason (lookup other table))
        else lookup name table)
unfolding save_telemetry_failure
lookup-failure t name other url reason table =
    lookup-insert other name (failure_row t url reason (lookup other table)) table

lookup-success :
    (t : Time) (name other url : Text) (table : StatusTable)
    → lookup name (save_telemetry_success t other url table)
      ≡ (if other == name then some (success_row t url (lookup other table)) else lookup name table)
unfolding save_telemetry_success
lookup-success t name other url table =
    lookup-insert other name (success_row t url (lookup other table)) table

module _ {F : Type 0} (marshal : TelemetryReport F → Result Text) (net : Net)
    (report : TelemetryReport F) (clock : TelemetryEndpoint → Clock) (ep : TelemetryEndpoint) where
  -- The endpoints of the same name in a list are this one.
  abbrev IsNamed : List TelemetryEndpoint → Type 0
  IsNamed endpoints = (f : TelemetryEndpoint) → Memᴰ f endpoints → f.name ≡ ep.name → f ≡ ep

  abbrev row_of : TelemetryTables → Option StatusRow
  row_of tables = lookup ep.name tables.statuses

  own_row :
      {e : Text} (tables : TelemetryTables)
      → submit_to_endpoint net ep (marshal report) ≡ some e
      → SucceededBefore (clock ep).saved_at (row_of tables)
      → FailedAt
          (clock ep).saved_at
          (row_of (finish_endpoint marshal net report (clock ep) ep tables))
  unfolding finish_endpoint save_status
  own_row {e} tables fails before =
      rw
        (
          fails,
          lookup-failure (clock ep).saved_at ep.name ep.name ep.url e tables.statuses,
          ==_refl ep.name,
        )
        (failure_row-FailedAt (clock ep).saved_at ep.url e (row_of tables) before)

  other_row :
      (f : TelemetryEndpoint) (tables : TelemetryTables)
      → (f.name == ep.name) ≡ false
      → row_of (finish_endpoint marshal net report (clock f) f tables) ≡ row_of tables
  unfolding finish_endpoint save_status
  other_row f tables q = elim (Option-cases (submit_to_endpoint net f (marshal report))) [
    | inl n ↦ rw (n, lookup-success (clock f).saved_at ep.name f.name f.url tables.statuses, q) refl
    | inr (e, n) ↦
        rw (n, lookup-failure (clock f).saved_at ep.name f.name f.url e tables.statuses, q) refl
  ]

  -- One more goroutine: the endpoint's own, or that of another name.
  own_or_other :
      (f : TelemetryEndpoint)
      → (f.name ≡ ep.name → f ≡ ep)
      → (f ≡ ep) ⊎ ((f.name == ep.name) ≡ false)
  own_or_other f same = elim (Bool-cases (f.name == ep.name)) [
    | inl q ↦ inl (same ((text_beq_iff f.name ep.name).0 q))
    | inr q ↦ inr q
  ]

  row_after :
      {e : Text} {P : Option StatusRow → Type 0} (f : TelemetryEndpoint) (tables : TelemetryTables)
      → submit_to_endpoint net ep (marshal report) ≡ some e
      → (f.name ≡ ep.name → f ≡ ep)
      → SucceededBefore (clock ep).saved_at (row_of tables)
      → P (row_of tables)
      → ((o : Option StatusRow) → FailedAt (clock ep).saved_at o → P o)
      → P (row_of (finish_endpoint marshal net report (clock f) f tables))
  row_after {P = P} f tables fails same before old failed = elim (own_or_other f same) [
    | inl q ↦
        subst (λ g. P (row_of (finish_endpoint marshal net report (clock g) g tables))) (sym q)
          (failed (row_of (finish_endpoint marshal net report (clock ep) ep tables))
            (own_row tables fails before))
    | inr q ↦ rw (other_row f tables q) old
  ]

  -- A row that says so keeps saying so.
  finish_all-keeps :
      {e : Text}
      → submit_to_endpoint net ep (marshal report) ≡ some e
      → (endpoints : List TelemetryEndpoint) (tables : TelemetryTables) → IsNamed endpoints
      → FailedAt (clock ep).saved_at (row_of tables)
      → FailedAt (clock ep).saved_at (row_of (finish_all marshal net report clock endpoints tables))
  unfolding finish_all
  finish_all-keeps fails [] tables named h = h
  finish_all-keeps fails (f ∷ endpoints) tables named h =
      finish_all-keeps fails endpoints (finish_endpoint marshal net report (clock f) f tables)
        (λ g m. named g (Memᴰ.tail m))
        (row_after {P = FailedAt (clock ep).saved_at} f tables fails (named f (Memᴰ.head refl))
          (FailedAt-SucceededBefore (clock ep).saved_at (row_of tables) h) h (λ o failed. failed))

  pub finish_all-fails :
      {e : Text}
      → submit_to_endpoint net ep (marshal report) ≡ some e
      → (endpoints : List TelemetryEndpoint) (tables : TelemetryTables) → IsNamed endpoints
      → SucceededBefore (clock ep).saved_at (row_of tables)
      → Memᴰ ep endpoints
      → FailedAt (clock ep).saved_at (row_of (finish_all marshal net report clock endpoints tables))
  unfolding finish_all
  finish_all-fails fails [] tables named before m = elim m [ ]
  finish_all-fails fails (f ∷ endpoints) tables named before (Memᴰ.head q) =
      finish_all-keeps fails endpoints (finish_endpoint marshal net report (clock f) f tables)
        (λ g m. named g (Memᴰ.tail m))
        (subst
          (λ g.
            FailedAt (clock ep).saved_at
              (row_of (finish_endpoint marshal net report (clock g) g tables)))
          q (own_row tables fails before))
  finish_all-fails fails (f ∷ endpoints) tables named before (Memᴰ.tail m) =
      finish_all-fails fails endpoints (finish_endpoint marshal net report (clock f) f tables)
        (λ g m'. named g (Memᴰ.tail m'))
        (row_after {P = SucceededBefore (clock ep).saved_at} f tables fails
          (named f (Memᴰ.head refl)) before before (FailedAt-SucceededBefore (clock ep).saved_at))
        m
