-- ===== src/Telemetry/Submitter/Outcome.antt =====
-- What one call of Submit in internal/telemetry/submitter.go leaves: its error, its rows, and the
-- endpoints that the next call tries.
use container_census.Base.{
  ℕ, zero, suc, ◌+◌, ◌≤◌, ◌≡◌, ◌↔◌, inl, inr, refl, true, false, List, [], ◌∷◌, Option, none, some,
  Result, Text, text_eq, is_empty, length, Memᴰ, keep-mem, mem-keep, arith, lookup, Option-cases,
  nat_eq, Permᴰ, mem-perm, perm-sym,
}
use container_census.Models.{Time}
use container_census.Telemetry.Types.{TelemetryEndpoint, TelemetryReport}
use container_census.Telemetry.Status.{StatusRow, get_telemetry_status}
use container_census.Telemetry.Status.Breaker.{is_tripped, circuit_breaker_window}
use container_census.Telemetry.Submitter.{
  Net, Clock, TelemetryTables, submit_to_endpoint, is_available, available_endpoints, submit,
  finish_all, submit_to_all, error_count, summary_error, status_of,
}
use container_census.Telemetry.Submitter.Laws.{SucceededBefore, FailedAt, finish_all-fails}

is_available_iff :
    (now : Time) (tables : TelemetryTables) (ep : TelemetryEndpoint)
    → (is_available now (status_of tables) ep ≡ true)
      ↔ (ep.enabled ≡ true)
        × (is_empty ep.url ≡ false)
        × (is_tripped now (get_telemetry_status ep.name tables.statuses) ≡ false)
unfolding is_available
is_available_iff now tables ep = (ground arith, ground arith)

-- The breaker of a row with a failure that counts.
FailedAt-is_tripped_iff :
    (t later : Time) (o : Option StatusRow)
    → FailedAt t o
    → (is_tripped later o ≡ false) ↔ (t + circuit_breaker_window ≤ later)
unfolding is_tripped
FailedAt-is_tripped_iff t later o (row, q, p) = rw q (ground (arith, p), ground (arith, p))

module _ {F : Type 0} (marshal : TelemetryReport F → Result Text) (net : Net)
    (report : TelemetryReport F) (clock : TelemetryEndpoint → Clock)
    (order : List TelemetryEndpoint → List TelemetryEndpoint)
    (is_perm : (xs : List TelemetryEndpoint) → Permᴰ (order xs) xs) where
  error_count_zero_iff :
      (endpoints : List TelemetryEndpoint)
      → (error_count marshal net report endpoints ≡ 0) ↔ (
          (ep : TelemetryEndpoint)
          → Memᴰ ep endpoints
          → submit_to_endpoint net ep (marshal report) ≡ none)
  unfolding error_count
  error_count_zero_iff [] = (λ h ep m. elim m [ ], λ h. refl)
  error_count_zero_iff (f ∷ endpoints) =
      elim (Option-cases (submit_to_endpoint net f (marshal report))) [
        | inl n ↦
            let (to, from) = error_count_zero_iff endpoints in
            (
              λ h ep m. elim m [
                | Memᴰ.head q ↦ rw q n
                | Memᴰ.tail m' ↦ to (ground (arith, h, n)) ep m'
              ],
              λ h. ground (arith, n, from (λ ep m. h ep (Memᴰ.tail m))),
            )
        | inr (e, n) ↦ (
          λ h. absurd (ground (arith, h, n)),
          λ h. absurd (ground (arith, n, h f (Memᴰ.head refl))),
        )
      ]

  summary_error_iff : (n total : ℕ) → (summary_error n total ≡ none) ↔ (n ≡ 0)
  unfolding summary_error
  summary_error_iff zero total = (λ h. refl, λ h. refl)
  summary_error_iff (suc n) total =
      (λ h. absurd (ground (arith, h)), λ h. absurd (omega (arith, h)))

  submit_to_all_no_error_iff :
      (xs : List TelemetryEndpoint) (tables : TelemetryTables)
      → ((submit_to_all marshal net order report clock xs tables).1 ≡ none) ↔ (
          (ep : TelemetryEndpoint) → Memᴰ ep xs → submit_to_endpoint net ep (marshal report) ≡ none)
  unfolding submit_to_all
  submit_to_all_no_error_iff [] tables = (λ h ep m. elim m [ ], λ h. refl)
  submit_to_all_no_error_iff (x ∷ xs) tables =
      let ys = order (x ∷ xs) in
      let (to, from) = error_count_zero_iff ys in
      let (down, up) = summary_error_iff (error_count marshal net report ys) (length (x ∷ xs)) in
      (
        λ h ep m. to (down h) ep (mem-perm (perm-sym (is_perm (x ∷ xs))) m),
        λ h. up (from (λ ep m. h ep (mem-perm (is_perm (x ∷ xs)) m))),
      )

  -- The tables after the filter, for a list that is not empty.
  submit_to_all_tables :
      (xs : List TelemetryEndpoint) (tables : TelemetryTables) {ep : TelemetryEndpoint}
      → Memᴰ ep xs
      → (submit_to_all marshal net order report clock xs tables).0
        ≡ finish_all marshal net report clock (order xs) tables
  unfolding submit_to_all
  submit_to_all_tables [] tables m = elim m [ ]
  submit_to_all_tables (x ∷ xs) tables m = refl

  -- Submit returns no error exactly if the submission to each endpoint that it tried succeeded.
  pub submit_no_error_iff :
      (now : Time) (endpoints : List TelemetryEndpoint) (tables : TelemetryTables)
      → ((submit marshal net now endpoints order report clock tables).1 ≡ none) ↔ (
          (ep : TelemetryEndpoint)
          → Memᴰ ep (available_endpoints now (status_of tables) endpoints)
          → submit_to_endpoint net ep (marshal report) ≡ none)
  unfolding submit
  submit_no_error_iff now endpoints tables =
      submit_to_all_no_error_iff (available_endpoints now (status_of tables) endpoints) tables

  -- After a failed submission to an endpoint that was tried, a call of Submit tries it again exactly if
  -- its circuit breaker window of five minutes since the failure was stored is over. The names of the
  -- endpoints are distinct, and the last stored success of the endpoint is older.
  pub submit_retries_iff :
      (now later : Time) (endpoints : List TelemetryEndpoint) (tables : TelemetryTables)
      (ep : TelemetryEndpoint) {e : Text}
      → ((f : TelemetryEndpoint) → Memᴰ f endpoints → f.name ≡ ep.name → f ≡ ep)
      → Memᴰ ep (available_endpoints now (status_of tables) endpoints)
      → SucceededBefore (clock ep).saved_at (get_telemetry_status ep.name tables.statuses)
      → submit_to_endpoint net ep (marshal report) ≡ some e
      → Memᴰ ep (
          available_endpoints later
            (status_of (submit marshal net now endpoints order report clock tables).0)
            endpoints)
        ↔ ((clock ep).saved_at + circuit_breaker_window ≤ later)
  unfolding submit get_telemetry_status available_endpoints is_tripped
  submit_retries_iff now later endpoints tables ep {e} named m before fails =
      let available = available_endpoints now (status_of tables) endpoints in
      let after = finish_all marshal net report clock (order available) tables in
      let failed =
        finish_all-fails marshal net report clock ep fails (order available) tables
          (λ f m'. named f (
            (keep-mem (is_available now (status_of tables)) endpoints
              (mem-perm (is_perm available) m')).0))
          before (mem-perm (perm-sym (is_perm available)) m) in
      let (to, from) =
        FailedAt-is_tripped_iff (clock ep).saved_at later (lookup ep.name after.statuses) failed in
      let (known, enabled) = keep-mem (is_available now (status_of tables)) endpoints m in
      let (on, url, closed) = (is_available_iff now tables ep).0 enabled in
      rw (submit_to_all_tables available tables m) (
        λ m'.
            to
              ((is_available_iff later after ep).0
                (keep-mem (is_available later (status_of after)) endpoints m').1).2,
        λ h.
            mem-keep (is_available later (status_of after)) endpoints known
              ((is_available_iff later after ep).1 (on, url, from h)),
      )
