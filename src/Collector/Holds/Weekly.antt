-- ===== src/Collector/Holds/Weekly.antt =====
-- Reports of installations that report at least weekly: what saveTelemetry of
-- cmd/telemetry-collector/main.go makes of the map from installations to reports.
use container_census.Base.{
  ◌+◌, ◌*◌, ◌≤◌, ◌≡◌, ◌≢◌, refl, sym, ap, subst, ◌∙◌, true, not, List, [], ◌∷◌, ◌++◌, Option, none,
  some, Text, text_eq, text_beq_iff, ◌==◌, codes, keep, keep-append, map, append-nil, Memᴰ, arith,
  inl, inr, Bool-cases, lookup, insert, lookup-insert, keep_comm, keep-mem, ==_refl,
}
use container_census.Models.{Time, hour}
use container_census.Telemetry.Types.{TelemetryReport}
use container_census.Collector.{
  ReportRow, ImageRow, Tables, Postgres, as_stored, is_report_of, is_recent, is_replaced, image_row,
  update_report, insert_report, save_telemetry,
}
use container_census.Collector.Accepts.{stored, fits, finish-fits}
use container_census.Collector.Holds.{
  ==_false, Holds, IsNumbered, is_image_of, single, new_images-own, new_images-other,
  replaced_images-own, replaced_images-other, existing_report-none, existing_report-some,
  update-own, update-other, update_report-IsNumbered, insert_report-IsNumbered,
}

module _ {F : Type 0} (pg : Postgres F) (event_type : Text) (r : TelemetryReport F)
    (change : Tables F → Tables F) (db : Tables F) where
  stored-own :
      map (λ row. row.report) (keep (is_report_of r.installation_id) (change db).reports) ≡ r ∷ []
      → keep (is_image_of r.installation_id) (change db).images ≡ []
      → Holds r.installation_id (some r) (stored pg event_type r change db)
  stored-own reports images =
      let new = map (image_row r.installation_id r.timestamp) r.image_stats in
      (
        reports,
        keep-append (is_image_of r.installation_id) (change db).images new
            ∙ rw images (new_images-own r.installation_id r.timestamp r.image_stats),
      )

  stored-other :
      (j : Text) (o : Option (TelemetryReport F))
      → r.installation_id ≢ j
      → keep (is_report_of j) (change db).reports ≡ keep (is_report_of j) db.reports
      → keep (is_image_of j) (change db).images ≡ keep (is_image_of j) db.images
      → Holds j o db
      → Holds j o (stored pg event_type r change db)
  stored-other j o differ reports images h =
      let new = map (image_row r.installation_id r.timestamp) r.image_stats in
      let q : keep (is_image_of j) ((change db).images ++ new) ≡ keep (is_image_of j) db.images =
        keep-append (is_image_of j) (change db).images new
        ∙ rw (images, new_images-other r.installation_id j r.timestamp r.image_stats differ)
            (append-nil (keep (is_image_of j) db.images)) in
      transport o h reports q
    where
      transport :
          (o : Option (TelemetryReport F))
          → Holds j o db
          → keep (is_report_of j) (change db).reports ≡ keep (is_report_of j) db.reports
          → keep (is_image_of j) (stored pg event_type r change db).images
            ≡ keep (is_image_of j) db.images
          → Holds j o (stored pg event_type r change db)
      transport none (a, b) p q = (p ∙ a, q ∙ b)
      transport (some old) (a, b) p q = (ap (map (λ row. row.report)) p ∙ a, q ∙ b)

module _ {F : Type 0} where
  -- The last report of an installation, if there is one, is at most a week old.
  abbrev pub IsWeekly : Time → Option (TelemetryReport F) → Type 0
  IsWeekly now none = Unit
  IsWeekly now (some old) = now ≤ old.timestamp + 7 * (24 * hour)

  -- The tables implement a map from installations to reports.
  abbrev pub Implements : List (Text × TelemetryReport F) → Tables F → Type 0
  Implements m db = IsNumbered db × ((id : Text) → Holds id (lookup id m) db)

  -- What storing a report does to the installations.
  abbrev pub Replaces : TelemetryReport F → Tables F → Tables F → Type 0
  Replaces r before after =
      IsNumbered after
      × Holds r.installation_id (some r) after
      × ((j : Text) (o : Option (TelemetryReport F))
          → r.installation_id ≢ j
          → Holds j o before
          → Holds j o after)

module _ {F : Type 0} (pg : Postgres F) where
  -- The last report of each installation, as the columns keep it.
  abbrev pub last_reports :
      List (Time × TelemetryReport F)
      → List (Text × TelemetryReport F)
      → List (Text × TelemetryReport F)
  last_reports [] m = m
  last_reports ((now, r) ∷ submissions) m =
      last_reports submissions (insert r.installation_id (as_stored pg r) m)

  insert-Replaces :
      (r : TelemetryReport F) (db : Tables F)
      → IsNumbered db
      → Holds r.installation_id none db
      → Replaces r db (stored pg (codes "new") r (insert_report r) db)
  unfolding insert_report
  insert-Replaces r db numbered (no_reports, no_images) =
      let row : ReportRow F = record { id = db.next_id; report = r } in
      let added = λ (j : Text). keep-append (is_report_of j) db.reports (row ∷ []) in
      (
        insert_report-IsNumbered r db numbered,
        stored-own pg (codes "new") r (insert_report r) db
            (ap (map (λ row. row.report)) (added r.installation_id)
              ∙ rw no_reports (ground (arith, ==_refl r.installation_id)))
            no_images,
        λ j o differ h.
            stored-other pg (codes "new") r (insert_report r) db j o differ
              (added j
                ∙ rw (==_false r.installation_id j differ)
                    (append-nil (keep (is_report_of j) db.reports)))
              refl h,
      )

  update-Replaces :
      (e : ReportRow F) (r : TelemetryReport F) (db : Tables F)
      → IsNumbered db
      → keep (is_report_of r.installation_id) db.reports ≡ e ∷ []
      → keep (is_image_of r.installation_id) db.images
        ≡ map (image_row r.installation_id e.report.timestamp) e.report.image_stats
      → Replaces r db (stored pg (codes "update") r (update_report e r) db)
  unfolding update_report
  update-Replaces e r db numbered only images =
      let (here, own) =
        keep-mem (is_report_of r.installation_id) db.reports
          (subst (Memᴰ e) (sym only) (Memᴰ.head refl)) in
      let same = (text_beq_iff e.report.installation_id r.installation_id).0 own in
      let gone = λ (row : ImageRow). not (is_replaced r.installation_id e.report.timestamp row) in
      (
        update_report-IsNumbered e r db numbered,
        stored-own pg (codes "update") r (update_report e r) db
            (update-own e r db.reports here numbered.1 same only)
            (keep_comm (is_image_of r.installation_id) gone db.images
              ∙ ap (keep gone) images
              ∙ replaced_images-own r.installation_id e.report.timestamp e.report.image_stats),
        λ j o differ h.
            stored-other pg (codes "update") r (update_report e r) db j o differ
              (update-other e r db.reports here numbered.1 same j differ)
              (replaced_images-other r.installation_id j e.report.timestamp db.images differ) h,
      )

  save_telemetry-Replaces :
      (now : Time) (o : Option (TelemetryReport F)) (r : TelemetryReport F) (db : Tables F)
      → IsNumbered db
      → Holds r.installation_id o db
      → IsWeekly now o
      → fits pg r ≡ true
      → Replaces (as_stored pg r) db (save_telemetry pg now r db).0
  unfolding save_telemetry as_stored
  save_telemetry-Replaces now none r db numbered h weekly ok =
      let q = existing_report-none r.installation_id now db.reports h.0 in
      let p =
        finish-fits pg (codes "new") (codes "failed to insert telemetry") r
          (insert_report (as_stored pg r)) db ok in
      rw (q, p) (insert-Replaces (as_stored pg r) db numbered h)
  save_telemetry-Replaces now (some old) r db numbered (reports, images) weekly ok =
      let (e, only, is_old) = single (keep (is_report_of r.installation_id) db.reports) reports in
      let recent : is_recent now e ≡ true =
        ground (arith, weekly, ap (λ (x : TelemetryReport F). x.timestamp) is_old) in
      let q = existing_report-some r.installation_id now db.reports e only recent in
      let p =
        finish-fits pg (codes "update") (codes "failed to update telemetry") r
          (update_report e (as_stored pg r)) db ok in
      rw (q, p) (update-Replaces e (as_stored pg r) db numbered only (rw is_old images))

  -- The submissions that the server receives, each with the clock of the server.
  abbrev pub ingest_all : List (Time × TelemetryReport F) → Tables F → Tables F
  ingest_all [] db = db
  ingest_all ((now, r) ∷ submissions) db = ingest_all submissions (save_telemetry pg now r db).0

  -- Each report fits the columns, and comes within a week of the last one of its installation.
  abbrev pub AllWeekly : List (Time × TelemetryReport F) → List (Text × TelemetryReport F) → Type 0
  AllWeekly [] m = Unit
  AllWeekly ((now, r) ∷ submissions) m =
      IsWeekly now (lookup r.installation_id m)
      × (fits pg r ≡ true)
      × AllWeekly submissions (insert r.installation_id (as_stored pg r) m)

  save_telemetry-Implements :
      (now : Time) (r : TelemetryReport F) (m : List (Text × TelemetryReport F)) (db : Tables F)
      → Implements m db
      → IsWeekly now (lookup r.installation_id m)
      → fits pg r ≡ true
      → Implements (insert r.installation_id (as_stored pg r) m) (save_telemetry pg now r db).0
  unfolding as_stored
  save_telemetry-Implements now r m db (numbered, holds) weekly ok =
      let (numbered', own, others) =
        save_telemetry-Replaces now (lookup r.installation_id m) r db numbered
          (holds r.installation_id) weekly ok in
      (
        numbered',
        λ id. elim (Bool-cases (r.installation_id == id)) [
          | inl e ↦
              let same = (text_beq_iff r.installation_id id).0 e in
              subst (λ o. Holds id o (save_telemetry pg now r db).0)
                (sym (rw e at (lookup-insert r.installation_id id (as_stored pg r) m)))
                (subst (λ j. Holds j (some (as_stored pg r)) (save_telemetry pg now r db).0) same
                  own)
          | inr e ↦
              subst (λ o. Holds id o (save_telemetry pg now r db).0)
                (sym (rw e at (lookup-insert r.installation_id id (as_stored pg r) m)))
                (others id (lookup id m)
                  (λ same. ground (arith, e, (text_beq_iff r.installation_id id).1 same))
                  (holds id))
        ],
      )

  -- Where every report fits its columns and comes within a week of the last one of its installation, the
  -- tables implement a map: after any number of reports of any installations, they hold exactly the last
  -- report of each installation that has reported, as the types of the columns keep it (a float64 as a REAL,
  -- its time as a TIMESTAMPTZ), with exactly its images, and nothing of the others.
  pub ingest_all-Implements :
      (submissions : List (Time × TelemetryReport F)) (m : List (Text × TelemetryReport F))
      (db : Tables F)
      → Implements m db
      → AllWeekly submissions m
      → Implements (last_reports submissions m) (ingest_all submissions db)
  ingest_all-Implements [] m db h weekly = h
  ingest_all-Implements ((now, r) ∷ submissions) m db h (weekly, ok, rest) =
      ingest_all-Implements submissions (insert r.installation_id (as_stored pg r) m)
        (save_telemetry pg now r db).0 (save_telemetry-Implements now r m db h weekly ok) rest
