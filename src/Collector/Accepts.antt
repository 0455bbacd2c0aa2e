-- ===== src/Collector/Accepts.antt =====
-- Which reports handleIngest of cmd/telemetry-collector/main.go stores.
use container_census.Base.{
  ◌≡◌, ◌≢◌, inl, inr, refl, ap, ◌∙◌, Bool, true, ◌&&◌, List, [], ◌∷◌, ◌++◌, Option, none, some,
  Text, if◌then◌else◌, all, map, append-nil, append_assoc, arith, Bool-cases,
}
use container_census.Models.{Time}
use container_census.Telemetry.Types.{ImageStat, TelemetryReport}
use container_census.Collector.{
  ImageRow, Tables, Postgres, as_stored, running, aborted, image_fits, report_fits, insert_image,
  image_row, insert_images, log_event, finish,
}

module _ {F : Type 0} (pg : Postgres F) where
  insert_images-aborted :
      (id : Text) (t : Time) (stats : List ImageStat)
      → insert_images pg id t stats aborted ≡ aborted
  unfolding insert_images
  insert_images-aborted id t [] = refl
  insert_images-aborted id t (stat ∷ stats) = insert_images-aborted id t stats

  abbrev pub append_images : List ImageRow → Tables F → Tables F
  append_images rows db = record db { images = db.images ++ rows }

  -- The loop stores all image statistics, or aborts if one of them does not fit.
  pub insert_images-running :
      (id : Text) (t : Time) (stats : List ImageStat) (db : Tables F)
      → insert_images pg id t stats (running db) ≡ (
          if all (image_fits pg) stats
          then running (append_images (map (image_row id t) stats) db)
          else aborted)
  unfolding insert_images
  insert_images-running id t [] db = ap running (ground (arith, append-nil db.images))
  insert_images-running id t (stat ∷ stats) db = elim (Bool-cases (image_fits pg stat)) [
    | inl e ↦ rw e (
        insert_images-running id t stats (insert_image id t stat db)
        ∙ ground
            (arith, append_assoc db.images (image_row id t stat ∷ []) (map (image_row id t) stats)))
    | inr e ↦ rw e (insert_images-aborted id t stats)
  ]

  -- The database that a stored report leaves.
  abbrev pub stored : Text → TelemetryReport F → (Tables F → Tables F) → Tables F → Tables F
  stored event_type r change db =
      log_event pg event_type r
        (append_images (map (image_row r.installation_id r.timestamp) r.image_stats) (change db))

  abbrev pub fits : TelemetryReport F → Bool
  fits r = report_fits pg r && all (image_fits pg) r.image_stats

  pub finish-fits :
      (event_type failure : Text) (r : TelemetryReport F) (change : Tables F → Tables F)
      (db : Tables F)
      → fits r ≡ true
      → finish pg event_type failure r change db
        ≡ (stored event_type (as_stored pg r) change db, none)
  unfolding finish as_stored
  finish-fits event_type failure r change db h = ground (
    arith,
    h,
    insert_images-running r.installation_id (pg.to_timestamp r.timestamp) r.image_stats (change db),
  )

  -- What is stored.
  abbrev pub IsStorable : Option (TelemetryReport F) → Type 0
  IsStorable body =
      (r : TelemetryReport F) × (body ≡ some r)
      × (r.installation_id ≢ [])
      × (report_fits pg r ≡ true)
      × (all (image_fits pg) r.image_stats ≡ true)
