-- ===== src/Collector/Holds.antt =====
-- The tables of cmd/telemetry-collector/main.go as a map from installations to their last reports, where
-- each installation reports within a week of its last report.
pub mod Weekly
use container_census.Base.{
  ℕ, suc, ◌+◌, ◌*◌, ◌≤◌, ◌<◌, ◌≡◌, ◌≢◌, ◌↔◌, ◌⊎◌, inl, inr, refl, sym, ap, ◌∙◌, Bool, true, false,
  not, ◌&&◌, List, [], ◌∷◌, ◌++◌, Option, none, some, Text, text_eq, text_beq_iff, nat_eq,
  nat_beq_iff, ◌==◌, codes, if◌then◌else◌, keep, keep-append, keep-mem, map, append-nil, Memᴰ,
  mem-append_left, append-mem, map-mem, leb, arith, Bool-cases, lookup, insert, lookup-insert,
  keep-and, keep_comm, keep-all, keep-none, keep-map, keep-keep, map-same, ==_refl,
}
use container_census.Models.{Time, hour}
use container_census.Telemetry.Types.{ImageStat, TelemetryReport}
use container_census.Collector.{
  ReportRow, ImageRow, Tables, is_report_of, is_recent, latest_report, existing_report, update_row,
  is_replaced, image_row, update_report, insert_report, log_event, save_over, save_telemetry,
}
use container_census.Collector.Accepts.{stored, fits, finish-fits}

abbrev pub is_image_of : Text → ImageRow → Bool
is_image_of id row = row.installation_id == id

pub ==_false : (a b : Text) → a ≢ b → (a == b) ≡ false
==_false a b h = elim (Bool-cases (a == b)) [
  | inl e ↦ absurd (h ((text_beq_iff a b).0 e))
  | inr e ↦ e
]

pub new_images-own :
    (id : Text) (t : Time) (stats : List ImageStat)
    → keep (is_image_of id) (map (image_row id t) stats) ≡ map (image_row id t) stats
new_images-own id t stats = keep-all (is_image_of id) (map (image_row id t) stats) (λ row m.
    let (stat, _, q) = map-mem (image_row id t) stats m in
    ap (λ (x : ImageRow). is_image_of id x) q ∙ ==_refl id)

pub new_images-other :
    (id j : Text) (t : Time) (stats : List ImageStat)
    → id ≢ j
    → keep (is_image_of j) (map (image_row id t) stats) ≡ []
new_images-other id j t stats h = keep-none (is_image_of j) (map (image_row id t) stats) (λ row m.
    let (stat, _, q) = map-mem (image_row id t) stats m in
    ap (λ (x : ImageRow). is_image_of j x) q ∙ ==_false id j h)

-- The images that an update deletes, and those of others that it leaves.
pub replaced_images-own :
    (id : Text) (since : Time) (stats : List ImageStat)
    → keep (λ row. not (is_replaced id since row)) (map (image_row id since) stats) ≡ []
replaced_images-own id since stats =
    keep-none (λ row. not (is_replaced id since row)) (map (image_row id since) stats)
      (λ row m.
        let (stat, _, q) = map-mem (image_row id since) stats m in
        ap (λ (x : ImageRow). not (is_replaced id since x)) q ∙ ground (arith, ==_refl id))

pub replaced_images-other :
    (id j : Text) (since : Time) (rows : List ImageRow)
    → id ≢ j
    → keep (is_image_of j) (keep (λ row. not (is_replaced id since row)) rows)
      ≡ keep (is_image_of j) rows
replaced_images-other id j since rows h =
    keep-keep (is_image_of j) (λ row. not (is_replaced id since row)) rows
      (λ row q.
        let differ =
          ==_false row.installation_id id
            (λ p. h (sym p ∙ (text_beq_iff row.installation_id j).0 q)) in
        ground (arith, differ))

module _ {F : Type 0} where
  -- The tables hold no report of an installation, or one with its images.
  abbrev pub Holds : Text → Option (TelemetryReport F) → Tables F → Type 0
  Holds id none db =
      (keep (is_report_of id) db.reports ≡ []) × (keep (is_image_of id) db.images ≡ [])
  Holds id (some r) db =
      (map (λ row. row.report) (keep (is_report_of id) db.reports) ≡ r ∷ [])
      × (keep (is_image_of id) db.images ≡ map (image_row id r.timestamp) r.image_stats)

  -- The numbers of the reports are distinct, and below the next one.
  abbrev pub IsNumbered : Tables F → Type 0
  IsNumbered db =
      ((x : ReportRow F) → Memᴰ x db.reports → x.id < db.next_id)
      × ((x y : ReportRow F) → Memᴰ x db.reports → Memᴰ y db.reports → x.id ≡ y.id → x ≡ y)

  pub single :
      (ys : List (ReportRow F)) {r : TelemetryReport F}
      → map (λ row. row.report) ys ≡ r ∷ []
      → (y : ReportRow F) × (ys ≡ y ∷ []) × (y.report ≡ r)
  single [] h = absurd (ground (arith, h))
  single (y ∷ []) h = (y, refl, ground (arith, h))
  single (y ∷ z ∷ ys) h = absurd (ground (arith, h))

  pub existing_report-none :
      (id : Text) (now : Time) (rows : List (ReportRow F))
      → keep (is_report_of id) rows ≡ []
      → existing_report id now rows ≡ none
  unfolding existing_report
  existing_report-none id now rows h =
      ap latest_report
        (keep-and (is_report_of id) (is_recent now) rows ∙ ap (keep (is_recent now)) h)

  pub existing_report-some :
      (id : Text) (now : Time) (rows : List (ReportRow F)) (row : ReportRow F)
      → keep (is_report_of id) rows ≡ row ∷ []
      → is_recent now row ≡ true
      → existing_report id now rows ≡ some row
  unfolding existing_report
  existing_report-some id now rows row h recent =
      let only : keep (is_recent now) (row ∷ []) ≡ row ∷ [] = ground (arith, recent) in
      ap latest_report
        (keep-and (is_report_of id) (is_recent now) rows ∙ ap (keep (is_recent now)) h ∙ only)

module _ {F : Type 0} (e : ReportRow F) (r : TelemetryReport F) (rows : List (ReportRow F))
    (here : Memᴰ e rows)
    (keyed : (x y : ReportRow F) → Memᴰ x rows → Memᴰ y rows → x.id ≡ y.id → x ≡ y)
    (same : e.report.installation_id ≡ r.installation_id) where
  -- An update keeps the installation of each row.
  update_row-of :
      (j : Text) (x : ReportRow F)
      → Memᴰ x rows
      → is_report_of j (update_row e.id r x) ≡ is_report_of j x
  update_row-of j x m = elim (Bool-cases (x.id == e.id)) [
    | inl q ↦
        let p = keyed x e m here ((nat_beq_iff x.id e.id).0 q) in
        rw q (
          ap (λ i. i == j) (sym same)
          ∙ ap (λ (y : ReportRow F). y.report.installation_id == j) (sym p))
    | inr q ↦ rw q refl
  ]

  pub update-own :
      keep (is_report_of r.installation_id) rows ≡ e ∷ []
      → map
          (λ row. row.report)
          (keep (is_report_of r.installation_id) (map (update_row e.id r) rows))
        ≡ r ∷ []
  update-own only =
      ap (map (λ row. row.report)) (
        keep-map (is_report_of r.installation_id) (update_row e.id r) rows
          (update_row-of r.installation_id)
        ∙ ap (map (update_row e.id r)) only)
      ∙ ground (arith, ==_refl e.id)

  pub update-other :
      (j : Text)
      → r.installation_id ≢ j
      → keep (is_report_of j) (map (update_row e.id r) rows) ≡ keep (is_report_of j) rows
  update-other j differ =
      keep-map (is_report_of j) (update_row e.id r) rows (update_row-of j)
      ∙ map-same (update_row e.id r) (keep (is_report_of j) rows) (λ x m.
        let (k, of_j) = keep-mem (is_report_of j) rows m in
        elim (Bool-cases (x.id == e.id)) [
          | inl q ↦
              let p = keyed x e k here ((nat_beq_iff x.id e.id).0 q) in
              absurd (
                differ (
                  sym same
                  ∙ ap (λ (y : ReportRow F). y.report.installation_id) (sym p)
                  ∙ (text_beq_iff x.report.installation_id j).0 of_j))
          | inr q ↦ rw q refl
        ])

module _ {F : Type 0} where
  update_row-id :
      (e : ReportRow F) (r : TelemetryReport F) (x : ReportRow F) → (update_row e.id r x).id ≡ x.id
  update_row-id e r x = ground arith

  pub update_report-IsNumbered :
      (e : ReportRow F) (r : TelemetryReport F) (db : Tables F)
      → IsNumbered db
      → IsNumbered (update_report e r db)
  unfolding update_report
  update_report-IsNumbered e r db (below, keyed) = (
    λ x m.
        let (y, k, q) = map-mem (update_row e.id r) db.reports m in
        omega (arith, below y k, ap (λ (z : ReportRow F). z.id) q, update_row-id e r y),
    λ x y m k same.
        let (x', m', p) = map-mem (update_row e.id r) db.reports m in
        let (y', k', q) = map-mem (update_row e.id r) db.reports k in
        p
        ∙ ap (update_row e.id r) (
            keyed x' y' m' k' (
              omega (
                arith,
                same,
                ap (λ (z : ReportRow F). z.id) p,
                ap (λ (z : ReportRow F). z.id) q,
                update_row-id e r x',
                update_row-id e r y',
              )))
        ∙ sym q,
  )

  pub insert_report-IsNumbered :
      (r : TelemetryReport F) (db : Tables F) → IsNumbered db → IsNumbered (insert_report r db)
  unfolding insert_report
  insert_report-IsNumbered r db (below, keyed) = (
    λ x m. elim (append-mem db.reports (record { id = db.next_id; report = r } ∷ []) m) [
      | inl old ↦ omega (arith, below x old)
      | inr (Memᴰ.head q) ↦ omega (arith, ap (λ (z : ReportRow F). z.id) q)
      | inr (Memᴰ.tail k) ↦ elim k [ ]
    ],
    λ x y m k same. elim (append-mem db.reports (record { id = db.next_id; report = r } ∷ []) m) [
      | inl old ↦ elim (append-mem db.reports (record { id = db.next_id; report = r } ∷ []) k) [
        | inl older ↦ keyed x y old older same
        | inr (Memᴰ.head q) ↦
            absurd (omega (arith, below x old, same, ap (λ (z : ReportRow F). z.id) q))
        | inr (Memᴰ.tail l) ↦ elim l [ ]
      ]
      | inr (Memᴰ.head p) ↦
          elim (append-mem db.reports (record { id = db.next_id; report = r } ∷ []) k) [
            | inl older ↦
                absurd (omega (arith, below y older, same, ap (λ (z : ReportRow F). z.id) p))
            | inr (Memᴰ.head q) ↦ p ∙ sym q
            | inr (Memᴰ.tail l) ↦ elim l [ ]
          ]
      | inr (Memᴰ.tail l) ↦ elim l [ ]
    ],
  )
