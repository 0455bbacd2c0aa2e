-- ===== src/Storage/Cleanup.antt =====
-- CleanupRedundantScans of internal/storage/db.go. `LAG` over the rows of a container is the row with the
-- latest earlier scan, which the primary key makes unique; times are compared as times.
pub mod Recent
use container_census.Base.{
  ℕ, ◌+◌, ◌-◌, ◌*◌, ◌≤◌, ◌<◌, ◌≡◌, ◌≢◌, ◌↔◌, ◌⊎◌, inl, inr, refl, sym, ap, ◌∙◌, Bool, true, false,
  not, ◌&&◌, ◌||◌, List, [], ◌∷◌, Option, none, some, Text, text_eq, nat_eq, text_beq_iff,
  nat_beq_iff, ◌==◌, if◌then◌else◌, keep, keep-mem, mem-keep, length, Memᴰ, ltb, arith,
  Option-cases,
}
use container_census.Models.{Time, hour}
use container_census.Storage.Containers.{ContainerRow, later_of, is_time}

abbrev pub earlier_of : Time → Option Time → Option Time
earlier_of t none = some t
earlier_of t (some u) = some (if ltb u t then u else t)

module _ {F : Type 0} where
  -- One group of `GROUP BY id, host_id`.
  abbrev pub same_container : ContainerRow F → ContainerRow F → Bool
  same_container r s = r.id == s.id && r.host_id == s.host_id

  -- `scanned_at < datetime('now', '-' || ? || ' days')`.
  abbrev pub is_older : Time → ℕ → ContainerRow F → Bool
  is_older now days row = ltb (row.scanned_at + days * (24 * hour)) now

  -- The rows that `container_groups` counts for the container of a row.
  unfoldable pub old_rows :
      Time → ℕ → List (ContainerRow F) → ContainerRow F → List (ContainerRow F)
  old_rows now days table row =
      keep (λ other. same_container other row && is_older now days other) table

  pub first_scan : List (ContainerRow F) → Option Time
  first_scan [] = none
  first_scan (row ∷ rows) = earlier_of row.scanned_at (first_scan rows)

  pub latest_scan : List (ContainerRow F) → Option Time
  latest_scan [] = none
  latest_scan (row ∷ rows) = later_of row.scanned_at (latest_scan rows)

  -- The later of two rows.
  pub later_row : ContainerRow F → Option (ContainerRow F) → Option (ContainerRow F)
  later_row row none = some row
  later_row row (some other) = some (if ltb row.scanned_at other.scanned_at then other else row)

  -- The row before a row in the window of its container.
  unfoldable pub prev_row : List (ContainerRow F) → ContainerRow F → Option (ContainerRow F)
  unfolding later_row
  prev_row [] row = none
  prev_row (other ∷ table) row =
      let rest = prev_row table row in
      if same_container other row && ltb other.scanned_at row.scanned_at
      then later_row other rest
      else rest

  -- A change of state or image, or a gap of more than two hours, since the row before.
  abbrev pub has_change : Option (ContainerRow F) → ContainerRow F → Bool
  has_change none row = false
  has_change (some prev) row =
      not (row.state == prev.state)
      || not (row.image_id == prev.image_id)
      || ltb (2 * hour) (row.scanned_at - prev.scanned_at)

  -- The rows that are not deleted: those of containers without a group, and `important_scans`.
  pub is_important : Time → ℕ → List (ContainerRow F) → ContainerRow F → Bool
  unfolding old_rows first_scan latest_scan prev_row
  is_important now days table row =
      let old = old_rows now days table row in
      not (ltb 10 (length old))
      || is_time row.scanned_at (first_scan old)
      || is_time row.scanned_at (latest_scan old)
      || has_change (prev_row table row) row

  -- The table after the DELETE, and the number of rows that it took.
  pub cleanup_redundant_scans : Time → ℕ → List (ContainerRow F) → List (ContainerRow F) × ℕ
  unfolding is_important
  cleanup_redundant_scans now days table =
      let kept = keep (is_important now days table) table in (kept, length table - length kept)
