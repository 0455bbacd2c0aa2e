-- ===== src/Storage/Cleanup/Recent.antt =====
-- What CleanupRedundantScans of internal/storage/db.go does with rows that are not old.
use container_census.Base.{
  ℕ, ◌+◌, ◌*◌, ◌≤◌, ◌<◌, ◌≡◌, ◌≢◌, ◌↔◌, ◌⊎◌, inl, inr, refl, true, false, ◌&&◌, List, [], ◌∷◌,
  Option, none, some, text_eq, nat_eq, text_beq_iff, ◌==◌, keep-mem, mem-keep, length, Memᴰ, arith,
  Option-cases, Bool-cases,
}
use container_census.Models.{Time, hour}
use container_census.Storage.Containers.{ContainerRow, is_time}
use container_census.Storage.Cleanup.{
  same_container, is_older, old_rows, first_scan, latest_scan, prev_row, has_change, is_important,
  cleanup_redundant_scans,
}

-- A recent row is not the first or the last of the old ones.
abbrev Older : Time → Option Time → Type 0
Older t none = Unit
Older t (some u) = u < t

Older-is_time : (t : Time) (o : Option Time) → Older t o → is_time t o ≡ false
Older-is_time t none h = refl
Older-is_time t (some u) h = ground (arith, h)

module _ {F : Type 0} where
  first_scan-Older :
      (t : Time) (rows : List (ContainerRow F))
      → ((row : ContainerRow F) → Memᴰ row rows → row.scanned_at < t)
      → Older t (first_scan rows)
  unfolding first_scan
  first_scan-Older t [] h = tt
  first_scan-Older t (row ∷ rows) h =
      let rest = first_scan-Older t rows (λ r m. h r (Memᴰ.tail m)) in
      elim (Option-cases (first_scan rows)) [
        | inl e ↦ ground (arith, e, rest, h row (Memᴰ.head refl))
        | inr (u, e) ↦ ground (arith, e, rest, h row (Memᴰ.head refl))
      ]

  latest_scan-Older :
      (t : Time) (rows : List (ContainerRow F))
      → ((row : ContainerRow F) → Memᴰ row rows → row.scanned_at < t)
      → Older t (latest_scan rows)
  unfolding latest_scan
  latest_scan-Older t [] h = tt
  latest_scan-Older t (row ∷ rows) h =
      let rest = latest_scan-Older t rows (λ r m. h r (Memᴰ.tail m)) in
      elim (Option-cases (latest_scan rows)) [
        | inl e ↦ ground (arith, e, rest, h row (Memᴰ.head refl))
        | inr (u, e) ↦ ground (arith, e, rest, h row (Memᴰ.head refl))
      ]

  has_change_iff :
      (prev row : ContainerRow F)
      → (has_change (some prev) row ≡ true)
        ↔ (row.state ≢ prev.state)
          ⊎ (row.image_id ≢ prev.image_id)
          ⊎ (prev.scanned_at + 2 * hour < row.scanned_at)
  has_change_iff prev row =
      let state = text_beq_iff row.state prev.state in
      let image = text_beq_iff row.image_id prev.image_id in
      (
        λ h. elim (Bool-cases (row.state == prev.state)) [
          | inr differs ↦ inl (λ q. absurd (ground (arith, differs, state.1 q)))
          | inl same ↦ elim (Bool-cases (row.image_id == prev.image_id)) [
            | inr new ↦ inr (inl (λ q. absurd (ground (arith, new, image.1 q))))
            | inl old ↦ inr (inr (ground (arith, h, same, old)))
          ]
        ],
        λ h. elim (Bool-cases (has_change (some prev) row)) [
          | inl passes ↦ passes
          | inr fails ↦ absurd (elim h [
            | inl differs ↦ differs (state.0 (ground (arith, fails)))
            | inr (inl new) ↦ new (image.0 (ground (arith, fails)))
            | inr (inr gap) ↦ ground (arith, fails, gap)
          ])
        ],
      )

  -- For a recent row of a container that is cleaned up, only the comparison with the row before counts.
  is_important_recent :
      (now : Time) (days : ℕ) (table : List (ContainerRow F)) (row : ContainerRow F)
      → now ≤ row.scanned_at + days * (24 * hour)
      → 10 < length (old_rows now days table row)
      → is_important now days table row ≡ has_change (prev_row table row) row
  unfolding is_important old_rows
  is_important_recent now days table row recent many =
      let old = old_rows now days table row in
      let older : (r : ContainerRow F) → Memᴰ r old → r.scanned_at < row.scanned_at = λ r m.
        let (_, q) =
          keep-mem (λ other. same_container other row && is_older now days other) table m in
        ground (arith, q, recent) in
      ground (
        arith,
        many,
        Older-is_time row.scanned_at (first_scan old) (first_scan-Older row.scanned_at old older),
        Older-is_time row.scanned_at (latest_scan old) (latest_scan-Older row.scanned_at old older),
      )

  -- Of a container with more than ten rows that are older than the limit, the cleanup keeps a row that is
  -- not that old exactly if it differs from the row before in state or image or comes more than two hours
  -- after it: the newest scan of a container that has not changed is deleted.
  pub recent_mem-cleanup_redundant_scans_iff :
      (now : Time) (days : ℕ) (table : List (ContainerRow F)) (row prev : ContainerRow F)
      → Memᴰ row table
      → now ≤ row.scanned_at + days * (24 * hour)
      → 10 < length (old_rows now days table row)
      → prev_row table row ≡ some prev
      → Memᴰ row (cleanup_redundant_scans now days table).0
        ↔ (row.state ≢ prev.state)
          ⊎ (row.image_id ≢ prev.image_id)
          ⊎ (prev.scanned_at + 2 * hour < row.scanned_at)
  unfolding cleanup_redundant_scans
  recent_mem-cleanup_redundant_scans_iff now days table row prev m recent many before =
      let (to, from) = has_change_iff prev row in
      let important = is_important_recent now days table row recent many in
      (
        λ k.
            to (
              ground
                (arith, important, before, (keep-mem (is_important now days table) table k).1)),
        λ h.
            mem-keep (is_important now days table) table m
              (ground (arith, important, before, from h)),
      )
